-- ===== src/NamedParam/Stable.antt =====
-- `parse` on its own converted text.
use mathlib.Core.List.{append_assoc, append-nil}
use fbpp.Prelude.{
  ℕ, ◌≡◌, refl, sym, ap, ◌∙◌, ◌⊎◌, inl, inr, false, true, ◌||◌, List, [], ◌∷◌, ◌++◌, map, ◌==◌,
  arith,
}
use fbpp.Prelude.Ascii.{Bytes, isalpha, isalnum}
use fbpp.NamedParam.{Scan, initial, parse, loop, add_param, is_ident_start, is_ident, next_ch}
use fbpp.NamedParam.Segments.{
  Segment, literal, line_comment, block_comment, named, plain, print_one, print, Fits, WellFormed,
  meaning, meaning_all,
}
use fbpp.NamedParam.Segments.Printed.{parse-print, loop-print}

abbrev pub positional : Segment → Segment
positional (named m name) = plain b'?'
positional g = g

-- The first character is the same, or it was the marker of a name and is `?` now.
next_ch-positional :
    (gs : List Segment)
    → WellFormed gs
    → (next_ch (print (map positional gs)) ≡ next_ch (print gs))
      ⊎ (((next_ch (print gs) == b':' || next_ch (print gs) == b'@') ≡ true)
          × (next_ch (print (map positional gs)) ≡ b'?'))
next_ch-positional [] w = inl refl
next_ch-positional (literal q body ∷ gs) w = inl refl
next_ch-positional (line_comment body e ∷ gs) w = inl refl
next_ch-positional (block_comment body ∷ gs) w = inl refl
next_ch-positional (named m name ∷ gs) w = inr (w.0.0, refl)
next_ch-positional (plain c ∷ gs) w = inl refl

Fits-positional :
    (g : Segment) (gs : List Segment)
    → WellFormed gs
    → Fits g (print gs)
    → Fits (positional g) (print (map positional gs))
unfolding is_ident_start is_ident isalpha isalnum
Fits-positional (literal q body) gs w f = ground (arith, next_ch-positional gs w)
Fits-positional (line_comment body e) gs w f = f
Fits-positional (block_comment body) gs w f = f
Fits-positional (named m name) gs w f = (refl, refl, refl, refl)
Fits-positional (plain c) gs w f = ground (arith, next_ch-positional gs w)

WellFormed-positional : (gs : List Segment) → WellFormed gs → WellFormed (map positional gs)
WellFormed-positional [] w = tt
WellFormed-positional (g ∷ gs) w = (Fits-positional g gs w.1 w.0, WellFormed-positional gs w.1)

meaning-converted :
    (g : Segment) (s : Scan) (i : ℕ)
    → (meaning s i g).converted_sql ≡ s.converted_sql ++ print_one (positional g)
unfolding add_param
meaning-converted (named m name) s i = refl
meaning-converted _ s i = refl

meaning_all-converted :
    (gs : List Segment) (s : Scan) (i : ℕ)
    → (meaning_all s i gs).converted_sql ≡ s.converted_sql ++ print (map positional gs)
meaning_all-converted [] s i = rw append-nil
meaning_all-converted (g ∷ gs) s i =
    rw (meaning_all-converted gs, meaning-converted g s i) (rw append_assoc)

meaning-count :
    (g : Segment) (s t : Scan) (i j : ℕ)
    → s.param_position ≡ t.param_position
    → (meaning s i g).param_position ≡ (meaning t j (positional g)).param_position
unfolding add_param
meaning-count (named m name) s t i j h = rw h
meaning-count (plain c) s t i j h = rw h
meaning-count _ s t i j h = h

meaning_all-count :
    (gs : List Segment) (s t : Scan) (i j : ℕ)
    → s.param_position ≡ t.param_position
    → (meaning_all s i gs).param_position ≡ (meaning_all t j (map positional gs)).param_position
meaning_all-count [] s t i j h = h
meaning_all-count (g ∷ gs) s t i j h = meaning_all-count gs _ _ _ _ (meaning-count g s t i j h)

meaning-has_named :
    (g : Segment) (s : Scan) (i : ℕ)
    → (meaning s i (positional g)).has_named_params ≡ s.has_named_params
meaning-has_named (named m name) s i = refl
meaning-has_named _ s i = refl

meaning_all-has_named :
    (gs : List Segment) (s : Scan) (i : ℕ)
    → (meaning_all s i (map positional gs)).has_named_params ≡ s.has_named_params
meaning_all-has_named [] s i = refl
meaning_all-has_named (g ∷ gs) s i =
    meaning_all-has_named gs (meaning s i (positional g)) _ ∙ meaning-has_named g s i

converted-print :
    (gs : List Segment)
    → WellFormed gs
    → (parse (print gs)).converted_sql ≡ print (map positional gs)
converted-print gs w = rw (parse-print gs w) (meaning_all-converted gs initial 0)

-- The number of positions that the scan of a text counts.
unfoldable pub position_count : Bytes → ℕ
position_count sql = (loop initial 0 0 sql).param_position

abbrev count : Scan → ℕ
count s = s.param_position

-- For every well-formed list of segments, the converted text of what it prints has no named
-- parameter and as many positions as the printed text.
pub parse-converted :
    (gs : List Segment)
    → WellFormed gs
    → ((parse (parse (print gs)).converted_sql).has_named_params ≡ false)
      × (position_count (parse (print gs)).converted_sql ≡ position_count (print gs))
unfolding position_count
parse-converted gs w = rw (converted-print gs w) (
  rw (parse-print _ (WellFormed-positional gs w)) (meaning_all-has_named gs initial 0),
  ap count (loop-print _ initial 0 (WellFormed-positional gs w))
      ∙ sym (meaning_all-count gs initial initial 0 0 refl)
      ∙ sym (ap count (loop-print gs initial 0 w)),
)
