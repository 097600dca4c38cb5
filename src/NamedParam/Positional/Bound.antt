-- ===== src/NamedParam/Positional/Bound.antt =====
-- What each position of the array is bound to.
use fbpp.Prelude.{
  ℕ, ◌<◌, ◌^◌, ◌≡◌, refl, ◌∙◌, inl, inr, Bool, true, false, not, ◌&&◌, ◌||◌, List, [], ◌∷◌, Option,
  none, some, ltb, ◌==◌, if◌then◌else◌, length, get_elem?, set, replicate, arith, Bool-cases,
  get_elem?-lt, get_elem?-replicate, tabulate, eq-tabulate, ap, length-set, length-replicate,
  get_elem?-set_self, get_elem?-set_ne, ==_iff,
}
use fbpp.Prelude.Ascii.{Bytes}
use fbpp.Prelude.Decimal.{all_digits, decimal_from}
use fbpp.Prelude.Dict.{Dict, find}
use fbpp.NamedParam.{to_lower}
use fbpp.NamedParam.Positional.{
  object, Error, index_out_of_range, stoull_out_of_range, unknown_name, ok, err, assign_all,
  assign_index, assign_found, assign_pairs, stoull, nonempty, convert_to_positional,
}

abbrev pub mem : ℕ → List ℕ → Bool
mem p [] = false
mem p (q ∷ qs) = q == p || mem p qs

-- Does the key stand for this position: by name if it is one, else by the number it writes?
abbrev pub binds_found : Option (List ℕ) → Bytes → ℕ → Bool
binds_found (some ps) key pos = mem pos ps
binds_found none key pos = decimal_from 0 key == pos

abbrev pub binds : Dict (List ℕ) → Bytes → ℕ → Bool
binds names key pos = binds_found (find (to_lower key) names) key pos

-- The keys that the conversion takes: a name, or digits that write an index in range.
abbrev pub accepts_found : Option (List ℕ) → ℕ → Bytes → Bool
accepts_found (some ps) n key = true
accepts_found none n key =
    (nonempty key && all_digits key)
    && (ltb (decimal_from 0 key) (2 ^ 64) && ltb (decimal_from 0 key) n)

abbrev pub accepts : Dict (List ℕ) → ℕ → Bytes → Bool
accepts names n key = accepts_found (find (to_lower key) names) n key

-- The value of the last pair that stands for the position, or `v` if none does.
unfoldable pub last_bound {ℓ} : {V : Type ℓ} → Dict (List ℕ) → ℕ → V → Dict V → V
last_bound names pos v [] = v
last_bound names pos v ((key, w) ∷ pairs) =
    last_bound names pos (if binds names key pos then w else v) pairs

get_elem?-set {ℓ} :
    {V : Type ℓ} (xs : List V) (i pos : ℕ) (v : V)
    → i < length xs
    → get_elem? (set xs i v) pos ≡ (if i == pos then some v else get_elem? xs pos)
get_elem?-set xs i pos v h = elim (Bool-cases (i == pos)) [
  | inl e ↦ rw (e, ← (==_iff i pos).0 e) (get_elem?-set_self xs i v h)
  | inr e ↦ rw e (get_elem?-set_ne xs i pos v (λ z. ground arith))
]

module _ {ℓ} {V : Type ℓ} (n : ℕ) where
  length-assign_all : (v : V) (ps : List ℕ) (r : List V) → length (assign_all n v ps r) ≡ length r
  unfolding assign_all
  length-assign_all v [] r = refl
  length-assign_all v (p ∷ ps) r =
      ground (arith, length-assign_all v ps r, length-assign_all v ps (set r p v), length-set r p v)

  get_elem?-assign_all :
      (v : V) (ps : List ℕ) (r : List V) (pos : ℕ)
      → length r ≡ n
      → pos < n
      → get_elem? (assign_all n v ps r) pos ≡ (if mem pos ps then some v else get_elem? r pos)
  unfolding assign_all
  get_elem?-assign_all v [] r pos h k = refl
  get_elem?-assign_all v (p ∷ ps) r pos h k = elim (Bool-cases (ltb p n)) [
    | inl e ↦ rw e (
        get_elem?-assign_all v ps (set r p v) pos (length-set r p v ∙ h) k
        ∙ rw (get_elem?-set r p pos v (ground arith)) (ground arith))
    | inr e ↦ rw e (get_elem?-assign_all v ps r pos h k ∙ ground arith)
  ]

-- The fault that the conversion reports of a key.
abbrev pub fault : Bytes → Error
fault key =
    if not (nonempty key && all_digits key)
    then unknown_name key
    else if ltb (decimal_from 0 key) (2 ^ 64)
    then index_out_of_range key
    else stoull_out_of_range

module _ {ℓ} {V : Type ℓ} (names : Dict (List ℕ)) (n : ℕ) where
  write : Option (List ℕ) → Bytes → V → List V → List V
  write (some ps) key v r = assign_all n v ps r
  write none key v r = set r (decimal_from 0 key) v

  assign_found-write :
      (o : Option (List ℕ)) (key : Bytes) (v : V) (r : List V)
      → assign_found names n o r key v
        ≡ (if accepts_found o n key then ok (write o key v r) else err (fault key))
  unfolding assign_found assign_index stoull write
  assign_found-write (some ps) key v r = refl
  assign_found-write none key v r = ground arith

  length-write :
      (o : Option (List ℕ)) (key : Bytes) (v : V) (r : List V) → length (write o key v r) ≡ length r
  unfolding write
  length-write (some ps) key v r = length-assign_all n v ps r
  length-write none key v r = length-set r _ v

  get_elem?-write :
      (o : Option (List ℕ)) (key : Bytes) (v : V) (r : List V) (pos : ℕ)
      → length r ≡ n
      → accepts_found o n key ≡ true
      → pos < n
      → get_elem? (write o key v r) pos
        ≡ (if binds_found o key pos then some v else get_elem? r pos)
  unfolding write
  get_elem?-write (some ps) key v r pos h a k = get_elem?-assign_all n v ps r pos h k
  get_elem?-write none key v r pos h a k = get_elem?-set r (decimal_from 0 key) pos v (ground arith)

  -- The first key that the conversion does not take.
  unfoldable pub first_fault : Dict V → Option Bytes
  first_fault [] = none
  first_fault ((key, v) ∷ pairs) =
      let rest = first_fault pairs in if accepts names n key then rest else some key

  -- `s` comes from `r` by the pairs.
  abbrev Binds : List V → Dict V → List V → Type ℓ
  Binds r pairs s =
      (length s ≡ n)
      × ((pos : ℕ) (c : V)
          → get_elem? r pos ≡ some c
          → get_elem? s pos ≡ some (last_bound names pos c pairs))

  assign_pairs-ok :
      (pairs : Dict V) (r : List V)
      → length r ≡ n
      → first_fault pairs ≡ none
      → (s : List V) × (assign_pairs names n r pairs ≡ ok s) × Binds r pairs s
  unfolding assign_pairs first_fault last_bound
  assign_pairs-ok [] r h f = (r, refl, (h, λ pos c e. e))
  assign_pairs-ok ((key, v) ∷ pairs) r h f =
      let o = find (to_lower key) names in
      let a : accepts names n key ≡ true = ground arith in
      let (s, e, (l, b)) =
        assign_pairs-ok pairs (write o key v r) (length-write o key v r ∙ h) (ground arith) in
      (
        s,
        rw (assign_found-write, a) e,
        (
          l,
          λ pos c x. b pos (if binds names key pos then v else c) (
              get_elem?-write o key v r pos h a (rw h at (get_elem?-lt r pos x))
              ∙ rw x (ground arith)),
        ),
      )

  assign_pairs-err :
      (pairs : Dict V) (r : List V) (key : Bytes)
      → first_fault pairs ≡ some key
      → assign_pairs names n r pairs ≡ err (fault key)
  unfolding assign_pairs first_fault
  assign_pairs-err [] r key f = absurd (cc)
  assign_pairs-err ((k, v) ∷ pairs) r key f = elim (Bool-cases (accepts names n k)) [
    | inl a ↦ rw (assign_found-write, a) (assign_pairs-err pairs _ key (ground arith))
    | inr a ↦ rw (assign_found-write, a) (ground arith)
  ]

  -- On an object with no faulty key the conversion gives the array with one element for each
  -- parameter: the value of the last pair whose key stands for that position, by name in any case
  -- or by number, and null if there is no such pair.
  pub convert_to_positional-ok :
      (null : V) (pairs : Dict V)
      → first_fault pairs ≡ none
      → convert_to_positional names n null (object pairs)
        ≡ ok (tabulate (λ pos. last_bound names pos null pairs) 0 n)
  unfolding convert_to_positional
  convert_to_positional-ok null pairs f =
      let (s, e, (l, b)) = assign_pairs-ok pairs (replicate n null) (length-replicate n null) f in
      e
      ∙ ap ok (
          eq-tabulate s (λ pos. last_bound names pos null pairs) 0 n l
            (λ pos h.
              b pos null (get_elem?-replicate n pos null h)
              ∙ ap (λ m. some (last_bound names m null pairs)) (omega arith)))

  -- On an object with a faulty key the conversion reports the first one: a key that is no name and
  -- not all digits as an unknown name, one whose number does not fit 64 bits by the exception of
  -- `stoull`, and any other as an index out of range.
  pub convert_to_positional-err :
      (null : V) (pairs : Dict V) (key : Bytes)
      → first_fault pairs ≡ some key
      → convert_to_positional names n null (object pairs) ≡ err (fault key)
  unfolding convert_to_positional
  convert_to_positional-err null pairs = assign_pairs-err pairs (replicate n null)
