-- ===== src/StatementCache/Key/Spelling.antt =====
-- Texts that have the same key.
use fbpp.Prelude.{
  ℕ, ◌≡◌, refl, sym, ap, ◌∙◌, true, false, not, ◌||◌, [], ◌∷◌, ◌++◌, map, ◌==◌, if◌then◌else◌, All,
  arith, Bool-cases, inl, inr, if_elim,
}
use fbpp.Prelude.Ascii.{Bytes, isspace, toupper}
use fbpp.NamedParam.{next_ch}
use fbpp.StatementCache.Key.{
  Normalizer, normalize_plain, normalize_comment, normalize_rest, normalize_step, normalize_loop,
  initial, is_quote, normalize, generate_key,
}

-- Neither inside a literal nor inside a comment.
abbrev pub InCode : Normalizer → Type 0
InCode n = (n.in_string ≡ false) × (n.in_comment ≡ false)

-- A character that opens neither a literal nor a comment.
abbrev pub Plain : ℕ → Type 0
Plain c = (is_quote c ≡ false) × ((c == b'-' || c == b'/') ≡ false)

-- Upper case for letters, and a blank for any white space.
abbrev pub canon : ℕ → ℕ
canon c = if isspace c then b' ' else toupper c

Plain-canon : (c : ℕ) → Plain c → Plain (canon c)
unfolding isspace toupper
Plain-canon c (h, k) = (ground arith, ground arith)

normalize_step-Plain :
    (n : Normalizer) (c next : ℕ)
    → InCode n
    → Plain c
    → normalize_step n c next ≡ normalize_plain n c
unfolding normalize_step normalize_rest normalize_comment
normalize_step-Plain n c next (s, m) (h, k) = ground (arith, s, m, h, k)

isspace-canon : (c : ℕ) → isspace (canon c) ≡ isspace c
unfolding isspace toupper
isspace-canon c = ground arith

toupper-canon : (c : ℕ) → isspace c ≡ false → toupper (canon c) ≡ toupper c
unfolding isspace toupper
toupper-canon c h = ground arith

normalize_plain-canon : (n : Normalizer) (c : ℕ) → normalize_plain n (canon c) ≡ normalize_plain n c
unfolding normalize_plain
normalize_plain-canon n c = elim (Bool-cases (isspace c)) [
  | inl e ↦ rw (isspace-canon c, e) refl
  | inr e ↦ rw (isspace-canon c, toupper-canon c e, e) refl
]

normalize_plain-InCode : (n : Normalizer) (c : ℕ) → InCode n → InCode (normalize_plain n c).0
unfolding normalize_plain
normalize_plain-InCode n c v =
    if_elim (λ (r : Normalizer × ℕ). InCode r.0) (isspace c)
      (λ _. if_elim InCode (not n.last_was_space) (λ _. v) (λ _. v)) (λ _. v)

normalize_plain-skip : (n : Normalizer) (c : ℕ) → (normalize_plain n c).1 ≡ 0
unfolding normalize_plain
normalize_plain-skip n c =
    if_elim (λ (r : Normalizer × ℕ). r.1 ≡ 0) (isspace c) (λ _. refl) (λ _. refl)

-- One round of the loop on a plain character.
round :
    (n : Normalizer) (c : ℕ) (cs : Bytes)
    → InCode n
    → Plain c
    → normalize_loop n 0 (c ∷ cs) ≡ normalize_loop (normalize_plain n c).0 0 cs
unfolding normalize_loop
round n c cs v h = rw (normalize_step-Plain n c (next_ch cs) v h, normalize_plain-skip n c) refl

normalize_loop-canon :
    (n : Normalizer) (cs : Bytes)
    → InCode n
    → All Plain cs
    → normalize_loop n 0 (map canon cs) ≡ normalize_loop n 0 cs
normalize_loop-canon n [] v h = refl
normalize_loop-canon n (c ∷ cs) v h =
    round n (canon c) (map canon cs) v (Plain-canon c h.0)
    ∙ ap (λ (r : Normalizer × ℕ). normalize_loop r.0 0 (map canon cs)) (normalize_plain-canon n c)
    ∙ normalize_loop-canon (normalize_plain n c).0 cs (normalize_plain-InCode n c v) h.1
    ∙ sym (round n c cs v h.0)

-- A text with no quote, `-` or `/` has the same key as the text with its letters in upper case and
-- a blank for each white space.
pub generate_key-canon :
    (sql : Bytes) (flags : ℕ)
    → All Plain sql
    → generate_key (map canon sql) flags ≡ generate_key sql flags
unfolding generate_key normalize
generate_key-canon sql flags h = rw (normalize_loop-canon initial sql (refl, refl) h) refl

-- The text of a comment that nothing ends early.
abbrev pub InComment : ℕ → Type 0
InComment c = ((c == b'*' || (c == b'-' || c == b'/')) ≡ false) × ((c == b'\n') ≡ false)

normalize_step-comment :
    (n : Normalizer) (c next : ℕ)
    → n.in_string ≡ false
    → n.in_comment ≡ true
    → InComment c
    → normalize_step n c next ≡ (n, 0)
unfolding normalize_step normalize_rest normalize_comment
normalize_step-comment n c next s m (h, k) = ground (arith, s, m, h, k)

in_comment-loop :
    (n : Normalizer) (body rest : Bytes)
    → n.in_string ≡ false
    → n.in_comment ≡ true
    → All InComment body
    → normalize_loop n 0 (body ++ rest) ≡ normalize_loop n 0 rest
unfolding normalize_loop
in_comment-loop n [] rest s m h = refl
in_comment-loop n (c ∷ cs) rest s m h =
    ap (λ (r : Normalizer × ℕ). normalize_loop r.0 r.1 (cs ++ rest))
      (normalize_step-comment n c (next_ch (cs ++ rest)) s m h.0)
    ∙ in_comment-loop n cs rest s m h.1

module _ (n : Normalizer) (s : n.in_string ≡ false) where
  opens :
      (rest : Bytes)
      → n.in_comment ≡ false
      → normalize_loop n 0 (b'/' ∷ b'*' ∷ rest)
        ≡ normalize_loop (record n { in_comment = true }) 0 rest
  unfolding normalize_loop normalize_step normalize_rest normalize_comment
  opens rest m = rw (s, m) refl

  closes :
      (rest : Bytes)
      → n.in_comment ≡ true
      → normalize_loop n 0 (b'*' ∷ b'/' ∷ rest)
        ≡ normalize_loop (record n { in_comment = false }) 0 rest
  unfolding normalize_loop normalize_step normalize_rest normalize_comment
  closes rest m = rw (s, m) refl

-- Outside literals and comments, a block comment whose text has no `*`, `-`, `/` or line end leaves
-- nothing in the key, not even a blank: the text goes on as if it were not there.
normalize_loop-comment :
    (n : Normalizer) (body rest : Bytes)
    → InCode n
    → All InComment body
    → normalize_loop n 0 (b'/' ∷ b'*' ∷ (body ++ (b'*' ∷ b'/' ∷ rest))) ≡ normalize_loop n 0 rest
normalize_loop-comment n body rest (s, m) h =
    opens n s _ m
    ∙ in_comment-loop (record n { in_comment = true }) body _ s refl h
    ∙ closes (record n { in_comment = true }) s rest refl
    ∙ ap (λ b. normalize_loop (record n { in_comment = b }) 0 rest) (sym m)
