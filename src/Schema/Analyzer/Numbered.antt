-- ===== src/Schema/Analyzer/Numbered.antt =====
-- What the code calls a base name for the first, second and later time, and that it tells them
-- apart.
use fbpp.Prelude.{
  ℕ, zero, suc, ◌+◌, ◌≡◌, ◌≢◌, refl, sym, ◌∙◌, ap, true, [], ◌∷◌, ◌++◌, if◌then◌else◌, append-nil,
  arith,
}
use fbpp.Prelude.Ascii.{Bytes, isdigit}
use fbpp.Prelude.Decimal.{
  to_string, all_digits, decimal_from, decimal_from-to_string, all_digits-to_string,
}

-- A text without the digits at its end.
abbrev pub keep_unless_digit : ℕ → Bytes → Bytes
keep_unless_digit c (d ∷ ds) = c ∷ d ∷ ds
keep_unless_digit c [] = if isdigit c then [] else c ∷ []

unfoldable pub strip_digits : Bytes → Bytes
strip_digits [] = []
strip_digits (c ∷ cs) = keep_unless_digit c (strip_digits cs)

strip_digits-digits : (ds : Bytes) → all_digits ds ≡ true → strip_digits ds ≡ []
unfolding strip_digits all_digits
strip_digits-digits [] h = refl
strip_digits-digits (c ∷ cs) h =
    let rest : strip_digits cs ≡ [] = strip_digits-digits cs (ground arith) in
    rw rest (ground arith)

strip_digits-append :
    (xs ds : Bytes) → all_digits ds ≡ true → strip_digits (xs ++ ds) ≡ strip_digits xs
unfolding strip_digits
strip_digits-append [] ds h = strip_digits-digits ds h
strip_digits-append (x ∷ xs) ds h = ap (keep_unless_digit x) (strip_digits-append xs ds h)

-- What the code calls a base name for the first, second and later time.
abbrev pub nth_name : Bytes → ℕ → Bytes
nth_name b zero = b
nth_name b (suc n) = b ++ to_string (n + 1 + 1)

pub strip_digits-nth_name :
    (b : Bytes) (i : ℕ) → strip_digits b ≡ b → strip_digits (nth_name b i) ≡ b
strip_digits-nth_name b zero h = h
strip_digits-nth_name b (suc n) h =
    strip_digits-append b (to_string (n + 1 + 1)) (all_digits-to_string (n + 1 + 1)) ∙ h

append_cancel : (xs ys zs : Bytes) → xs ++ ys ≡ xs ++ zs → ys ≡ zs
append_cancel [] ys zs h = h
append_cancel (x ∷ xs) ys zs h = let rest : xs ++ ys ≡ xs ++ zs = cc in append_cancel xs ys zs rest

to_string-inj : (m n : ℕ) → to_string m ≡ to_string n → m ≡ n
to_string-inj m n h =
    sym (decimal_from-to_string m) ∙ ap (decimal_from 0) h ∙ decimal_from-to_string n

to_string-nonempty : (n : ℕ) → [] ≢ to_string (suc n)
unfolding decimal_from
to_string-nonempty n h =
    let zero_is : 0 ≡ suc n = ap (decimal_from 0) h ∙ decimal_from-to_string (suc n) in
    absurd (omega arith)

pub bare : (b : Bytes) (n : ℕ) → b ≢ b ++ to_string (n + 1 + 1)
bare b n h =
    let cut : [] ≡ to_string (n + 1 + 1) =
      append_cancel b [] (to_string (n + 1 + 1)) (append-nil b ∙ h) in
    let suc_form : n + 1 + 1 ≡ suc (n + 1) = omega arith in
    to_string-nonempty (n + 1) (rw suc_form at cut)

pub nth_name-index : (b : Bytes) (i j : ℕ) → nth_name b i ≡ nth_name b j → i ≡ j
nth_name-index b zero zero h = refl
nth_name-index b zero (suc j) h = absurd (bare b j h)
nth_name-index b (suc i) zero h = absurd (bare b i (sym h))
nth_name-index b (suc i) (suc j) h =
    let same : i + 1 + 1 ≡ j + 1 + 1 =
      to_string-inj (i + 1 + 1) (j + 1 + 1) (append_cancel b _ _ h) in
    omega arith
