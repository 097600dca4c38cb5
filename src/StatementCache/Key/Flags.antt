-- ===== src/StatementCache/Key/Flags.antt =====
-- The flags are read off the end of a key.
use fbpp.Prelude.{ℕ, ◌≡◌, refl, sym, ap, ◌∙◌, true, false, [], ◌∷◌, ◌++◌, arith}
use fbpp.Prelude.Ascii.{Bytes}
use fbpp.Prelude.Decimal.{
  all_digits, to_string, decimal_from, all_digits-to_string, decimal_from-to_string,
}
use fbpp.StatementCache.Key.{generate_key, normalize}

-- A bar is no digit.
bar_not_digits : (xs ys : Bytes) → all_digits (xs ++ (b'|' ∷ ys)) ≡ false
unfolding all_digits
bar_not_digits [] ys = refl
bar_not_digits (x ∷ xs) ys = ground (arith, bar_not_digits xs ys)

same_digits :
    (xs ys ds es : Bytes)
    → all_digits ds ≡ true
    → all_digits es ≡ true
    → xs ++ (b'|' ∷ ds) ≡ ys ++ (b'|' ∷ es)
    → ds ≡ es
same_digits [] [] ds es h k e = cc
same_digits [] (y ∷ ys) ds es h k e =
    let d : ds ≡ ys ++ (b'|' ∷ es) = cc in
    let n : all_digits (ys ++ (b'|' ∷ es)) ≡ false = bar_not_digits ys es in absurd (cc)
same_digits (x ∷ xs) [] ds es h k e =
    let d : es ≡ xs ++ (b'|' ∷ ds) = cc in
    let n : all_digits (xs ++ (b'|' ∷ ds)) ≡ false = bar_not_digits xs ds in absurd (cc)
same_digits (x ∷ xs) (y ∷ ys) ds es h k e =
    let e' : xs ++ (b'|' ∷ ds) ≡ ys ++ (b'|' ∷ es) = cc in same_digits xs ys ds es h k e'

-- Two keys that are equal have the same flags, whatever the texts.
pub generate_key-flags :
    (sql sql' : Bytes) (flags flags' : ℕ)
    → generate_key sql flags ≡ generate_key sql' flags'
    → flags ≡ flags'
unfolding generate_key
generate_key-flags sql sql' flags flags' e =
    sym (decimal_from-to_string flags)
    ∙ ap (decimal_from 0) (
        same_digits (normalize sql) (normalize sql') (to_string flags) (to_string flags')
          (all_digits-to_string flags) (all_digits-to_string flags') e)
    ∙ decimal_from-to_string flags'
