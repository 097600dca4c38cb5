-- ===== src/Conversion/Iso/Stoul.antt =====
-- std::stoul on padded numbers.
use native.Mathlib.Nat.{pow-le-pow_right}
use fbpp.Prelude.{ℕ, suc, ◌^◌, ◌<◌, ◌≡◌, refl, ap, ◌∙◌, true, [], ◌∷◌, length, arith}
use fbpp.Prelude.Ascii.{Bytes, isspace}
use fbpp.Prelude.Decimal.{all_digits, decimal_from, to_string}
use fbpp.Prelude.Result.{ok}
use fbpp.Conversion.Decimals.{pad_zeros}
use fbpp.Conversion.Decimals.Padding.{
  length-pad_zeros, all_digits-pad_zeros, decimal_from-padded, drop_sign-digits, next_ch-digits,
}
use fbpp.Conversion.Iso.{skip_space, digit_prefix, stoul}

skip_space-digits : (xs : Bytes) → all_digits xs ≡ true → skip_space xs ≡ xs
unfolding skip_space all_digits isspace
skip_space-digits [] h = refl
skip_space-digits (x ∷ xs) h = ground arith

digit_prefix-digits : (xs : Bytes) → all_digits xs ≡ true → digit_prefix xs ≡ xs
unfolding digit_prefix all_digits
digit_prefix-digits [] h = refl
digit_prefix-digits (x ∷ xs) h = ground (arith, digit_prefix-digits xs)

stoul-digits :
    (x : ℕ) (xs : Bytes)
    → all_digits (x ∷ xs) ≡ true
    → decimal_from 0 (x ∷ xs) < 2 ^ 32
    → stoul (x ∷ xs) ≡ ok (decimal_from 0 (x ∷ xs))
unfolding stoul
stoul-digits x xs h k =
    rw (skip_space-digits (x ∷ xs) h, drop_sign-digits (x ∷ xs) h, digit_prefix-digits (x ∷ xs) h)
      (ground (arith, next_ch-digits (x ∷ xs) h))

stoul-nonempty :
    (xs : Bytes)
    → 0 < length xs
    → all_digits xs ≡ true
    → decimal_from 0 xs < 2 ^ 32
    → stoul xs ≡ ok (decimal_from 0 xs)
stoul-nonempty [] p h k = elim p [ ]
stoul-nonempty (x ∷ xs) p h k = stoul-digits x xs h k

pub stoul-pad_zeros :
    (n w : ℕ) → w < 9 → n < 10 ^ suc w → stoul (pad_zeros (suc w) (to_string n)) ≡ ok n
stoul-pad_zeros n w k h =
    stoul-nonempty (pad_zeros (suc w) (to_string n)) (omega (arith, length-pad_zeros w n h))
      (all_digits-pad_zeros w n h)
      (omega
        (arith, decimal_from-padded w n h, h, pow-le-pow_right {n = 10} (omega arith) {j = 9} k))
    ∙ ap ok (decimal_from-padded w n h)
