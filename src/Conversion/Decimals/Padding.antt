-- ===== src/Conversion/Decimals/Padding.antt =====
-- Numbers padded with zeros, as `%0*llu` prints them.
use fbpp.Prelude.{
  ℕ, zero, suc, ◌+◌, ◌-◌, ◌*◌, ◌^◌, ◌<◌, ◌≡◌, refl, ap, ◌∙◌, true, false, [], ◌∷◌, ◌++◌, append-nil,
  length, replicate, arith, length-append, length-replicate,
}
use native.Mathlib.Nat.{pow-suc, add-mul, mul_assoc, mul_comm}
use fbpp.Prelude.Ascii.{Bytes}
use fbpp.Prelude.Decimal.{
  all_digits, decimal_from, to_string, all_digits-to_string, decimal_from-to_string,
}
use fbpp.NamedParam.{next_ch}
use fbpp.Conversion.Decimals.{is_sign, fit_fraction, drop_sign, pad_zeros}
use fbpp.Conversion.Decimals.Digits.{
  decimal_from-append, all_digits-append, all_digits-replicate, length-to_string,
}

pub next_ch-digits : (xs : Bytes) → all_digits xs ≡ true → is_sign (next_ch xs) ≡ false
unfolding all_digits
next_ch-digits [] h = refl
next_ch-digits (x ∷ xs) h = ground arith

pub drop_sign-digits : (xs : Bytes) → all_digits xs ≡ true → drop_sign xs ≡ xs
unfolding drop_sign all_digits
drop_sign-digits [] h = refl
drop_sign-digits (x ∷ xs) h = ground arith

-- One more digit in front of a power of ten.
spread : (n d p : ℕ) → (n * 10 + d) * p ≡ n * (p * 10) + d * p
spread n d p =
    omega (arith, add-mul (n * 10) d p, mul_assoc n 10 p, ap (λ q. n * q) (mul_comm 10 p))

pub decimal_from-length :
    (xs : Bytes) (n : ℕ) → decimal_from n xs ≡ n * 10 ^ length xs + decimal_from 0 xs
unfolding decimal_from
decimal_from-length [] n = omega arith
decimal_from-length (x ∷ xs) n =
    let p : ℕ = 10 ^ length xs in
    let e : decimal_from 0 (x ∷ xs) ≡ (0 * 10 + (x - b'0')) * p + decimal_from 0 xs =
      decimal_from-length xs (0 * 10 + (x - b'0')) in
    let f : n * 10 ^ length (x ∷ xs) ≡ n * (p * 10) = ap (λ k. n * k) (pow-suc 10 (length xs)) in
    decimal_from-length xs (n * 10 + (x - b'0'))
    ∙ omega (arith, e, f, spread n (x - b'0') p, spread 0 (x - b'0') p)

pub decimal_from-replicate :
    (k : ℕ) (xs : Bytes) → decimal_from 0 (replicate k b'0' ++ xs) ≡ decimal_from 0 xs
unfolding decimal_from
decimal_from-replicate zero xs = refl
decimal_from-replicate (suc k) xs = decimal_from-replicate k xs

module _ (n lo : ℕ) (h : lo < 10 ^ suc n) where
  pub length-pad_zeros : length (pad_zeros (suc n) (to_string lo)) ≡ suc n
  unfolding pad_zeros
  length-pad_zeros = omega (
    arith,
    length-append (replicate (suc n - length (to_string lo)) b'0') (to_string lo),
    length-replicate {A = ℕ} (suc n - length (to_string lo)) b'0',
    length-to_string lo n h,
  )

  pub fit_fraction-pad_zeros :
      fit_fraction (suc n) (pad_zeros (suc n) (to_string lo)) ≡ pad_zeros (suc n) (to_string lo)
  unfolding fit_fraction
  fit_fraction-pad_zeros =
      rw length-pad_zeros (ground (arith, append-nil (pad_zeros (suc n) (to_string lo))))

  pub all_digits-pad_zeros : all_digits (pad_zeros (suc n) (to_string lo)) ≡ true
  unfolding pad_zeros
  all_digits-pad_zeros =
      all_digits-append (replicate (suc n - length (to_string lo)) b'0') (to_string lo)
        (all_digits-replicate _) (all_digits-to_string lo)

  pub decimal_from-padded : decimal_from 0 (pad_zeros (suc n) (to_string lo)) ≡ lo
  unfolding pad_zeros
  decimal_from-padded =
      decimal_from-replicate (suc n - length (to_string lo)) (to_string lo)
      ∙ decimal_from-to_string lo

  pub decimal_from-pad_zeros :
      (hi : ℕ)
      → decimal_from 0 (to_string hi ++ pad_zeros (suc n) (to_string lo)) ≡ hi * 10 ^ suc n + lo
  decimal_from-pad_zeros hi =
      decimal_from-append (to_string hi) _ 0
      ∙ ap (λ k. decimal_from k (pad_zeros (suc n) (to_string lo))) (decimal_from-to_string hi)
      ∙ decimal_from-length (pad_zeros (suc n) (to_string lo)) hi
      ∙ rw length-pad_zeros (omega (arith, decimal_from-padded))
