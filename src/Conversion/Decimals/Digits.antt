-- ===== src/Conversion/Decimals/Digits.antt =====
-- Digits of printed numbers, as `string_to_decimal_i64` reads them.
use fbpp.Prelude.{
  ℕ, zero, suc, ◌+◌, ◌-◌, ◌*◌, ◌/◌, ◌%◌, ◌^◌, ◌≤◌, ◌<◌, ◌≡◌, refl, inl, inr, true, [], ◌∷◌, ◌++◌,
  ltb, leb, if◌then◌else◌, length, replicate, arith, Bool-cases,
}
use fbpp.Prelude.Ascii.{Bytes}
use fbpp.Prelude.Decimal.{all_digits, decimal_from, to_chars, to_string}
use fbpp.Prelude.Result.{ok, err}
use fbpp.Conversion.{numeric_out_of_range}
use fbpp.Conversion.Decimals.{accumulate, int64_max, skip_zeros}

pub decimal_from-append :
    (xs ys : Bytes) (n : ℕ) → decimal_from n (xs ++ ys) ≡ decimal_from (decimal_from n xs) ys
unfolding decimal_from
decimal_from-append [] ys n = refl
decimal_from-append (x ∷ xs) ys n = decimal_from-append xs ys _

pub all_digits-append :
    (xs ys : Bytes) → all_digits xs ≡ true → all_digits ys ≡ true → all_digits (xs ++ ys) ≡ true
unfolding all_digits
all_digits-append [] ys h k = k
all_digits-append (x ∷ xs) ys h k = ground (arith, all_digits-append xs ys)

pub all_digits-replicate : (k : ℕ) → all_digits (replicate k b'0') ≡ true
unfolding all_digits
all_digits-replicate zero = refl
all_digits-replicate (suc k) = all_digits-replicate k

decimal_from-≥ : (xs : Bytes) (n : ℕ) → n ≤ decimal_from n xs
unfolding decimal_from
decimal_from-≥ [] n = omega arith
decimal_from-≥ (x ∷ xs) n = omega (arith, decimal_from-≥ xs (n * 10 + (x - b'0')))

-- The loop reads all digits if the number fits, and refuses it if not.
pub accumulate-digits :
    (xs : Bytes) (n : ℕ)
    → all_digits xs ≡ true
    → n ≤ int64_max
    → accumulate n xs ≡ (
        if leb (decimal_from n xs) int64_max
        then ok (decimal_from n xs)
        else err numeric_out_of_range)
unfolding accumulate all_digits decimal_from
accumulate-digits [] n h k = ground arith
accumulate-digits (x ∷ xs) n h k = elim (Bool-cases (leb (n * 10 + (x - b'0')) int64_max)) [
  | inl e ↦ ground (arith, accumulate-digits xs (n * 10 + (x - b'0')))
  | inr e ↦ ground (arith, decimal_from-≥ xs (n * 10 + (x - b'0')))
]

-- A number below 10 ^ k has at most k digits, but for 0, which has one.
length-to_chars :
    (fuel n k : ℕ) (acc : Bytes)
    → n < fuel
    → n < 10 ^ suc k
    → length (to_chars fuel n acc) ≤ suc k + length acc
unfolding to_chars
length-to_chars zero n k acc h b = elim h [ ]
length-to_chars (suc fuel) n zero acc h b = ground arith
length-to_chars (suc fuel) n (suc k) acc h b = elim (Bool-cases (ltb n 10)) [
  | inl e ↦ rw e (omega arith)
  | inr e ↦ rw e (
      omega (
        arith,
        length-to_chars fuel (n / 10) k ((n % 10 + b'0') ∷ acc) (ground arith) (ground arith),
      ))
]

pub length-to_string : (n k : ℕ) → n < 10 ^ suc k → length (to_string n) ≤ suc k
unfolding to_string
length-to_string n k h = omega (arith, length-to_chars (suc n) n k [] (omega arith) h)

-- Behind the first digit, which is not 0.
skip_zeros-to_chars :
    (fuel n : ℕ) (acc : Bytes)
    → n < fuel
    → 0 < n
    → skip_zeros (to_chars fuel n acc) ≡ to_chars fuel n acc
unfolding to_chars skip_zeros
skip_zeros-to_chars zero n acc h p = elim h [ ]
skip_zeros-to_chars (suc fuel) n acc h p = elim (Bool-cases (ltb n 10)) [
  | inl e ↦ rw e (ground arith)
  | inr e ↦ rw e (skip_zeros-to_chars fuel (n / 10) _ (ground arith) (ground arith))
]

pub skip_zeros-to_string : (n : ℕ) → 0 < n → skip_zeros (to_string n) ≡ to_string n
unfolding to_string
skip_zeros-to_string n h = skip_zeros-to_chars (suc n) n [] (omega arith) h
