-- ===== src/Conversion/Decimals/ReadBack.antt =====
-- `string_to_decimal_i64` behind `decimal_to_string_i64`.
use fbpp.Prelude.{
  ℕ, zero, suc, ◌+◌, ◌*◌, ◌/◌, ◌%◌, ◌^◌, ◌<◌, ◌≡◌, refl, sym, ap, ◌∙◌, inl, inr, true, false, [],
  ◌∷◌, ◌++◌, ltb, leb, ◌==◌, if◌then◌else◌, length, arith, Bool-cases,
}
use mathlib.Core.Path.{subst}
use native.Mathlib.Nat.{mod-lt, div-add-mod', mul-le-mul_right, one-le-pow}
use fbpp.Prelude.Int.{ℤ, pos, negsuc, neg}
use fbpp.Prelude.Ascii.{Bytes}
use fbpp.Prelude.Decimal.{
  all_digits, decimal_from, to_string, all_digits-to_string, decimal_from-to_string,
}
use fbpp.Prelude.Result.{Result, ok, err, ◌>>=◌}
use fbpp.NamedParam.{next_ch}
use fbpp.Conversion.{Fault, numeric_out_of_range, before_ch, after_ch}
use fbpp.Conversion.Decimals.{
  accumulate, int64_max, skip_zeros, is_sign, trim_zeros, combine, string_to_decimal_i64,
  decimal_to_string_i64, magnitude, pad_zeros, print_scaled, print_signed,
}
use fbpp.Conversion.Decimals.Digits.{all_digits-append, accumulate-digits, skip_zeros-to_string}
use fbpp.Conversion.Decimals.Padding.{
  next_ch-digits, drop_sign-digits, fit_fraction-pad_zeros, all_digits-pad_zeros,
  decimal_from-pad_zeros,
}

before_ch-digits : (xs ys : Bytes) → all_digits xs ≡ true → before_ch b'.' (xs ++ (b'.' ∷ ys)) ≡ xs
unfolding before_ch all_digits
before_ch-digits [] ys h = refl
before_ch-digits (x ∷ xs) ys h = ground (arith, before_ch-digits xs ys)

after_ch-digits : (xs ys : Bytes) → all_digits xs ≡ true → after_ch b'.' (xs ++ (b'.' ∷ ys)) ≡ ys
unfolding after_ch all_digits
after_ch-digits [] ys h = refl
after_ch-digits (x ∷ xs) ys h = ground (arith, after_ch-digits xs ys)

-- The integer part, trimmed, of a printed number.
abbrev trimmed : Bytes → Bytes
trimmed int_part = trim_zeros int_part (skip_zeros int_part)

some_digits : (n : ℕ) → 0 < n → 0 < length (to_string n)
some_digits n h = counted (to_string n) (decimal_from-to_string n)
  where
    counted : (xs : Bytes) → decimal_from 0 xs ≡ n → 0 < length xs
    counted [] e = unfold decimal_from in omega (arith, e)
    counted (x ∷ xs) e = omega arith

trim_zeros_self :
    (xs : Bytes) → is_sign (next_ch xs) ≡ false → 0 < length xs → trim_zeros xs xs ≡ xs
unfolding trim_zeros
trim_zeros_self [] h k = elim k [ ]
trim_zeros_self (x ∷ xs) h k = rw h refl

trim_zeros-minus : (xs ys : Bytes) → 0 < length ys → trim_zeros (b'-' ∷ xs) ys ≡ b'-' ∷ xs
unfolding trim_zeros
trim_zeros-minus xs [] k = elim k [ ]
trim_zeros-minus xs (y ∷ ys) k = refl

trimmed-plain : (hi : ℕ) → trimmed (to_string hi) ≡ to_string hi
trimmed-plain zero = unfold trim_zeros skip_zeros to_string in refl
trimmed-plain (suc m) = rw (skip_zeros-to_string (suc m) (omega arith)) (
    trim_zeros_self (to_string (suc m)) (next_ch-digits _ (all_digits-to_string (suc m)))
      (some_digits (suc m) (omega arith)))

skip_zeros-minus : (xs : Bytes) → skip_zeros (b'-' ∷ xs) ≡ skip_zeros xs
unfolding skip_zeros
skip_zeros-minus xs = refl

to_string_zero : to_string 0 ≡ b'0' ∷ []
unfolding to_string
to_string_zero = refl

trimmed-minus :
    (hi : ℕ) → trimmed (b'-' ∷ to_string hi) ≡ (if hi == 0 then b'0' ∷ [] else b'-' ∷ to_string hi)
trimmed-minus zero = unfold trim_zeros skip_zeros to_string in refl
trimmed-minus (suc m) =
    rw (skip_zeros-minus, skip_zeros-to_string (suc m) (omega arith))
      (trim_zeros-minus (to_string (suc m)) _ (some_digits (suc m) (omega arith)) ∙ ground arith)

-- What the reader makes of a sign and the digits of `hi` and `lo`.
abbrev checked : ℕ → ℤ → Result Fault ℤ
checked u v = if leb u int64_max then ok v else err numeric_out_of_range

abbrev fraction : ℕ → ℕ → Bytes
fraction n lo = pad_zeros (suc n) (to_string lo)

module _ (n hi lo : ℕ) (h : lo < 10 ^ suc n) where
  accumulate-parts : accumulate 0 (to_string hi ++ fraction n lo) ≡ (
      if leb (hi * 10 ^ suc n + lo) int64_max
      then ok (hi * 10 ^ suc n + lo)
      else err numeric_out_of_range)
  accumulate-parts =
      accumulate-digits (to_string hi ++ fraction n lo) 0
        (all_digits-append (to_string hi) (fraction n lo) (all_digits-to_string hi)
          (all_digits-pad_zeros n lo h))
        (omega arith)
      ∙ rw (decimal_from-pad_zeros n lo h hi) refl

  combine-plain :
      combine (suc n) (to_string hi) (fraction n lo)
      ≡ checked (hi * 10 ^ suc n + lo) (pos (hi * 10 ^ suc n + lo))
  unfolding combine
  combine-plain =
      rw
        (
          fit_fraction-pad_zeros n lo h,
          drop_sign-digits (to_string hi) (all_digits-to_string hi),
          accumulate-parts,
        )
        (ground (arith, next_ch-digits (to_string hi) (all_digits-to_string hi)))

  combine-minus :
      combine (suc n) (b'-' ∷ to_string hi) (fraction n lo)
      ≡ checked (hi * 10 ^ suc n + lo) (neg (pos (hi * 10 ^ suc n + lo)))
  unfolding combine
  combine-minus = rw (fit_fraction-pad_zeros n lo h, accumulate-parts) (ground arith)

module _ (n u : ℕ) where
  quotient_below : u % 10 ^ suc n < 10 ^ suc n
  quotient_below = mod-lt u (one-le-pow (suc n) 10 (omega arith))

  parts : u / 10 ^ suc n * 10 ^ suc n + u % 10 ^ suc n ≡ u
  parts = div-add-mod' u (10 ^ suc n)

  abbrev hi : ℕ
  hi = u / 10 ^ suc n

  abbrev lo : ℕ
  lo = u % 10 ^ suc n

  -- The reader on a printed integer part and fraction.
  read_parts :
      (int_part : Bytes)
      → before_ch b'.' (int_part ++ (b'.' ∷ fraction n lo)) ≡ int_part
      → after_ch b'.' (int_part ++ (b'.' ∷ fraction n lo)) ≡ fraction n lo
      → string_to_decimal_i64 (int_part ++ (b'.' ∷ fraction n lo)) (negsuc n)
        ≡ combine (suc n) (trimmed int_part) (fraction n lo)
  unfolding string_to_decimal_i64
  read_parts int_part b a = cc

  read-plain : string_to_decimal_i64 (print_scaled (suc n) u) (negsuc n) ≡ checked u (pos u)
  unfolding print_scaled
  read-plain =
      read_parts (to_string hi) (before_ch-digits _ _ (all_digits-to_string hi))
        (after_ch-digits _ _ (all_digits-to_string hi))
      ∙ rw (trimmed-plain hi) (combine-plain n hi lo quotient_below)
      ∙ ap (λ k. checked k (pos k)) parts

  -- The integer part is zero exactly below the power of ten.
  hi_zero : hi ≡ 0 → ltb u (10 ^ suc n) ≡ true
  hi_zero e = ground (arith, quotient_below, parts, e)

  hi_pos : 0 < hi → ltb u (10 ^ suc n) ≡ false
  hi_pos h = ground (arith, parts, mul-le-mul_right {n = hi} (10 ^ suc n) h)

  read_zero : hi ≡ 0 → combine (suc n) (b'0' ∷ []) (fraction n lo) ≡ checked u (pos u)
  read_zero z =
      zero_read ∙ ap (λ k. checked k (pos k)) (ap (λ k. k * 10 ^ suc n + lo) (sym z) ∙ parts)
    where
      zero_read :
          combine (suc n) (b'0' ∷ []) (fraction n lo)
          ≡ checked (0 * 10 ^ suc n + lo) (pos (0 * 10 ^ suc n + lo))
      zero_read =
          subst
            (λ (xs : Bytes).
              combine (suc n) xs (fraction n lo)
              ≡ checked (0 * 10 ^ suc n + lo) (pos (0 * 10 ^ suc n + lo)))
            to_string_zero (combine-plain n 0 lo quotient_below)

  read-minus :
      string_to_decimal_i64 (b'-' ∷ print_scaled (suc n) u) (negsuc n)
      ≡ checked u (if ltb u (10 ^ suc n) then pos u else neg (pos u))
  unfolding print_scaled
  read-minus =
      read_parts (b'-' ∷ to_string hi)
        (unfold before_ch in
          ap (λ (xs : Bytes). b'-' ∷ xs) (before_ch-digits _ _ (all_digits-to_string hi)))
        (unfold after_ch in after_ch-digits (to_string hi) _ (all_digits-to_string hi))
      ∙ rw (trimmed-minus hi) (elim (Bool-cases (hi == 0)) [
        | inl e ↦ rw (e, hi_zero (ground arith)) (read_zero (ground arith))
        | inr e ↦
            rw (e, hi_pos (ground arith))
              (combine-minus n hi lo quotient_below ∙ ap (λ k. checked k (neg (pos k))) parts)
      ])

scale_fits : (n : ℕ) → n < 18 → leb 19 (suc n) ≡ false
scale_fits n h = ground arith

-- With one to 18 digits behind the point, what is printed of an integer is read back as that
-- integer, but for one whose integer part is zero, which comes back without its sign; and a
-- magnitude above 2^63 - 1, which only the least int64_t has, is refused as out of range.
pub string_to_decimal_i64-decimal_to_string_i64 :
    (v : ℤ) (n : ℕ)
    → n < 18
    → (decimal_to_string_i64 v (negsuc n) >>= (λ text. string_to_decimal_i64 text (negsuc n))) ≡ (
        if leb (magnitude v) int64_max
        then ok (if ltb (magnitude v) (10 ^ suc n) then pos (magnitude v) else v)
        else err numeric_out_of_range)
unfolding decimal_to_string_i64 print_signed
string_to_decimal_i64-decimal_to_string_i64 (pos u) n h =
    rw (scale_fits n h) (read-plain n u ∙ ground arith)
string_to_decimal_i64-decimal_to_string_i64 (negsuc u) n h =
    rw (scale_fits n h) (read-minus n (u + 1) ∙ ground arith)
