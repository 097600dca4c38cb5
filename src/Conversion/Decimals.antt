-- ===== src/Conversion/Decimals.antt =====
-- `string_to_decimal_i64` and `decimal_to_string_i64`: a scaled 64-bit integer and its text.
pub mod Digits
pub mod Padding
pub mod ReadBack
use fbpp.Prelude.{
  ℕ, zero, suc, ◌+◌, ◌-◌, ◌*◌, ◌/◌, ◌%◌, ◌^◌, Bool, true, not, ◌||◌, List, [], ◌∷◌, ◌++◌, ltb, leb,
  ◌==◌, if◌then◌else◌, length, take, replicate,
}
use fbpp.Prelude.Int.{ℤ, pos, negsuc, neg, is_neg}
use fbpp.Prelude.Ascii.{Bytes, isdigit}
use fbpp.Prelude.Decimal.{to_string}
use fbpp.Prelude.Result.{Result, ok, err, ◌>>=◌}
use fbpp.NamedParam.{next_ch}
use fbpp.Conversion.{
  Fault, scale_not_negative, scale_too_large, invalid_numeric, numeric_out_of_range, before_ch,
  after_ch,
}

abbrev pub int64_max : ℕ
int64_max = 2 ^ 63 - 1

-- `intPart.substr(find_first_not_of("0-+"))`; nothing where there is no such character.
unfoldable pub skip_zeros : Bytes → Bytes
skip_zeros [] = []
skip_zeros (c ∷ cs) =
    let rest = skip_zeros cs in if c == b'0' || (c == b'-' || c == b'+') then rest else c ∷ cs

abbrev pub is_sign : ℕ → Bool
is_sign c = c == b'-' || c == b'+'

-- "Remove leading zeros from integer part", with what `skip_zeros` leaves.
unfoldable pub trim_zeros : Bytes → Bytes → Bytes
trim_zeros int_part [] = b'0' ∷ []
trim_zeros int_part (c ∷ cs) = if is_sign (next_ch int_part) then int_part else c ∷ cs

unfoldable pub fit_fraction : ℕ → Bytes → Bytes
fit_fraction decimals frac =
    if ltb decimals (length frac)
    then take decimals frac
    else frac ++ replicate (decimals - length frac) b'0'

unfoldable pub drop_sign : Bytes → Bytes
drop_sign [] = []
drop_sign (c ∷ cs) = if is_sign c then cs else c ∷ cs

-- The loop over the digits, with its test for overflow.
unfoldable pub accumulate : ℕ → Bytes → Result Fault ℕ
accumulate result [] = ok result
accumulate result (c ∷ cs) =
    let rest = accumulate (result * 10 + (c - b'0')) cs in
    if not (isdigit c)
    then err invalid_numeric
    else if ltb ((int64_max - (c - b'0')) / 10) result
    then err numeric_out_of_range
    else rest

abbrev pub signed : Bool → ℕ → Result Fault ℤ
signed negative n = ok (if negative then neg (pos n) else pos n)

-- The integer part, trimmed, and the fraction.
unfoldable pub combine : ℕ → Bytes → Bytes → Result Fault ℤ
unfolding fit_fraction drop_sign accumulate
combine decimals int_part frac = do
  n ← accumulate 0 (drop_sign int_part ++ fit_fraction decimals frac)
  signed (next_ch int_part == b'-') n

unfoldable pub string_to_decimal_i64 : Bytes → ℤ → Result Fault ℤ
unfolding combine trim_zeros skip_zeros before_ch after_ch
string_to_decimal_i64 str (pos n) = err scale_not_negative
string_to_decimal_i64 str (negsuc n) =
    let int_part = before_ch b'.' str in
    combine (suc n) (trim_zeros int_part (skip_zeros int_part)) (after_ch b'.' str)

-- `uint64_t(-(v + 1)) + 1` and `uint64_t(v)`.
abbrev pub magnitude : ℤ → ℕ
magnitude (pos n) = n
magnitude (negsuc n) = n + 1

-- `%0*llu`.
unfoldable pub pad_zeros : ℕ → Bytes → Bytes
pad_zeros width digits = replicate (width - length digits) b'0' ++ digits

-- The text of the magnitude `u` with `s` digits behind the point.
unfoldable pub print_scaled : ℕ → ℕ → Bytes
unfolding pad_zeros
print_scaled zero u = to_string u
print_scaled (suc n) u =
    to_string (u / 10 ^ suc n) ++ (b'.' ∷ pad_zeros (suc n) (to_string (u % 10 ^ suc n)))

unfoldable pub print_signed : Bool → Bytes → Bytes
print_signed negative text = if negative then b'-' ∷ text else text

-- The scale is an `int`: `uint32_t(-scale)` of a positive one is at least 2^31.
unfoldable pub decimal_to_string_i64 : ℤ → ℤ → Result Fault Bytes
unfolding print_scaled print_signed
decimal_to_string_i64 v (pos zero) = ok (print_signed (is_neg v) (print_scaled 0 (magnitude v)))
decimal_to_string_i64 v (pos (suc n)) = err scale_too_large
decimal_to_string_i64 v (negsuc n) =
    if leb 19 (suc n)
    then err scale_too_large
    else ok (print_signed (is_neg v) (print_scaled (suc n) (magnitude v)))
