-- ===== src/Codec/Scientific.antt =====
-- `normalize_scientific`: a decimal number with an exponent, written without it.
use fbpp.Prelude.{
  ℕ, ◌+◌, ◌-◌, ◌^◌, Bool, false, not, ◌&&◌, ◌||◌, [], ◌∷◌, ◌++◌, ltb, ◌==◌, if◌then◌else◌, length,
  take, drop, replicate,
}
use fbpp.Prelude.Int.{ℤ, pos, negsuc, neg, sub_ℕ, ◌+ℤ◌}
use fbpp.Prelude.Ascii.{Bytes, str_eq}
use fbpp.Prelude.Decimal.{decimal_from}
use fbpp.Prelude.Result.{Result, ok, err, ◌>>=◌}
use fbpp.NamedParam.{next_ch}
use fbpp.Conversion.{before_ch, after_ch}
use fbpp.Conversion.Decimals.{drop_sign}
use fbpp.Conversion.Iso.{skip_space, digit_prefix}
use fbpp.Codec.{Fault, engine}

abbrev pub is_e : ℕ → Bool
is_e c = c == b'e' || c == b'E'

unfoldable pub before_e : Bytes → Bytes
before_e [] = []
before_e (c ∷ cs) = let rest = before_e cs in if is_e c then [] else c ∷ rest

unfoldable pub after_e : Bytes → Bytes
after_e [] = []
after_e (c ∷ cs) = let rest = after_e cs in if is_e c then cs else rest

unfoldable pub has_e : Bytes → Bool
has_e [] = false
has_e (c ∷ cs) = is_e c || has_e cs

-- std::stoi.
abbrev pub int_in_range : Bool → ℕ → Result Fault ℤ
int_in_range negative n =
    if ltb (if negative then 2 ^ 31 else 2 ^ 31 - 1) n
    then err engine
    else ok (if negative then neg (pos n) else pos n)

unfoldable pub stoi_digits : Bool → Bytes → Result Fault ℤ
stoi_digits negative [] = err engine
stoi_digits negative (c ∷ cs) = int_in_range negative (decimal_from 0 (c ∷ cs))

unfoldable pub stoi : Bytes → Result Fault ℤ
unfolding stoi_digits skip_space digit_prefix drop_sign
stoi str =
    stoi_digits (next_ch (skip_space str) == b'-') (digit_prefix (drop_sign (skip_space str)))

-- The digits with the point at a place that may be before or behind them.
unfoldable pub place_dot : Bytes → ℤ → Bytes
place_dot digits (negsuc n) = b'0' ∷ b'.' ∷ (replicate (n + 1) b'0' ++ digits)
place_dot digits (pos n) =
    if ltb (length digits) n
    then digits ++ replicate (n - length digits) b'0'
    else if n == 0
    then b'0' ∷ b'.' ∷ digits
    else if ltb n (length digits)
    then take n digits ++ (b'.' ∷ drop n digits)
    else digits

-- `substr(find_first_not_of('0'))`; nothing where every character is a zero.
unfoldable pub behind_zeros : Bytes → Bytes
behind_zeros [] = []
behind_zeros (c ∷ cs) = let rest = behind_zeros cs in if c == b'0' then rest else c ∷ cs

-- A text of zeros stays. Before a point one zero stays; a text that starts with the point is lost.
abbrev pub trim_front : Bytes → Bytes → Bytes
trim_front text [] = text
trim_front text (c ∷ cs) =
    if not (c == b'.') then c ∷ cs else if next_ch text == b'.' then [] else b'0' ∷ c ∷ cs

abbrev pub or_zero : Bytes → Bytes
or_zero [] = b'0' ∷ []
or_zero (c ∷ cs) = c ∷ cs

abbrev pub with_sign : Bool → Bytes → Bytes
with_sign negative text = if negative && not (str_eq text (b'0' ∷ [])) then b'-' ∷ text else text

-- `digits` are those of the mantissa and `fraction` how many of them stand behind the point.
unfoldable pub expand : Bool → Bytes → ℕ → ℤ → Bytes
unfolding place_dot behind_zeros
expand negative digits fraction exp =
    let text = place_dot digits (sub_ℕ (length digits) fraction +ℤ exp) in
    with_sign negative (or_zero (trim_front text (behind_zeros text)))

unfoldable pub normalize_scientific : Bytes → Result Fault Bytes
unfolding expand stoi before_e after_e has_e before_ch after_ch
normalize_scientific str = if not (has_e str) then ok str else (do
  exp ← stoi (after_e str)
  let mantissa = drop_sign (before_e str)
  let fraction = after_ch b'.' mantissa
  ok (
      expand (next_ch (before_e str) == b'-') (before_ch b'.' mantissa ++ fraction)
        (length fraction) exp))
