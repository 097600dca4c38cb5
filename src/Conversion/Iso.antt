-- ===== src/Conversion/Iso.antt =====
-- `parseIsoDate`, `parseIsoTime` and `splitTzSuffix`, and the date and time texts of
-- include/fbpp/core/detail/sql_value_codec.hpp.
pub mod Stoul
pub mod Fields
pub mod Suffix
use fbpp.Prelude.{
  ℕ, zero, suc, ◌+◌, ◌-◌, ◌%◌, ◌^◌, Bool, true, false, not, ◌&&◌, ◌||◌, List, [], ◌∷◌, ◌++◌, Option,
  none, some, ltb, leb, ◌==◌, if◌then◌else◌, length, take, drop,
}
use fbpp.Prelude.Ascii.{Bytes, isdigit, isspace, codes}
use fbpp.Prelude.Decimal.{to_string, decimal_from}
use fbpp.Prelude.Result.{Result, ok, err, ◌>>=◌}
use fbpp.NamedParam.{next_ch}
use fbpp.NamedParam.Positional.{nonempty}
use fbpp.Conversion.{
  Fault, invalid_date, invalid_time, zone_required, invalid_timestamp, stoul_invalid,
  stoul_out_of_range, before_ch, after_ch,
}
use fbpp.Conversion.Decimals.{is_sign, drop_sign, fit_fraction, pad_zeros}

pub record DateFields : Type 0 where
  pub year : ℕ
  pub month : ℕ
  pub day : ℕ

pub record TimeFields : Type 0 where
  pub hours : ℕ
  pub minutes : ℕ
  pub seconds : ℕ
  pub fractions : ℕ

-- std::stoul, assigned to an `unsigned`: blanks, a sign, digits, and whatever follows them. A minus
-- sign negates modulo 2^64.
unfoldable pub skip_space : Bytes → Bytes
skip_space [] = []
skip_space (c ∷ cs) = let rest = skip_space cs in if isspace c then rest else c ∷ cs

unfoldable pub digit_prefix : Bytes → Bytes
digit_prefix [] = []
digit_prefix (c ∷ cs) = let rest = digit_prefix cs in if isdigit c then c ∷ rest else []

unfoldable pub stoul_value : Bool → Bytes → Result Fault ℕ
stoul_value negative [] = err stoul_invalid
stoul_value negative (c ∷ cs) =
    let n = decimal_from 0 (c ∷ cs) in
    if leb (2 ^ 64) n
    then err stoul_out_of_range
    else ok ((if negative then (2 ^ 64 - n) % 2 ^ 64 else n) % 2 ^ 32)

unfoldable pub stoul : Bytes → Result Fault ℕ
unfolding stoul_value skip_space digit_prefix drop_sign
stoul str =
    stoul_value (next_ch (skip_space str) == b'-') (digit_prefix (drop_sign (skip_space str)))

abbrev pub substr : Bytes → ℕ → ℕ → Bytes
substr str first count = take count (drop first str)

-- `str[i]`, for an `i` within the text.
abbrev pub char_at : Bytes → ℕ → ℕ
char_at str i = next_ch (drop i str)

unfoldable pub parse_iso_date : Bytes → Result Fault DateFields
unfolding stoul
parse_iso_date str =
    if ltb (length str) 10 || (not (char_at str 4 == b'-') || not (char_at str 7 == b'-'))
    then err invalid_date
    else (do
      y ← stoul (substr str 0 4)
      m ← stoul (substr str 5 2)
      d ← stoul (substr str 8 2)
      ok (record { year = y; month = m; day = d }))

-- The fraction: padded or cut to four digits; zero if there is none.
unfoldable pub parse_fraction : Bytes → Result Fault ℕ
unfolding stoul fit_fraction
parse_fraction str =
    if ltb 8 (length str) && char_at str 8 == b'.'
    then (if nonempty (drop 9 str) then stoul (fit_fraction 4 (drop 9 str)) else ok 0)
    else ok 0

unfoldable pub parse_iso_time : Bytes → Result Fault TimeFields
unfolding stoul parse_fraction
parse_iso_time str =
    if ltb (length str) 8 || (not (char_at str 2 == b':') || not (char_at str 5 == b':'))
    then err invalid_time
    else (do
      h ← stoul (substr str 0 2)
      m ← stoul (substr str 3 2)
      s ← stoul (substr str 6 2)
      f ← parse_fraction str
      ok (record { hours = h; minutes = m; seconds = s; fractions = f }))

unfoldable pub has_ch : ℕ → Bytes → Bool
has_ch ch [] = false
has_ch ch (c ∷ cs) = c == ch || has_ch ch cs

unfoldable pub last_ch : Bytes → ℕ
last_ch [] = 0
last_ch (c ∷ cs) = if nonempty cs then last_ch cs else c

-- `find_last_of("+-")`.
abbrev pub later : ℕ → Option ℕ → Option ℕ
later c (some i) = some (suc i)
later c none = if is_sign c then some 0 else none

unfoldable pub last_sign : Bytes → Option ℕ
last_sign [] = none
last_sign (c ∷ cs) = later c (last_sign cs)

abbrev pub split_at_sign : Bytes → ℕ → Option ℕ → Result Fault (Bytes × Bytes)
split_at_sign str min_body none = err zone_required
split_at_sign str min_body (some i) =
    if ltb i min_body then err zone_required else ok (take i str, drop i str)

unfoldable pub split_tz_suffix : Bytes → ℕ → Result Fault (Bytes × Bytes)
split_tz_suffix str min_body =
    if has_ch b' ' (drop min_body str) && nonempty (after_ch b' ' (drop min_body str))
    then ok
        (take min_body str ++ before_ch b' ' (drop min_body str), after_ch b' ' (drop min_body str))
    else if ltb min_body (length str) && (last_ch str == b'Z' || last_ch str == b'z')
    then ok (take (length str - 1) str, codes "+00:00")
    else split_at_sign str min_body (last_sign str)

-- The codec's texts: `%04u-%02u-%02u`, `%02u:%02u:%02u.%04u`, and both with a `T` between.
unfoldable pub print_date : DateFields → Bytes
print_date d =
    pad_zeros 4 (to_string d.year)
    ++ (b'-' ∷ (pad_zeros 2 (to_string d.month) ++ (b'-' ∷ pad_zeros 2 (to_string d.day))))

unfoldable pub print_time : TimeFields → Bytes
print_time t =
    pad_zeros 2 (to_string t.hours)
    ++ (b':'
        ∷ (pad_zeros 2 (to_string t.minutes)
            ++ (b':'
                ∷ (pad_zeros 2 (to_string t.seconds)
                    ++ (b'.' ∷ pad_zeros 4 (to_string t.fractions))))))

unfoldable pub print_timestamp : DateFields → TimeFields → Bytes
print_timestamp d t = print_date d ++ (b'T' ∷ print_time t)

-- The zone that the engine names: an offset is appended, a region behind a blank.
unfoldable pub append_zone : Bytes → Bytes → Bytes
append_zone out [] = out
append_zone out (c ∷ cs) = if is_sign c then out ++ (c ∷ cs) else out ++ (b' ' ∷ c ∷ cs)

-- `catch (...)` around the parsers.
abbrev pub or_invalid {ℓ} : {A : Type ℓ} → Result Fault A → Result Fault A
or_invalid (ok a) = ok a
or_invalid (err e) = err invalid_timestamp

-- SQL_TIMESTAMP from text.
unfoldable pub read_timestamp : Bytes → Result Fault (DateFields × TimeFields)
read_timestamp str =
    if leb 19 (length str) && char_at str 10 == b'T'
    then or_invalid
        (do d ← parse_iso_date (take 10 str); t ← parse_iso_time (drop 11 str); ok (d, t))
    else err invalid_timestamp

-- SQL_TIMESTAMP_TZ from text: the wall-clock fields and the zone, which go to the engine.
unfoldable pub read_timestamp_tz : Bytes → Result Fault (DateFields × TimeFields × Bytes)
read_timestamp_tz str = do
  parts ← split_tz_suffix str 19
  d ← parse_iso_date (take 10 parts.0)
  t ← parse_iso_time (drop 11 parts.0)
  ok (d, t, parts.1)
