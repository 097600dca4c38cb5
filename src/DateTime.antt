-- ===== src/DateTime.antt =====
-- include/fbpp/core/timestamp_utils.hpp and the dates of include/fbpp/core/extended_types.hpp.
-- A `time_point` of the system clock is its number of ticks of 64 bits since the Unix epoch. A signed
-- overflow of 64 bits, which C++ leaves undefined, is `none`.
mod Tests
pub mod Stamps
pub mod Civil
use fbpp.Prelude.{
  ℕ, suc, ◌+◌, ◌-◌, ◌*◌, ◌/◌, ◌%◌, ◌^◌, Bool, leb, ltb, ◌==◌, ◌&&◌, if◌then◌else◌, Option, none,
  some,
}
use fbpp.Prelude.Int.{
  ℤ, pos, negsuc, is_neg, pos_part, neg_part, ◌+ℤ◌, ◌-ℤ◌, quot, rem, scale_by, wrap,
}

-- The days from 1858-11-17 to 1970-01-01, and the units of a day.
abbrev pub firebird_epoch_diff : ℕ
firebird_epoch_diff = 40587

abbrev pub time_units_per_day : ℕ
time_units_per_day = 864000000

abbrev pub micros_per_day : ℕ
micros_per_day = 86400000000

pub record FbTimestamp : Type 0 where
  pub date : ℕ
  pub time : ℕ

-- The ticks of the system clock in libstdc++ and in the library of Visual C++.
pub data Clock : Type 0 where
  nanoseconds hundred_nanoseconds : Clock

abbrev pub ticks_per_micro : Clock → ℕ
ticks_per_micro nanoseconds = 1000
ticks_per_micro hundred_nanoseconds = 10

-- The correction for a negative time of day, and the two casts.
unfoldable pub pack_timestamp : ℤ → ℤ → FbTimestamp
pack_timestamp days time_of_day =
    if is_neg time_of_day
    then record {
      date = wrap (2 ^ 32) (days -ℤ pos 1 +ℤ pos firebird_epoch_diff);
      time = wrap (2 ^ 32) (quot (time_of_day +ℤ pos micros_per_day) 100);
    }
    else record {
      date = wrap (2 ^ 32) (days +ℤ pos firebird_epoch_diff);
      time = wrap (2 ^ 32) (quot time_of_day 100);
    }

unfoldable pub stamp_of_micros : ℤ → FbTimestamp
unfolding pack_timestamp
stamp_of_micros total_micros =
    pack_timestamp (quot total_micros micros_per_day) (rem total_micros micros_per_day)

-- `duration_cast<microseconds>` truncates toward zero.
unfoldable pub to_firebird_timestamp : Clock → ℤ → FbTimestamp
unfolding stamp_of_micros
to_firebird_timestamp clock ticks = stamp_of_micros (quot ticks (ticks_per_micro clock))

-- The result of signed arithmetic of 64 bits.
unfoldable pub checked : ℤ → Option ℤ
checked z = if leb (neg_part z) (2 ^ 63) && ltb (pos_part z) (2 ^ 63) then some z else none

abbrev pub and_then : Option ℤ → (ℤ → Option ℤ) → Option ℤ
and_then none next = none
and_then (some z) next = next z

-- The conversion of the microseconds to the ticks of the clock is a multiplication, too.
unfoldable pub from_firebird_timestamp : Clock → FbTimestamp → Option ℤ
unfolding checked
from_firebird_timestamp clock ts =
    and_then (checked (scale_by (pos ts.date -ℤ pos firebird_epoch_diff) micros_per_day)) (λ days.
      and_then (checked (days +ℤ pos (ts.time * 100)))
        (λ total_micros. checked (scale_by total_micros (ticks_per_micro clock))))

-- `(micros / 100) % 864000000`: the unsigned operand makes the remainder one of 64 bits, so a
-- negative quotient is taken modulo 2^64 first. The duration is one of microseconds.
unfoldable pub to_firebird_time : ℤ → ℕ
to_firebird_time micros = wrap (2 ^ 64) (quot micros 100) % time_units_per_day % 2 ^ 32

unfoldable pub from_firebird_time : ℕ → ℤ
from_firebird_time fb_time = pos (fb_time * 100)

-- Date(year, month, day): days from 1858-11-17, after Hinnant's days_from_civil.
abbrev pub civil_year : ℤ → ℕ → ℤ
civil_year year month = if leb month 2 then year -ℤ pos 1 else year

abbrev pub era : ℤ → ℤ
era y = quot (if is_neg y then y -ℤ pos 399 else y) 400

abbrev pub year_of_era : ℤ → ℕ
year_of_era y = wrap (2 ^ 32) (y -ℤ scale_by (era y) 400)

-- Unsigned arithmetic: `month + -3` and `day - 1` wrap around.
abbrev pub day_of_year : ℕ → ℕ → ℕ
day_of_year month day =
    ((153 * (if ltb 2 month then month - 3 else month + 9) + 2) % 2 ^ 32 / 5 + day + (2 ^ 32 - 1))
    % 2 ^ 32

abbrev pub day_of_era : ℕ → ℕ → ℕ
day_of_era yoe doy = (yoe * 365 + yoe / 4 - yoe / 100 + doy) % 2 ^ 32

unfoldable pub make_date : ℤ → ℕ → ℕ → ℕ
make_date year month day =
    let y = civil_year year month in
    wrap (2 ^ 32) (
      scale_by (era y) 146097
      +ℤ pos (day_of_era (year_of_era y) (day_of_year month day))
      -ℤ pos 719468
      +ℤ pos 40587)
