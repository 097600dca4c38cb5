-- ===== src/DateTime/Stamps.antt =====
-- `to_firebird_timestamp` and `from_firebird_timestamp`, one behind the other.
use fbpp.Prelude.{
  ℕ, suc, ◌+◌, ◌-◌, ◌*◌, ◌/◌, ◌%◌, ◌^◌, ◌≤◌, ◌<◌, ◌≡◌, ◌==◌, if◌then◌else◌, arith, inl, inr,
  Bool-cases, none, some,
}
use fbpp.Prelude.Int.{
  ℤ, pos, negsuc, pos_part, neg_part, ◌+ℤ◌, ◌-ℤ◌, ◌≤ℤ◌, is_neg, sub_ℕ, scale_by, quot,
}
use fbpp.DateTime.{
  micros_per_day, Clock, nanoseconds, hundred_nanoseconds, ticks_per_micro, FbTimestamp,
  stamp_of_micros, checked, to_firebird_timestamp, from_firebird_timestamp, to_firebird_time,
  from_firebird_time,
}

abbrev pub IsStamp : FbTimestamp → Type 0
IsStamp ts = (ts.date < 2 ^ 32) × (ts.time < 864000000)

-- The microseconds since the Unix epoch, without a bound.
abbrev pub micros_of : FbTimestamp → ℤ
micros_of ts = scale_by (pos ts.date -ℤ pos 40587) micros_per_day +ℤ pos (ts.time * 100)

stamp_of_micros-micros_of : (ts : FbTimestamp) → IsStamp ts → stamp_of_micros (micros_of ts) ≡ ts
unfolding stamp_of_micros ◌+ℤ◌ ◌-ℤ◌
stamp_of_micros-micros_of ts (d, t) = ground arith

abbrev pub IsInt64 : ℤ → Type 0
IsInt64 z = (neg_part z ≤ 2 ^ 63) × (pos_part z < 2 ^ 63)

checked-IsInt64 : (z : ℤ) → IsInt64 z → checked z ≡ some z
unfolding checked
checked-IsInt64 z (l, h) = ground arith

days-IsInt64 :
    (clock : Clock) (ts : FbTimestamp)
    → IsInt64 (scale_by (micros_of ts) (ticks_per_micro clock))
    → IsInt64 (scale_by (pos ts.date -ℤ pos 40587) micros_per_day)
unfolding ◌+ℤ◌ ◌-ℤ◌
days-IsInt64 nanoseconds ts i = ground arith
days-IsInt64 hundred_nanoseconds ts i = ground arith

micros-IsInt64 : (clock : Clock) (z : ℤ) → IsInt64 (scale_by z (ticks_per_micro clock)) → IsInt64 z
micros-IsInt64 nanoseconds z i = ground arith
micros-IsInt64 hundred_nanoseconds z i = ground arith

-- Where the ticks fit, nothing on the way overflows.
from_firebird_timestamp-fits :
    (clock : Clock) (ts : FbTimestamp)
    → IsInt64 (scale_by (micros_of ts) (ticks_per_micro clock))
    → from_firebird_timestamp clock ts ≡ some (scale_by (micros_of ts) (ticks_per_micro clock))
unfolding from_firebird_timestamp
from_firebird_timestamp-fits clock ts i =
    rw
      (
        checked-IsInt64 _ (days-IsInt64 clock ts i),
        checked-IsInt64 _ (micros-IsInt64 clock (micros_of ts) i),
      )
      (checked-IsInt64 _ i)

quot-scale_by :
    (clock : Clock) (z : ℤ) → quot (scale_by z (ticks_per_micro clock)) (ticks_per_micro clock) ≡ z
quot-scale_by nanoseconds z = ground arith
quot-scale_by hundred_nanoseconds z = ground arith

-- The first day that a time point may not reach the end of: 2262-04-11 in nanoseconds.
abbrev pub last_day : Clock → ℕ
last_day nanoseconds = 147338
last_day hundred_nanoseconds = 10715786

in_clock :
    (clock : Clock) (ts : FbTimestamp)
    → ts.time < 864000000
    → ts.date < last_day clock
    → IsInt64 (scale_by (micros_of ts) (ticks_per_micro clock))
unfolding ◌+ℤ◌ ◌-ℤ◌
in_clock nanoseconds ts t d = ground arith
in_clock hundred_nanoseconds ts t d = ground arith

-- A Firebird timestamp with a time of day, before the last day that the clock reaches, which is
-- 2262-04-11 where it counts nanoseconds: the conversion to a time point does not overflow, and that
-- time point is converted to the timestamp.
pub to_firebird_timestamp-from_firebird_timestamp :
    (clock : Clock) (ts : FbTimestamp)
    → ts.time < 864000000
    → ts.date < last_day clock
    → (t : ℤ) × (from_firebird_timestamp clock ts ≡ some t) × (to_firebird_timestamp clock t ≡ ts)
unfolding to_firebird_timestamp
to_firebird_timestamp-from_firebird_timestamp clock ts t d = (
  scale_by (micros_of ts) (ticks_per_micro clock),
  from_firebird_timestamp-fits clock ts (in_clock clock ts t d),
  rw (quot-scale_by clock (micros_of ts)) (stamp_of_micros-micros_of ts (stamp clock d, t)),
)
  where
    stamp : (c : Clock) → ts.date < last_day c → ts.date < 2 ^ 32
    stamp nanoseconds h = omega (arith, h)
    stamp hundred_nanoseconds h = omega (arith, h)

-- A date behind the last day overflows.
from_firebird_timestamp-overflow :
    (clock : Clock) (ts : FbTimestamp)
    → last_day clock < ts.date
    → from_firebird_timestamp clock ts ≡ none
unfolding from_firebird_timestamp checked ◌+ℤ◌ ◌-ℤ◌
from_firebird_timestamp-overflow nanoseconds ts h = ground arith
from_firebird_timestamp-overflow hundred_nanoseconds ts h = ground arith

abbrev pub InRange : ℤ → Type 0
InRange m = (neg_part m ≤ 40587 * micros_per_day) × (pos_part m < (2 ^ 32 - 40587) * micros_per_day)

-- Before the epoch: whole days, and a rest.
before_epoch :
    (n : ℕ)
    → suc n ≤ 40587 * micros_per_day
    → stamp_of_micros (negsuc n) ≡ (
        if suc n % micros_per_day == 0
        then record { date = 40587 - suc n / micros_per_day; time = 0 }
        else record {
          date = 40586 - suc n / micros_per_day;
          time = (micros_per_day - suc n % micros_per_day) / 100;
        })
unfolding stamp_of_micros ◌+ℤ◌ ◌-ℤ◌
before_epoch n h = ground arith

from_early :
    (date time : ℕ)
    → date ≤ 40587
    → micros_of (record { date = date; time = time })
      ≡ sub_ℕ (time * 100) ((40587 - date) * micros_per_day)
unfolding ◌+ℤ◌ ◌-ℤ◌
from_early date time h = ground arith

near :
    (n a b : ℕ)
    → a + suc n ≤ b
    → b ≤ a + suc n + 99
    → (sub_ℕ a b ≤ℤ negsuc n) × (negsuc n ≤ℤ sub_ℕ a b +ℤ pos 99)
unfolding ◌+ℤ◌
near n a b h k = ground arith

micros_of-stamp_of_micros :
    (m : ℤ)
    → InRange m
    → (micros_of (stamp_of_micros m) ≤ℤ m) × (m ≤ℤ micros_of (stamp_of_micros m) +ℤ pos 99)
unfolding stamp_of_micros ◌+ℤ◌ ◌-ℤ◌
micros_of-stamp_of_micros (pos n) h = ground arith
micros_of-stamp_of_micros (negsuc n) (h, k) =
    rw (before_epoch n (ground (arith, h))) (elim (Bool-cases (suc n % micros_per_day == 0)) [
      | inl e ↦
          rw (e, from_early (40587 - suc n / micros_per_day) 0 (omega arith))
            (near n 0 _ (ground arith) (ground arith))
      | inr e ↦
          rw
            (
              e,
              from_early (40586 - suc n / micros_per_day)
                  ((micros_per_day - suc n % micros_per_day) / 100) (omega arith),
            )
            (near n _ _ (ground arith) (ground arith))
    ])

-- Ticks that the day of the timestamp has room for, and by how much a moment before the epoch is
-- rounded up.
abbrev pub IsTicks : Clock → ℤ → Type 0
IsTicks clock t =
    (neg_part t ≤ 40587 * micros_per_day * ticks_per_micro clock) × (pos_part t < 2 ^ 63)

abbrev pub rounded_up : Clock → ℤ → ℤ
rounded_up clock t = if is_neg t then pos (ticks_per_micro clock - 1) else pos 0

ticks-InRange : (clock : Clock) (t : ℤ) → IsTicks clock t → InRange (quot t (ticks_per_micro clock))
ticks-InRange nanoseconds t (l, h) = ground arith
ticks-InRange hundred_nanoseconds t (l, h) = ground arith

-- The bounds on microseconds, in ticks.
in_ticks :
    (clock : Clock) (t x : ℤ)
    → IsTicks clock t
    → x ≤ℤ quot t (ticks_per_micro clock)
    → quot t (ticks_per_micro clock) ≤ℤ x +ℤ pos 99
    → IsInt64 (scale_by x (ticks_per_micro clock))
      × (scale_by x (ticks_per_micro clock) ≤ℤ t +ℤ rounded_up clock t)
      × (t ≤ℤ scale_by x (ticks_per_micro clock) +ℤ pos (100 * ticks_per_micro clock - 1))
unfolding ◌+ℤ◌
in_ticks nanoseconds t x i a b = (ground arith, ground arith, ground arith)
in_ticks hundred_nanoseconds t x i a b = (ground arith, ground arith, ground arith)

-- A time point from 1858-11-17 on is converted to a timestamp that is converted back without an
-- overflow, to a time point at most 100 microseconds less a tick before it; and not behind it, but
-- for time points before 1970, which may come back less than a microsecond late.
pub from_firebird_timestamp-to_firebird_timestamp :
    (clock : Clock) (t : ℤ)
    → IsTicks clock t
    → (r : ℤ) × (from_firebird_timestamp clock (to_firebird_timestamp clock t) ≡ some r)
      × (r ≤ℤ t +ℤ rounded_up clock t)
      × (t ≤ℤ r +ℤ pos (100 * ticks_per_micro clock - 1))
unfolding to_firebird_timestamp
from_firebird_timestamp-to_firebird_timestamp clock t i =
    let m : ℤ = quot t (ticks_per_micro clock) in
    let ts : FbTimestamp = stamp_of_micros m in
    let (low, high) = micros_of-stamp_of_micros m (ticks-InRange clock t i) in
    let (fits, before, behind) = in_ticks clock t (micros_of ts) i low high in
    (
      scale_by (micros_of ts) (ticks_per_micro clock),
      from_firebird_timestamp-fits clock ts fits,
      before,
      behind,
    )

-- A time of day in its range comes back.
pub to_firebird_time-from_firebird_time :
    (t : ℕ) → t < 864000000 → to_firebird_time (from_firebird_time t) ≡ t
unfolding to_firebird_time from_firebird_time
to_firebird_time-from_firebird_time t h = omega arith
