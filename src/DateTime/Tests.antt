-- ===== src/DateTime/Tests.antt =====
-- The theorems on timestamps and dates, used on single ones.
use fbpp.Prelude.{◌+◌, ◌%◌, ◌^◌, ◌≡◌, refl, some, none, arith}
use fbpp.Prelude.Int.{ℤ, pos, negsuc, ◌+ℤ◌, ◌-ℤ◌, ◌≤ℤ◌}
use fbpp.DateTime.{
  FbTimestamp, nanoseconds, checked, to_firebird_timestamp, from_firebird_timestamp,
  to_firebird_time, from_firebird_time, make_date,
}
use fbpp.DateTime.Stamps.{
  to_firebird_timestamp-from_firebird_timestamp, from_firebird_timestamp-to_firebird_timestamp,
  to_firebird_time-from_firebird_time,
}
use fbpp.DateTime.Civil.{make_date-next_day}

-- The last moment of 1969-12-31.
abbrev stamp : FbTimestamp
stamp = record { date = 40586; time = 863999999 }

to_firebird_timestamp-from_firebird_timestamp_example :
    (t : ℤ) × (from_firebird_timestamp nanoseconds stamp ≡ some t)
    × (to_firebird_timestamp nanoseconds t ≡ stamp)
to_firebird_timestamp-from_firebird_timestamp_example =
    to_firebird_timestamp-from_firebird_timestamp nanoseconds stamp (omega arith) (omega arith)

-- A moment of 150500 nanoseconds before the epoch.
from_firebird_timestamp-to_firebird_timestamp_example :
    (r : ℤ) × (from_firebird_timestamp nanoseconds
        (to_firebird_timestamp nanoseconds (negsuc 150499))
      ≡ some r)
    × (r ≤ℤ negsuc 150499 +ℤ pos 999)
    × (negsuc 150499 ≤ℤ r +ℤ pos 99999)
from_firebird_timestamp-to_firebird_timestamp_example =
    from_firebird_timestamp-to_firebird_timestamp nanoseconds (negsuc 150499)
      (omega arith, omega arith)

-- The last nanosecond before the epoch comes back as the epoch, and 9999-12-31 not at all.
rounded_late :
    from_firebird_timestamp nanoseconds (to_firebird_timestamp nanoseconds (negsuc 0))
    ≡ some (pos 0)
unfolding from_firebird_timestamp to_firebird_timestamp ◌+ℤ◌ ◌-ℤ◌
rounded_late = refl

last_date : from_firebird_timestamp nanoseconds (record { date = 2973483; time = 0 }) ≡ none
unfolding from_firebird_timestamp checked ◌+ℤ◌ ◌-ℤ◌
last_date = refl

to_firebird_time-from_firebird_time_example : to_firebird_time (from_firebird_time 5) ≡ 5
to_firebird_time-from_firebird_time_example = to_firebird_time-from_firebird_time 5 (omega arith)

make_date-next_day_example :
    (make_date (pos 2024) 3 1 ≡ (make_date (pos 2024) 2 29 + 1) % 2 ^ 32)
    × (make_date (pos 1970) 1 1 ≡ 40587)
make_date-next_day_example =
    make_date-next_day 2024 2 29
      (omega arith, omega arith, omega arith, omega arith, omega arith, omega arith) (omega arith)
