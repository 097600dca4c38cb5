-- ===== src/Conversion/Tests.antt =====
-- The theorems on numbers, dates and times in text, used on values of each kind.
use fbpp.Prelude.{◌^◌, ◌≡◌, refl, ltb, leb, if◌then◌else◌, arith}
use fbpp.Prelude.Int.{pos, negsuc}
use fbpp.Prelude.Ascii.{codes}
use fbpp.Prelude.Result.{ok, err, ◌>>=◌}
use fbpp.Conversion.{numeric_out_of_range}
use fbpp.Conversion.Decimals.{string_to_decimal_i64, decimal_to_string_i64, magnitude, int64_max}
use fbpp.Conversion.Decimals.ReadBack.{string_to_decimal_i64-decimal_to_string_i64}
use fbpp.Conversion.Iso.{DateFields, TimeFields, print_timestamp, append_zone, read_timestamp_tz}
use fbpp.Conversion.Iso.Fields.{IsDate, IsTime}
use fbpp.Conversion.Iso.Suffix.{IsZone, read_timestamp_tz-append_zone}

-- -0.50, which loses its sign.
string_to_decimal_i64-decimal_to_string_i64_example :
    (decimal_to_string_i64 (negsuc 49) (negsuc 1)
      >>= (λ text. string_to_decimal_i64 text (negsuc 1)))
    ≡ (if leb (magnitude (negsuc 49)) int64_max
        then ok (
            if ltb (magnitude (negsuc 49)) (10 ^ 2) then pos (magnitude (negsuc 49)) else negsuc 49)
        else err numeric_out_of_range)
string_to_decimal_i64-decimal_to_string_i64_example =
    string_to_decimal_i64-decimal_to_string_i64 (negsuc 49) 1 (omega arith)

abbrev day : DateFields
day = record { year = 2024; month = 2; day = 29 }

abbrev noon : TimeFields
noon = record { hours = 12; minutes = 5; seconds = 0; fractions = 70 }

day-IsDate : IsDate day
day-IsDate = (omega arith, omega arith, omega arith)

noon-IsTime : IsTime noon
noon-IsTime = (omega arith, omega arith, omega arith, omega arith)

offset-IsZone : IsZone (codes "+05:30")
offset-IsZone = (refl, λ h. (refl, (refl, (refl, (refl, (refl, tt))))))

read_timestamp_tz-append_zone_example :
    read_timestamp_tz (append_zone (print_timestamp day noon) (codes "+05:30"))
    ≡ ok (day, noon, codes "+05:30")
read_timestamp_tz-append_zone_example =
    read_timestamp_tz-append_zone day noon (codes "+05:30") day-IsDate noon-IsTime offset-IsZone
