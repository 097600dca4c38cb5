-- ===== src/Codec/Tests.antt =====
-- The theorems on integers and strings in a message, used on sample columns.
use fbpp.Prelude.{◌≡◌, refl, [], inl, inr, arith}
use fbpp.Prelude.Int.{pos, negsuc, ◌+ℤ◌}
use fbpp.Prelude.Ascii.{Bytes, codes, str_eq, isspace}
use fbpp.Prelude.Decimal.{decimal_from}
use fbpp.Prelude.Result.{ok}
use fbpp.Message.{SqlType}
use fbpp.Codec.{Width, int_bytes, exact_type}
use fbpp.Codec.Samples.{absent, price, title, at_field, blank_message}
use fbpp.Codec.Slots.{Fits, stored}
use fbpp.Codec.Scientific.{normalize_scientific}
use fbpp.Codec.Text.{write_text, read_text}
use fbpp.Codec.Integer.{write_integer}
use fbpp.Codec.Integer.Refused.{OutOfRange, write_integer-OutOfRange}
use fbpp.Codec.Integer.AsText.{write_text-read_text}

price-Fits : Fits (at_field price) 4 blank_message
price-Fits = record { data_fits = omega arith; indicator_fits = (omega arith, inl (omega arith)) }

title-Fits : Fits (at_field title) 8 blank_message
title-Fits = record { data_fits = omega arith; indicator_fits = (omega arith, inl (omega arith)) }

title_exact : exact_type title.type ≡ SqlType.varying
unfolding exact_type
title_exact = refl

price_exact : exact_type price.type ≡ SqlType.long
unfolding exact_type
price_exact = refl

write_integer-OutOfRange_example :
    OutOfRange (write_integer absent (at_field price) (pos 21474837) blank_message)
write_integer-OutOfRange_example =
    write_integer-OutOfRange absent Width.bits32 (at_field price) price (pos 21474837) blank_message
      refl refl (omega arith) (omega arith, omega arith) (λ h. absurd (omega (arith, h.0)))

write_text-read_text_example :
    (str : Bytes) × (read_text absent
        (at_field price)
        []
        (stored (at_field price) (int_bytes Width.bits32 (negsuc 1233)) blank_message)
      ≡ ok str)
    × (write_text absent (at_field price) str blank_message
        ≡ ok (stored (at_field price) (int_bytes Width.bits32 (negsuc 1233)) blank_message))
write_text-read_text_example =
    write_text-read_text absent (at_field price) price Width.bits32 1 (negsuc 1233) [] blank_message
      refl price_exact refl (omega arith) (omega arith, omega arith) (omega arith)
      (inr (omega arith)) price-Fits

plain_number : normalize_scientific (codes "-1.25E+1") ≡ ok (codes "-12.5")
unfolding normalize_scientific decimal_from str_eq isspace ◌+ℤ◌
plain_number = refl

small_number : normalize_scientific (codes "15E-4") ≡ ok (codes "0.0015")
unfolding normalize_scientific decimal_from str_eq isspace ◌+ℤ◌
small_number = refl

-- A zero with an exponent keeps the zeros that the exponent stands for.
zeros : normalize_scientific (codes "0E+3") ≡ ok (codes "0000")
unfolding normalize_scientific decimal_from str_eq isspace ◌+ℤ◌
zeros = refl
