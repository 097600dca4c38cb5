-- ===== src/Codec.antt =====
-- include/fbpp/core/detail/sql_value_codec.hpp: values in the bytes of a message. This file has what
-- writing and reading share; the writers and readers are in the children.
pub mod Scientific
pub mod Text
pub mod Slots
pub mod Samples
mod Tests
pub mod Integer
use fbpp.Prelude.{
  ℕ, ◌+◌, ◌-◌, ◌*◌, ◌/◌, ◌^◌, Bool, true, false, not, ◌&&◌, ◌||◌, List, [], ◌∷◌, Option, none, some,
  ltb, leb, ◌==◌, if◌then◌else◌,
}
use fbpp.Prelude.Int.{ℤ, pos, negsuc, pos_part, neg_part, scale_by, wrap, neg}
use fbpp.Prelude.Ascii.{Bytes}
use fbpp.Prelude.Decimal.{to_string}
use fbpp.Prelude.Result.{Result, ok, err}
use fbpp.Message.{SqlType, SqlCode, FieldInfo}
use fbpp.Message.Wire.{put_bytes, get_bytes, le_bytes, from_le, to_signed}
use fbpp.Conversion
use fbpp.Conversion.Iso.{DateFields, TimeFields}

-- `text` is an exception of the text conversions, `engine` one of the engine or of the standard
-- library.
pub data Fault : Type 0 where
  null_value scaled_out_of_range out_of_range too_long unsupported : Fault
  fractional_part negative_into_unsigned engine : Fault
  text : Conversion.Fault → Fault

abbrev pub from_text {ℓ} : {A : Type ℓ} → Result Conversion.Fault A → Result Fault A
from_text (ok a) = ok a
from_text (err e) = err (text e)

abbrev pub or_engine {ℓ} : {A : Type ℓ} → Option A → Result Fault A
or_engine (some a) = ok a
or_engine none = err engine

-- What the codec takes from elsewhere: the bytes of `float` and `double` with their conversions,
-- the IUtil interface of the engine, and the BLOBs of the transaction. `none` is an exception.
pub record Outside : Type 0 where
  pub float_of : ℤ → Bytes
  pub double_of : ℤ → Bytes
  pub stof : Bytes → Option Bytes
  pub stod : Bytes → Option Bytes
  pub print_float : Bytes → Bytes
  pub print_double : Bytes → Bytes
  pub int128_from : ℤ → Bytes → Option Bytes
  pub int128_to : ℤ → Bytes → Option Bytes
  pub dec16_from : Bytes → Option Bytes
  pub dec16_to : Bytes → Option Bytes
  pub dec34_from : Bytes → Option Bytes
  pub dec34_to : Bytes → Option Bytes
  pub encode_date : DateFields → ℕ
  pub decode_date : ℕ → DateFields
  pub encode_time : TimeFields → ℕ
  pub decode_time : ℕ → TimeFields
  pub encode_timestamp_tz : DateFields → TimeFields → Bytes → Option (ℕ × ℕ × ℕ)
  pub decode_timestamp_tz : ℕ → ℕ → ℕ → Option (DateFields × TimeFields × Bytes)
  pub encode_time_tz : TimeFields → Bytes → Option (ℕ × ℕ)
  pub decode_time_tz : ℕ → ℕ → Option (TimeFields × Bytes)
  pub create_blob : Bytes → Option Bytes
  pub load_blob : Bytes → Option Bytes

-- SqlWriteContext and SqlReadContext with the data pointer. The pointers are offsets into the
-- message, and `none` is a null pointer.
pub record Context : Type 0 where
  pub field : Option FieldInfo
  pub has_transaction : Bool
  pub null_indicator : Option ℕ
  pub data_at : ℕ

abbrev pub set_indicator : ℕ → Option ℕ → Bytes → Bytes
set_indicator n none m = m
set_indicator n (some at) m = put_bytes m at (le_bytes 2 n)

-- -1 as an int16_t.
unfoldable pub set_null : Option ℕ → Bytes → Bytes
set_null = set_indicator 65535

unfoldable pub set_not_null : Option ℕ → Bytes → Bytes
set_not_null = set_indicator 0

unfoldable pub is_null : Option ℕ → Bytes → Bool
is_null none m = false
is_null (some at) m = from_le (get_bytes m at 2) == 65535

-- The case that `switch (type)` takes on a code with the lowest bit: none that has a name.
unfoldable pub exact_type : SqlCode → SqlType
exact_type c = if c.flag then SqlType.other 1 else c.base

unfoldable pub normalize_sql_type : SqlCode → SqlType
normalize_sql_type c = c.base

-- Signed integers of 16, 32 and 64 bits: half the modulus and the number of bytes.
pub data Width : Type 0 where
  bits16 bits32 bits64 : Width

abbrev pub half : Width → ℕ
half Width.bits16 = 2 ^ 15
half Width.bits32 = 2 ^ 31
half Width.bits64 = 2 ^ 63

abbrev pub bytes_of : Width → ℕ
bytes_of Width.bits16 = 2
bytes_of Width.bits32 = 4
bytes_of Width.bits64 = 8

abbrev pub leb_int : ℤ → ℤ → Bool
leb_int a b = leb (pos_part a + neg_part b) (pos_part b + neg_part a)

-- `checked_narrow`, with the limits of the target.
unfoldable pub checked_narrow : ℤ → ℤ → ℤ → Result Fault ℤ
checked_narrow low high z =
    if not (leb_int low z) || not (leb_int z high) then err Fault.out_of_range else ok z

abbrev pub lowest : Width → ℤ
lowest w = negsuc (half w - 1)

abbrev pub highest : Width → ℤ
highest w = pos (half w - 1)

-- 10 to the `scale`; it overflows from 19 on, which the code does not rule out.
abbrev pub pow10_int : ℕ → ℕ
pow10_int scale = 10 ^ scale

unfoldable pub scale_up_checked : ℤ → ℕ → Result Fault ℤ
scale_up_checked value scale =
    if ltb 1 (pow10_int scale)
      && (not (leb_int value (pos ((2 ^ 63 - 1) / pow10_int scale)))
          || not (leb_int (neg (pos (2 ^ 63 / pow10_int scale))) value))
    then err Fault.scaled_out_of_range
    else ok (scale_by value (pow10_int scale))

-- The bytes of an integer, and the integer at the data pointer.
unfoldable pub int_bytes : Width → ℤ → Bytes
int_bytes w z = le_bytes (bytes_of w) (wrap (half w + half w) z)

unfoldable pub get_int : Width → Context → Bytes → ℤ
get_int w ctx m = to_signed (half w) (from_le (get_bytes m ctx.data_at (bytes_of w)))

-- The end of each writer: the bytes go to the data pointer, and the null indicator is cleared.
abbrev pub finish_write : Context → Bytes → Result Fault Bytes → Result Fault Bytes
finish_write ctx m (ok stored) =
    ok (set_not_null ctx.null_indicator (put_bytes m ctx.data_at stored))
finish_write ctx m (err e) = err e

abbrev pub int_to_string : ℤ → Bytes
int_to_string (pos n) = to_string n
int_to_string (negsuc n) = b'-' ∷ to_string (n + 1)
