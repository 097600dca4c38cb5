-- ===== src/Codec/Integer.antt =====
-- `write_sql_value` and `read_sql_value` for the integral types.
pub mod Scale
pub mod RoundTrip
pub mod Refused
pub mod AsText
use fbpp.Prelude.{
  ℕ, ◌+◌, ◌-◌, ◌^◌, Bool, true, false, not, [], ◌∷◌, Option, none, some, ◌==◌, if◌then◌else◌,
}
use fbpp.Prelude.Int.{ℤ, pos, negsuc, neg_part, is_neg, is_zero, quot, rem, wrap}
use fbpp.Prelude.Ascii.{Bytes}
use fbpp.Prelude.Result.{Result, ok, err, ◌>>=◌}
use fbpp.Message.{SqlType, FieldInfo}
use fbpp.Message.Wire.{get_bytes, le_bytes, from_le, to_signed}
use fbpp.Codec.Text.{write_text}
use fbpp.Codec.{
  Fault, null_value, unsupported, fractional_part, negative_into_unsigned, Outside, Context,
  set_not_null, is_null, normalize_sql_type, Width, half, lowest, highest, checked_narrow,
  pow10_int, scale_up_checked, int_bytes, get_int, finish_write, int_to_string,
}

-- An integral type of C++ but bool: its size, its limits, and whether it is `uint64_t`.
pub record IntType : Type 0 where
  pub size : ℕ
  pub low : ℤ
  pub high : ℤ
  pub is_u64 : Bool

-- `static_cast<int64_t>`.
unfoldable pub numeric_value : ℤ → ℤ
numeric_value v = to_signed (2 ^ 63) (wrap (2 ^ 63 + 2 ^ 63) v)

abbrev pub narrowed : Width → ℤ → Result Fault Bytes
narrowed w z = checked_narrow (lowest w) (highest w) z >>= λ v. ok (int_bytes w v)

-- A column with decimal places.
unfoldable pub write_scaled : Outside → Context → SqlType → ℕ → ℤ → Bytes → Result Fault Bytes
write_scaled E ctx SqlType.short scale v m =
    finish_write ctx m (scale_up_checked v scale >>= narrowed Width.bits16)
write_scaled E ctx SqlType.long scale v m =
    finish_write ctx m (scale_up_checked v scale >>= narrowed Width.bits32)
write_scaled E ctx SqlType.int64 scale v m =
    finish_write ctx m (scale_up_checked v scale >>= λ z. ok (int_bytes Width.bits64 z))
write_scaled E ctx _ scale v m = write_text E ctx (int_to_string v) m

abbrev pub truth : ℤ → Bytes
truth v = if is_zero v then 0 ∷ [] else 1 ∷ []

abbrev pub narrowed_u32 : ℤ → Result Fault Bytes
narrowed_u32 v =
    checked_narrow (pos 0) (pos (2 ^ 32 - 1)) v >>= λ z. ok (le_bytes 4 (wrap (2 ^ 32) z))

unfoldable pub write_plain : Outside → Context → SqlType → ℤ → Bytes → Result Fault Bytes
write_plain E ctx SqlType.short v m = finish_write ctx m (narrowed Width.bits16 v)
write_plain E ctx SqlType.long v m = finish_write ctx m (narrowed Width.bits32 v)
write_plain E ctx SqlType.int64 v m = finish_write ctx m (ok (int_bytes Width.bits64 v))
write_plain E ctx SqlType.float v m = finish_write ctx m (ok (E.float_of v))
write_plain E ctx SqlType.double v m = finish_write ctx m (ok (E.double_of v))
write_plain E ctx SqlType.d_float v m = finish_write ctx m (ok (E.double_of v))
write_plain E ctx SqlType.boolean v m = finish_write ctx m (ok (truth v))
write_plain E ctx SqlType.type_date v m = finish_write ctx m (narrowed_u32 v)
write_plain E ctx SqlType.type_time v m = finish_write ctx m (narrowed_u32 v)
write_plain E ctx _ v m = write_text E ctx (int_to_string v) m

-- With no field nothing is written, and the null indicator is cleared.
unfoldable pub write_field : Outside → Context → Option FieldInfo → ℤ → Bytes → Result Fault Bytes
write_field E ctx none v m = ok (set_not_null ctx.null_indicator m)
write_field E ctx (some f) v m =
    if is_neg f.scale
    then write_scaled E ctx (normalize_sql_type f.type) (neg_part f.scale) v m
    else write_plain E ctx (normalize_sql_type f.type) v m

unfoldable pub write_integer : Outside → Context → ℤ → Bytes → Result Fault Bytes
unfolding write_field write_scaled write_plain numeric_value
write_integer E ctx value m = write_field E ctx ctx.field (numeric_value value) m

-- The integer at the data pointer, by the type of the column.
unfoldable pub raw_integer : Context → SqlType → Bytes → Result Fault ℤ
raw_integer ctx SqlType.short m = ok (get_int Width.bits16 ctx m)
raw_integer ctx SqlType.long m = ok (get_int Width.bits32 ctx m)
raw_integer ctx SqlType.int64 m = ok (get_int Width.bits64 ctx m)
raw_integer ctx SqlType.boolean m = ok (pos (from_le (get_bytes m ctx.data_at 1)))
raw_integer ctx SqlType.type_date m = ok (pos (from_le (get_bytes m ctx.data_at 4)))
raw_integer ctx SqlType.type_time m = ok (pos (from_le (get_bytes m ctx.data_at 4)))
raw_integer ctx _ m = err unsupported

unfoldable pub type_of_size : IntType → SqlType
type_of_size T =
    if T.size == 8 then SqlType.int64 else if T.size == 4 then SqlType.long else SqlType.short

abbrev pub field_type : IntType → Option FieldInfo → SqlType
field_type T none = type_of_size T
field_type T (some f) = normalize_sql_type f.type

-- The scale is taken off, which must leave no remainder.
abbrev pub descaled : Option FieldInfo → ℤ → Result Fault ℤ
descaled none raw = ok raw
descaled (some f) raw =
    if is_neg f.scale
    then (if is_zero (rem raw (pow10_int (neg_part f.scale)))
        then ok (quot raw (pow10_int (neg_part f.scale)))
        else err fractional_part)
    else ok raw

unfoldable pub into_target : IntType → ℤ → Result Fault ℤ
into_target T raw =
    if T.is_u64
    then (if is_neg raw then err negative_into_unsigned else ok raw)
    else checked_narrow T.low T.high raw

unfoldable pub read_field : IntType → Context → Option FieldInfo → Bytes → Result Fault ℤ
unfolding raw_integer into_target
read_field T ctx field m = do
  raw ← raw_integer ctx (field_type T field) m
  value ← descaled field raw
  into_target T value

unfoldable pub read_integer : IntType → Context → Bytes → Result Fault ℤ
unfolding read_field
read_integer T ctx m =
    if is_null ctx.null_indicator m then err null_value else read_field T ctx ctx.field m
