-- ===== src/Schema/TypeMapper/Scaled.antt =====
-- Columns with decimal places in the generated structs, where the scaled numeric type of the adapter
-- is not asked for, as it is by default.
use fbpp.Prelude.{◌^◌, ◌≡◌, refl, ◌∙◌, ap, Bool, true, false, some, arith}
use fbpp.Prelude.Int.{ℤ, neg_part, is_neg, is_zero, rem}
use fbpp.Prelude.Ascii.{Bytes, codes}
use fbpp.Prelude.Result.{ok, err}
use fbpp.Message.{FieldInfo}
use fbpp.Codec.{fractional_part, Context, Width, bytes_of, int_bytes, normalize_sql_type}
use fbpp.Codec.Slots.{In, Fits, stored, is_null-stored, get_int-stored}
use fbpp.Codec.Integer.{IntType, read_integer, read_field, raw_integer}
use fbpp.Codec.Integer.Scale.{column}
use fbpp.Codec.Integer.RoundTrip.{raw_integer-column}
use fbpp.Schema.TypeMapper.{
  AdapterConfig, plain_type, with_optional, is_nullable, base_type, map_field,
}

abbrev pub integer_type : Width → Bytes
integer_type Width.bits16 = codes "std::int16_t"
integer_type Width.bits32 = codes "std::int32_t"
integer_type Width.bits64 = codes "std::int64_t"

base_type-column :
    (config : AdapterConfig) (f : FieldInfo) (w : Width)
    → config.use_tt_math_numeric ≡ false
    → base_type config f (column w) ≡ some (plain_type (integer_type w))
unfolding base_type
base_type-column config f Width.bits16 h = refl
base_type-column config f Width.bits32 h = ground arith
base_type-column config f Width.bits64 h = ground arith

read_field-fractional :
    (T : IntType) (ctx : Context) (f : FieldInfo) (w : Width) (raw : ℤ) (m : Bytes)
    → f.type.base ≡ column w
    → is_neg f.scale ≡ true
    → In w raw
    → Fits ctx (bytes_of w) m
    → is_zero (rem raw (10 ^ neg_part f.scale)) ≡ false
    → read_field T ctx (some f) (stored ctx (int_bytes w raw) m) ≡ err fractional_part
unfolding read_field normalize_sql_type
read_field-fractional T ctx f w raw m c s i fits r =
    let after : Bytes = stored ctx (int_bytes w raw) m in
    let held : raw_integer ctx f.type.base after ≡ ok raw =
      ap (λ b. raw_integer ctx b after) c
      ∙ raw_integer-column w ctx after
      ∙ ap ok (get_int-stored w raw ctx m i fits) in
    rw (held, s, r) refl

-- Without the scaled numeric type of the adapter, a SMALLINT, INTEGER or BIGINT column with decimal
-- places gets the integral type of its size in the generated struct; and where the value of the
-- column has a fractional part, reading it into an integral type is an exception.
pub map_field-fractional :
    (config : AdapterConfig) (is_output : Bool) (T : IntType) (ctx : Context) (f : FieldInfo)
    (w : Width) (raw : ℤ) (m : Bytes)
    → config.use_tt_math_numeric ≡ false
    → ctx.field ≡ some f
    → f.type.base ≡ column w
    → is_neg f.scale ≡ true
    → In w raw
    → Fits ctx (bytes_of w) m
    → is_zero (rem raw (10 ^ neg_part f.scale)) ≡ false
    → (map_field f is_output config
        ≡ with_optional (is_nullable f is_output) (some (plain_type (integer_type w))))
      × (read_integer T ctx (stored ctx (int_bytes w raw) m) ≡ err fractional_part)
unfolding map_field read_integer
map_field-fractional config is_output T ctx f w raw m h e c s i fits r = (
  ap (λ b. with_optional (is_nullable f is_output) (base_type config f b)) c
      ∙ ap (with_optional (is_nullable f is_output)) (base_type-column config f w h),
  rw (is_null-stored ctx (bytes_of w) (int_bytes w raw) m fits) (
      ap (λ o. read_field T ctx o (stored ctx (int_bytes w raw) m)) e
      ∙ read_field-fractional T ctx f w raw m c s i fits r),
)
