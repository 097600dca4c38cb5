-- ===== src/Schema/TypeMapper.antt =====
-- src/schema/type_mapper.cpp: the C++ type of a field in the generated code.
pub mod Scaled
use fbpp.Prelude.{
  ℕ, ◌^◌, ◌+◌, Bool, true, false, ◌&&◌, ◌||◌, ◌++◌, Option, none, some, ◌==◌, if◌then◌else◌,
}
use fbpp.Prelude.Int.{ℤ, is_neg, wrap}
use fbpp.Prelude.Ascii.{Bytes, codes}
use fbpp.Message.{SqlType, FieldInfo}
use fbpp.Message.Wire.{to_signed}
use fbpp.Codec.{int_to_string}

pub record AdapterConfig : Type 0 where
  pub use_tt_math_numeric : Bool
  pub use_tt_math_int128 : Bool
  pub use_chrono_datetime : Bool
  pub use_cpp_decimal_dec_float : Bool
  pub use_string_for_text_blob : Bool
  pub generate_aliases : Bool

-- The scaled numeric is the number of words with the scale.
pub record CppTypeInfo : Type 0 where
  pub cpp_type : Bytes
  pub needs_optional : Bool
  pub needs_string : Bool
  pub needs_extended_types : Bool
  pub needs_tt_math : Bool
  pub needs_chrono : Bool
  pub needs_cpp_decimal : Bool
  pub scaled_info : Option (ℕ × ℤ)

abbrev pub plain_type : Bytes → CppTypeInfo
plain_type t = record {
  cpp_type = t;
  needs_optional = false;
  needs_string = false;
  needs_extended_types = false;
  needs_tt_math = false;
  needs_chrono = false;
  needs_cpp_decimal = false;
  scaled_info = none;
}

abbrev pub string_type : CppTypeInfo
string_type = record (plain_type (codes "std::string")) { needs_string = true }

abbrev pub extended_type : Bytes → CppTypeInfo
extended_type t = record (plain_type t) { needs_extended_types = true }

abbrev pub tt_math_type : Bytes → CppTypeInfo
tt_math_type t = record (plain_type t) { needs_tt_math = true }

abbrev pub decimal_type : Bytes → CppTypeInfo
decimal_type t = record (plain_type t) { needs_cpp_decimal = true }

abbrev pub chrono_type : Bytes → CppTypeInfo
chrono_type t = record (plain_type t) { needs_chrono = true }

-- The scale is cast to an int16_t for the alias.
abbrev pub numeric_type : ℕ → Bytes → ℤ → CppTypeInfo
numeric_type words prefix scale =
    record (tt_math_type (prefix ++ (int_to_string scale ++ codes ">"))) {
      scaled_info = some (words, to_signed (2 ^ 15) (wrap (2 ^ 15 + 2 ^ 15) scale));
    }

abbrev pub numeric_one : ℤ → CppTypeInfo
numeric_one = numeric_type 1 (codes "fbpp::adapters::TTNumeric<1, ")

abbrev pub numeric_two : ℤ → CppTypeInfo
numeric_two = numeric_type 2 (codes "fbpp::adapters::TTNumeric<2, ")

-- An integer column that may have decimal places.
abbrev pub scaled_or : AdapterConfig → FieldInfo → Bytes → CppTypeInfo
scaled_or config f t =
    if is_neg f.scale && config.use_tt_math_numeric then numeric_one f.scale else plain_type t

abbrev pub wide_type : AdapterConfig → FieldInfo → CppTypeInfo
wide_type config f =
    if is_neg f.scale
    then (if config.use_tt_math_numeric
        then numeric_two f.scale
        else extended_type (codes "fbpp::core::Int128"))
    else if config.use_tt_math_int128
    then tt_math_type (codes "fbpp::adapters::Int128")
    else extended_type (codes "fbpp::core::Int128")

abbrev pub chrono_or : AdapterConfig → Bytes → Bytes → CppTypeInfo
chrono_or config chrono core =
    if config.use_chrono_datetime then chrono_type chrono else extended_type core

abbrev pub decimal_or : AdapterConfig → Bytes → Bytes → CppTypeInfo
decimal_or config adapter core =
    if config.use_cpp_decimal_dec_float then decimal_type adapter else extended_type core

abbrev pub blob_type : AdapterConfig → FieldInfo → CppTypeInfo
blob_type config f =
    if f.sub_type == 1
    then (if config.use_string_for_text_blob
        then string_type
        else extended_type (codes "fbpp::core::TextBlob"))
    else extended_type (codes "fbpp::core::Blob")

-- The switch; `none` is the exception for a type that it does not have.
unfoldable pub base_type : AdapterConfig → FieldInfo → SqlType → Option CppTypeInfo
base_type config f SqlType.short = some (plain_type (codes "std::int16_t"))
base_type config f SqlType.long = some (scaled_or config f (codes "std::int32_t"))
base_type config f SqlType.int64 = some (scaled_or config f (codes "std::int64_t"))
base_type config f SqlType.float = some (plain_type (codes "float"))
base_type config f SqlType.double = some (plain_type (codes "double"))
base_type config f SqlType.text = some string_type
base_type config f SqlType.varying = some string_type
base_type config f SqlType.boolean = some (plain_type (codes "bool"))
base_type config f SqlType.int128 = some (wide_type config f)
base_type config f SqlType.dec16 =
    some (decimal_or config (codes "fbpp::adapters::DecFloat16") (codes "fbpp::core::DecFloat16"))
base_type config f SqlType.dec34 =
    some (decimal_or config (codes "fbpp::adapters::DecFloat34") (codes "fbpp::core::DecFloat34"))
base_type config f SqlType.type_date =
    some (chrono_or config (codes "std::chrono::year_month_day") (codes "fbpp::core::Date"))
base_type config f SqlType.timestamp = some (
    chrono_or config (codes "std::chrono::system_clock::time_point")
      (codes "fbpp::core::Timestamp"))
base_type config f SqlType.timestamp_tz =
    some (chrono_or config (codes "fbpp::core::ZonedTimestamp") (codes "fbpp::core::TimestampTz"))
base_type config f SqlType.type_time = some (
    chrono_or config (codes "std::chrono::hh_mm_ss<std::chrono::microseconds>")
      (codes "fbpp::core::Time"))
base_type config f SqlType.time_tz = some (extended_type (codes "fbpp::core::TimeTz"))
base_type config f SqlType.blob = some (blob_type config f)
base_type config f _ = none

abbrev pub with_optional : Bool → Option CppTypeInfo → Option CppTypeInfo
with_optional nullable none = none
with_optional false (some t) = some t
with_optional true (some t) = some record t {
  needs_optional = true;
  cpp_type = codes "std::optional<" ++ (t.cpp_type ++ codes ">");
}

-- An input takes NULL by the metadata's flag, an output also by the lowest bit of its type.
abbrev pub is_nullable : FieldInfo → Bool → Bool
is_nullable f is_output = f.nullable || (is_output && f.type.flag)

unfoldable pub map_field : FieldInfo → Bool → AdapterConfig → Option CppTypeInfo
unfolding base_type
map_field f is_output config =
    with_optional (is_nullable f is_output) (base_type config f f.type.base)
