-- ===== src/Codec/Text.antt =====
-- `write_sql_value` and `read_sql_value` for std::string.
pub mod RoundTrip
use fbpp.Prelude.{
  ℕ, ◌-◌, Bool, true, false, not, ◌&&◌, ◌||◌, [], ◌∷◌, ◌++◌, none, some, Option, ltb, ◌==◌, ◌+◌,
  if◌then◌else◌, length, replicate,
}
use fbpp.Prelude.Int.{ℤ, pos, negsuc, is_neg}
use fbpp.Prelude.Ascii.{Bytes, codes, str_eq}
use fbpp.Prelude.Result.{Result, ok, err, ◌>>=◌}
use fbpp.Message.{SqlType, FieldInfo}
use fbpp.Message.Wire.{put_bytes, get_bytes, le_bytes, from_le}
use fbpp.NamedParam.Positional.{nonempty}
use fbpp.Conversion.Decimals.{string_to_decimal_i64, decimal_to_string_i64}
use fbpp.Conversion.Iso.{
  parse_iso_date, parse_iso_time, split_tz_suffix, read_timestamp, read_timestamp_tz, print_date,
  print_time, print_timestamp, append_zone,
}
use fbpp.Codec.Scientific.{normalize_scientific}
use fbpp.Codec.{
  Fault, null_value, too_long, unsupported, from_text, or_engine, Outside, Context, set_not_null,
  is_null, exact_type, Width, half, lowest, highest, checked_narrow, int_bytes, get_int,
  finish_write, int_to_string,
}

-- `createBlob` of the codec: with no transaction, an identifier of zeros.
unfoldable pub blob_id : Outside → Context → Bytes → Result Fault Bytes
blob_id E ctx str =
    if ctx.has_transaction then or_engine (E.create_blob str) else ok (replicate 8 0)

-- SQL_TEXT is filled up with blanks; SQL_VARYING has its length in front.
unfoldable pub padded : ℕ → Bytes → Bytes
padded width str = str ++ replicate (width - length str) b' '

unfoldable pub prefixed : Bytes → Bytes
prefixed str = le_bytes 2 (length str) ++ str

unfoldable pub fitting : FieldInfo → Bytes → Bytes → Result Fault Bytes
fitting f str stored = if ltb f.length (length str) then err too_long else ok stored

abbrev pub truth_values : Bytes → Bool
truth_values str =
    str_eq str (codes "true") || (str_eq str (codes "1") || str_eq str (codes "TRUE"))

-- A decimal in an integer column; `string_to_decimal_i64` refuses a scale that is not negative.
unfoldable pub decimal_bytes : Width → FieldInfo → Bytes → Result Fault Bytes
decimal_bytes w f str = do
  n ← from_text (string_to_decimal_i64 str f.scale)
  v ← checked_narrow (lowest w) (highest w) n
  ok (int_bytes w v)

-- What is written at the data pointer, by the type of the column.
unfoldable pub text_bytes : Outside → Context → FieldInfo → SqlType → Bytes → Result Fault Bytes
unfolding decimal_bytes blob_id fitting padded prefixed
text_bytes E ctx f SqlType.blob str = blob_id E ctx str
text_bytes E ctx f SqlType.text str = fitting f str (padded f.length str)
text_bytes E ctx f SqlType.varying str = fitting f str (prefixed str)
text_bytes E ctx f SqlType.int128 str = or_engine (E.int128_from f.scale str)
text_bytes E ctx f SqlType.dec16 str = or_engine (E.dec16_from str)
text_bytes E ctx f SqlType.dec34 str = or_engine (E.dec34_from str)
text_bytes E ctx f SqlType.timestamp str = do
  r ← from_text (read_timestamp str)
  ok (le_bytes 4 (E.encode_date r.0) ++ le_bytes 4 (E.encode_time r.1))
text_bytes E ctx f SqlType.timestamp_tz str = do
  r ← from_text (read_timestamp_tz str)
  z ← or_engine (E.encode_timestamp_tz r.0 r.1 r.2)
  ok (le_bytes 4 z.0 ++ (le_bytes 4 z.1 ++ le_bytes 2 z.2))
text_bytes E ctx f SqlType.type_time str = do
  t ← from_text (parse_iso_time str)
  ok (le_bytes 4 (E.encode_time t))
text_bytes E ctx f SqlType.time_tz str = do
  parts ← from_text (split_tz_suffix str 8)
  t ← from_text (parse_iso_time parts.0)
  z ← or_engine (E.encode_time_tz t parts.1)
  ok (le_bytes 4 z.0 ++ le_bytes 2 z.1)
text_bytes E ctx f SqlType.type_date str = do
  d ← from_text (parse_iso_date str)
  ok (le_bytes 4 (E.encode_date d))
text_bytes E ctx f SqlType.short str = decimal_bytes Width.bits16 f str
text_bytes E ctx f SqlType.long str = decimal_bytes Width.bits32 f str
text_bytes E ctx f SqlType.int64 str = decimal_bytes Width.bits64 f str
text_bytes E ctx f SqlType.float str = or_engine (E.stof str)
text_bytes E ctx f SqlType.double str = or_engine (E.stod str)
text_bytes E ctx f SqlType.d_float str = or_engine (E.stod str)
text_bytes E ctx f SqlType.boolean str = ok (if truth_values str then 1 ∷ [] else 0 ∷ [])
text_bytes E ctx f _ str = err unsupported

abbrev pub write_text_at : Outside → Context → Option FieldInfo → Bytes → Bytes → Result Fault Bytes
write_text_at E ctx none str m = ok (set_not_null ctx.null_indicator m)
write_text_at E ctx (some f) str m = finish_write ctx m (text_bytes E ctx f (exact_type f.type) str)

-- The message with the text written into it.
unfoldable pub write_text : Outside → Context → Bytes → Bytes → Result Fault Bytes
unfolding text_bytes
write_text E ctx str m = write_text_at E ctx ctx.field str m

-- `erase(find_last_not_of(' ') + 1)`.
abbrev pub keep_unless_blank : ℕ → Bytes → Bytes
keep_unless_blank c (d ∷ ds) = c ∷ (d ∷ ds)
keep_unless_blank c [] = if c == b' ' then [] else c ∷ []

unfoldable pub trim_blanks : Bytes → Bytes
trim_blanks [] = []
trim_blanks (c ∷ cs) = keep_unless_blank c (trim_blanks cs)

unfoldable pub int_text : Width → Context → FieldInfo → Bytes → Result Fault Bytes
int_text w ctx f m =
    if is_neg f.scale
    then from_text (decimal_to_string_i64 (get_int w ctx m) f.scale)
    else ok (int_to_string (get_int w ctx m))

abbrev pub u32_at : Bytes → ℕ → ℕ
u32_at m at = from_le (get_bytes m at 4)

abbrev pub u16_at : Bytes → ℕ → ℕ
u16_at m at = from_le (get_bytes m at 2)

-- A BLOB with no transaction takes the default of the switch.
unfoldable pub text_of : Outside → Context → FieldInfo → SqlType → Bytes → Result Fault Bytes
unfolding int_text trim_blanks
text_of E ctx f SqlType.blob m =
    if ctx.has_transaction
    then or_engine (E.load_blob (get_bytes m ctx.data_at 8))
    else err unsupported
text_of E ctx f SqlType.varying m = ok (get_bytes m (ctx.data_at + 2) (u16_at m ctx.data_at))
text_of E ctx f SqlType.text m = ok (trim_blanks (get_bytes m ctx.data_at f.length))
text_of E ctx f SqlType.int128 m = or_engine (E.int128_to f.scale (get_bytes m ctx.data_at 16))
text_of E ctx f SqlType.dec16 m = do
  digits ← or_engine (E.dec16_to (get_bytes m ctx.data_at 8))
  normalize_scientific digits
text_of E ctx f SqlType.dec34 m = do
  digits ← or_engine (E.dec34_to (get_bytes m ctx.data_at 16))
  normalize_scientific digits
text_of E ctx f SqlType.timestamp m = ok (
    print_timestamp (E.decode_date (u32_at m ctx.data_at))
      (E.decode_time (u32_at m (ctx.data_at + 4))))
text_of E ctx f SqlType.timestamp_tz m = do
  r ← or_engine (
      E.decode_timestamp_tz (u32_at m ctx.data_at) (u32_at m (ctx.data_at + 4))
        (u16_at m (ctx.data_at + 8)))
  ok (append_zone (print_timestamp r.0 r.1) r.2)
text_of E ctx f SqlType.type_time m = ok (print_time (E.decode_time (u32_at m ctx.data_at)))
text_of E ctx f SqlType.time_tz m = do
  r ← or_engine (E.decode_time_tz (u32_at m ctx.data_at) (u16_at m (ctx.data_at + 4)))
  ok (append_zone (print_time r.0) r.1)
text_of E ctx f SqlType.type_date m = ok (print_date (E.decode_date (u32_at m ctx.data_at)))
text_of E ctx f SqlType.short m = int_text Width.bits16 ctx f m
text_of E ctx f SqlType.long m = int_text Width.bits32 ctx f m
text_of E ctx f SqlType.int64 m = int_text Width.bits64 ctx f m
text_of E ctx f SqlType.float m = ok (E.print_float (get_bytes m ctx.data_at 4))
text_of E ctx f SqlType.double m = ok (E.print_double (get_bytes m ctx.data_at 8))
text_of E ctx f SqlType.d_float m = ok (E.print_double (get_bytes m ctx.data_at 8))
text_of E ctx f SqlType.boolean m =
    ok (if from_le (get_bytes m ctx.data_at 1) == 0 then codes "false" else codes "true")
text_of E ctx f _ m = err unsupported

abbrev pub read_text_at : Outside → Context → Option FieldInfo → Bytes → Bytes → Result Fault Bytes
read_text_at E ctx none value m = ok value
read_text_at E ctx (some f) value m = text_of E ctx f (exact_type f.type) m

-- `value` is what the variable held before.
unfoldable pub read_text : Outside → Context → Bytes → Bytes → Result Fault Bytes
unfolding text_of
read_text E ctx value m =
    if is_null ctx.null_indicator m then err null_value else read_text_at E ctx ctx.field value m
