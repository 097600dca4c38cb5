-- ===== src/Codec/Samples.antt =====
-- Sample columns and messages, for the tests.
use fbpp.Prelude.{ℕ, true, false, [], some, none, replicate}
use fbpp.Prelude.Int.{ℤ, pos, negsuc}
use fbpp.Prelude.Ascii.{Bytes, codes}
use fbpp.Message.{SqlType, FieldInfo}
use fbpp.Conversion.Iso.{DateFields, TimeFields}
use fbpp.Codec.{Outside, Context}
use fbpp.Codec.Integer.{IntType}

abbrev no_date : DateFields
no_date = record { year = 0; month = 0; day = 0 }

abbrev no_time : TimeFields
no_time = record { hours = 0; minutes = 0; seconds = 0; fractions = 0 }

-- An engine that knows nothing.
abbrev pub absent : Outside
absent = record {
  float_of = λ z. replicate 4 0;
  double_of = λ z. replicate 8 0;
  stof = λ s. none;
  stod = λ s. none;
  print_float = λ b. [];
  print_double = λ b. [];
  int128_from = λ z s. none;
  int128_to = λ z b. none;
  dec16_from = λ s. none;
  dec16_to = λ b. none;
  dec34_from = λ s. none;
  dec34_to = λ b. none;
  encode_date = λ d. 0;
  decode_date = λ n. no_date;
  encode_time = λ t. 0;
  decode_time = λ n. no_time;
  encode_timestamp_tz = λ d t z. none;
  decode_timestamp_tz = λ d t z. none;
  encode_time_tz = λ t z. none;
  decode_time_tz = λ t z. none;
  create_blob = λ b. none;
  load_blob = λ b. none;
}

abbrev pub column_at : Bytes → SqlType → ℤ → ℕ → ℕ → ℕ → FieldInfo
column_at name base scale length offset null_offset = record {
  name = name;
  relation = [];
  owner = [];
  alias = name;
  type = record { base = base; flag = false };
  nullable = false;
  sub_type = 0;
  length = length;
  scale = scale;
  char_set = 0;
  offset = offset;
  null_offset = null_offset;
}

-- NUMERIC(9, 2), BIGINT and VARCHAR(6).
abbrev pub price : FieldInfo
price = column_at (codes "PRICE") SqlType.long (negsuc 1) 4 0 4

abbrev pub total : FieldInfo
total = column_at (codes "TOTAL") SqlType.int64 (pos 0) 8 8 16

abbrev pub title : FieldInfo
title = column_at (codes "TITLE") SqlType.varying (pos 0) 6 20 28

abbrev pub at_field : FieldInfo → Context
at_field f = record {
  field = some f;
  has_transaction = false;
  null_indicator = some f.null_offset;
  data_at = f.offset;
}

abbrev pub blank_message : Bytes
blank_message = replicate 30 0

abbrev pub int32 : IntType
int32 = record { size = 4; low = negsuc 2147483647; high = pos 2147483647; is_u64 = false }

abbrev pub uint64 : IntType
uint64 = record { size = 8; low = pos 0; high = pos 18446744073709551615; is_u64 = true }
