-- ===== src/Schema/Tests.antt =====
-- The theorems on the generated code, used on sample queries and columns.
use fbpp.Prelude.{ℕ, ◌≡◌, refl, true, false, List, [], ◌∷◌, All, Option, some, ◌↔◌, inl, arith}
use fbpp.Prelude.Ascii.{Bytes, codes}
use fbpp.Prelude.Ascii.{str_eq, isspace, tolower}
use fbpp.Prelude.Decimal.{to_string}
use fbpp.Prelude.Dict.{find, insert}
use fbpp.NamedParam.{parse, step, step_code}
use fbpp.Message.{FieldInfo}
use fbpp.Codec.Samples.{price, title, at_field, blank_message}
use fbpp.Codec.Slots.{Fits}
use fbpp.Schema.Analyzer.{
  QueryAnalysis, QueryParameterInfo, QueryKind, analyze, classify_query, deduplicated_name,
  to_camel_case,
}
use fbpp.Schema.Analyzer.Numbered.{strip_digits}
use fbpp.Schema.Analyzer.Names.{NoDigitAtEnd, AllDifferent, members, bases_of, analyze-AllDifferent}
use fbpp.Schema.TypeMapper.{AdapterConfig}
use fbpp.Schema.Generator.{sql_constant, escape_braces_for_format}
use fbpp.Schema.Generator.Literals.{read_literal, NoBrace, sql_constant-read}

abbrev defaults : AdapterConfig
defaults = record {
  use_tt_math_numeric = false;
  use_tt_math_int128 = false;
  use_chrono_datetime = false;
  use_cpp_decimal_dec_float = false;
  use_string_for_text_blob = false;
  generate_aliases = true;
}

price-Fits : Fits (at_field price) 4 blank_message
price-Fits = record { data_fits = omega arith; indicator_fits = (omega arith, inl (omega arith)) }

sql_constant-read_example :
    (read_literal false (sql_constant (codes "select '{}'"))
      ≡ some (escape_braces_for_format (codes "select '{}'")))
    × ((read_literal false (sql_constant (codes "select '{}'")) ≡ some (codes "select '{}'"))
        ↔ NoBrace (codes "select '{}'"))
sql_constant-read_example = sql_constant-read (codes "select '{}'")

abbrev describe : Bytes → Option (List FieldInfo × List FieldInfo)
describe sql = some ([], price ∷ title ∷ title ∷ [])

abbrev output : Bytes → Bytes → FieldInfo → ℕ → QueryParameterInfo
output sql_name member_name field ordinal = record {
  sql_name = sql_name;
  member_name = member_name;
  field = field;
  ordinal = ordinal;
  repeated = false;
}

abbrev analysis : QueryAnalysis
analysis = record {
  original_sql = codes "Select";
  positional_sql = codes "Select";
  kind = QueryKind.select_query;
  has_named_parameters = false;
  input_params = [];
  output_fields =
      output (codes "PRICE") (codes "price") price 0
      ∷ output (codes "TITLE") (codes "title") title 1
      ∷ output (codes "TITLE") (codes "title2") title 2
      ∷ [];
}

described : analyze describe (codes "Select") ≡ some analysis
unfolding analyze parse classify_query deduplicated_name step str_eq find step_code isspace
    to_camel_case insert tolower to_string
described = refl

no_digits : All NoDigitAtEnd (bases_of analysis.output_fields)
unfolding to_camel_case strip_digits tolower
no_digits = (refl, (refl, (refl, tt)))

analyze-AllDifferent_example :
    AllDifferent (members analysis.input_params) × AllDifferent (members analysis.output_fields)
analyze-AllDifferent_example =
    analyze-AllDifferent describe (codes "Select") analysis described tt no_digits
