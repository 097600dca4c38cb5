-- ===== src/Schema/Analyzer.antt =====
-- src/schema/query_analyzer.cpp: the kind of a query, and names of C++ members for its parameters and
-- its columns.
pub mod Numbered
pub mod Names
use fbpp.Prelude.{
  ℕ, zero, suc, ◌+◌, Bool, true, false, not, ◌||◌, ◌&&◌, List, [], ◌∷◌, ◌++◌, map, Option, none,
  some, ltb, ◌==◌, if◌then◌else◌, length, get_elem?,
}
use fbpp.Prelude.Ascii.{Bytes, codes, isspace, tolower, toupper, str_eq}
use fbpp.Prelude.Decimal.{to_string}
use fbpp.Prelude.Dict.{Dict, find, insert}
use fbpp.NamedParam.{NamedParamInfo, ParseResult, parse}
use fbpp.NamedParam.Positional.{nonempty}
use fbpp.Message.{FieldInfo}
use fbpp.Message.Metadata.{trim_start}

-- The loop of `toCamelCase`; the flag says that the next character starts a word.
unfoldable pub camel_loop : Bool → Bytes → Bytes
camel_loop capitalize [] = []
camel_loop capitalize (c ∷ cs) =
    let skip = camel_loop true cs in
    let rest = camel_loop false cs in
    if c == b'_' || c == b' '
    then skip
    else (if capitalize then toupper (tolower c) else tolower c) ∷ rest

abbrev pub lower_first : Bytes → Bytes
lower_first [] = []
lower_first (c ∷ cs) = tolower c ∷ cs

unfoldable pub to_camel_case : Bytes → Bytes
unfolding camel_loop
to_camel_case sql_name = lower_first (camel_loop false sql_name)

-- The name, and the counters of the names that were used.
abbrev pub with_count : Bytes → Dict ℕ → Option ℕ → Bytes × Dict ℕ
with_count base used none = (base, insert base 0 used)
with_count base used (some n) = (base ++ to_string (n + 1 + 1), insert base (n + 1) used)

unfoldable pub deduplicated_name : Bytes → Dict ℕ → Bytes × Dict ℕ
deduplicated_name base used = with_count base used (find base used)

unfoldable pub deduplicate : Dict ℕ → List Bytes → List Bytes
deduplicate used [] = []
deduplicate used (base ∷ bases) =
    (deduplicated_name base used).0 ∷ deduplicate (deduplicated_name base used).1 bases

pub data QueryKind : Type 0 where
  select_query insert_query update_query delete_query : QueryKind
  execute_procedure execute_block ddl unknown : QueryKind

-- A text up to white space, in lower case, and what follows it.
unfoldable pub word : Bytes → Bytes
word [] = []
word (c ∷ cs) = let rest = word cs in if isspace c then [] else tolower c ∷ rest

unfoldable pub behind_word : Bytes → Bytes
behind_word [] = []
behind_word (c ∷ cs) = let rest = behind_word cs in if isspace c then c ∷ cs else rest

abbrev pub kind_of : Bytes → Bytes → QueryKind
kind_of first second =
    if str_eq first (codes "select")
    then QueryKind.select_query
    else if str_eq first (codes "insert")
    then QueryKind.insert_query
    else if str_eq first (codes "update")
    then QueryKind.update_query
    else if str_eq first (codes "delete")
    then QueryKind.delete_query
    else if str_eq first (codes "execute")
    then (if str_eq second (codes "block")
        then QueryKind.execute_block
        else QueryKind.execute_procedure)
    else if str_eq first (codes "create")
        || (str_eq first (codes "alter") || str_eq first (codes "drop"))
    then QueryKind.ddl
    else QueryKind.unknown

unfoldable pub classify_query : Bytes → QueryKind
unfolding word behind_word trim_start
classify_query sql =
    kind_of (word (trim_start sql)) (word (trim_start (behind_word (trim_start sql))))

pub record QueryParameterInfo : Type 0 where
  pub sql_name : Bytes
  pub member_name : Bytes
  pub field : FieldInfo
  pub ordinal : ℕ
  pub repeated : Bool

pub record QueryAnalysis : Type 0 where
  pub original_sql : Bytes
  pub positional_sql : Bytes
  pub kind : QueryKind
  pub has_named_parameters : Bool
  pub input_params : List QueryParameterInfo
  pub output_fields : List QueryParameterInfo

-- A name where the engine gives none: the prefix and the number from 1.
abbrev pub or_numbered : Bytes → ℕ → Bytes → Bytes
or_numbered prefix i [] = prefix ++ to_string (i + 1)
or_numbered prefix i (c ∷ cs) = c ∷ cs

abbrev pub is_repeated : Option (List ℕ) → Bool
is_repeated none = false
is_repeated (some ps) = ltb 1 (length ps)

-- The SQL name of an input, and whether its parameter occurs more than once.
abbrev pub named_by : ParseResult → ℕ → FieldInfo → Option NamedParamInfo → Bytes × Bool
named_by r i f (some p) = (p.name, is_repeated (find p.name r.name_to_positions))
named_by r i f none = (or_numbered (codes "PARAM_") i f.name, false)

abbrev pub parameter_at : ParseResult → ℕ → Option NamedParamInfo
parameter_at r i = if r.has_named_params then get_elem? r.parameters i else none

unfoldable pub build_inputs : ParseResult → ℕ → Dict ℕ → List FieldInfo → List QueryParameterInfo
build_inputs r i used [] = []
build_inputs r i used (f ∷ fs) =
    let named = named_by r i f (parameter_at r i) in
    let member = deduplicated_name (to_camel_case named.0) used in
    record {
      sql_name = named.0;
      member_name = member.0;
      field = f;
      ordinal = i;
      repeated = named.1;
    }
    ∷ build_inputs r (i + 1) member.1 fs

-- An output has no `repeated`; it is false here.
unfoldable pub build_outputs : ℕ → Dict ℕ → List FieldInfo → List QueryParameterInfo
build_outputs i used [] = []
build_outputs i used (f ∷ fs) =
    let sql_name = or_numbered (codes "FIELD_") i f.name in
    let member = deduplicated_name (to_camel_case sql_name) used in
    record { sql_name = sql_name; member_name = member.0; field = f; ordinal = i; repeated = false }
    ∷ build_outputs (i + 1) member.1 fs

-- `analyze`. The engine's description of the query, its input and output fields, is an argument, and
-- may be an exception.
abbrev pub analyzed :
    Bytes → ParseResult → Bytes → Option (List FieldInfo × List FieldInfo) → Option QueryAnalysis
analyzed sql r positional none = none
analyzed sql r positional (some (inputs, outputs)) = some record {
  original_sql = sql;
  positional_sql = positional;
  kind = classify_query sql;
  has_named_parameters = r.has_named_params;
  input_params = build_inputs r 0 [] inputs;
  output_fields = build_outputs 0 [] outputs;
}

abbrev pub to_prepare : Bytes → ParseResult → Bytes
to_prepare sql r = if r.has_named_params then r.converted_sql else sql

unfoldable pub analyze :
    (Bytes → Option (List FieldInfo × List FieldInfo)) → Bytes → Option QueryAnalysis
unfolding build_inputs build_outputs
analyze describe sql =
    analyzed sql (parse sql) (to_prepare sql (parse sql)) (describe (to_prepare sql (parse sql)))
