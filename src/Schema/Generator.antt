-- ===== src/Schema/Generator.antt =====
-- src/core/firebird/query_generator_service.cpp: the texts of a query in the generated header, and
-- the fields of its structs.
pub mod Literals
use fbpp.Prelude.{
  ℕ, Bool, true, false, ◌||◌, List, [], ◌∷◌, ◌++◌, Option, none, some, ◌==◌, if◌then◌else◌,
}
use fbpp.Prelude.Ascii.{Bytes, codes}
use fbpp.Message.{FieldInfo}
use fbpp.Schema.Analyzer.{QueryKind, QueryParameterInfo, QueryAnalysis, analyze}
use fbpp.Schema.TypeMapper.{AdapterConfig, CppTypeInfo, map_field}

unfoldable pub escape_char : ℕ → Bytes
escape_char c =
    if c == 92
    then 92 ∷ 92 ∷ []
    else if c == 34
    then 92 ∷ 34 ∷ []
    else if c == 10
    then 92 ∷ b'n' ∷ []
    else if c == 13
    then 92 ∷ b'r' ∷ []
    else if c == 9
    then 92 ∷ b't' ∷ []
    else c ∷ []

unfoldable pub escape_string : Bytes → Bytes
unfolding escape_char
escape_string [] = []
escape_string (c ∷ cs) = escape_char c ++ escape_string cs

abbrev pub is_brace : ℕ → Bool
is_brace c = c == b'{' || c == b'}'

unfoldable pub escape_braces_for_format : Bytes → Bytes
escape_braces_for_format [] = []
escape_braces_for_format (c ∷ cs) =
    (if is_brace c then c ∷ c ∷ [] else c ∷ []) ++ escape_braces_for_format cs

abbrev pub make_struct_name : Bytes → Bool → Bytes
make_struct_name name is_input = name ++ (if is_input then codes "In" else codes "Out")

unfoldable pub query_mode_for : QueryKind → Bool → Bytes
query_mode_for QueryKind.select_query has_output = codes "Select"
query_mode_for QueryKind.ddl has_output = codes "Ddl"
query_mode_for QueryKind.execute_block has_output =
    if has_output then codes "Select" else codes "Modify"
query_mode_for QueryKind.unknown has_output = codes "Unknown"
query_mode_for _ has_output = if has_output then codes "Returning" else codes "Modify"

pub record FieldSpec : Type 0 where
  pub sql_name : Bytes
  pub member_name : Bytes
  pub type : CppTypeInfo
  pub info : FieldInfo

pub record QuerySpec : Type 0 where
  pub name : Bytes
  pub original_sql : Bytes
  pub inputs : List FieldSpec
  pub outputs : List FieldSpec
  pub has_named_parameters : Bool
  pub positional_sql : Bytes
  pub kind : QueryKind

-- The fields of a struct; `none` is an exception, of the type mapper or of the engine.
abbrev pub add_spec :
    QueryParameterInfo → Option CppTypeInfo → Option (List FieldSpec) → Option (List FieldSpec)
add_spec p (some t) (some specs) = some (
    record { sql_name = p.sql_name; member_name = p.member_name; type = t; info = p.field } ∷ specs)
add_spec p (some t) none = none
add_spec p none specs = none

unfoldable pub field_specs :
    Bool → AdapterConfig → List QueryParameterInfo → Option (List FieldSpec)
field_specs is_output config [] = some []
field_specs is_output config (p ∷ ps) =
    add_spec p (map_field p.field is_output config) (field_specs is_output config ps)

abbrev pub spec_of :
    Bytes → QueryAnalysis → Option (List FieldSpec) → Option (List FieldSpec) → Option QuerySpec
spec_of name a (some ins) (some outs) = some record {
  name = name;
  original_sql = a.original_sql;
  inputs = ins;
  outputs = outs;
  has_named_parameters = a.has_named_parameters;
  positional_sql = a.positional_sql;
  kind = a.kind;
}
spec_of name a none outs = none
spec_of name a (some ins) none = none

abbrev pub analyzed_spec : AdapterConfig → Bytes → Option QueryAnalysis → Option QuerySpec
analyzed_spec config name none = none
analyzed_spec config name (some a) =
    spec_of name a (field_specs false config a.input_params)
      (field_specs true config a.output_fields)

-- One round of `buildQuerySpecs`.
unfoldable pub build_query_spec :
    (Bytes → Option (List FieldInfo × List FieldInfo))
    → AdapterConfig
    → Bytes
    → Bytes
    → Option QuerySpec
unfolding field_specs
build_query_spec describe config name sql = analyzed_spec config name (analyze describe sql)

abbrev pub line : Bytes → Bytes
line text = text ++ (10 ∷ [])

abbrev pub constant : Bytes → Bytes → Bytes
constant name value = line (
    codes "    static constexpr std::string_view "
    ++ (name ++ (codes " = " ++ (34 ∷ (value ++ (34 ∷ codes ";"))))))

abbrev pub has_fields : List FieldSpec → Bool
has_fields [] = false
has_fields (f ∷ fs) = true

-- The texts of the constants of `QueryDescriptor`.
unfoldable pub name_constant : QuerySpec → Bytes
name_constant q = escape_braces_for_format q.name

unfoldable pub sql_constant : Bytes → Bytes
unfolding escape_braces_for_format escape_string
sql_constant sql = escape_braces_for_format (escape_string sql)

-- The specialisation of `QueryDescriptor` for a query.
unfoldable pub render_descriptor : QuerySpec → Bytes
unfolding sql_constant name_constant query_mode_for
render_descriptor q =
    line (codes "template<>")
    ++ (line (codes "struct QueryDescriptor<QueryId::" ++ (q.name ++ codes "> {"))
        ++ (line (codes "    static constexpr QueryId id = QueryId::" ++ (q.name ++ codes ";"))
            ++ (constant (codes "name") (name_constant q)
                ++ (constant (codes "sql") (sql_constant q.original_sql)
                    ++ (constant (codes "positionalSql") (sql_constant q.positional_sql)
                        ++ (line (
                              codes "    static constexpr bool hasNamedParameters = "
                              ++ ((if q.has_named_parameters then codes "true" else codes "false")
                                  ++ codes ";"))
                            ++ (line (
                                  codes
                                    "    static constexpr fbpp::core::QueryMode mode = fbpp::core::QueryMode::"
                                  ++ (query_mode_for q.kind (has_fields q.outputs) ++ codes ";"))
                                ++ (line (
                                      codes "    using Input = "
                                      ++ (make_struct_name q.name true ++ codes ";"))
                                    ++ (line (
                                          codes "    using Output = "
                                          ++ (make_struct_name q.name false ++ codes ";"))
                                        ++ (line (codes "};") ++ (10 ∷ [])))))))))))
