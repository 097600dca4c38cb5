-- ===== src/StatementCache/Prepare.antt =====
-- `prepareInstance` and `extractMetadata`.
use fbpp.Prelude.{ℕ, List, [], ◌∷◌, Option, none, some, if◌then◌else◌}
use fbpp.Prelude.Ascii.{Bytes}
use fbpp.Prelude.Dict.{Dict}
use fbpp.NamedParam.{ParseResult, parse}
use fbpp.StatementCache.State.{Instance, FieldInfo, ParamInfo}

-- What the server answers to one `prepareInstance`; it and the connection are not part of the
-- library's state. Only `prepared` gives an instance.
pub data Answer : Type 0 where
  not_connected start_failed prepare_failed prepared_null commit_failed : Answer
  prepared : List FieldInfo → List FieldInfo → Answer

pub data Outcome {ℓ} (A : Type ℓ) : Type ℓ where
  ok : A → Outcome A
  thrown : Answer → Outcome A

-- `prepareInstance`, with the number of the object that it makes.
unfoldable pub prepare_instance : ℕ → Bytes → Option (Dict (List ℕ)) → ℕ → Answer → Outcome Instance
prepare_instance id text mapping flags (prepared ins outs) =
    ok (record { id = id; text = text; flags = flags; mapping = mapping })
prepare_instance id text mapping flags answer = thrown answer

abbrev pub display_name : FieldInfo → Bytes
display_name f = elim f.alias [ [] ↦ f.name | c ∷ cs ↦ c ∷ cs ]

unfoldable pub input_param : FieldInfo → ParamInfo
input_param f = record {
  name = f.name;
  sql_type = f.sql_type;
  length = f.length;
  scale = f.scale;
  nullable = f.nullable;
}

unfoldable pub output_param : FieldInfo → ParamInfo
output_param f = record (input_param f) { name = display_name f }

-- `prepareInstance` for the parsed text, and the fields of its metadata.
abbrev pub actual_sql : ParseResult → Bytes → Bytes
actual_sql r sql = if r.has_named_params then r.converted_sql else sql

abbrev pub name_mapping : ParseResult → Option (Dict (List ℕ))
name_mapping r = if r.has_named_params then some r.name_to_positions else none

unfoldable pub prepare_for : ℕ → Bytes → ℕ → Answer → Outcome Instance
unfolding prepare_instance
prepare_for id sql flags answer =
    prepare_instance id (actual_sql (parse sql) sql) (name_mapping (parse sql)) flags answer

unfoldable pub input_fields : Answer → List FieldInfo
input_fields (prepared ins outs) = ins
input_fields _ = []

unfoldable pub output_fields : Answer → List FieldInfo
output_fields (prepared ins outs) = outs
output_fields _ = []
