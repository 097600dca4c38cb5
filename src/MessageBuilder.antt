-- ===== src/MessageBuilder.antt =====
-- src/core/firebird/fb_message_builder.cpp: the fields of a message, in the order in which the
-- engine's builder is told of them. Which of the engine's calls throws is an argument.
pub mod Filled
mod Tests
use fbpp.Prelude.{
  ℕ, ◌+◌, ◌-◌, ◌%◌, Bool, true, false, not, List, [], ◌∷◌, ◌++◌, map, leb, ◌==◌, if◌then◌else◌,
  length, set, replicate,
}
use fbpp.Prelude.Int.{is_zero, ℤ, pos, negsuc}
use fbpp.Prelude.Ascii.{Bytes, toupper}
use fbpp.Prelude.Result.{Result, ok, err}

pub data Fault : Type 0 where
  not_valid too_many_fields index_out_of_bounds engine : Fault

-- The arguments of `addField`; the scale is an `int`.
pub record Field : Type 0 where
  pub name : Bytes
  pub sql_type : ℕ
  pub length : ℕ
  pub scale : ℤ

-- The engine's calls, each for a field.
pub data EngineCall : Type 0 where
  set_name : ℕ → Bytes → EngineCall
  set_type set_length : ℕ → ℕ → EngineCall
  set_scale : ℕ → ℤ → EngineCall

-- The members, and what the engine's builder was told so far.
pub record Builder : Type 0 where
  pub has_builder : Bool
  pub field_count : ℕ
  pub current_index : ℕ
  pub field_names : List Bytes
  pub calls : List EngineCall

-- The type with its nullable flag, which is the lowest bit.
unfoldable pub firebird_type : ℕ → ℕ
firebird_type sql_type = if sql_type % 2 == 1 then sql_type else sql_type + 1

abbrev pub calls_of : ℕ → Field → List EngineCall
calls_of index f =
    set_name index (map toupper f.name)
    ∷ set_type index (firebird_type f.sql_type)
    ∷ ((if f.length == 0 then [] else set_length index f.length ∷ [])
        ++ (if is_zero f.scale then [] else set_scale index f.scale ∷ []))

-- `field_names_[index] = name`, with the `resize` before it.
unfoldable pub store_name : List Bytes → ℕ → Bytes → List Bytes
store_name names index name =
    if leb (length names) index
    then set (names ++ replicate (index + 1 - length names) []) index name
    else set names index name

-- Whether a call's exception leaves `setField`: that of the name's call is passed over.
unfoldable pub leaves : (EngineCall → Bool) → EngineCall → Bool
leaves throws (set_name index name) = false
leaves throws (set_type index n) = throws (set_type index n)
leaves throws (set_length index n) = throws (set_length index n)
leaves throws (set_scale index n) = throws (set_scale index n)

abbrev pub after_call : EngineCall → List EngineCall × Bool → List EngineCall × Bool
after_call c (told, all) = (c ∷ told, all)

-- The calls that are made, up to the one whose exception leaves, and whether they were all.
unfoldable pub issue : (EngineCall → Bool) → List EngineCall → List EngineCall × Bool
issue throws [] = ([], true)
issue throws (c ∷ cs) = if leaves throws c then (c ∷ [], false) else after_call c (issue throws cs)

-- `setField`: where a call throws, the name is not stored.
abbrev pub finish_field : Builder → ℕ → Field → List EngineCall × Bool → Builder × Result Fault ℕ
finish_field b index f (told, true) = (
  record b {
    calls = b.calls ++ told;
    field_names = store_name b.field_names index (map toupper f.name);
  },
  ok index,
)
finish_field b index f (told, false) = (record b { calls = b.calls ++ told }, err engine)

unfoldable pub set_field : (EngineCall → Bool) → Builder → ℕ → Field → Builder × Result Fault ℕ
set_field throws b index f =
    if not b.has_builder
    then (b, err not_valid)
    else if leb b.field_count index
    then (b, err index_out_of_bounds)
    else finish_field b index f (issue throws (calls_of index f))

unfoldable pub add_field : (EngineCall → Bool) → Builder → Field → Builder × Result Fault ℕ
add_field throws b f =
    if not b.has_builder
    then (b, err not_valid)
    else if leb b.field_count b.current_index
    then (b, err too_many_fields)
    else set_field throws (record b { current_index = b.current_index + 1 }) b.current_index f

abbrev pub fresh : ℕ → Builder
fresh n = record {
  has_builder = true;
  field_count = n;
  current_index = 0;
  field_names = [];
  calls = [];
}

-- Fields that are added one after the other, up to the first that is refused.
abbrev pub next_or_stop :
    Builder × Result Fault ℕ → Builder × Result Fault ℕ → Builder × Result Fault ℕ
next_or_stop (b, ok i) rest = rest
next_or_stop (b, err e) rest = (b, err e)

unfoldable pub add_fields : (EngineCall → Bool) → Builder → List Field → Builder × Result Fault ℕ
add_fields throws b [] = (b, ok b.current_index)
add_fields throws b (f ∷ fs) =
    next_or_stop (add_field throws b f) (add_fields throws (add_field throws b f).0 fs)
