-- ===== src/Statement.antt =====
-- src/core/firebird/fb_statement.cpp and include/fbpp/core/statement.hpp: the owner of the engine's
-- statement interface. What the engine answers is an argument; what it is asked is a list of events.
mod Tests
pub mod Params
pub mod Run
pub mod Stages
pub mod Life
pub mod Sent
pub mod Binding
pub mod Cursors
use fbpp.Prelude.{
  ℕ, ◌%◌, ◌^◌, Bool, true, false, List, [], ◌∷◌, ◌++◌, Option, none, some, ◌==◌, ◌||◌,
  if◌then◌else◌,
}
use fbpp.Prelude.Ascii.{Bytes}
use fbpp.Prelude.Dict.{Dict}
use fbpp.Prelude.Result.{Result, ok, err}
use fbpp.Message.{FieldInfo}
use fbpp.Packing
use fbpp.Transaction.{Transaction, is_active}

-- `packing` is an exception of the packing of parameters or the unpacking of results; `engine` one
-- of the engine.
pub data Fault : Type 0 where
  not_prepared not_valid invalid_transaction transaction_null null_statement : Fault
  no_parameters no_output no_cursor not_shared engine : Fault
  packing : Packing.Fault → Fault

-- What the engine is asked. The newest event is in front. A message is absent where the null
-- pointer is passed.
pub data Event : Type 0 where
  executed : ℕ → Option ℕ → Option Bytes → Bool → Event
  opened : ℕ → Option ℕ → Option Bytes → Option ℕ → Event
  cursor_closed cursor_released : ℕ → Event
  described : ℕ → Bool → Event
  freed : ℕ → Bool → Event
  released : ℕ → Event

-- `statement_` and the other members. `inputMetadata_` and `outputMetadata_` are never filled, and
-- the connection is not read.
pub record Statement : Type 0 where
  pub handle : Option ℕ
  pub type : ℕ
  pub flags : ℕ
  pub metadata_loaded : Bool
  pub mapping : Dict (List ℕ)
  pub has_named_params : Bool

-- The state, the events and the result of an operation.
pub record Outcome (A : Type 0) : Type 0 where
  pub object : Statement
  pub events : List Event
  pub result : Result Fault A

abbrev pub throws : {A : Type 0} → Statement → List Event → Fault → Outcome A
throws st es e = record { object = st; events = es; result = err e }

abbrev pub returns : {A : Type 0} → Statement → List Event → A → Outcome A
returns st es a = record { object = st; events = es; result = ok a }

abbrev pub is_valid : Statement → Bool
is_valid st = elim st.handle [ none ↦ false | some h ↦ true ]

abbrev pub prepared : ℕ → Statement
prepared h = record {
  handle = some h;
  type = 0;
  flags = 0;
  metadata_loaded = false;
  mapping = [];
  has_named_params = false;
}

-- The engine's answer to `execute`: an exception, or the output message; and the number of affected
-- records, which may be an exception.
pub record Executed : Type 0 where
  pub reply : Option Bytes
  pub affected : Option ℕ

abbrev pub or_zero : Option ℕ → ℕ
or_zero none = 0
or_zero (some n) = n % 2 ^ 32

abbrev pub after_execute :
    Statement → ℕ → Option ℕ → Option Bytes → Executed → Option Bytes → Outcome (ℕ × Bytes)
after_execute st h tra message a none = throws st (executed h tra message false ∷ []) engine
after_execute st h tra message a (some out) =
    returns st (executed h tra message true ∷ []) (or_zero a.affected, out)

abbrev pub execute_active :
    Statement → ℕ → Option Bytes → Executed → Transaction → Bool → Outcome (ℕ × Bytes)
execute_active st h message a t false = throws st [] invalid_transaction
execute_active st h message a t true = after_execute st h t.handle message a a.reply

abbrev pub execute_with :
    Statement → ℕ → Option Bytes → Executed → Option Transaction → Outcome (ℕ × Bytes)
execute_with st h message a none = throws st [] invalid_transaction
execute_with st h message a (some t) = execute_active st h message a t (is_active t)

abbrev pub execute_on :
    Statement → Option Transaction → Option Bytes → Executed → Option ℕ → Outcome (ℕ × Bytes)
execute_on st tx message a none = throws st [] not_prepared
execute_on st tx message a (some h) = execute_with st h message a tx

-- `execute` with raw buffers; with the output message that the engine leaves.
unfoldable pub execute_raw :
    Statement → Option Transaction → Option Bytes → Executed → Outcome (ℕ × Bytes)
execute_raw st tx message a = execute_on st tx message a st.handle

-- The engine's answer to `openCursor`: an exception or a pointer, which may be null; whether the
-- description of the rows was got; whether the transaction is one of a shared pointer; and whether
-- the result set was made.
pub record Opened : Type 0 where
  pub cursor : Option (Option ℕ)
  pub described_rows : Bool
  pub shared : Bool
  pub made : Bool

-- The body of the inner `try`.
abbrev pub wrap_cursor : Opened → Result Fault Bool
wrap_cursor a =
    if a.described_rows
    then (if a.shared then (if a.made then ok true else err engine) else err not_shared)
    else err engine

abbrev pub keep_cursor : Statement → Event → ℕ → Result Fault Bool → Outcome ℕ
keep_cursor st e c (ok b) = returns st (e ∷ []) c
keep_cursor st e c (err f) = throws st (cursor_released c ∷ cursor_closed c ∷ e ∷ []) f

abbrev pub after_open :
    Statement → ℕ → Option ℕ → Option Bytes → Opened → Option (Option ℕ) → Outcome ℕ
after_open st h tra message a none = throws st (opened h tra message none ∷ []) engine
after_open st h tra message a (some none) = throws st (opened h tra message none ∷ []) no_cursor
after_open st h tra message a (some (some c)) =
    keep_cursor st (opened h tra message (some c)) c (wrap_cursor a)

abbrev pub open_active : Statement → ℕ → Option Bytes → Opened → Transaction → Bool → Outcome ℕ
open_active st h message a t false = throws st [] invalid_transaction
open_active st h message a t true = after_open st h t.handle message a a.cursor

abbrev pub open_with : Statement → ℕ → Option Bytes → Opened → Option Transaction → Outcome ℕ
open_with st h message a none = throws st [] invalid_transaction
open_with st h message a (some t) = open_active st h message a t (is_active t)

abbrev pub open_on : Statement → Option Transaction → Option Bytes → Opened → Option ℕ → Outcome ℕ
open_on st tx message a none = throws st [] not_prepared
open_on st tx message a (some h) = open_with st h message a tx

-- `openCursor` with raw buffers: the cursor that the result set owns.
unfoldable pub open_cursor_raw : Statement → Option Transaction → Option Bytes → Opened → Outcome ℕ
open_cursor_raw st tx message a = open_on st tx message a st.handle

-- The type and the flags, which `getType` and `getFlags` ask for together and once.
abbrev pub described_as : Statement → ℕ → Option (ℕ × ℕ) → Outcome (ℕ × ℕ)
described_as st h none = throws st (described h false ∷ []) engine
described_as st h (some (t, f)) =
    returns (record st { type = t; flags = f; metadata_loaded = true }) (described h true ∷ [])
      (t, f)

abbrev pub describe_on : Statement → Option (ℕ × ℕ) → Option ℕ → Bool → Outcome (ℕ × ℕ)
describe_on st a none loaded = throws st [] not_prepared
describe_on st a (some h) true = returns st [] (st.type, st.flags)
describe_on st a (some h) false = described_as st h a

unfoldable pub load_description : Statement → Option (ℕ × ℕ) → Outcome (ℕ × ℕ)
load_description st a = describe_on st a st.handle st.metadata_loaded

abbrev pub first_of : Result Fault (ℕ × ℕ) → Result Fault ℕ
first_of (ok (t, f)) = ok t
first_of (err e) = err e

abbrev pub second_of : Result Fault (ℕ × ℕ) → Result Fault ℕ
second_of (ok (t, f)) = ok f
second_of (err e) = err e

abbrev pub get_type : Statement → Option (ℕ × ℕ) → Outcome ℕ
get_type st a = record {
  object = (load_description st a).object;
  events = (load_description st a).events;
  result = first_of (load_description st a).result;
}

abbrev pub get_flags : Statement → Option (ℕ × ℕ) → Outcome ℕ
get_flags st a = record {
  object = (load_description st a).object;
  events = (load_description st a).events;
  result = second_of (load_description st a).result;
}

-- `kind`, by the isc_info_sql_stmt codes of the engine.
pub data StatementKind : Type 0 where
  select dml execute_procedure ddl unknown : StatementKind

unfoldable pub kind_of_type : ℕ → StatementKind
kind_of_type t =
    if t == 1 || t == 12
    then select
    else if t == 2 || (t == 3 || t == 4)
    then dml
    else if t == 8
    then execute_procedure
    else if t == 5
    then ddl
    else unknown

abbrev pub kind_result : Result Fault ℕ → Result Fault StatementKind
kind_result (ok t) = ok (kind_of_type t)
kind_result (err e) = err e

abbrev pub kind : Statement → Option (ℕ × ℕ) → Outcome StatementKind
kind st a = record {
  object = (get_type st a).object;
  events = (get_type st a).events;
  result = kind_result (get_type st a).result;
}

-- `free`: the interface is released whatever the engine says, and only a free that succeeds clears
-- what was loaded.
abbrev pub free_on : Statement → Bool → Option ℕ → Outcome Bool
free_on st b none = returns st [] true
free_on st false (some h) =
    throws (record st { handle = none }) (released h ∷ freed h false ∷ []) engine
free_on st true (some h) =
    returns (record st { handle = none; metadata_loaded = false }) (released h ∷ freed h true ∷ [])
      true

unfoldable pub free : Statement → Bool → Outcome Bool
free st succeeds = free_on st succeeds st.handle

-- `cleanup`, of the destructor and the move assignment; exceptions stay inside.
abbrev pub cleanup_on : Statement → Bool → Option ℕ → Statement × List Event
cleanup_on st b none = (st, [])
cleanup_on st b (some h) = (record st { handle = none }, released h ∷ freed h b ∷ [])

unfoldable pub cleanup : Statement → Bool → Statement × List Event
cleanup st succeeds = cleanup_on st succeeds st.handle
