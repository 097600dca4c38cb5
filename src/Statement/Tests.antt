-- ===== src/Statement/Tests.antt =====
-- The theorems on statements, used on a statement with three parameters.
use fbpp.Prelude.{◌≡◌, refl, true, false, List, [], ◌∷◌, none, some, All, arith}
use fbpp.Prelude.Int.{pos}
use fbpp.Prelude.Ascii.{Bytes, codes}
use fbpp.Prelude.Result.{Result, ok, err}
use fbpp.Codec.Samples.{absent, blank_message}
use fbpp.Packing.{Value, integer, Kind, pack, unpack}
use fbpp.Packing
use fbpp.Packing.RoundTrip.{unpack-pack}
use fbpp.Packing.Samples.{columns, room, kinds, values, values-RowFits}
use fbpp.ParamBinder.{Binder}
use fbpp.ParamBinder.{set_param}
use fbpp.ParamBinder.Bound.{Untouched, Written}
use fbpp.ParamBinder.Samples.{three, size, binder, three-Layout, find-id, id-Ready}
use fbpp.Statement.Binding.{set_param-sent}
use fbpp.Statement.Params.{transaction_execute_bound}
use fbpp.Transaction.{Transaction, is_active}
use fbpp.Statement.{Statement, Executed, Opened, executed, prepared}
use fbpp.Statement.Params.{
  transaction_execute, transaction_returning, transaction_open_cursor,
  transaction_open_cursor_bound,
}
use fbpp.Statement.Run.{Call, asks_type, asks_flags, frees, executes, opens, run, destroy}
use fbpp.Statement.Life.{IsSpent, Tells, run-destroy-IsSpent, run-Tells}
use fbpp.Statement.Sent.{Ready, transaction_execute-sent, transaction_returning-returned}
use fbpp.Statement.Cursors.{Settled, transaction_open_cursor-Settled}

abbrev tx : Transaction
tx = record { handle = some 4; active = true }

abbrev st : Statement
st = prepared 7

st-Ready : Ready st 7 tx
unfolding is_active
st-Ready = record { is_prepared = refl; in_transaction = refl }

abbrev one_row : Executed
one_row = record { reply = some []; affected = some 1 }

transaction_execute-sent_example :
    (m : Bytes) × (transaction_execute absent tx
        (some st)
        values
        (some (some (columns, 30)))
        one_row
      ≡ (executed 7 (some 4) (some m) true ∷ [], ok (1, [])))
    × (unpack absent true (some columns) kinds (some m) ≡ ok values)
transaction_execute-sent_example =
    transaction_execute-sent absent st 7 tx room columns 30 kinds values values one_row st-Ready
      (omega arith) values-RowFits

abbrev made_of : Result Packing.Fault Bytes → Bytes
made_of (ok m) = m
made_of (err e) = []

abbrev laid_out : Bytes
laid_out = made_of (pack absent false (some (columns, 30)) values (some blank_message))

laid_out-pack : pack absent false (some (columns, 30)) values (some blank_message) ≡ ok laid_out
laid_out-pack =
    let (m, run, length_m, back) =
      unpack-pack absent absent false true room columns 30 blank_message kinds values values refl
        values-RowFits in
    rw run refl

abbrev a_row_back : Executed
a_row_back = record { reply = some laid_out; affected = none }

transaction_returning-returned_example :
    (m : Bytes) × (transaction_returning absent tx
        (some st)
        values
        kinds
        (some (some (columns, 30)))
        (some (some (columns, 30)))
        a_row_back
      ≡ (executed 7 (some 4) (some m) true ∷ [], ok (0, values)))
    × (unpack absent true (some columns) kinds (some m) ≡ ok values)
transaction_returning-returned_example =
    transaction_returning-returned absent absent st 7 tx false room columns 30 kinds values values
      columns 30 kinds values values blank_message laid_out a_row_back st-Ready (omega arith)
      values-RowFits (omega arith) values-RowFits refl laid_out-pack refl

abbrev unshared : Opened
unshared = record { cursor = some (some 9); described_rows = true; shared = false; made = true }

abbrev no_binder : Binder
no_binder = record { mapping = []; meta = none; buffer = []; bound = []; has_transaction = true }

transaction_open_cursor-Settled_example :
    Settled (transaction_open_cursor absent tx (some st) [] (some none) unshared)
    × Settled (transaction_open_cursor_bound tx (some st) no_binder unshared)
transaction_open_cursor-Settled_example =
    transaction_open_cursor-Settled absent tx (some st) [] (some none) no_binder unshared

abbrev calls : List Call
calls =
    asks_flags false
    ∷ asks_type true
    ∷ executes (some tx) none one_row
    ∷ opens (some tx) none unshared
    ∷ frees false
    ∷ asks_type true
    ∷ []

run-destroy-IsSpent_example : IsSpent 7 (destroy (run 1 64 (prepared 7, []) calls) true)
run-destroy-IsSpent_example = run-destroy-IsSpent 7 1 64 calls true

run-Tells_example : Tells 7 1 64 (run 1 64 (prepared 7, []) calls).0
run-Tells_example = run-Tells 7 1 64 calls

set_param-sent_example :
    (m : Bytes) × (transaction_execute_bound tx
        (some st)
        (set_param absent binder (codes " ID ") (integer (pos 7))).0
        one_row
      ≡ (executed 7 (some 4) (some m) true ∷ [], ok (1, [])))
    × All (Written three (integer (pos 7)) m) (0 ∷ 2 ∷ [])
    × Untouched size three (0 ∷ 2 ∷ []) binder.buffer m
set_param-sent_example =
    set_param-sent absent size binder three (codes " ID ") (integer (pos 7)) (0 ∷ 2 ∷ []) st 7 tx
      one_row refl (omega arith) find-id three-Layout id-Ready st-Ready
