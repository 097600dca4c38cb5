-- ===== src/Statement/Params.antt =====
-- include/fbpp/core/statement.hpp, include/fbpp/core/transaction_templates.hpp and the overloads of
-- include/fbpp/core/param_binder.hpp: statements with parameters, called through a transaction.
use fbpp.Prelude.{
  ℕ, Bool, true, false, List, [], ◌∷◌, Option, none, some, length, replicate, ltb, if◌then◌else◌,
}
use fbpp.Prelude.Ascii.{Bytes}
use fbpp.Prelude.Result.{Result, ok, err}
use fbpp.Message.{FieldInfo}
use fbpp.Codec.{Outside}
use fbpp.Packing.{Value, Kind, pack, unpack}
use fbpp.Packing
use fbpp.ParamBinder.{Binder, is_empty}
use fbpp.Transaction.{Transaction, is_active}
use fbpp.Statement.{
  Statement, Event, Fault, Outcome, not_valid, invalid_transaction, transaction_null,
  null_statement, no_parameters, no_output, engine, packing, throws, Executed, Opened, execute_raw,
  open_cursor_raw, is_valid,
}

-- The engine's description of a message: an exception, a null pointer, or the fields with the
-- length of the message.
abbrev pub Described : Type 0
Described = Option (Option (List FieldInfo × ℕ))

-- `data()` of a vector, which is null for an empty one.
abbrev pub data_of : Bytes → Option Bytes
data_of [] = none
data_of (b ∷ bs) = some (b ∷ bs)

-- What is executed with the parameters: nothing, or a message.
abbrev pub packed_as : Result Packing.Fault Bytes → Result Fault (Option Bytes)
packed_as (ok m) = ok (some m)
packed_as (err e) = err (packing e)

-- The parameters of a tuple. A statement without parameters takes the empty tuple only.
unfoldable pub input_message : Outside → List Value → Described → Result Fault (Option Bytes)
input_message E vs none = err engine
input_message E vs (some none) = if ltb 0 (length vs) then err no_parameters else ok none
input_message E vs (some (some (fs, n))) =
    packed_as (pack E true (some (fs, n)) vs (data_of (replicate n 0)))

-- With a RETURNING clause, the parameters are left out where the statement has none.
unfoldable pub returning_message : Outside → List Value → Described → Result Fault (Option Bytes)
returning_message E vs none = err engine
returning_message E vs (some none) = ok none
returning_message E vs (some (some (fs, n))) =
    packed_as (pack E true (some (fs, n)) vs (data_of (replicate n 0)))

abbrev pub with_message :
    {A : Type 0} → Statement → (Option Bytes → Outcome A) → Result Fault (Option Bytes) → Outcome A
with_message st call (ok message) = call message
with_message st call (err e) = throws st [] e

abbrev pub can_run : Option Transaction → Bool
can_run none = false
can_run (some t) = is_active t

-- `execute` with a tuple.
unfoldable pub execute :
    Outside
    → Statement
    → Option Transaction
    → List Value
    → Described
    → Executed
    → Outcome (ℕ × Bytes)
unfolding input_message
execute E st tx vs input a =
    if is_valid st
    then (if can_run tx
        then with_message st (λ message. execute_raw st tx message a) (input_message E vs input)
        else throws st [] invalid_transaction)
    else throws st [] not_valid

-- `openCursor` with a tuple.
unfoldable pub open_cursor :
    Outside → Statement → Option Transaction → List Value → Described → Opened → Outcome ℕ
unfolding input_message
open_cursor E st tx vs input a =
    if is_valid st
    then (if can_run tx
        then with_message st (λ message. open_cursor_raw st tx message a) (input_message E vs input)
        else throws st [] invalid_transaction)
    else throws st [] not_valid

-- What is read of the output message.
abbrev pub unpacked_as :
    Outside
    → List FieldInfo
    → List Kind
    → ℕ × Bytes
    → Result Packing.Fault (List Value)
    → Result Fault (ℕ × List Value)
unpacked_as E fs ks r (ok vs) = ok (r.0, vs)
unpacked_as E fs ks r (err e) = err (packing e)

abbrev pub read_output :
    Outside → List FieldInfo → List Kind → Result Fault (ℕ × Bytes) → Result Fault (ℕ × List Value)
read_output E fs ks (ok r) = unpacked_as E fs ks r (unpack E true (some fs) ks (data_of r.1))
read_output E fs ks (err e) = err e

abbrev pub execute_output :
    Outside
    → Statement
    → Option Transaction
    → List Kind
    → Option Bytes
    → Executed
    → Described
    → Outcome (ℕ × List Value)
execute_output E st tx ks message a none = throws st [] engine
execute_output E st tx ks message a (some none) = throws st [] no_output
execute_output E st tx ks message a (some (some (fs, n))) = record {
  object = (execute_raw st tx message a).object;
  events = (execute_raw st tx message a).events;
  result = read_output E fs ks (execute_raw st tx message a).result;
}

abbrev pub returning_with :
    Outside
    → Statement
    → Option Transaction
    → List Value
    → List Kind
    → Described
    → Described
    → Executed
    → Outcome (ℕ × List Value)
returning_with E st none vs ks input output a = throws st [] transaction_null
returning_with E st (some t) vs ks input output a =
    with_message st (λ message. execute_output E st (some t) ks message a output)
      (returning_message E vs input)

-- `execute` with a RETURNING clause: the affected records and the values of the output message.
unfoldable pub execute_returning :
    Outside
    → Statement
    → Option Transaction
    → List Value
    → List Kind
    → Described
    → Described
    → Executed
    → Outcome (ℕ × List Value)
unfolding returning_message
execute_returning E st tx vs ks input output a =
    if is_valid st then returning_with E st tx vs ks input output a else throws st [] not_valid

-- The calls through `Transaction`: the statement is a pointer that may be null, the transaction the
-- object itself. The events and the result only, since a null pointer has no statement.
abbrev pub Answered : Type 0 → Type 0
Answered A = List Event × Result Fault A

abbrev pub through :
    {A : Type 0} → Transaction → (Statement → Outcome A) → Option Statement → Answered A
through t call none = ([], err null_statement)
through t call (some st) =
    if is_active t then ((call st).events, (call st).result) else ([], err invalid_transaction)

unfoldable pub transaction_execute :
    Outside
    → Transaction
    → Option Statement
    → List Value
    → Described
    → Executed
    → Answered (ℕ × Bytes)
unfolding execute
transaction_execute E t p vs input a = through t (λ st. execute E st (some t) vs input a) p

unfoldable pub transaction_returning :
    Outside
    → Transaction
    → Option Statement
    → List Value
    → List Kind
    → Described
    → Described
    → Executed
    → Answered (ℕ × List Value)
unfolding execute_returning
transaction_returning E t p vs ks input output a =
    through t (λ st. execute_returning E st (some t) vs ks input output a) p

unfoldable pub transaction_open_cursor :
    Outside → Transaction → Option Statement → List Value → Described → Opened → Answered ℕ
unfolding open_cursor
transaction_open_cursor E t p vs input a = through t (λ st. open_cursor E st (some t) vs input a) p

-- The overloads for a binder: its message, or none where it is empty.
abbrev pub bound_message : Binder → Option Bytes
bound_message b = if is_empty b then none else some b.buffer

unfoldable pub transaction_execute_bound :
    Transaction → Option Statement → Binder → Executed → Answered (ℕ × Bytes)
transaction_execute_bound t p b a = through t (λ st. execute_raw st (some t) (bound_message b) a) p

unfoldable pub transaction_open_cursor_bound :
    Transaction → Option Statement → Binder → Opened → Answered ℕ
transaction_open_cursor_bound t p b a =
    through t (λ st. open_cursor_raw st (some t) (bound_message b) a) p
