-- ===== src/Connection.antt =====
-- src/core/firebird/fb_connection.cpp: the attachment, and the interfaces that are asked of it. What
-- the engine answers is an argument; the interfaces that it hands out are numbers. The allocation of
-- an object for an interface is taken to succeed, but in `Execute`, where it may throw.
pub mod Database
pub mod Leaks
pub mod Ddl
pub mod Attachments
mod Tests
use fbpp.Prelude.{ℕ, Bool, true, false, List, [], ◌∷◌, ◌++◌, Option, none, some, if◌then◌else◌}
use fbpp.Prelude.Ascii.{Bytes}
use fbpp.Prelude.Dict.{Dict}
use fbpp.Prelude.Result.{Result, ok, err}
use fbpp.NamedParam.{ParseResult, parse}
use fbpp.StatementCache.Prepare.{actual_sql, name_mapping}
use fbpp.Transaction.{
  Transaction, Event, called, released, done, failed, commit, rollback, is_active, perform,
  drop_interface, After, Reply,
}
use fbpp.Statement.{Statement, prepared}

pub data Fault : Type 0 where
  not_connected not_started not_prepared inactive engine : Fault

-- What is asked of the engine, the newest in front: transactions and statements with what became of
-- them, and the events of a Transaction object.
pub data Ask : Type 0 where
  started : ℕ → Ask
  prepares : ℕ → Bytes → Option ℕ → Ask
  runs : ℕ → ℕ → Bool → Ask
  statement_freed : ℕ → Bool → Ask
  statement_released : ℕ → Ask
  executes : ℕ → Bytes → Bool → Ask
  transaction : Event → Ask

abbrev pub of_object : List Event → List Ask
of_object [] = []
of_object (e ∷ es) = transaction e ∷ of_object es

abbrev pub Answered : Type 0 → Type 0
Answered A = List Ask × Result Fault A

abbrev pub object_of : ℕ → Transaction
object_of tra = record { handle = some tra; active = true }

-- `startTransaction`: an exception or a pointer, which may be null.
abbrev pub started_as : {A : Type 0} → Option (Option ℕ) → (ℕ → Answered A) → Answered A
started_as none next = ([], err engine)
started_as (some none) next = ([], err not_started)
started_as (some (some tra)) next = next tra

abbrev pub on_attachment : {A : Type 0} → Option ℕ → Answered A → Answered A
on_attachment none result = ([], err not_connected)
on_attachment (some a) result = result

unfoldable pub start_transaction : Option ℕ → Option (Option ℕ) → Answered Transaction
start_transaction attachment start =
    on_attachment attachment (started_as start (λ tra. (started tra ∷ [], ok (object_of tra))))

-- The answers to the calls of `Execute`: flags for `execute`, `free`, `rollback`, and for the
-- allocation of the result.
pub record Quick : Type 0 where
  pub start : Option (Option ℕ)
  pub prepare : Option (Option ℕ)
  pub executed : Bool
  pub freed : Bool
  pub rolled_back : Bool
  pub made : Bool

-- The statement, in the inner `try`.
abbrev pub run_statement : ℕ → ℕ → Bool → Bool → Answered Bool
run_statement tra s false freed = (statement_released s ∷ runs s tra false ∷ [], err engine)
run_statement tra s true freed = (
  statement_released s ∷ statement_freed s freed ∷ runs s tra true ∷ [],
  (if freed then ok true else err engine),
)

abbrev pub prepared_and_run : ℕ → Bytes → Quick → Option (Option ℕ) → Answered Bool
prepared_and_run tra sql q none = (prepares tra sql none ∷ [], err engine)
prepared_and_run tra sql q (some none) = (prepares tra sql none ∷ [], err not_prepared)
prepared_and_run tra sql q (some (some s)) = (
  (run_statement tra s q.executed q.freed).0 ++ (prepares tra sql (some s) ∷ []),
  (run_statement tra s q.executed q.freed).1,
)

-- What a failure behind the start does.
abbrev pub abandoned : ℕ → Bool → List Ask → Fault → Answered Transaction
abandoned tra rolled_back es e =
    (transaction (released tra) ∷ transaction (called rollback tra rolled_back) ∷ es, err e)

abbrev pub quick_result : ℕ → Quick → Answered Bool → Answered Transaction
quick_result tra q (es, ok b) =
    if q.made then (es, ok (object_of tra)) else abandoned tra q.rolled_back es engine
quick_result tra q (es, err e) = abandoned tra q.rolled_back es e

abbrev pub after_start : ℕ → Answered Transaction → Answered Transaction
after_start tra (es, r) = (es ++ (started tra ∷ []), r)

-- `Execute`.
unfoldable pub execute_quick : Option ℕ → Bytes → Quick → Answered Transaction
execute_quick attachment sql q = on_attachment attachment (
    started_as q.start
      (λ tra. after_start tra (quick_result tra q (prepared_and_run tra sql q q.prepare))))

-- `ExecuteInTransaction`; the flag says whether the engine's call succeeds.
abbrev pub execute_as : Option ℕ → Bytes → Bool → Answered Bool
execute_as none sql b = ([], err inactive)
execute_as (some tra) sql b = (executes tra sql b ∷ [], (if b then ok true else err engine))

abbrev pub execute_active : Option Transaction → Bytes → Bool → Answered Bool
execute_active none sql b = ([], err inactive)
execute_active (some t) sql b =
    if is_active t then execute_as t.handle sql b else ([], err inactive)

unfoldable pub execute_in_transaction : Option ℕ → Option Transaction → Bytes → Bool → Answered Bool
execute_in_transaction attachment t sql b = on_attachment attachment (execute_active t sql b)

-- The answers for `prepareStatementUncached`: the start, the statement, the commit, and the rollback
-- of the destructor of the local transaction.
pub record Preparing : Type 0 where
  pub start : Option (Option ℕ)
  pub prepare : Option (Option ℕ)
  pub committed : Bool
  pub rolled_back : Bool

abbrev pub with_mapping : Statement → Option (Dict (List ℕ)) → Statement
with_mapping st none = st
with_mapping st (some mapping) = record st { mapping = mapping; has_named_params = true }

abbrev pub made_statement : Bytes → Option ℕ → Result Fault Statement
made_statement sql none = err not_prepared
made_statement sql (some s) = ok (with_mapping (prepared s) (name_mapping (parse sql)))

-- The local transaction is destroyed behind what happened to it.
abbrev pub dropped : Transaction → Bool → List Ask → List Ask
dropped t rolled_back es = of_object (drop_interface t rolled_back).events ++ es

abbrev pub committed_as :
    Bytes → Preparing → Option ℕ → List Ask → After → Reply → Answered Statement
committed_as sql q s es a done =
    (dropped a.object q.rolled_back (of_object a.events ++ es), made_statement sql s)
committed_as sql q s es a _ =
    (dropped a.object q.rolled_back (of_object a.events ++ es), err engine)

abbrev pub prepared_as : Bytes → Preparing → ℕ → Option (Option ℕ) → Answered Statement
prepared_as sql q tra none = (
  dropped (object_of tra) q.rolled_back
      (prepares tra (actual_sql (parse sql) sql) none ∷ started tra ∷ []),
  err engine,
)
prepared_as sql q tra (some s) =
    committed_as sql q s (prepares tra (actual_sql (parse sql) sql) s ∷ started tra ∷ [])
      (perform commit (object_of tra) q.committed)
      (perform commit (object_of tra) q.committed).reply

-- `prepareStatementUncached`.
unfoldable pub prepare_uncached : Option ℕ → Bytes → Preparing → Answered Statement
prepare_uncached attachment sql q =
    on_attachment attachment (started_as q.start (λ tra. prepared_as sql q tra q.prepare))
