-- ===== src/Connection/Ddl.antt =====
-- `ExecuteDDL` of src/core/firebird/fb_connection.cpp, which alters the schema and then empties the
-- statement cache of the connection.
use fbpp.Prelude.{ℕ, ◌≡◌, refl, Bool, true, false, List, [], ◌++◌, Option, none, some, arith}
use fbpp.Prelude.Ascii.{Bytes}
use fbpp.Prelude.Result.{Result, ok, err}
use fbpp.StatementCache.State.{StatementCache}
use fbpp.StatementCache.Maintain.{clear}
use fbpp.Transaction.{
  Transaction, commit, done, perform, drop_interface, call_engine, is_active, After, Reply,
}
use fbpp.Connection.{
  Fault, engine, Ask, Answered, of_object, dropped, start_transaction, execute_in_transaction,
}
use fbpp.Connection.Leaks.{starts, transaction_releases}

-- The answers: the start, the statement, the commit, and the rollback of the destructor.
pub record Altering : Type 0 where
  pub start : Option (Option ℕ)
  pub executed : Bool
  pub committed : Bool
  pub rolled_back : Bool

abbrev pub ddl_committed : Bool → List Ask → After → Reply → Answered Bool
ddl_committed rolled_back es a done =
    (dropped a.object rolled_back (of_object a.events ++ es), ok true)
ddl_committed rolled_back es a _ =
    (dropped a.object rolled_back (of_object a.events ++ es), err engine)

abbrev pub ddl_executed : Altering → Transaction → List Ask → Answered Bool → Answered Bool
ddl_executed q t before (es, err e) = (dropped t q.rolled_back (es ++ before), err e)
ddl_executed q t before (es, ok b) =
    ddl_committed q.rolled_back (es ++ before) (perform commit t q.committed)
      (perform commit t q.committed).reply

abbrev pub ddl_started : Option ℕ → Bytes → Altering → Answered Transaction → Answered Bool
ddl_started attachment ddl q (es, err e) = (es, err e)
ddl_started attachment ddl q (es, ok t) =
    ddl_executed q t es (execute_in_transaction attachment (some t) ddl q.executed)

-- The cache, which a connection may lack, is emptied at the end.
abbrev pub clear_made : Option StatementCache → Option StatementCache
clear_made none = none
clear_made (some c) = some (clear c)

abbrev pub cache_after : Result Fault Bool → Option StatementCache → Option StatementCache
cache_after (ok b) o = clear_made o
cache_after (err e) o = o

-- `ExecuteDDL`, with the cache that it leaves.
unfoldable pub execute_ddl :
    Option ℕ → Option StatementCache → Bytes → Altering → Answered Bool × Option StatementCache
unfolding start_transaction execute_in_transaction
execute_ddl attachment cache ddl q =
    let r = ddl_started attachment ddl q (start_transaction attachment q.start) in
    (r, cache_after r.1 cache)

abbrev pub IsCleared : Option StatementCache → Type 0
IsCleared none = Unit
IsCleared (some c) = (c.cache ≡ []) × (c.lru_list ≡ []) × (c.lru_map ≡ [])

-- What the cache is, by the result.
abbrev pub IsFresh : Option StatementCache → Result Fault Bool → Option StatementCache → Type 0
IsFresh cache (ok b) after = IsCleared after
IsFresh cache (err e) after = after ≡ cache

abbrev pub IsAltered : Option StatementCache → Answered Bool × Option StatementCache → Type 0
IsAltered cache ((es, r), after) =
    ((k : ℕ) → starts k es ≡ transaction_releases k es) × IsFresh cache r after

clear_made-IsCleared : (o : Option StatementCache) → IsCleared (clear_made o)
unfolding clear
clear_made-IsCleared none = tt
clear_made-IsCleared (some c) = (refl, refl, refl)

-- `ExecuteDDL`, however the engine answers: the transaction that it starts is released once; when it
-- returns, the cache has no statement and no entry in its order of use; when it throws, the cache is
-- as it was.
pub execute_ddl-IsAltered :
    (attachment : Option ℕ) (cache : Option StatementCache) (ddl : Bytes) (q : Altering)
    → IsAltered cache (execute_ddl attachment cache ddl q)
unfolding execute_ddl start_transaction execute_in_transaction perform drop_interface call_engine
    is_active
execute_ddl-IsAltered none cache ddl q = (λ k. refl, refl)
execute_ddl-IsAltered (some a) cache ddl q = by_start q.start q.executed q.committed q.rolled_back
  where
    by_start :
        (o : Option (Option ℕ)) (x c d : Bool)
        → IsAltered cache (
            execute_ddl
              (some a)
              cache
              ddl
              record { start = o; executed = x; committed = c; rolled_back = d })
    by_start none x c d = (λ k. refl, refl)
    by_start (some none) x c d = (λ k. refl, refl)
    by_start (some (some tra)) false c true = (λ k. omega arith, refl)
    by_start (some (some tra)) false c false = (λ k. omega arith, refl)
    by_start (some (some tra)) true true d = (λ k. omega arith, clear_made-IsCleared cache)
    by_start (some (some tra)) true false true = (λ k. omega arith, refl)
    by_start (some (some tra)) true false false = (λ k. omega arith, refl)
