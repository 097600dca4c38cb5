-- ===== src/Connection/Leaks.antt =====
-- What becomes of the transactions and the statements that a connection asks for.
use fbpp.Prelude.{
  ℕ, ◌+◌, ◌≡◌, refl, Bool, true, false, List, [], ◌∷◌, ◌++◌, Option, none, some, ◌==◌,
  if◌then◌else◌, arith,
}
use fbpp.Prelude.Ascii.{Bytes}
use fbpp.Prelude.Dict.{Dict}
use fbpp.Prelude.Result.{Result, ok, err}
use fbpp.NamedParam.{parse}
use fbpp.StatementCache.Prepare.{name_mapping}
use fbpp.Transaction.{Transaction, released, perform, drop_interface, call_engine, is_active}
use fbpp.Transaction.Owned.{holds}
use fbpp.Statement.{Statement, prepared}
use fbpp.Connection.{
  Fault, Ask, started, prepares, statement_released, transaction, Answered, Quick, Preparing,
  started_as, execute_quick, prepared_and_run, run_statement, quick_result, after_start,
  prepare_uncached, prepared_as, made_statement, with_mapping,
}

abbrev is : ℕ → ℕ → ℕ
is k n = if n == k then 1 else 0

-- How often a transaction was started and released.
abbrev pub starts : ℕ → List Ask → ℕ
starts k [] = 0
starts k (started n ∷ es) = is k n + starts k es
starts k (_ ∷ es) = starts k es

abbrev pub transaction_releases : ℕ → List Ask → ℕ
transaction_releases k [] = 0
transaction_releases k (transaction (released n) ∷ es) = is k n + transaction_releases k es
transaction_releases k (_ ∷ es) = transaction_releases k es

-- How often a statement was handed out and released.
abbrev pub preparations : ℕ → List Ask → ℕ
preparations k [] = 0
preparations k (prepares t sql s ∷ es) = holds k s + preparations k es
preparations k (_ ∷ es) = preparations k es

abbrev pub statement_releases : ℕ → List Ask → ℕ
statement_releases k [] = 0
statement_releases k (statement_released n ∷ es) = is k n + statement_releases k es
statement_releases k (_ ∷ es) = statement_releases k es

abbrev pub owned_transaction : ℕ → Result Fault Transaction → ℕ
owned_transaction k (ok t) = holds k t.handle
owned_transaction k (err e) = 0

abbrev pub owned_statement : ℕ → Result Fault Statement → ℕ
owned_statement k (ok st) = holds k st.handle
owned_statement k (err e) = 0

-- The transaction is the result's or was released, and the statement was released.
abbrev pub IsSettled : Answered Transaction → Type 0
IsSettled (es, r) =
    (k : ℕ)
    → (starts k es ≡ transaction_releases k es + owned_transaction k r)
      × (preparations k es ≡ statement_releases k es)

-- `Execute`, however the engine answers and whatever throws on the way: a transaction that was
-- started is the result's or was released, and a statement that was prepared was released, each once.
pub execute_quick-IsSettled :
    (attachment : Option ℕ) (sql : Bytes) (q : Quick) → IsSettled (execute_quick attachment sql q)
unfolding execute_quick
execute_quick-IsSettled none sql q k = (refl, refl)
execute_quick-IsSettled (some a) sql q k = by_start q.start k
  where
    ran :
        (tra s : ℕ) (executed freed made : Bool)
        → IsSettled (
            after_start tra (
              quick_result tra
                (record q { made = made })
                (
                  (run_statement tra s executed freed).0 ++ (prepares tra sql (some s) ∷ []),
                  (run_statement tra s executed freed).1,
                )))
    ran tra s false freed made j = (omega arith, omega arith)
    ran tra s true false made j = (omega arith, omega arith)
    ran tra s true true false j = (omega arith, omega arith)
    ran tra s true true true j = (omega arith, omega arith)

    by_prepare :
        (tra : ℕ) (o : Option (Option ℕ))
        → IsSettled (after_start tra (quick_result tra q (prepared_and_run tra sql q o)))
    by_prepare tra none j = (omega arith, refl)
    by_prepare tra (some none) j = (omega arith, refl)
    by_prepare tra (some (some s)) j = ran tra s q.executed q.freed q.made j

    by_start :
        (o : Option (Option ℕ))
        → IsSettled (
            started_as o
              (λ tra. after_start tra (quick_result tra q (prepared_and_run tra sql q q.prepare))))
    by_start none j = (refl, refl)
    by_start (some none) j = (refl, refl)
    by_start (some (some tra)) j = by_prepare tra q.prepare j

-- The statements that nobody owns: all that were prepared, where the commit behind the preparation
-- failed.
abbrev pub lost_statements : ℕ → Bool → List Ask → ℕ
lost_statements k committed es = if committed then 0 else preparations k es

-- The local transaction is released, and a statement is the result's or lost.
abbrev pub IsPrepared : Bool → Answered Statement → Type 0
IsPrepared committed (es, r) =
    (k : ℕ)
    → (starts k es ≡ transaction_releases k es)
      × (preparations k es
          ≡ statement_releases k es + owned_statement k r + lost_statements k committed es)

made_statement-owned :
    (k s : ℕ) (sql : Bytes) → owned_statement k (made_statement sql (some s)) ≡ holds k (some s)
made_statement-owned k s sql = by_mapping (name_mapping (parse sql))
  where
    by_mapping :
        (o : Option (Dict (List ℕ)))
        → holds k (with_mapping (prepared s) o).handle ≡ holds k (some s)
    by_mapping none = refl
    by_mapping (some mapping) = refl

-- `prepareStatementUncached`, however the engine answers: the local transaction is released once;
-- and a statement that the engine prepared is the result's, unless the commit behind it fails: then
-- the call throws, and the statement is neither the result's nor released.
pub prepare_uncached-IsPrepared :
    (attachment : Option ℕ) (sql : Bytes) (q : Preparing)
    → IsPrepared q.committed (prepare_uncached attachment sql q)
unfolding prepare_uncached perform drop_interface call_engine is_active
prepare_uncached-IsPrepared none sql q k = (refl, by_commit q.committed)
  where
    by_commit : (b : Bool) → 0 ≡ 0 + lost_statements k b []
    by_commit true = refl
    by_commit false = refl
prepare_uncached-IsPrepared (some a) sql q k = by_start q.start q.committed q.rolled_back k
  where
    by_prepare :
        (tra : ℕ) (o : Option (Option ℕ)) (c d : Bool)
        → IsPrepared c (prepared_as sql (record q { committed = c; rolled_back = d }) tra o)
    by_prepare tra none true true j = (omega arith, refl)
    by_prepare tra none true false j = (omega arith, refl)
    by_prepare tra none false true j = (omega arith, refl)
    by_prepare tra none false false j = (omega arith, refl)
    by_prepare tra (some none) true true j = (omega arith, refl)
    by_prepare tra (some none) true false j = (omega arith, refl)
    by_prepare tra (some none) false true j = (omega arith, refl)
    by_prepare tra (some none) false false j = (omega arith, refl)
    by_prepare tra (some (some s)) true d j =
        (omega arith, omega (arith, made_statement-owned j s sql))
    by_prepare tra (some (some s)) false true j = (omega arith, omega arith)
    by_prepare tra (some (some s)) false false j = (omega arith, omega arith)

    by_start :
        (o : Option (Option ℕ)) (c d : Bool)
        → IsPrepared c (
            started_as o
              (λ tra. prepared_as sql (record q { committed = c; rolled_back = d }) tra q.prepare))
    by_start none true d j = (refl, refl)
    by_start none false d j = (refl, refl)
    by_start (some none) true d j = (refl, refl)
    by_start (some none) false d j = (refl, refl)
    by_start (some (some tra)) c d j = by_prepare tra q.prepare c d j
