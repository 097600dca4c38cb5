-- ===== src/Transaction.antt =====
-- src/core/firebird/fb_transaction.cpp and include/fbpp/core/transaction.hpp: the owner of the
-- engine's transaction interface. The engine numbers its interfaces; whether a call of it throws
-- is an argument.
mod Tests
pub mod Blob
pub mod World
pub mod Owned
pub mod Released
use fbpp.Prelude.{
  ℕ, ◌+◌, Bool, true, false, not, ◌||◌, List, [], ◌∷◌, Option, none, some, if◌then◌else◌,
}

-- `transaction_` and `active_`; the connection is not read by these operations.
pub record Transaction : Type 0 where
  pub handle : Option ℕ
  pub active : Bool

-- The calls of the engine that end a transaction or keep it.
pub data Operation : Type 0 where
  commit rollback commit_retaining rollback_retaining : Operation

-- What the engine is asked: an operation on an interface, with whether it succeeds, or the
-- release of one. The newest is in front.
pub data Event : Type 0 where
  called : Operation → ℕ → Bool → Event
  released : ℕ → Event

pub data Reply : Type 0 where
  done not_active failed : Reply

pub record After : Type 0 where
  pub object : Transaction
  pub events : List Event
  pub reply : Reply

abbrev pub is_retaining : Operation → Bool
is_retaining commit = false
is_retaining rollback = false
is_retaining commit_retaining = true
is_retaining rollback_retaining = true

abbrev pub empty : Transaction
empty = record { handle = none; active = false }

-- The body of the `try`: `Commit` and `Rollback` release the interface behind the call, the
-- retaining forms keep it; a call that throws changes nothing.
unfoldable pub call_engine : Operation → Transaction → ℕ → Bool → After
call_engine op t h false = record { object = t; events = called op h false ∷ []; reply = failed }
call_engine op t h true =
    if is_retaining op
    then record { object = t; events = called op h true ∷ []; reply = done }
    else record { object = empty; events = released h ∷ called op h true ∷ []; reply = done }

abbrev pub refuse : Transaction → After
refuse t = record { object = t; events = []; reply = not_active }

abbrev pub perform_active : Operation → Transaction → Bool → Option ℕ → Bool → After
perform_active op t succeeds none is_active = refuse t
perform_active op t succeeds (some h) false = refuse t
perform_active op t succeeds (some h) true = call_engine op t h succeeds

-- `Commit`, `Rollback`, `CommitRetaining` and `RollbackRetaining`.
unfoldable pub perform : Operation → Transaction → Bool → After
unfolding call_engine
perform op t succeeds = perform_active op t succeeds t.handle t.active

-- `isActive`.
unfoldable pub is_active : Transaction → Bool
is_active t = elim t.handle [ none ↦ false | some h ↦ t.active ]

-- What the destructor and the assignment do with the old interface: roll back, and release it if
-- that fails.
abbrev pub drop_failed : Option ℕ → After → Reply → After
drop_failed (some h) a failed = record {
  object = empty;
  events = released h ∷ a.events;
  reply = done;
}
drop_failed o a r = a

unfoldable pub drop_interface : Transaction → Bool → After
unfolding perform
drop_interface t succeeds =
    if is_active t
    then drop_failed t.handle (perform rollback t succeeds) (perform rollback t succeeds).reply
    else record { object = t; events = []; reply = done }
