-- ===== src/Connection/Attachments.antt =====
-- What becomes of the attachments that src/core/firebird/fb_connection.cpp asks for.
use fbpp.Prelude.{
  ℕ, ◌+◌, ◌≡◌, refl, Bool, true, false, List, [], ◌∷◌, ◌++◌, Option, none, some, ◌==◌,
  if◌then◌else◌, arith,
}
use fbpp.Prelude.Result.{Result, ok, err}
use fbpp.Transaction.Owned.{holds}
use fbpp.Connection.Database.{
  ConnectionParams, Ask, attached, created, released, Fault, Pointer, DropAnswer, refused, attaches,
  connect, disconnect, create_database, database_exists, drop_database,
}

-- How often an attachment was handed out and released.
abbrev pub handed_out : ℕ → List Ask → ℕ
handed_out k [] = 0
handed_out k (attached name dpb a ∷ es) = holds k a + handed_out k es
handed_out k (created name dpb a ∷ es) = holds k a + handed_out k es
handed_out k (_ ∷ es) = handed_out k es

abbrev pub attachment_releases : ℕ → List Ask → ℕ
attachment_releases k [] = 0
attachment_releases k (released a ∷ es) = (if a == k then 1 else 0) + attachment_releases k es
attachment_releases k (_ ∷ es) = attachment_releases k es

-- All attachments are released if the engine lets go of them, and none of them otherwise.
abbrev pub IsReturned : Bool → List Ask → Type 0
IsReturned let_go es = (k : ℕ) → attachment_releases k es ≡ (if let_go then handed_out k es else 0)

abbrev pub attachment_of : Result Fault ℕ → Option ℕ
attachment_of (ok a) = some a
attachment_of (err e) = none

-- An object that connects and disconnects.
abbrev pub session : ConnectionParams → Pointer → Bool → List Ask
session p answer b = disconnect (attachment_of (connect p answer).1) b ++ (connect p answer).0

exists-IsReturned :
    (p : ConnectionParams) (answer : Pointer) (b : Bool)
    → IsReturned b (database_exists p answer b).0
unfolding database_exists
exists-IsReturned p none true k = refl
exists-IsReturned p none false k = refl
exists-IsReturned p (some none) true k = refl
exists-IsReturned p (some none) false k = refl
exists-IsReturned p (some (some a)) true k = omega arith
exists-IsReturned p (some (some a)) false k = refl

create-IsReturned :
    (p : ConnectionParams) (answer : Pointer) (b : Bool)
    → IsReturned b (create_database p answer b).0
unfolding create_database
create-IsReturned p none true k = refl
create-IsReturned p none false k = refl
create-IsReturned p (some none) true k = refl
create-IsReturned p (some none) false k = refl
create-IsReturned p (some (some a)) true k = omega arith
create-IsReturned p (some (some a)) false k = refl

drop-IsReturned :
    (p : ConnectionParams) (answer : DropAnswer) (b : Bool)
    → IsReturned b (drop_database p answer b).0
unfolding drop_database
drop-IsReturned p (refused v) true k = refl
drop-IsReturned p (refused v) false k = refl
drop-IsReturned p (attaches none) true k = refl
drop-IsReturned p (attaches none) false k = refl
drop-IsReturned p (attaches (some a)) true k = omega arith
drop-IsReturned p (attaches (some a)) false k = refl

session-IsReturned :
    (p : ConnectionParams) (answer : Pointer) (b : Bool) → IsReturned b (session p answer b)
unfolding connect disconnect
session-IsReturned p none true k = refl
session-IsReturned p none false k = refl
session-IsReturned p (some none) true k = refl
session-IsReturned p (some none) false k = refl
session-IsReturned p (some (some a)) true k = omega arith
session-IsReturned p (some (some a)) false k = refl

-- `databaseExists`, `createDatabase`, `dropDatabase`, and `connect` with the `disconnect` behind it,
-- however the engine answers to them: what they attach is released, each attachment once, if the
-- engine's `detach` or `dropDatabase` (flag `b`) succeeds; if it throws, nothing is released.
pub database_calls-IsReturned :
    (p : ConnectionParams) (answer : Pointer) (drop_answer : DropAnswer) (b : Bool)
    → IsReturned b (database_exists p answer b).0
      × IsReturned b (create_database p answer b).0
      × IsReturned b (drop_database p drop_answer b).0
      × IsReturned b (session p answer b)
database_calls-IsReturned p answer drop_answer b = (
  exists-IsReturned p answer b,
  create-IsReturned p answer b,
  drop-IsReturned p drop_answer b,
  session-IsReturned p answer b,
)
