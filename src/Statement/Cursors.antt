-- ===== src/Statement/Cursors.antt =====
-- A cursor that the engine opened belongs to the result set, or is closed and released.
use fbpp.Prelude.{
  ℕ, ◌+◌, ◌≡◌, refl, Bool, true, false, List, [], ◌∷◌, Option, none, some, ◌==◌, if◌then◌else◌,
  arith,
}
use fbpp.Prelude.Ascii.{Bytes}
use fbpp.Prelude.Result.{Result, ok, err}
use fbpp.Codec.{Outside}
use fbpp.Packing.{Value}
use fbpp.ParamBinder.{Binder}
use fbpp.Transaction.{Transaction, is_active}
use fbpp.Statement.{
  Statement, Event, opened, cursor_closed, cursor_released, Fault, Outcome, Opened, open_cursor_raw,
  open_on, open_active, after_open, keep_cursor, wrap_cursor, is_valid,
}
use fbpp.Statement.Params.{
  Described, Answered, input_message, with_message, can_run, open_cursor, through,
  transaction_open_cursor, transaction_open_cursor_bound, bound_message,
}

abbrev is : ℕ → ℕ → ℕ
is c k = if k == c then 1 else 0

abbrev is_some : ℕ → Option ℕ → ℕ
is_some c none = 0
is_some c (some k) = is c k

abbrev pub openings : ℕ → List Event → ℕ
openings c [] = 0
openings c (opened h tra message o ∷ es) = is_some c o + openings c es
openings c (_ ∷ es) = openings c es

abbrev pub closings : ℕ → List Event → ℕ
closings c [] = 0
closings c (cursor_closed k ∷ es) = is c k + closings c es
closings c (_ ∷ es) = closings c es

abbrev pub cursor_releases : ℕ → List Event → ℕ
cursor_releases c [] = 0
cursor_releases c (cursor_released k ∷ es) = is c k + cursor_releases c es
cursor_releases c (_ ∷ es) = cursor_releases c es

abbrev pub owned : ℕ → Result Fault ℕ → ℕ
owned c (ok k) = is c k
owned c (err e) = 0

-- Every opened cursor is owned by the result or closed, and what is closed is released.
abbrev pub Settled : Answered ℕ → Type 0
Settled (es, r) =
    (c : ℕ) → (openings c es ≡ closings c es + owned c r) × (cursor_releases c es ≡ closings c es)

abbrev SettledOutcome : Outcome ℕ → Type 0
SettledOutcome o = Settled (o.events, o.result)

open_cursor_raw-Settled :
    (st : Statement) (tx : Option Transaction) (message : Option Bytes) (a : Opened)
    → SettledOutcome (open_cursor_raw st tx message a)
unfolding open_cursor_raw
open_cursor_raw-Settled st tx message a = on st.handle tx
  where
    kept :
        (h : ℕ) (tra : Option ℕ) (c : ℕ) (r : Result Fault Bool)
        → SettledOutcome (keep_cursor st (opened h tra message (some c)) c r)
    kept h tra c (ok b) k = (omega arith, refl)
    kept h tra c (err f) k = (omega arith, refl)

    replied :
        (h : ℕ) (tra : Option ℕ) (o : Option (Option ℕ))
        → SettledOutcome (after_open st h tra message a o)
    replied h tra none k = (refl, refl)
    replied h tra (some none) k = (refl, refl)
    replied h tra (some (some c)) k = kept h tra c (wrap_cursor a) k

    active : (h : ℕ) (t : Transaction) (b : Bool) → SettledOutcome (open_active st h message a t b)
    active h t false k = (refl, refl)
    active h t true k = replied h t.handle a.cursor k

    on : (o : Option ℕ) (x : Option Transaction) → SettledOutcome (open_on st x message a o)
    on none x k = (refl, refl)
    on (some h) none k = (refl, refl)
    on (some h) (some t) k = active h t (is_active t) k

with_message-Settled :
    (st : Statement) (call : Option Bytes → Outcome ℕ) (r : Result Fault (Option Bytes))
    → ((message : Option Bytes) → SettledOutcome (call message))
    → SettledOutcome (with_message st call r)
with_message-Settled st call (ok message) settled c = settled message c
with_message-Settled st call (err e) settled c = (refl, refl)

if-Settled :
    (b : Bool) (x y : Outcome ℕ)
    → SettledOutcome x
    → SettledOutcome y
    → SettledOutcome (if b then x else y)
if-Settled true x y s s' = s
if-Settled false x y s s' = s'

open_cursor-Settled :
    (E : Outside) (st : Statement) (tx : Option Transaction) (vs : List Value) (input : Described)
    (a : Opened)
    → SettledOutcome (open_cursor E st tx vs input a)
unfolding open_cursor
open_cursor-Settled E st tx vs input a =
    if-Settled (is_valid st) _ _
      (if-Settled (can_run tx) _ _
        (with_message-Settled st _ (input_message E vs input)
          (λ message. open_cursor_raw-Settled st tx message a))
        (λ c. (refl, refl)))
      (λ c. (refl, refl))

through-Settled :
    (t : Transaction) (call : Statement → Outcome ℕ) (p : Option Statement)
    → ((st : Statement) → SettledOutcome (call st))
    → Settled (through t call p)
through-Settled t call none settled c = (refl, refl)
through-Settled t call (some st) settled c = choose (is_active t) c
  where
    choose :
        (b : Bool)
        → Settled (
            if b then ((call st).events, (call st).result) else ([], err Fault.invalid_transaction))
    choose true k = settled st k
    choose false k = (refl, refl)

-- Opening a cursor through a transaction, with any values or with a binder, however the engine
-- answers and whatever throws on the way: a cursor that the engine opened is that of the result set
-- or was closed and released, each once.
pub transaction_open_cursor-Settled :
    (E : Outside) (t : Transaction) (p : Option Statement) (vs : List Value) (input : Described)
    (b : Binder) (a : Opened)
    → Settled (transaction_open_cursor E t p vs input a)
      × Settled (transaction_open_cursor_bound t p b a)
unfolding transaction_open_cursor transaction_open_cursor_bound
transaction_open_cursor-Settled E t p vs input b a = (
  through-Settled t (λ st. open_cursor E st (some t) vs input a) p
      (λ st. open_cursor-Settled E st (some t) vs input a),
  through-Settled t (λ st. open_cursor_raw st (some t) (bound_message b) a) p
      (λ st. open_cursor_raw-Settled st (some t) (bound_message b) a),
)
