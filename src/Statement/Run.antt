-- ===== src/Statement/Run.antt =====
-- The calls of a program on a statement, and what they ask of the engine.
use fbpp.Prelude.{ℕ, ◌+◌, ◌≡◌, Bool, true, List, [], ◌∷◌, ◌++◌, Option, none, some, if◌then◌else◌}
use fbpp.Prelude.Ascii.{Bytes}
use fbpp.Prelude.Dict.{Dict}
use fbpp.Transaction.{Transaction}
use fbpp.Statement.{
  Statement, Event, executed, opened, cursor_closed, cursor_released, described, freed, released,
  Executed, Opened, execute_raw, open_cursor_raw, get_type, get_flags, free, cleanup,
}

-- The calls of a program on a statement; the flags say whether the engine's call succeeds.
pub data Call : Type 0 where
  asks_type asks_flags frees : Bool → Call
  executes : Option Transaction → Option Bytes → Executed → Call
  opens : Option Transaction → Option Bytes → Opened → Call
  names : Dict (List ℕ) → Bool → Call

-- What the engine says of the type and the flags, if its call succeeds.
abbrev pub answer : ℕ → ℕ → Bool → Option (ℕ × ℕ)
answer t f succeeds = if succeeds then some (t, f) else none

abbrev pub set_mapping : Statement → Dict (List ℕ) → Bool → Statement
set_mapping st mapping named = record st { mapping = mapping; has_named_params = named }

unfoldable pub step : ℕ → ℕ → Statement × List Event → Call → Statement × List Event
step t f (st, log) (asks_type b) =
    ((get_type st (answer t f b)).object, (get_type st (answer t f b)).events ++ log)
step t f (st, log) (asks_flags b) =
    ((get_flags st (answer t f b)).object, (get_flags st (answer t f b)).events ++ log)
step t f (st, log) (frees b) = ((free st b).object, (free st b).events ++ log)
step t f (st, log) (executes tx message a) =
    ((execute_raw st tx message a).object, (execute_raw st tx message a).events ++ log)
step t f (st, log) (opens tx message a) =
    ((open_cursor_raw st tx message a).object, (open_cursor_raw st tx message a).events ++ log)
step t f (st, log) (names mapping named) = (set_mapping st mapping named, log)

unfoldable pub run : ℕ → ℕ → Statement × List Event → List Call → Statement × List Event
unfolding step
run t f w [] = w
run t f w (c ∷ cs) = run t f (step t f w c) cs

-- The destructor.
unfoldable pub destroy : Statement × List Event → Bool → Statement × List Event
destroy (st, log) b = ((cleanup st b).0, (cleanup st b).1 ++ log)

-- How often the description was got, and the interface freed and released.
abbrev pub descriptions : List Event → ℕ
descriptions [] = 0
descriptions (described h true ∷ es) = descriptions es + 1
descriptions (_ ∷ es) = descriptions es

abbrev pub frees_of : List Event → ℕ
frees_of [] = 0
frees_of (freed h b ∷ es) = frees_of es + 1
frees_of (_ ∷ es) = frees_of es

abbrev pub releases : List Event → ℕ
releases [] = 0
releases (released h ∷ es) = releases es + 1
releases (_ ∷ es) = releases es

-- The event asks the statement's interface, or is about a cursor.
abbrev pub Asks : ℕ → Event → Type 0
Asks h (executed k tra message b) = k ≡ h
Asks h (opened k tra message c) = k ≡ h
Asks h (cursor_closed c) = Unit {0}
Asks h (cursor_released c) = Unit {0}
Asks h (described k b) = k ≡ h
Asks h (freed k b) = k ≡ h
Asks h (released k) = k ≡ h

-- Nothing but the interface is asked, and nothing after its release.
abbrev pub Clean : ℕ → List Event → Type 0
Clean h [] = Unit {0}
Clean h (e ∷ es) = Asks h e × (releases es ≡ 0) × Clean h es
