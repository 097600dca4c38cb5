-- ===== src/Statement/Stages.antt =====
-- The stages of a statement, through one call.
use fbpp.Prelude.{
  ℕ, ◌≤◌, ◌≡◌, refl, ◌∙◌, ap, Bool, true, false, List, [], ◌∷◌, ◌++◌, Option, none, some, arith,
}
use mathlib.Core.Path.{subst}
use fbpp.Prelude.Ascii.{Bytes}
use fbpp.Prelude.Result.{Result, ok, err}
use fbpp.Transaction.{Transaction, is_active}
use fbpp.Statement.{
  Statement, Event, executed, opened, cursor_closed, cursor_released, described, freed, released,
  Fault, Executed, Opened, execute_raw, execute_on, execute_active, after_execute, open_cursor_raw,
  open_on, open_active, after_open, keep_cursor, wrap_cursor, load_description, describe_on, free,
  free_on,
}
use fbpp.Statement.Run.{answer, descriptions, frees_of, releases, Clean}

-- Before and after the description is got, and after the interface is freed.
pub data Stage (h t f : ℕ) (st : Statement) (log : List Event) : Type 0 where
  unasked :
      st.handle ≡ some h
      → st.metadata_loaded ≡ false
      → (descriptions log ≡ 0) × (frees_of log ≡ 0) × (releases log ≡ 0)
      → Stage h t f st log
  asked :
      st.handle ≡ some h
      → st.metadata_loaded ≡ true
      → (st.type ≡ t) × (st.flags ≡ f)
      → (descriptions log ≡ 1) × (frees_of log ≡ 0) × (releases log ≡ 0)
      → Stage h t f st log
  gone :
      st.handle ≡ none
      → (descriptions log ≤ 1) × (frees_of log ≡ 1) × (releases log ≡ 1)
      → Stage h t f st log

abbrev pub IsSound : ℕ → ℕ → ℕ → Statement × List Event → Type 0
IsSound h t f (st, log) = Stage h t f st log × Clean h log

-- Events that neither describe, free nor release, and ask the interface.
abbrev pub Quiet : ℕ → List Event → Type 0
Quiet h [] = Unit {0}
Quiet h (executed k tra message b ∷ es) = (k ≡ h) × Quiet h es
Quiet h (opened k tra message c ∷ es) = (k ≡ h) × Quiet h es
Quiet h (cursor_closed c ∷ es) = Quiet h es
Quiet h (cursor_released c ∷ es) = Quiet h es
Quiet h (described k false ∷ es) = (k ≡ h) × Quiet h es
Quiet h _ = ⊥

Quiet-counts :
    (h : ℕ) (es log : List Event)
    → Quiet h es
    → (descriptions (es ++ log) ≡ descriptions log)
      × (frees_of (es ++ log) ≡ frees_of log)
      × (releases (es ++ log) ≡ releases log)
Quiet-counts h [] log q = (refl, refl, refl)
Quiet-counts h (executed k tra message b ∷ es) log q = Quiet-counts h es log q.1
Quiet-counts h (opened k tra message c ∷ es) log q = Quiet-counts h es log q.1
Quiet-counts h (cursor_closed c ∷ es) log q = Quiet-counts h es log q
Quiet-counts h (cursor_released c ∷ es) log q = Quiet-counts h es log q
Quiet-counts h (described k false ∷ es) log q = Quiet-counts h es log q.1
Quiet-counts h (described k true ∷ es) log q = absurd q
Quiet-counts h (freed k b ∷ es) log q = absurd q
Quiet-counts h (released k ∷ es) log q = absurd q

Quiet-Clean :
    (h : ℕ) (es log : List Event)
    → Quiet h es
    → releases log ≡ 0
    → Clean h log
    → Clean h (es ++ log)
Quiet-Clean h [] log q z c = c
Quiet-Clean h (executed k tra message b ∷ es) log q z c =
    (q.0, (Quiet-counts h es log q.1).2 ∙ z, Quiet-Clean h es log q.1 z c)
Quiet-Clean h (opened k tra message d ∷ es) log q z c =
    (q.0, (Quiet-counts h es log q.1).2 ∙ z, Quiet-Clean h es log q.1 z c)
Quiet-Clean h (cursor_closed d ∷ es) log q z c =
    (tt, (Quiet-counts h es log q).2 ∙ z, Quiet-Clean h es log q z c)
Quiet-Clean h (cursor_released d ∷ es) log q z c =
    (tt, (Quiet-counts h es log q).2 ∙ z, Quiet-Clean h es log q z c)
Quiet-Clean h (described k false ∷ es) log q z c =
    (q.0, (Quiet-counts h es log q.1).2 ∙ z, Quiet-Clean h es log q.1 z c)
Quiet-Clean h (described k true ∷ es) log q z c = absurd q
Quiet-Clean h (freed k b ∷ es) log q z c = absurd q
Quiet-Clean h (released k ∷ es) log q z c = absurd q

-- Quiet events of a statement that is not freed change no stage; a freed one has none.
abbrev pub QuietOutcome : Option ℕ → Statement → Statement → List Event → Type 0
QuietOutcome none st st' es = (st' ≡ st) × (es ≡ [])
QuietOutcome (some h) st st' es = (st' ≡ st) × Quiet h es

pub IsSound-QuietOutcome :
    (h t f : ℕ) (st st' : Statement) (log es : List Event)
    → QuietOutcome st.handle st st' es
    → IsSound h t f (st, log)
    → IsSound h t f (st', es ++ log)
IsSound-QuietOutcome h t f st st' log es q (unasked e l (d, g, r), c) =
    let (same, quiet) : (st' ≡ st) × Quiet h es = subst (λ o. QuietOutcome o st st' es) e q in
    let counts : _ × _ × _ = Quiet-counts h es log quiet in
    (
      rw same (unasked e l (counts.0 ∙ d, counts.1 ∙ g, counts.2 ∙ r)),
      Quiet-Clean h es log quiet r c,
    )
IsSound-QuietOutcome h t f st st' log es q (asked e l w (d, g, r), c) =
    let (same, quiet) : (st' ≡ st) × Quiet h es = subst (λ o. QuietOutcome o st st' es) e q in
    let counts : _ × _ × _ = Quiet-counts h es log quiet in
    (
      rw same (asked e l w (counts.0 ∙ d, counts.1 ∙ g, counts.2 ∙ r)),
      Quiet-Clean h es log quiet r c,
    )
IsSound-QuietOutcome h t f st st' log es q (gone e k, c) =
    let (same, none_asked) : (st' ≡ st) × (es ≡ []) = subst (λ o. QuietOutcome o st st' es) e q in
    rw (same, none_asked) (gone e k, c)

pub execute_raw-QuietOutcome :
    (st : Statement) (tx : Option Transaction) (message : Option Bytes) (a : Executed)
    → QuietOutcome st.handle st
        (execute_raw st tx message a).object
        (execute_raw st tx message a).events
unfolding execute_raw
execute_raw-QuietOutcome st tx message a = on st.handle tx
  where
    replied :
        (h : ℕ) (tra : Option ℕ) (o : Option Bytes)
        → QuietOutcome
            (some h)
            st
            (after_execute st h tra message a o).object
            (after_execute st h tra message a o).events
    replied h tra none = (refl, (refl, tt))
    replied h tra (some out) = (refl, (refl, tt))

    active :
        (h : ℕ) (t : Transaction) (b : Bool)
        → QuietOutcome
            (some h)
            st
            (execute_active st h message a t b).object
            (execute_active st h message a t b).events
    active h t false = (refl, tt)
    active h t true = replied h t.handle a.reply

    on :
        (o : Option ℕ) (x : Option Transaction)
        → QuietOutcome o st
            (execute_on st x message a o).object
            (execute_on st x message a o).events
    on none x = (refl, refl)
    on (some h) none = (refl, tt)
    on (some h) (some t) = active h t (is_active t)

pub open_cursor_raw-QuietOutcome :
    (st : Statement) (tx : Option Transaction) (message : Option Bytes) (a : Opened)
    → QuietOutcome st.handle st
        (open_cursor_raw st tx message a).object
        (open_cursor_raw st tx message a).events
unfolding open_cursor_raw
open_cursor_raw-QuietOutcome st tx message a = on st.handle tx
  where
    kept :
        (h : ℕ) (tra : Option ℕ) (c : ℕ) (r : Result Fault Bool)
        → QuietOutcome
            (some h)
            st
            (keep_cursor st (opened h tra message (some c)) c r).object
            (keep_cursor st (opened h tra message (some c)) c r).events
    kept h tra c (ok b) = (refl, (refl, tt))
    kept h tra c (err f) = (refl, (refl, tt))

    replied :
        (h : ℕ) (tra : Option ℕ) (o : Option (Option ℕ))
        → QuietOutcome
            (some h)
            st
            (after_open st h tra message a o).object
            (after_open st h tra message a o).events
    replied h tra none = (refl, (refl, tt))
    replied h tra (some none) = (refl, (refl, tt))
    replied h tra (some (some c)) = kept h tra c (wrap_cursor a)

    active :
        (h : ℕ) (t : Transaction) (b : Bool)
        → QuietOutcome
            (some h)
            st
            (open_active st h message a t b).object
            (open_active st h message a t b).events
    active h t false = (refl, tt)
    active h t true = replied h t.handle a.cursor

    on :
        (o : Option ℕ) (x : Option Transaction)
        → QuietOutcome o st (open_on st x message a o).object (open_on st x message a o).events
    on none x = (refl, refl)
    on (some h) none = (refl, tt)
    on (some h) (some t) = active h t (is_active t)

pub load_description-eq :
    (st : Statement) (o : Option ℕ) (l : Bool) (a : Option (ℕ × ℕ))
    → st.handle ≡ o
    → st.metadata_loaded ≡ l
    → load_description st a ≡ describe_on st a o l
unfolding load_description
load_description-eq st o l a e k =
    ap (λ x. describe_on st a x st.metadata_loaded) e ∙ ap (λ b. describe_on st a o b) k

free-eq : (st : Statement) (o : Option ℕ) (b : Bool) → st.handle ≡ o → free st b ≡ free_on st b o
unfolding free
free-eq st o b e = ap (free_on st b) e

-- Asking for the description.
pub load_description-IsSound :
    (h t f : ℕ) (st : Statement) (log : List Event) (b : Bool)
    → IsSound h t f (st, log)
    → IsSound h t f (
      (load_description st (answer t f b)).object,
      (load_description st (answer t f b)).events ++ log,
    )
load_description-IsSound h t f st log false (unasked e l (d, g, r), c) =
    rw (load_description-eq st (some h) false none e l) (unasked e l (d, g, r), (refl, r, c))
load_description-IsSound h t f st log true (unasked e l (d, g, r), c) =
    rw (load_description-eq st (some h) false (some (t, f)) e l)
      (asked e refl (refl, refl) (omega arith, g, r), (refl, r, c))
load_description-IsSound h t f st log b (asked e l w k, c) =
    rw (load_description-eq st (some h) true (answer t f b) e l) (asked e l w k, c)
load_description-IsSound h t f st log b (gone e k, c) =
    rw (load_description-eq st none st.metadata_loaded (answer t f b) e refl) (gone e k, c)

-- What frees the interface and releases it.
gone-IsSound :
    (h t f : ℕ) (st : Statement) (log : List Event) (b : Bool)
    → st.handle ≡ none
    → (descriptions log ≤ 1) × (frees_of log ≡ 0) × (releases log ≡ 0)
    → Clean h log
    → IsSound h t f (st, released h ∷ freed h b ∷ log)
gone-IsSound h t f st log b e (d, g, r) c =
    (gone e (d, omega arith, omega arith), (refl, r, (refl, r, c)))

free_live-IsSound :
    (h t f : ℕ) (st : Statement) (log : List Event) (b : Bool)
    → st.handle ≡ some h
    → (descriptions log ≤ 1) × (frees_of log ≡ 0) × (releases log ≡ 0)
    → Clean h log
    → IsSound h t f ((free st b).object, (free st b).events ++ log)
free_live-IsSound h t f st log false e k c =
    rw (free-eq st (some h) false e) (gone-IsSound h t f _ log false refl k c)
free_live-IsSound h t f st log true e k c =
    rw (free-eq st (some h) true e) (gone-IsSound h t f _ log true refl k c)

pub free-IsSound :
    (h t f : ℕ) (st : Statement) (log : List Event) (b : Bool)
    → IsSound h t f (st, log)
    → IsSound h t f ((free st b).object, (free st b).events ++ log)
free-IsSound h t f st log b (gone e k, c) = rw (free-eq st none b e) (gone e k, c)
free-IsSound h t f st log b (unasked e l (d, g, r), c) =
    free_live-IsSound h t f st log b e (omega (arith, d), g, r) c
free-IsSound h t f st log b (asked e l w (d, g, r), c) =
    free_live-IsSound h t f st log b e (omega (arith, d), g, r) c
