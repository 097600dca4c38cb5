-- ===== src/Statement/Life.antt =====
-- A statement from its preparation to its destruction, through any calls.
use fbpp.Prelude.{
  ℕ, ◌≤◌, ◌≡◌, refl, ◌∙◌, ap, Bool, true, false, List, [], ◌∷◌, Option, none, some, ◌⊎◌, inl, inr,
  arith,
}
use fbpp.Prelude.Result.{ok, err}
use fbpp.Statement.{
  Statement, Event, not_prepared, prepared, get_type, get_flags, first_of, second_of, cleanup,
  cleanup_on,
}
use fbpp.Statement.Run.{
  Call, asks_type, asks_flags, frees, executes, opens, names, step, run, destroy, descriptions,
  frees_of, releases, Clean,
}
use fbpp.Statement.Stages.{
  unasked, asked, gone, IsSound, IsSound-QuietOutcome, execute_raw-QuietOutcome,
  open_cursor_raw-QuietOutcome, load_description-IsSound, load_description-eq, free-IsSound,
}

step-IsSound :
    (h t f : ℕ) (w : Statement × List Event) (c : Call)
    → IsSound h t f w
    → IsSound h t f (step t f w c)
unfolding step
step-IsSound h t f (st, log) (asks_type b) s = load_description-IsSound h t f st log b s
step-IsSound h t f (st, log) (asks_flags b) s = load_description-IsSound h t f st log b s
step-IsSound h t f (st, log) (frees b) s = free-IsSound h t f st log b s
step-IsSound h t f (st, log) (executes tx message a) s =
    IsSound-QuietOutcome h t f st _ log _ (execute_raw-QuietOutcome st tx message a) s
step-IsSound h t f (st, log) (opens tx message a) s =
    IsSound-QuietOutcome h t f st _ log _ (open_cursor_raw-QuietOutcome st tx message a) s
step-IsSound h t f (st, log) (names mapping named) (unasked e l k, c) = (unasked e l k, c)
step-IsSound h t f (st, log) (names mapping named) (asked e l w k, c) = (asked e l w k, c)
step-IsSound h t f (st, log) (names mapping named) (gone e k, c) = (gone e k, c)

run-IsSound :
    (h t f : ℕ) (w : Statement × List Event) (cs : List Call)
    → IsSound h t f w
    → IsSound h t f (run t f w cs)
unfolding run
run-IsSound h t f w [] s = s
run-IsSound h t f w (c ∷ cs) s = run-IsSound h t f (step t f w c) cs (step-IsSound h t f w c s)

cleanup-eq :
    (st : Statement) (o : Option ℕ) (b : Bool) → st.handle ≡ o → cleanup st b ≡ cleanup_on st b o
unfolding cleanup
cleanup-eq st o b e = ap (cleanup_on st b) e

-- What is left of a statement: its interface was freed and released once, the last thing that it
-- was asked, and its description was got at most once.
abbrev pub IsSpent : ℕ → Statement × List Event → Type 0
IsSpent h (st, log) =
    (st.handle ≡ none)
    × (frees_of log ≡ 1)
    × (releases log ≡ 1)
    × (descriptions log ≤ 1)
    × Clean h log

destroy-IsSpent :
    (h t f : ℕ) (w : Statement × List Event) (b : Bool) → IsSound h t f w → IsSpent h (destroy w b)
unfolding destroy
destroy-IsSpent h t f (st, log) b (unasked e l (d, g, r), c) =
    rw (cleanup-eq st (some h) b e)
      (refl, omega arith, omega arith, omega arith, (refl, r, (refl, r, c)))
destroy-IsSpent h t f (st, log) b (asked e l w (d, g, r), c) =
    rw (cleanup-eq st (some h) b e)
      (refl, omega arith, omega arith, omega arith, (refl, r, (refl, r, c)))
destroy-IsSpent h t f (st, log) b (gone e (d, g, r), c) =
    rw (cleanup-eq st none b e) (e, g, r, d, c)

-- Whatever a program calls on a prepared statement, in whatever order and whatever calls of the
-- engine fail, and then destroys it: its interface was freed once and released once, nothing was
-- asked of it after that, and the engine described it at most once.
pub run-destroy-IsSpent :
    (h t f : ℕ) (cs : List Call) (b : Bool) → IsSpent h (destroy (run t f (prepared h, []) cs) b)
run-destroy-IsSpent h t f cs b =
    destroy-IsSpent h t f _ b
      (run-IsSound h t f (prepared h, []) cs (unasked refl refl (refl, refl, refl), tt))

-- A statement that is not freed gives this type and these flags, and a freed one an exception.
abbrev pub Tells : ℕ → ℕ → ℕ → Statement → Type 0
Tells h t f st =
    ((st.handle ≡ some h)
      × ((get_type st (some (t, f))).result ≡ ok t)
      × ((get_flags st (some (t, f))).result ≡ ok f))
    ⊎ ((st.handle ≡ none)
        × ((get_type st (some (t, f))).result ≡ err not_prepared)
        × ((get_flags st (some (t, f))).result ≡ err not_prepared))

IsSound-Tells : (h t f : ℕ) (w : Statement × List Event) → IsSound h t f w → Tells h t f w.0
IsSound-Tells h t f (st, log) (unasked e k d, c) = inl (
  e,
  ap (λ o. first_of o.result) (load_description-eq st (some h) false (some (t, f)) e k),
  ap (λ o. second_of o.result) (load_description-eq st (some h) false (some (t, f)) e k),
)
IsSound-Tells h t f (st, log) (asked e k (w, x) d, c) = inl (
  e,
  ap (λ o. first_of o.result) (load_description-eq st (some h) true (some (t, f)) e k) ∙ ap ok w,
  ap (λ o. second_of o.result) (load_description-eq st (some h) true (some (t, f)) e k) ∙ ap ok x,
)
IsSound-Tells h t f (st, log) (gone e d, c) = inr (
  e,
  ap (λ o. first_of o.result) (load_description-eq st none st.metadata_loaded (some (t, f)) e refl),
  ap (λ o. second_of o.result)
      (load_description-eq st none st.metadata_loaded (some (t, f)) e refl),
)

-- After any calls, while the statement is not freed, the type and the flags that `getType` and
-- `getFlags` give are those that the engine has for it, whichever was asked first; on a freed one
-- both are exceptions.
pub run-Tells : (h t f : ℕ) (cs : List Call) → Tells h t f (run t f (prepared h, []) cs).0
run-Tells h t f cs =
    IsSound-Tells h t f (run t f (prepared h, []) cs)
      (run-IsSound h t f (prepared h, []) cs (unasked refl refl (refl, refl, refl), tt))
