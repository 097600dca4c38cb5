-- ===== src/ResultSet/Views.antt =====
-- `RowView::isValid` after further calls of the cursor.
use fbpp.Prelude.{
  ℕ, suc, ◌+◌, ◌%◌, ◌^◌, ◌≤◌, ◌<◌, ◌≡◌, refl, ◌∙◌, ◌⊎◌, inl, inr, Bool, true, false, not, All, ◌||◌,
  List, [], ◌∷◌, Option, length, arith, if_elim,
}
use fbpp.Prelude.Ascii.{Bytes}
use fbpp.Prelude.Result.{Result, ok, err}
use fbpp.ResultSet.{
  Fault, ResultSet, Answer, row, no_data, other_result, throws, Code, result_ok, result_no_data,
  result_other, RowView, of_owner, move_assign, moved_from, fetch_answered, fetch_next, fetched,
  fetch, copied, fetch_one, viewed, advance, is_valid, close, next_generation,
}

-- The calls of a program; a fetch comes with the engine's answer. The object may be assigned
-- another, which is its state at that time, or be moved from.
pub data Call : Type 0 where
  fetches fetches_one advances : Answer → Call
  fetches_next : Bool → Answer → Call
  closes : Bool → Call
  assigns : ResultSet → Bool → Call
  moves_out : Call

unfoldable pub step : ResultSet → Call → ResultSet
step rs (fetches a) = (fetch rs a).0
step rs (fetches_one a) = (fetch_one rs a).0
step rs (advances a) = (advance rs a).0
step rs (fetches_next own a) = (fetch_next rs own a).0
step rs (closes b) = (close rs b).0
step rs (assigns other b) = move_assign rs other b
step rs moves_out = moved_from rs

-- Whether a call puts another result set in the place of this one.
abbrev pub is_replacing : Call → Bool
is_replacing (assigns other b) = true
is_replacing _ = false

unfoldable pub run : ResultSet → List Call → ResultSet
unfolding step
run rs [] = rs
run rs (c ∷ cs) = run (step rs c) cs

-- A call leaves the generation and the buffer alone, or moves the generation on.
abbrev Moves : ResultSet → ResultSet → Type 0
Moves rs rs' =
    ((rs'.generation ≡ rs.generation) × (rs'.buffer ≡ rs.buffer))
    ⊎ (rs'.generation ≡ next_generation rs.generation)

same : (rs : ResultSet) → Moves rs rs
same rs = inl (refl, refl)

fetch_answered-Moves :
    (rs : ResultSet) (own : Bool) (a : Answer) → Moves rs (fetch_answered rs own a).0
unfolding fetch_answered
fetch_answered-Moves rs own (row b) = inr refl
fetch_answered-Moves rs own no_data = same rs
fetch_answered-Moves rs own other_result = same rs
fetch_answered-Moves rs own throws = same rs

fetch_next-Moves : (rs : ResultSet) (own : Bool) (a : Answer) → Moves rs (fetch_next rs own a).0
unfolding fetch_next
fetch_next-Moves rs own a =
    if_elim (λ (r : ResultSet × Result Fault Code). Moves rs r.0) (not rs.is_open) (λ _. same rs)
      (λ _.
        if_elim (λ (r : ResultSet × Result Fault Code). Moves rs r.0) rs.eof (λ _. same rs)
          (λ _. fetch_answered-Moves rs own a))

fetched-Moves :
    (rs : ResultSet) (r : ResultSet × Result Fault Code) → Moves rs r.0 → Moves rs (fetched r).0
fetched-Moves rs (q, ok result_ok) m = m
fetched-Moves rs (q, ok result_no_data) m = m
fetched-Moves rs (q, ok result_other) m = m
fetched-Moves rs (q, err e) m = m

copied-Moves :
    (rs : ResultSet) (r : ResultSet × Result Fault Code) → Moves rs r.0 → Moves rs (copied r).0
copied-Moves rs (q, ok result_ok) m = m
copied-Moves rs (q, ok result_no_data) m = m
copied-Moves rs (q, ok result_other) m = m
copied-Moves rs (q, err e) m = m

viewed-Moves :
    (rs : ResultSet) (r : ResultSet × Result Fault Code) → Moves rs r.0 → Moves rs (viewed r).0
viewed-Moves rs (q, ok result_ok) m = m
viewed-Moves rs (q, ok result_no_data) m = m
viewed-Moves rs (q, ok result_other) m = m
viewed-Moves rs (q, err e) m = m

step-Moves :
    (rs : ResultSet) (c : Call)
    → is_replacing c ≡ false
    → Moves rs (step rs c) ⊎ ((step rs c).is_open ≡ false)
unfolding step fetch fetch_one advance close moved_from
step-Moves rs (fetches a) n = inl (
    if_elim (λ (r : ResultSet × Result Fault (Option Bytes)). Moves rs r.0)
      (not rs.is_open || rs.eof) (λ _. same rs)
      (λ _. fetched-Moves rs (fetch_next rs true a) (fetch_next-Moves rs true a)))
step-Moves rs (fetches_one a) n = inl (
    if_elim (λ (r : ResultSet × Result Fault (Option Bytes)). Moves rs r.0) (not rs.is_open)
      (λ _. same rs)
      (λ _.
        if_elim (λ (r : ResultSet × Result Fault (Option Bytes)). Moves rs r.0) rs.eof
          (λ _. same rs)
          (λ _. copied-Moves rs (fetch_next rs true a) (fetch_next-Moves rs true a))))
step-Moves rs (advances a) n = inl (
    if_elim (λ (r : ResultSet × Result Fault (Option RowView)). Moves rs r.0)
      (not rs.is_open || rs.eof) (λ _. same rs)
      (λ _. viewed-Moves rs (fetch_next rs true a) (fetch_next-Moves rs true a)))
step-Moves rs (fetches_next own a) n = inl (fetch_next-Moves rs own a)
step-Moves rs (closes b) n = inl (
    if_elim (λ (r : ResultSet × Result Fault Code). Moves rs r.0) rs.is_open (λ _. inr refl)
      (λ _. same rs))
step-Moves rs (assigns other b) n = absurd (cc)
step-Moves rs moves_out n = inr refl

-- A closed cursor stays closed until another takes its place.
step-closed :
    (rs : ResultSet) (c : Call)
    → rs.is_open ≡ false
    → is_replacing c ≡ false
    → (step rs c).is_open ≡ false
unfolding step fetch fetch_one advance close fetch_next moved_from
step-closed rs (fetches a) h n = rw h refl
step-closed rs (fetches_one a) h n = rw h refl
step-closed rs (advances a) h n = rw h refl
step-closed rs (fetches_next own a) h n = rw h refl
step-closed rs (closes b) h n = rw h refl
step-closed rs (assigns other b) h n = absurd (cc)
step-closed rs moves_out h n = refl

run-closed :
    (rs : ResultSet) (cs : List Call)
    → rs.is_open ≡ false
    → All (λ c. is_replacing c ≡ false) cs
    → (run rs cs).is_open ≡ false
unfolding run
run-closed rs [] h n = h
run-closed rs (c ∷ cs) h (n, ns) = run-closed (step rs c) cs (step-closed rs c h n) ns

-- Calls move the generation on at most once each, and not at all only if the buffer is the same.
Progress : ResultSet → ResultSet → ℕ → Type 0
Progress rs rs' k =
    (j : ℕ) × (j ≤ k)
    × (rs'.generation ≡ (rs.generation + j) % 2 ^ 64)
    × (j ≡ 0 → rs'.buffer ≡ rs.buffer)

step-Progress :
    (rs rs1 rs' : ResultSet) (k : ℕ)
    → rs.generation < 2 ^ 64
    → Moves rs rs1
    → Progress rs1 rs' k
    → Progress rs rs' (suc k)
unfolding Progress
step-Progress rs rs1 rs' k h (inl (g, b)) (j, le, e, f) =
    (j, omega (arith, le), omega (arith, e, g), λ z. f z ∙ b)
step-Progress rs rs1 rs' k h (inr g) (j, le, e, f) =
    (suc j, omega (arith, le), omega (arith, e, g), λ z. absurd (omega (arith, z)))

Moves-bounded :
    (rs rs1 : ResultSet) → rs.generation < 2 ^ 64 → Moves rs rs1 → rs1.generation < 2 ^ 64
Moves-bounded rs rs1 h (inl (g, b)) = omega (arith, g, h)
Moves-bounded rs rs1 h (inr g) = omega (arith, g, h)

run-Progress :
    (rs : ResultSet) (cs : List Call)
    → rs.generation < 2 ^ 64
    → All (λ c. is_replacing c ≡ false) cs
    → Progress rs (run rs cs) (length cs) ⊎ ((run rs cs).is_open ≡ false)
unfolding run
run-Progress rs [] h n = inl (unfold Progress in (0, omega arith, omega (arith, h), λ _. refl))
run-Progress rs (c ∷ cs) h (n, ns) = elim (step-Moves rs c n) [
  | inr closed ↦ inr (run-closed (step rs c) cs closed ns)
  | inl m ↦ elim (run-Progress (step rs c) cs (Moves-bounded rs (step rs c) h m) ns) [
    | inr closed ↦ inr closed
    | inl p ↦ inl (step-Progress rs (step rs c) (run rs (c ∷ cs)) (length cs) h m p)
  ]
]

-- For a view taken at any state of a cursor, and fewer than 2^64 calls after it, moving from the
-- cursor among them but no assignment to it: if the view then says that it is valid, the bytes that
-- it shows are those of the row it was taken of, and the cursor is open.
pub is_valid-run :
    (rs : ResultSet) (cs : List Call)
    → rs.generation < 2 ^ 64
    → length cs < 2 ^ 64
    → All (λ c. is_replacing c ≡ false) cs
    → is_valid (of_owner rs.generation) (run rs cs) ≡ true
    → ((run rs cs).buffer ≡ rs.buffer) × ((run rs cs).is_open ≡ true)
unfolding is_valid Progress
is_valid-run rs cs h k n v =
    let is_open : (run rs cs).is_open ≡ true = ground (arith, v) in
    elim (run-Progress rs cs h n) [
      | inr closed ↦ absurd (cc)
      | inl (j, le, e, f) ↦
          let g : (run rs cs).generation ≡ rs.generation = ground (arith, v) in
          (f (omega (arith, e, g, le, k)), is_open)
    ]
