-- ===== src/Batch/Tallied.antt =====
-- The result of `Batch::execute` against the states that the engine gives.
use fbpp.Prelude.{
  ℕ, suc, ◌+◌, ◌≡◌, refl, sym, ap, ◌∙◌, Bool, true, List, [], ◌∷◌, ◌++◌, append_assoc, append-nil,
  if◌then◌else◌, length, arith, Bool-cases, inl, inr,
}
use fbpp.Prelude.Int.{ℤ}
use fbpp.Prelude.Result.{ok, err}
use fbpp.Batch.{
  invalid_batch, Batch, BatchResult, Answer, states_of, is_failed, start_result, collect_one,
  collect, execute,
}

-- The numbers of the failed messages, from `i` on, and how many succeeded.
abbrev pub failures : ℕ → List ℤ → List ℕ
failures i [] = []
failures i (s ∷ ss) = let rest = failures (suc i) ss in if is_failed s then i ∷ rest else rest

abbrev pub successes : List ℤ → ℕ
successes [] = 0
successes (s ∷ ss) = let rest = successes ss in if is_failed s then rest else suc rest

-- What the loop adds to a result.
abbrev after : BatchResult → ℕ → List ℤ → BatchResult
after r i ss = record {
  total_messages = r.total_messages;
  success_count = r.success_count + successes ss;
  failed_count = r.failed_count + length (failures i ss);
  per_message_status = r.per_message_status ++ ss;
  errors = r.errors ++ failures i ss;
}

same_fields :
    (r s : BatchResult)
    → r.total_messages ≡ s.total_messages
    → r.success_count ≡ s.success_count
    → r.failed_count ≡ s.failed_count
    → r.per_message_status ≡ s.per_message_status
    → r.errors ≡ s.errors
    → r ≡ s
same_fields r s a b c d e = cc

collect-after : (ss : List ℤ) (r : BatchResult) (i : ℕ) → collect r i ss ≡ after r i ss
unfolding collect
collect-after [] r i =
    same_fields r (after r i []) refl (omega arith) (omega arith)
      (sym (append-nil r.per_message_status)) (sym (append-nil r.errors))
collect-after (s ∷ ss) r i = collect-after ss (collect_one r i s) (suc i) ∙ split
  where
    split : after (collect_one r i s) (suc i) ss ≡ after r i (s ∷ ss)
    split =
        unfold collect_one in
        elim (Bool-cases (is_failed s)) [
          | inl e ↦ rw e (
              same_fields _ _ refl refl (omega arith)
                (append_assoc r.per_message_status (s ∷ []) ss)
                (append_assoc r.errors (i ∷ []) (failures (suc i) ss)))
          | inr e ↦ rw e (
              same_fields _ _ refl (omega arith) refl
                (append_assoc r.per_message_status (s ∷ []) ss) refl)
        ]

counted : (ss : List ℤ) (i : ℕ) → successes ss + length (failures i ss) ≡ length ss
counted [] i = omega arith
counted (s ∷ ss) i = ground (arith, counted ss (suc i))

-- Executing a batch that is open, in an active transaction, with the engine answering the states
-- of its messages: the result has the states in order, the number of each failed message among its
-- errors, the counts of failures and successes, which add up to the total, and the batch is closed,
-- so that a second execution is refused.
pub execute-counted :
    (b : Batch) (states : List ℤ) (answer : Answer) (active : Bool)
    → b.open_batch ≡ true
    → ((r : BatchResult) × ((execute b true (states_of states)).1 ≡ ok r)
        × (r.per_message_status ≡ states)
        × (r.errors ≡ failures 0 states)
        × (r.failed_count ≡ length (failures 0 states))
        × (r.success_count ≡ successes states)
        × (r.success_count + r.failed_count ≡ r.total_messages))
      × ((execute (execute b true (states_of states)).0 active answer).1 ≡ err invalid_batch)
unfolding execute
execute-counted b states answer active h = (
  rw h (
    after (start_result (length states)) 0 states,
    ap ok (collect-after states (start_result (length states)) 0),
    refl,
    refl,
    omega arith,
    omega arith,
    omega (arith, counted states 0),
  ),
  rw h refl,
)
