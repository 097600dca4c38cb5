-- ===== src/Batch.antt =====
-- src/core/firebird/fb_batch.cpp: the batch object and its execution. The engine's answer to
-- `execute` is an argument.
mod Tests
pub mod Tallied
use fbpp.Prelude.{
  ℕ, suc, ◌+◌, Bool, true, false, not, ◌||◌, List, [], ◌∷◌, ◌++◌, if◌then◌else◌, ◌==◌, length,
}
use fbpp.Prelude.Int.{ℤ, pos, negsuc}
use fbpp.Prelude.Result.{Result, ok, err}

-- What the exceptions say; `engine` is one that the client library throws.
pub data Fault : Type 0 where
  invalid_batch inactive_transaction no_completion_state engine : Fault

pub record BatchResult : Type 0 where
  pub total_messages : ℕ
  pub success_count : ℕ
  pub failed_count : ℕ
  pub per_message_status : List ℤ
  -- The numbers of the messages that `errors` has a line for.
  pub errors : List ℕ

-- Whether `batch_` is there, and `messageCount_`.
pub record Batch : Type 0 where
  pub open_batch : Bool
  pub message_count : ℕ

-- `IBatchCompletionState::EXECUTE_FAILED`; `SUCCESS_NO_INFO` is -2.
abbrev pub execute_failed : ℤ
execute_failed = negsuc 0

abbrev pub is_failed : ℤ → Bool
is_failed (pos n) = false
is_failed (negsuc n) = n == 0

abbrev pub start_result : ℕ → BatchResult
start_result total = record {
  total_messages = total;
  success_count = 0;
  failed_count = 0;
  per_message_status = [];
  errors = [];
}

-- The body of the loop over the messages, for message `i`.
unfoldable pub collect_one : BatchResult → ℕ → ℤ → BatchResult
collect_one r i state =
    if is_failed state
    then record r {
      per_message_status = r.per_message_status ++ (state ∷ []);
      failed_count = r.failed_count + 1;
      errors = r.errors ++ (i ∷ []);
    }
    else record r {
      per_message_status = r.per_message_status ++ (state ∷ []);
      success_count = r.success_count + 1;
    }

unfoldable pub collect : BatchResult → ℕ → List ℤ → BatchResult
unfolding collect_one
collect r i [] = r
collect r i (state ∷ states) = collect (collect_one r i state) (suc i) states

-- What the engine answers: it throws, gives no completion state, or the states of the messages.
pub data Answer : Type 0 where
  throws no_state : Answer
  states_of : List ℤ → Answer

abbrev pub executed : Batch → Answer → Batch × Result Fault BatchResult
executed b throws = (b, err engine)
executed b no_state = (b, err no_completion_state)
executed b (states_of states) =
    (record b { open_batch = false }, ok (collect (start_result (length states)) 0 states))

-- `execute`, for a transaction that is active or not.
unfoldable pub execute : Batch → Bool → Answer → Batch × Result Fault BatchResult
unfolding collect
execute b transaction_active answer =
    if not b.open_batch
    then (b, err invalid_batch)
    else if not transaction_active
    then (b, err inactive_transaction)
    else executed b answer

-- `cancel`, with whether the engine's call succeeds.
unfoldable pub cancel : Batch → Bool → Batch × Result Fault ℕ
cancel b succeeds =
    if not b.open_batch
    then (b, ok 0)
    else if succeeds
    then (record { open_batch = false; message_count = 0 }, ok 0)
    else (b, err engine)
