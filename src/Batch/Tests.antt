-- ===== src/Batch/Tests.antt =====
-- The theorem on batches, used on three messages of which one failed.
use fbpp.Prelude.{◌+◌, ◌≡◌, refl, true, List, [], ◌∷◌, length}
use fbpp.Prelude.Int.{ℤ, pos, negsuc}
use fbpp.Prelude.Result.{ok, err}
use fbpp.Batch.{Batch, BatchResult, invalid_batch, no_state, states_of, execute}
use fbpp.Batch.Tallied.{failures, successes, execute-counted}

abbrev batch : Batch
batch = record { open_batch = true; message_count = 3 }

-- One record, a failure, and no information.
abbrev states : List ℤ
states = pos 1 ∷ negsuc 0 ∷ negsuc 1 ∷ []

execute-counted_example :
    ((r : BatchResult) × ((execute batch true (states_of states)).1 ≡ ok r)
      × (r.per_message_status ≡ states)
      × (r.errors ≡ failures 0 states)
      × (r.failed_count ≡ length (failures 0 states))
      × (r.success_count ≡ successes states)
      × (r.success_count + r.failed_count ≡ r.total_messages))
    × ((execute (execute batch true (states_of states)).0 true no_state).1 ≡ err invalid_batch)
execute-counted_example = execute-counted batch states no_state true refl
