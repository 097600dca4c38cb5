-- ===== src/ResultSet/Tests.antt =====
-- The theorems on cursors, used on a cursor with a row in its buffer.
use fbpp.Prelude.{◌≡◌, refl, true, false, List, [], ◌∷◌, ◌++◌, map, some, arith}
use fbpp.Prelude.Ascii.{Bytes, codes}
use fbpp.Prelude.Result.{ok}
use fbpp.ResultSet.{ResultSet, row, no_data, fetch, is_valid, of_owner, move_assign, fetch_all}
use fbpp.ResultSet.Views.{Call, fetches, fetches_next, assigns, step, run, is_valid-run}
use fbpp.ResultSet.Drained.{behind, fetch_all-rows}

abbrev cursor : ResultSet
cursor = record { is_open = true; eof = false; buffer = codes "a"; generation = 4 }

-- The end of the data does not spoil the view.
abbrev calls : List Call
calls = fetches no_data ∷ fetches_next true no_data ∷ []

-- Another cursor, at the same generation.
abbrev other : ResultSet
other = record { is_open = true; eof = false; buffer = codes "z"; generation = 4 }

-- A view of a result set that was assigned another says that it is valid, and shows another row.
replaced :
    (is_valid (of_owner 4) (run cursor (assigns other true ∷ [])) ≡ true)
    × ((run cursor (assigns other true ∷ [])).buffer ≡ codes "z")
unfolding is_valid run step move_assign
replaced = (refl, refl)

still_valid : is_valid (of_owner 4) (run cursor calls) ≡ true
unfolding is_valid run fetch
still_valid = refl

is_valid-run_example : ((run cursor calls).buffer ≡ codes "a") × ((run cursor calls).is_open ≡ true)
is_valid-run_example =
    is_valid-run cursor calls (omega arith) (omega arith) (refl, (refl, tt)) still_valid

abbrev rows : List Bytes
rows = codes "b" ∷ codes "c" ∷ []

fetch_all-rows_example :
    (fetch_all cursor (map row rows ++ (no_data ∷ [])) ≡ some (behind cursor rows, ok rows))
    × (fetch_all (behind cursor rows) [] ≡ some (behind cursor rows, ok []))
fetch_all-rows_example = fetch_all-rows cursor rows [] refl refl
