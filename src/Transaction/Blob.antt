-- ===== src/Transaction/Blob.antt =====
-- `createBlob` and `loadBlob`: the segments in which a BLOB is written and read. The engine's side
-- of an open BLOB is a parameter.
pub mod Segments
use fbpp.Prelude.{
  not, ◌&&◌, Bool, ◌==◌, Option, none, some, ℕ, zero, suc, ◌+◌, ◌-◌, ◌*◌, ◌≤◌, ◌<◌, ◌≡◌, Bool, true,
  false, ◌&&◌, List, [], ◌∷◌, ◌++◌, Option, none, some, ltb, ◌==◌, if◌then◌else◌, length, take,
  drop,
}
use fbpp.Prelude.Result.{Result, ok, err}
use fbpp.Transaction.{Transaction, is_active}
use fbpp.Prelude.Ascii.{Bytes}

abbrev pub segment_size : ℕ
segment_size = 32768

-- `while (offset < data.size()) putSegment(...)`, with the segments in their order. Each round
-- moves `offset`, so the data's size is fuel enough.
abbrev pub chunk_size : Bytes → ℕ → ℕ
chunk_size bytes offset =
    if ltb (length bytes - offset) segment_size then length bytes - offset else segment_size

unfoldable pub put_segments : ℕ → Bytes → ℕ → List Bytes
put_segments zero bytes offset = []
put_segments (suc fuel) bytes offset =
    let rest = put_segments fuel bytes (offset + chunk_size bytes offset) in
    if ltb offset (length bytes)
    then take (chunk_size bytes offset) (drop offset bytes) ∷ rest
    else []

unfoldable pub create_blob : Bytes → List Bytes
create_blob bytes = put_segments (length bytes) bytes 0

pub data Fault : Type 0 where
  inactive invalid_id failed_to_open failed_to_create engine_error : Fault

-- `createBlob` for a transaction, with the BLOB that the engine creates, if it does, and whether
-- its calls succeed: the segments that are written.
unfoldable pub create_blob_in {ℓ} :
    {S : Type ℓ} → Transaction → Bytes → Option S → Bool → Result Fault (List Bytes)
create_blob_in t bytes none succeeds =
    if not (is_active t) then err inactive else err failed_to_create
create_blob_in t bytes (some s) succeeds =
    if not (is_active t)
    then err inactive
    else if succeeds
    then ok (create_blob bytes)
    else err engine_error

-- The results of `getSegment` that the loop tells apart; a failing call throws.
pub data Code : Type 0 where
  result_ok result_segment other_result exception : Code

-- `actualLength` bytes of a segment, the result, and the BLOB behind them.
module _ {ℓ} {S : Type ℓ} (get_segment : ℕ → S → Code × Bytes × S) where
  abbrev after_segment :
      Bytes → Code → Bytes → Option (Result Fault Bytes) → Option (Result Fault Bytes)
  after_segment content result_ok segment rest = some (ok (content ++ segment))
  after_segment content result_segment segment rest = rest
  after_segment content other_result segment rest = some (ok content)
  after_segment content exception segment rest = some (err engine_error)

  -- The loop, on fuel; `none` is a read that takes more rounds.
  unfoldable pub get_segments : ℕ → Bytes → S → Option (Result Fault Bytes)
  get_segments zero content s = none
  get_segments (suc fuel) content s =
      let got = get_segment segment_size s in
      after_segment content got.0 got.1 (get_segments fuel (content ++ got.1) got.2)

  abbrev load_opened : ℕ → Option S → Option (Result Fault Bytes)
  load_opened fuel none = some (err failed_to_open)
  load_opened fuel (some s) = get_segments fuel [] s

  -- `loadBlob` with the two halves of the id, if there is one, and the BLOB that the engine opens,
  -- if it does.
  abbrev load_id : Transaction → ℕ → Option (ℕ × ℕ) → Option S → Option (Result Fault Bytes)
  load_id t fuel none opened = some (err invalid_id)
  load_id t fuel (some (high, low)) opened =
      let rest = load_opened fuel opened in if high == 0 && low == 0 then some (ok []) else rest

  unfoldable pub load_blob :
      Transaction → ℕ → Option (ℕ × ℕ) → Option S → Option (Result Fault Bytes)
  load_blob t fuel id opened =
      let rest = load_id t fuel id opened in if not (is_active t) then some (err inactive) else rest
