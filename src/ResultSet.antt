-- ===== src/ResultSet.antt =====
-- src/core/firebird/fb_result_set.cpp, include/fbpp/core/result_set.hpp and the row views of
-- src/core/firebird/fb_row.cpp: a cursor with its buffer. What the engine answers to a fetch is an
-- argument; it writes the buffer only with a row.
mod Tests
pub mod Views
pub mod Drained
use fbpp.Prelude.{
  ℕ, ◌+◌, ◌%◌, ◌^◌, Bool, true, false, not, ◌&&◌, ◌||◌, List, [], ◌∷◌, Option, none, some,
  if◌then◌else◌, ◌==◌,
}
use fbpp.Prelude.Ascii.{Bytes}
use fbpp.Prelude.Result.{Result, ok, err}

pub data Fault : Type 0 where
  not_open closed_cursor engine : Fault

-- Whether `resultSet_` is there, and the members that a fetch reads or writes.
pub record ResultSet : Type 0 where
  pub is_open : Bool
  pub eof : Bool
  pub buffer : Bytes
  pub generation : ℕ

-- `RESULT_OK` with the row's bytes, `RESULT_NO_DATA`, any other result, or an exception.
pub data Answer : Type 0 where
  row : Bytes → Answer
  no_data other_result throws : Answer

pub data Code : Type 0 where
  result_ok result_no_data result_other : Code

-- `++generation_`, of 64 bits.
abbrev pub next_generation : ℕ → ℕ
next_generation g = (g + 1) % 2 ^ 64

-- The engine's `fetchNext`, into the result set's own buffer or into one of the caller's.
unfoldable pub fetch_answered : ResultSet → Bool → Answer → ResultSet × Result Fault Code
fetch_answered rs own (row b) = (
  record rs { buffer = if own then b else rs.buffer; generation = next_generation rs.generation },
  ok result_ok,
)
fetch_answered rs own no_data = (record rs { eof = true }, ok result_no_data)
fetch_answered rs own other_result = (rs, ok result_other)
fetch_answered rs own throws = (rs, err engine)

unfoldable pub fetch_next : ResultSet → Bool → Answer → ResultSet × Result Fault Code
unfolding fetch_answered
fetch_next rs own answer =
    if not rs.is_open
    then (rs, err not_open)
    else if rs.eof
    then (rs, ok result_no_data)
    else fetch_answered rs own answer

-- `fetch(record)`, with the bytes that are unpacked into the record.
abbrev pub fetched : ResultSet × Result Fault Code → ResultSet × Result Fault (Option Bytes)
fetched (rs, ok result_ok) = (rs, ok (some rs.buffer))
fetched (rs, ok result_no_data) = (record rs { eof = true }, ok none)
fetched (rs, ok result_other) = (record rs { eof = true }, ok none)
fetched (rs, err e) = (rs, err e)

unfoldable pub fetch : ResultSet → Answer → ResultSet × Result Fault (Option Bytes)
unfolding fetch_next
fetch rs answer =
    if not rs.is_open || rs.eof then (rs, ok none) else fetched (fetch_next rs true answer)

-- `fetchOne`, with the bytes that are copied.
abbrev pub copied : ResultSet × Result Fault Code → ResultSet × Result Fault (Option Bytes)
copied (rs, ok result_ok) = (rs, ok (some rs.buffer))
copied (rs, ok result_no_data) = (rs, ok none)
copied (rs, ok result_other) = (rs, ok none)
copied (rs, err e) = (rs, err e)

unfoldable pub fetch_one : ResultSet → Answer → ResultSet × Result Fault (Option Bytes)
unfolding fetch_next
fetch_one rs answer =
    if not rs.is_open
    then (rs, err closed_cursor)
    else if rs.eof
    then (rs, ok none)
    else copied (fetch_next rs true answer)

-- A `RowView`: one of a result set has the generation at which it was taken, and shows the result
-- set's buffer; one without an owner has a buffer or a null pointer, and metadata or none.
pub data RowView : Type 0 where
  of_owner : ℕ → RowView
  standalone : Bool → Bool → RowView

abbrev pub viewed : ResultSet × Result Fault Code → ResultSet × Result Fault (Option RowView)
viewed (rs, ok result_ok) = (rs, ok (some (of_owner rs.generation)))
viewed (rs, ok result_no_data) = (rs, ok none)
viewed (rs, ok result_other) = (rs, ok none)
viewed (rs, err e) = (rs, err e)

-- `RowsRange::Iterator::advance`.
unfoldable pub advance : ResultSet → Answer → ResultSet × Result Fault (Option RowView)
unfolding fetch_next
advance rs answer =
    if not rs.is_open || rs.eof then (rs, ok none) else viewed (fetch_next rs true answer)

-- `RowView::isValid`, with the owner, which only a view that has one reads.
unfoldable pub is_valid : RowView → ResultSet → Bool
is_valid (of_owner snapshot_gen) rs = rs.generation == snapshot_gen && rs.is_open
is_valid (standalone has_buffer has_metadata) rs = has_buffer && has_metadata

-- `close`, with whether the engine's call succeeds: the interface goes in any case.
abbrev pub closed : ResultSet → ResultSet
closed rs = record rs { is_open = false; eof = true; generation = next_generation rs.generation }

unfoldable pub close : ResultSet → Bool → ResultSet × Result Fault Code
close rs succeeds =
    if rs.is_open
    then (closed rs, (if succeeds then ok result_ok else err engine))
    else (rs, ok result_ok)

-- `cleanup`, which drops the exception of `close`.
unfoldable pub cleanup : ResultSet → Bool → ResultSet
unfolding close
cleanup rs succeeds = (close rs succeeds).0

-- Move assignment from another object, and what a move leaves of the object it takes from: its
-- vector is empty.
unfoldable pub move_assign : ResultSet → ResultSet → Bool → ResultSet
unfolding cleanup
move_assign rs other succeeds = record (cleanup rs succeeds) {
  is_open = other.is_open;
  eof = other.eof;
  buffer = other.buffer;
  generation = other.generation;
}

unfoldable pub moved_from : ResultSet → ResultSet
moved_from rs = record rs { is_open = false; buffer = [] }

-- `fetchAll`, with the engine's answers in their order; `none` is a loop that waits for more.
abbrev pub push_row :
    Bytes
    → Option (ResultSet × Result Fault (List Bytes))
    → Option (ResultSet × Result Fault (List Bytes))
push_row b (some (rs, ok bs)) = some (rs, ok (b ∷ bs))
push_row b (some (rs, err e)) = some (rs, err e)
push_row b none = none

abbrev pub continued :
    ResultSet × Result Fault (Option Bytes)
    → Option (ResultSet × Result Fault (List Bytes))
    → Option (ResultSet × Result Fault (List Bytes))
continued (rs, ok (some b)) rest = push_row b rest
continued (rs, ok none) rest = some (rs, ok [])
continued (rs, err e) rest = some (rs, err e)

unfoldable pub fetch_all : ResultSet → List Answer → Option (ResultSet × Result Fault (List Bytes))
fetch_all rs [] = if not rs.is_open || rs.eof then some (rs, ok []) else none
fetch_all rs (a ∷ answers) =
    let rest = fetch_all (fetch rs a).0 answers in
    if not rs.is_open || rs.eof then some (rs, ok []) else continued (fetch rs a) rest
