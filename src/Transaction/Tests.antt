-- ===== src/Transaction/Tests.antt =====
-- The theorems on transactions and BLOBs, used on a small program and a small BLOB.
use fbpp.Prelude.{
  ℕ, Bool, ◌≡◌, ◌≤◌, refl, true, false, List, [], ◌∷◌, some, leb, take, length, arith,
}
use fbpp.Prelude.Ascii.{Bytes, codes}
use fbpp.Prelude.Result.{ok}
use fbpp.Transaction.{Transaction, drop_interface, is_active, rollback, commit, called, released}
use fbpp.Transaction.World.{Call, starts, performs, destroys, moves, assigns, run, begin}
use fbpp.Transaction.Released.{IsOwned, run-begin-IsOwned}
use fbpp.Transaction.Blob.{
  segment_size, create_blob, Code, result_ok, result_segment, other_result, load_blob,
}
use fbpp.Transaction.Blob.Segments.{
  concat, IsSegment, ReadsSegments, create_blob-IsSegment, load_blob-create_blob,
}
use fbpp.Prelude.{All, drop}

-- Two transactions; one is moved and committed, the other assigned over it while it is gone, and
-- a rollback fails on the way out.
abbrev calls : List Call
calls =
    starts ∷ starts ∷ moves 1 ∷ performs commit 0 true ∷ assigns 0 1 true ∷ destroys 0 false ∷ []

run-log :
    (run begin calls).log
    ≡ released 1 ∷ called rollback 1 false ∷ released 0 ∷ called commit 0 true ∷ []
unfolding run drop_interface is_active
run-log = refl

run-begin-IsOwned_example : IsOwned (run begin calls)
run-begin-IsOwned_example = run-begin-IsOwned calls

abbrev text : Bytes
text = codes "abc"

create_blob-IsSegment_example :
    (concat (create_blob text) ≡ text) × All IsSegment (create_blob text)
create_blob-IsSegment_example = create_blob-IsSegment text

-- An engine that keeps the segments that were not read yet.
abbrev read_fitting : Bytes → List Bytes → ℕ → Bool → Code × Bytes × List Bytes
read_fitting seg rest n true = (result_ok, seg, rest)
read_fitting seg rest n false = (result_segment, take n seg, drop n seg ∷ rest)

abbrev engine : ℕ → List Bytes → Code × Bytes × List Bytes
engine n [] = (other_result, [], [])
engine n (seg ∷ rest) = read_fitting seg rest n (leb (length seg) n)

abbrev contents : List Bytes → List Bytes
contents ss = ss

fits : (n : ℕ) (seg : Bytes) → length seg ≤ n → leb (length seg) n ≡ true
fits n seg h = ground arith

engine-ReadsSegments : ReadsSegments engine contents
engine-ReadsSegments n s seg rest e h = rw (e, fits n seg h) (refl, refl)

abbrev live : Transaction
live = record { handle = some 3; active = true }

live_active : is_active live ≡ true
unfolding is_active
live_active = refl

load_blob-create_blob_example :
    load_blob engine live 1 (some (0, 7)) (some (create_blob text))
    ≡ some (ok (take segment_size text))
load_blob-create_blob_example =
    load_blob-create_blob engine contents live 0 7 text (create_blob text) 0 engine-ReadsSegments
      refl (omega arith) live_active refl
