-- ===== src/Transaction/Blob/Segments.antt =====
-- The segments of `createBlob`, and `loadBlob` on them.
use fbpp.Prelude.{
  false, ◌&&◌, ◌==◌, ℕ, zero, suc, ◌+◌, ◌-◌, ◌≤◌, ◌<◌, ◌≡◌, refl, sym, ap, ◌∙◌, true, List, [], ◌∷◌,
  ◌++◌, some, ltb, length, take, drop, All, take-drop, drop-drop, length-drop, length-take, arith,
  Bool-cases, inl, inr,
}
use fbpp.Prelude.Result.{ok}
use fbpp.Transaction.{Transaction, is_active}
use fbpp.Prelude.Ascii.{Bytes}
use fbpp.Transaction.Blob.{
  segment_size, chunk_size, put_segments, create_blob, Code, result_ok, get_segments, load_blob,
}

abbrev pub concat : List Bytes → Bytes
concat [] = []
concat (s ∷ ss) = s ++ concat ss

-- A segment that is neither empty nor too long.
abbrev pub IsSegment : Bytes → Type 0
IsSegment s = (0 < length s) × (length s ≤ segment_size)

module _ (bytes : Bytes) (offset : ℕ) where
  chunk :
      ltb offset (length bytes) ≡ true
      → IsSegment (take (chunk_size bytes offset) (drop offset bytes))
  chunk h = ground (
    arith,
    length-drop offset bytes,
    length-take (chunk_size bytes offset) (drop offset bytes)
        (ground (arith, length-drop offset bytes)),
  )

  chunk_rest :
      take (chunk_size bytes offset) (drop offset bytes)
        ++ drop (offset + chunk_size bytes offset) bytes
      ≡ drop offset bytes
  chunk_rest =
      rw
        (← drop-drop offset (chunk_size bytes offset) (offset + chunk_size bytes offset) bytes refl)
        (take-drop (chunk_size bytes offset) (drop offset bytes))

drop-all : (xs : Bytes) (n : ℕ) → length xs ≤ n → drop n xs ≡ []
drop-all [] zero h = refl
drop-all [] (suc n) h = refl
drop-all (x ∷ xs) zero h = absurd (omega (arith, h))
drop-all (x ∷ xs) (suc n) h = drop-all xs n (omega (arith, h))

put_segments-written :
    (fuel : ℕ) (bytes : Bytes) (offset : ℕ)
    → length bytes - offset ≤ fuel
    → (concat (put_segments fuel bytes offset) ≡ drop offset bytes)
      × All IsSegment (put_segments fuel bytes offset)
unfolding put_segments
put_segments-written zero bytes offset h = (sym (drop-all bytes offset (omega (arith, h))), tt)
put_segments-written (suc fuel) bytes offset h = elim (Bool-cases (ltb offset (length bytes))) [
  | inl e ↦
      let (c, a) =
        put_segments-written fuel bytes (offset + chunk_size bytes offset) (ground arith) in
      rw e (rw c (chunk_rest bytes offset), (chunk bytes offset e, a))
  | inr e ↦ rw e (sym (drop-all bytes offset (ground arith)), tt)
]

-- The segments that `createBlob` writes are the bytes, in order and all of them, cut into segments
-- that are not empty and have at most 32768 bytes.
pub create_blob-IsSegment :
    (bytes : Bytes) → (concat (create_blob bytes) ≡ bytes) × All IsSegment (create_blob bytes)
unfolding create_blob
create_blob-IsSegment bytes = put_segments-written (length bytes) bytes 0 (omega arith)

take-all : (xs : Bytes) (n : ℕ) → length xs ≤ n → take n xs ≡ xs
take-all [] zero h = refl
take-all [] (suc n) h = refl
take-all (x ∷ xs) zero h = absurd (omega (arith, h))
take-all (x ∷ xs) (suc n) h = ap (λ (ys : Bytes). x ∷ ys) (take-all xs n (omega (arith, h)))

-- The first segment: all the bytes, or 32768 of them.
first_chunk : (bytes : Bytes) → take (chunk_size bytes 0) bytes ≡ take segment_size bytes
first_chunk bytes = elim (Bool-cases (ltb (length bytes - 0) segment_size)) [
  | inl e ↦ rw e (
      take-all bytes (length bytes - 0) (omega arith)
      ∙ sym (take-all bytes segment_size (ground arith)))
  | inr e ↦ rw e refl
]

first_segment :
    (bytes : Bytes)
    → 0 < length bytes
    → (rest : List Bytes) × (create_blob bytes ≡ take segment_size bytes ∷ rest)
unfolding create_blob put_segments
first_segment [] h = elim h [ ]
first_segment (b ∷ bs) h = (
  put_segments (length bs) (b ∷ bs) (0 + chunk_size (b ∷ bs) 0),
  rw (starts (b ∷ bs) h, first_chunk (b ∷ bs)) refl,
)
  where
    starts : (bytes : Bytes) → 0 < length bytes → ltb 0 (length bytes) ≡ true
    starts bytes k = ground arith

short_segment : (bytes : Bytes) → length (take segment_size bytes) ≤ segment_size
short_segment bytes = elim (Bool-cases (ltb (length bytes) segment_size)) [
  | inl e ↦ rw (take-all bytes segment_size (ground arith)) (ground arith)
  | inr e ↦ omega (arith, length-take segment_size bytes (ground arith))
]

-- What the engine documents of a read that has room for the whole next segment: the result is OK,
-- with the segment's bytes.
abbrev pub ReadsSegments {ℓ} : {S : Type ℓ} → (ℕ → S → Code × Bytes × S) → (S → List Bytes) → Type ℓ
ReadsSegments {S} get_segment contents =
    (n : ℕ) (s : S) (seg : Bytes) (rest : List Bytes)
    → contents s ≡ seg ∷ rest
    → length seg ≤ n
    → ((get_segment n s).0 ≡ result_ok) × ((get_segment n s).1 ≡ seg)

-- In an active transaction, for an id that is not zero, with an engine that opens the BLOB and
-- reads a segment that fits with the result OK: `loadBlob` of a BLOB that `createBlob` wrote, from
-- bytes that are not empty, ends, and returns the first 32768 of the bytes and no more.
pub load_blob-create_blob {ℓ} :
    {S : Type ℓ} (get_segment : ℕ → S → Code × Bytes × S) (contents : S → List Bytes)
    (t : Transaction) (high low : ℕ) (bytes : Bytes) (s : S) (fuel : ℕ)
    → ReadsSegments get_segment contents
    → contents s ≡ create_blob bytes
    → 0 < length bytes
    → is_active t ≡ true
    → (high == 0 && low == 0) ≡ false
    → load_blob get_segment t (suc fuel) (some (high, low)) (some s)
      ≡ some (ok (take segment_size bytes))
unfolding load_blob get_segments
load_blob-create_blob get_segment contents t high low bytes s fuel reads e h a z =
    let (rest, f) = first_segment bytes h in
    let (c, g) =
      reads segment_size s (take segment_size bytes) rest (e ∙ f) (short_segment bytes) in
    rw (a, z, c, g) refl
