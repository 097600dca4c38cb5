-- ===== src/ResultSet/Drained.antt =====
-- `fetchAll` on the answers of the engine.
use fbpp.Prelude.{◌≡◌, refl, ap, ◌∙◌, true, false, List, [], ◌∷◌, ◌++◌, map, none, some, arith}
use fbpp.Prelude.Ascii.{Bytes}
use fbpp.Prelude.Result.{ok}
use fbpp.ResultSet.{
  ResultSet, Answer, row, no_data, fetch_all, fetch, fetch_next, fetch_answered, push_row,
  next_generation, continued,
}

-- The cursor behind rows that were fetched, and at the end.
abbrev pub behind : ResultSet → List Bytes → ResultSet
behind rs [] = record rs { eof = true }
behind rs (b ∷ bs) =
    behind (record rs { buffer = b; generation = next_generation rs.generation }) bs

behind-eof : (bs : List Bytes) (rs : ResultSet) → (behind rs bs).eof ≡ true
behind-eof [] rs = refl
behind-eof (b ∷ bs) rs = behind-eof bs _

fetch-row :
    (rs : ResultSet) (b : Bytes)
    → rs.is_open ≡ true
    → rs.eof ≡ false
    → fetch rs (row b)
      ≡ (record rs { buffer = b; generation = next_generation rs.generation }, ok (some b))
unfolding fetch fetch_next fetch_answered
fetch-row rs b o e = rw (o, e) refl

fetch-no_data :
    (rs : ResultSet)
    → rs.is_open ≡ true
    → rs.eof ≡ false
    → fetch rs no_data ≡ (record rs { eof = true }, ok none)
unfolding fetch fetch_next fetch_answered
fetch-no_data rs o e = rw (o, e) refl

-- One round of the loop.
unrolled :
    (rs : ResultSet) (a : Answer) (answers : List Answer)
    → rs.is_open ≡ true
    → rs.eof ≡ false
    → fetch_all rs (a ∷ answers) ≡ continued (fetch rs a) (fetch_all (fetch rs a).0 answers)
unfolding fetch_all
unrolled rs a answers o e = ground arith

drained :
    (bs : List Bytes) (rs : ResultSet) (rest : List Answer)
    → rs.is_open ≡ true
    → rs.eof ≡ false
    → fetch_all rs (map row bs ++ (no_data ∷ rest)) ≡ some (behind rs bs, ok bs)
drained [] rs rest o e = unrolled rs no_data rest o e ∙ rw (fetch-no_data rs o e) refl
drained (b ∷ bs) rs rest o e =
    unrolled rs (row b) (map row bs ++ (no_data ∷ rest)) o e
    ∙ rw (fetch-row rs b o e) (
        ap (push_row b) (
          drained bs (record rs { buffer = b; generation = next_generation rs.generation }) rest o
            e))

-- On an open cursor that is not at its end, for which the engine answers rows and then the end,
-- `fetchAll` ends and returns exactly the rows, in order; a second `fetchAll` returns none and asks
-- the engine nothing.
pub fetch_all-rows :
    (rs : ResultSet) (bs : List Bytes) (rest : List Answer)
    → rs.is_open ≡ true
    → rs.eof ≡ false
    → (fetch_all rs (map row bs ++ (no_data ∷ rest)) ≡ some (behind rs bs, ok bs))
      × (fetch_all (behind rs bs) [] ≡ some (behind rs bs, ok []))
unfolding fetch_all
fetch_all-rows rs bs rest o e = (drained bs rs rest o e, rw (behind-eof bs rs) (ground arith))
