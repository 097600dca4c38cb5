-- ===== src/StatementCache/Counts.antt =====
-- How often a key stands in a list, and what the list operations of the cache do to that.
use fbpp.Prelude.{
  ℕ, suc, ◌+◌, ◌-◌, ◌<◌, ◌≡◌, refl, ap, List, [], ◌∷◌, ◌++◌, none, some, ltb, if◌then◌else◌, length,
  arith,
}
use fbpp.Prelude.Ascii.{Bytes, str_eq, str_eq_iff}
use fbpp.Prelude.Dict.{Dict, find, insert, erase}
use fbpp.StatementCache.Lru.{remove_key, mem_key, back, pop_back}

-- `str_eq` computes on concrete keys only, so the laws below split on its value.
abbrev pub occ : Bytes → List Bytes → ℕ
occ k [] = 0
occ k (j ∷ js) = (if str_eq j k then 1 else 0) + occ k js

abbrev pub keys {ℓ} : {V : Type ℓ} → Dict V → List Bytes
keys [] = []
keys ((k, v) ∷ m) = k ∷ keys m

pub length-keys {ℓ} : {V : Type ℓ} (m : Dict V) → length (keys m) ≡ length m
length-keys [] = refl
length-keys ((k, v) ∷ m) = ap suc (length-keys m)

pub occ-append : (k : Bytes) (xs ys : List Bytes) → occ k (xs ++ ys) ≡ occ k xs + occ k ys
occ-append k [] ys = omega arith
occ-append k (x ∷ xs) ys = omega (arith, occ-append k xs ys)

pub mem_key-occ : (k : Bytes) (l : List Bytes) → mem_key k l ≡ ltb 0 (occ k l)
unfolding mem_key
mem_key-occ k [] = refl
mem_key-occ k (j ∷ js) = ground (arith, mem_key-occ k js)

pub occ-remove_key :
    (k j : Bytes) (l : List Bytes)
    → occ j (remove_key k l) ≡ (if str_eq k j then occ j l - 1 else occ j l)
unfolding remove_key
occ-remove_key k j [] = ground arith
occ-remove_key k j (i ∷ is) =
    ground (arith, occ-remove_key k j is, str_eq_iff i k, str_eq_iff k j, str_eq_iff i j)

pub length-remove_key :
    (k : Bytes) (l : List Bytes)
    → length (remove_key k l) + (if ltb 0 (occ k l) then 1 else 0) ≡ length l
unfolding remove_key
length-remove_key k [] = refl
length-remove_key k (j ∷ js) = ground (arith, length-remove_key k js)

pub back-none : (l : List Bytes) → back l ≡ none → l ≡ []
unfolding back
back-none [] e = refl
back-none (k ∷ []) e = cc
back-none (k ∷ j ∷ js) e = absurd (cc (back-none (j ∷ js) e))

pub occ-pop_back :
    (l : List Bytes) (j : Bytes) {k : Bytes}
    → back l ≡ some k
    → occ j (pop_back l) + (if str_eq k j then 1 else 0) ≡ occ j l
unfolding back pop_back
occ-pop_back [] j e = absurd (cc)
occ-pop_back (k ∷ []) j e = ground arith
occ-pop_back (k ∷ i ∷ is) j e = omega (arith, occ-pop_back (i ∷ is) j e)

pub length-pop_back :
    (l : List Bytes) {k : Bytes} → back l ≡ some k → suc (length (pop_back l)) ≡ length l
unfolding back pop_back
length-pop_back [] e = absurd (cc)
length-pop_back (k ∷ []) e = refl
length-pop_back (k ∷ i ∷ is) e = omega (arith, length-pop_back (i ∷ is) e)

module _ {ℓ} {V : Type ℓ} where
  pub keys-erase : (k : Bytes) (m : Dict V) → keys (erase k m) ≡ remove_key k (keys m)
  unfolding erase remove_key
  keys-erase k [] = refl
  keys-erase k ((j, v) ∷ m) = ground (arith, keys-erase k m)

  pub keys-insert :
      (k : Bytes) (v : V) (m : Dict V)
      → keys (insert k v m) ≡ (if ltb 0 (occ k (keys m)) then keys m else keys m ++ k ∷ [])
  unfolding insert
  keys-insert k v [] = refl
  keys-insert k v ((j, w) ∷ m) = ground (arith, keys-insert k v m)

  pub find-none-occ : (k : Bytes) (m : Dict V) → find k m ≡ none → occ k (keys m) ≡ 0
  unfolding find
  find-none-occ k [] e = refl
  find-none-occ k ((j, v) ∷ m) e = ground (arith, find-none-occ k m)

  pub find-some-occ : (k : Bytes) (m : Dict V) (v : V) → find k m ≡ some v → 0 < occ k (keys m)
  unfolding find
  find-some-occ k [] v e = absurd (cc)
  find-some-occ k ((j, w) ∷ m) v e = ground (arith, find-some-occ k m v)
