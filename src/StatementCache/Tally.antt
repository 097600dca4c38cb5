-- ===== src/StatementCache/Tally.antt =====
-- How often an instance stands in the idle pools and among the handles.
use fbpp.Prelude.{
  ℕ, zero, suc, ◌+◌, ◌≤◌, ◌≡◌, refl, ◌∙◌, inl, inr, Bool, not, ◌||◌, List, [], ◌∷◌, Option, none,
  some, ltb, leb, ◌==◌, if◌then◌else◌, length, arith, Bool-cases, if_elim,
}
use fbpp.Prelude.Ascii.{Bytes, str_eq}
use fbpp.Prelude.Dict.{Dict, find, insert, erase}
use fbpp.StatementCache.State.{Instance, CachedStatement, StatementCache, max_idle_per_key}
use fbpp.StatementCache.Lru.{evict_lru, evict_back, back, count_hit}
use fbpp.StatementCache.Get.{
  hit_core, make_room, push_idle, return_to_pool, pop_valid, swap_front, bring_front,
}
use fbpp.StatementCache.Valid.{touch_entry-same}

-- How often the object with number `x` stands in a list, in the pools, and among the handles.
abbrev pub tally_list : ℕ → List Instance → ℕ
tally_list x [] = 0
tally_list x (i ∷ is) = (if i.id == x then 1 else 0) + tally_list x is

abbrev pub tally : ℕ → Dict CachedStatement → ℕ
tally x [] = 0
tally x ((k, e) ∷ m) = tally_list x e.idle + tally x m

abbrev pub tally_handles : ℕ → List (Bytes × Instance) → ℕ
tally_handles x [] = 0
tally_handles x ((k, i) ∷ hs) = (if i.id == x then 1 else 0) + tally_handles x hs

module _ (x : ℕ) where
  pub tally-insert_known :
      (k : Bytes) (e f : CachedStatement) (m : Dict CachedStatement)
      → find k m ≡ some e
      → tally x (insert k f m) + tally_list x e.idle ≡ tally x m + tally_list x f.idle
  unfolding find insert
  tally-insert_known k e f [] h = absurd (cc)
  tally-insert_known k e f ((j, d) ∷ m) h = elim (Bool-cases (str_eq j k)) [
    | inl q ↦
        let e' : some d ≡ some e = rw q at h in let d=e : d ≡ e = cc in rw (q, d=e) (omega arith)
    | inr q ↦
        let rest : tally x (insert k f m) + tally_list x e.idle ≡ tally x m + tally_list x f.idle =
          tally-insert_known k e f m (rw q at h) in
        rw q (omega arith)
  ]

  pub tally-insert-le :
      (k : Bytes) (f : CachedStatement) (m : Dict CachedStatement)
      → tally x (insert k f m) ≤ tally x m + tally_list x f.idle
  unfolding insert
  tally-insert-le k f [] = omega arith
  tally-insert-le k f ((j, d) ∷ m) =
      if_elim (λ (n : Dict CachedStatement). tally x n ≤ tally x ((j, d) ∷ m) + tally_list x f.idle)
        (str_eq j k) (λ _. omega arith) (λ _. omega (arith, tally-insert-le k f m))

  pub tally-erase-le : (k : Bytes) (m : Dict CachedStatement) → tally x (erase k m) ≤ tally x m
  unfolding erase
  tally-erase-le k [] = omega arith
  tally-erase-le k ((j, d) ∷ m) =
      if_elim (λ (n : Dict CachedStatement). tally x n ≤ tally x ((j, d) ∷ m)) (str_eq j k)
        (λ _. omega arith) (λ _. omega (arith, tally-erase-le k m))

  abbrev pub tally_popped : Option Instance → ℕ
  tally_popped none = 0
  tally_popped (some i) = if i.id == x then 1 else 0

  pub tally-pop_valid :
      (valid : Instance → Bool) (xs : List Instance)
      → tally_popped (pop_valid valid xs).0 + tally_list x (pop_valid valid xs).1 ≤ tally_list x xs
  unfolding pop_valid
  tally-pop_valid valid [] = omega arith
  tally-pop_valid valid (i ∷ is) =
      if_elim
        (λ (r : Option Instance × List Instance).
          tally_popped r.0 + tally_list x r.1 ≤ tally_list x (i ∷ is))
        (valid i) (λ _. omega arith) (λ _. omega (arith, tally-pop_valid valid is))

  pub tally-evict_back :
      (c : StatementCache) (o : Option Bytes) → tally x (evict_back c o).cache ≤ tally x c.cache
  unfolding evict_back
  tally-evict_back c none = omega arith
  tally-evict_back c (some k) = tally-erase-le k c.cache

  pub tally-make_room : (c : StatementCache) → tally x (make_room c).cache ≤ tally x c.cache
  unfolding make_room evict_lru
  tally-make_room c =
      if_elim (λ (d : StatementCache). tally x d.cache ≤ tally x c.cache)
        (leb c.max_size (length c.cache)) (λ _. tally-evict_back c (back c.lru_list))
        (λ _. omega arith)

  pub tally-push_idle :
      (c : StatementCache) (k : Bytes) (i : Instance) (o : Option CachedStatement)
      → find k c.cache ≡ o
      → tally x (push_idle c k i o).cache ≤ tally x c.cache + (if i.id == x then 1 else 0)
  unfolding push_idle
  tally-push_idle c k i none h = omega arith
  tally-push_idle c k i (some e) h =
      if_elim
        (λ (d : StatementCache). tally x d.cache ≤ tally x c.cache + (if i.id == x then 1 else 0))
        (ltb (length e.idle) max_idle_per_key)
        (λ _. omega (arith, tally-insert_known k e (record e { idle = i ∷ e.idle }) c.cache h))
        (λ _. omega arith)

  pub tally-swap_front :
      (h : Bytes × Instance) (hs : List (Bytes × Instance))
      → tally_handles x (swap_front h hs) ≡ tally_handles x (h ∷ hs)
  unfolding swap_front
  tally-swap_front h [] = refl
  tally-swap_front h (g ∷ gs) = omega arith

  pub tally-bring_front :
      (n : ℕ) (hs : List (Bytes × Instance))
      → tally_handles x (bring_front n hs) ≡ tally_handles x hs
  unfolding bring_front
  tally-bring_front n [] = refl
  tally-bring_front zero (h ∷ hs) = refl
  tally-bring_front (suc n) (h ∷ hs) =
      tally-swap_front h (bring_front n hs) ∙ omega (arith, tally-bring_front n hs)

  pub tally-return_to_pool :
      (valid : Instance → Bool) (c : StatementCache) (k : Bytes) (i : Instance)
      → tally x (return_to_pool valid c k i).cache ≤ tally x c.cache + (if i.id == x then 1 else 0)
  unfolding return_to_pool
  tally-return_to_pool valid c k i =
      if_elim
        (λ (d : StatementCache). tally x d.cache ≤ tally x c.cache + (if i.id == x then 1 else 0))
        (not c.enabled || not (valid i)) (λ _. omega arith)
        (λ _. tally-push_idle c k i (find k c.cache) refl)

  pub tally-hit_core :
      (valid : Instance → Bool) (c : StatementCache) (k : Bytes) (e : CachedStatement) (now : ℕ)
      → find k c.cache ≡ some e
      → tally_popped (pop_valid valid e.idle).0
          + tally x (hit_core c k e now (pop_valid valid e.idle).1).cache
        ≤ tally x c.cache
  unfolding hit_core
  tally-hit_core valid c k e now f = rw ((touch_entry-same (count_hit c) k).0) (
      omega (
        arith,
        tally-insert_known k e
            (record e {
              idle = (pop_valid valid e.idle).1;
              last_used = now;
              use_count = e.use_count + 1;
            })
            c.cache f,
        tally-pop_valid valid e.idle,
      ))
