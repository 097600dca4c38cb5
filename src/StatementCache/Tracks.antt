-- ===== src/StatementCache/Tracks.antt =====
-- The keys of the cache, of the LRU list and of the LRU map.
use fbpp.Prelude.{
  ◌≤◌, ◌≡◌, refl, true, List, [], ◌∷◌, ◌++◌, some, if◌then◌else◌, length, length-append, arith,
}
use fbpp.Prelude.Ascii.{Bytes, str_eq_iff, str_eq_refl}
use fbpp.StatementCache.Lru.{remove_key, mem_key, back, pop_back}
use fbpp.StatementCache.Get.{add_key}
use fbpp.StatementCache.Counts.{
  occ, occ-append, mem_key-occ, occ-remove_key, length-remove_key, occ-pop_back, length-pop_back,
}

pub record Tracks (ks lru map : List Bytes) : Type 0 where
  pub in_lru : (k : Bytes) → occ k lru ≡ occ k ks
  pub in_map : (k : Bytes) → occ k map ≡ occ k ks
  pub once : (k : Bytes) → occ k ks ≤ 1
  pub same_length : length lru ≡ length ks

pub Tracks-nil : Tracks [] [] []
Tracks-nil = record {
  in_lru = λ k. refl;
  in_map = λ k. refl;
  once = λ k. omega arith;
  same_length = refl;
}

module _ {ks lru map : List Bytes} (t : Tracks ks lru map) (k : Bytes) where
  pub Tracks-add : occ k ks ≡ 0 → Tracks (ks ++ k ∷ []) (k ∷ lru) (add_key k map)
  Tracks-add h = record {
    in_lru = λ j. ground (arith, t.in_lru j, occ-append j ks (k ∷ []));
    in_map = λ j. ground (
      arith,
      t.in_map j,
      t.in_map k,
      occ-append j ks (k ∷ []),
      mem_key-occ k map,
      str_eq_iff k j,
    );
    once = λ j. ground (arith, t.once j, occ-append j ks (k ∷ []), str_eq_iff k j);
    same_length = omega (arith, t.same_length, length-append ks (k ∷ []));
  }

  pub Tracks-touch : mem_key k map ≡ true → Tracks ks (k ∷ remove_key k lru) map
  Tracks-touch h = record {
    in_lru = λ j. ground (
      arith,
      t.in_lru j,
      t.in_lru k,
      t.in_map k,
      mem_key-occ k map,
      occ-remove_key k j lru,
      str_eq_iff k j,
    );
    in_map = t.in_map;
    once = t.once;
    same_length =
        ground (
          arith,
          t.same_length,
          t.in_lru k,
          t.in_map k,
          mem_key-occ k map,
          length-remove_key k lru,
        );
  }

  pub Tracks-evict : back lru ≡ some k → Tracks (remove_key k ks) (pop_back lru) (remove_key k map)
  Tracks-evict h = record {
    in_lru = λ j. ground (arith, t.in_lru j, occ-pop_back lru j h, occ-remove_key k j ks);
    in_map = λ j. ground (arith, t.in_map j, occ-remove_key k j ks, occ-remove_key k j map);
    once = λ j. ground (arith, t.once j, occ-remove_key k j ks);
    same_length = ground (
      arith,
      t.same_length,
      t.in_lru k,
      occ-pop_back lru k h,
      str_eq_refl k,
      length-pop_back lru h,
      length-remove_key k ks,
    );
  }

  pub Tracks-forget :
      Tracks
        (remove_key k ks)
        (if mem_key k map then remove_key k lru else lru)
        (if mem_key k map then remove_key k map else map)
  Tracks-forget = record {
    in_lru = λ j. ground (
      arith,
      t.in_lru j,
      t.in_map k,
      t.in_lru k,
      mem_key-occ k map,
      occ-remove_key k j ks,
      occ-remove_key k j lru,
      str_eq_iff k j,
    );
    in_map = λ j. ground (
      arith,
      t.in_map j,
      t.in_map k,
      mem_key-occ k map,
      occ-remove_key k j ks,
      occ-remove_key k j map,
      str_eq_iff k j,
    );
    once = λ j. ground (arith, t.once j, occ-remove_key k j ks);
    same_length = ground (
      arith,
      t.same_length,
      t.in_lru k,
      t.in_map k,
      mem_key-occ k map,
      length-remove_key k ks,
      length-remove_key k lru,
    );
  }
