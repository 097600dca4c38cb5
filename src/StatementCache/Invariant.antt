-- ===== src/StatementCache/Invariant.antt =====
-- What holds of the cache between operations.
use fbpp.Prelude.{
  ℕ, suc, ◌-◌, ◌≤◌, ◌<◌, ◌≡◌, refl, sym, ap, ◌∙◌, Option, none, some, leb, ◌==◌, if◌then◌else◌,
  length, All, arith, if_elim, lt→ltb,
}
use fbpp.Prelude.Ascii.{Bytes, str_eq_refl}
use fbpp.Prelude.Dict.{Dict, insert, erase, All-insert, All-erase}
use fbpp.StatementCache.State.{CachedStatement, StatementCache}
use fbpp.StatementCache.Lru.{back, evict_back, evict_lru}
use fbpp.StatementCache.Get.{make_room}
use fbpp.StatementCache.Counts.{
  occ, keys, length-keys, occ-remove_key, keys-erase, keys-insert, back-none, length-remove_key,
  occ-pop_back,
}
use fbpp.StatementCache.Tracks.{Tracks, Tracks-evict}

abbrev pub Few : Bytes × CachedStatement → Type 0
Few kv = length kv.1.idle ≤ 8

pub record IsTracked (c : StatementCache) : Type 0 where
  pub tracks : Tracks (keys c.cache) c.lru_list c.lru_map
  pub few_idle : All Few c.cache

-- A cache of maximal size 0 still takes one statement: the eviction before the first insertion
-- finds nothing to evict.
abbrev pub limit : ℕ → ℕ
limit n = if n == 0 then 1 else n

pub record IsValid (c : StatementCache) : Type 0 where
  pub tracked : IsTracked c
  pub open tracked use *
  pub counted : c.stats.cache_size ≡ length c.cache
  pub bounded : length c.cache ≤ limit c.max_size

-- The same key with another entry.
pub insert-IsTracked :
    (c d : StatementCache) (k : Bytes) (e : CachedStatement)
    → d.cache ≡ insert k e c.cache
    → 0 < occ k (keys c.cache)
    → length e.idle ≤ 8
    → Tracks (keys c.cache) d.lru_list d.lru_map
    → All Few c.cache
    → IsTracked d
insert-IsTracked c d k e h here few t f = record {
  tracks = rw (h, keys-insert k e c.cache) (rw (lt→ltb 0 _ here) t);
  few_idle = rw h (All-insert Few k e c.cache (λ _. few) f);
}

pub length-insert_known :
    (k : Bytes) (e : CachedStatement) (m : Dict CachedStatement)
    → 0 < occ k (keys m)
    → length (insert k e m) ≡ length m
length-insert_known k e m h =
    sym (length-keys (insert k e m)) ∙ rw (keys-insert k e m, lt→ltb 0 _ h) (length-keys m)

evict_back-IsTracked :
    (c : StatementCache) (o : Option Bytes)
    → back c.lru_list ≡ o
    → IsTracked c
    → IsTracked (evict_back c o)
unfolding evict_back
evict_back-IsTracked c none e v = v
evict_back-IsTracked c (some k) e v = record {
  tracks = rw (keys-erase k c.cache) (Tracks-evict v.tracks k e);
  few_idle = All-erase Few k c.cache v.few_idle;
}

-- An eviction takes one entry away, unless there is none.
evict_back-length :
    (c : StatementCache) (o : Option Bytes)
    → back c.lru_list ≡ o
    → IsTracked c
    → length (evict_back c o).cache ≡ length c.cache - 1
unfolding evict_back
evict_back-length c none e v =
    omega (arith, ap length (back-none c.lru_list e), v.tracks.same_length, length-keys c.cache)
evict_back-length c (some k) e v = ground (
  arith,
  length-keys c.cache,
  length-keys (erase k c.cache),
  ap length (keys-erase k c.cache),
  length-remove_key k (keys c.cache),
  v.tracks.in_lru k,
  occ-pop_back c.lru_list k e,
  str_eq_refl k,
)

pub evict_lru-IsTracked : (c : StatementCache) → IsTracked c → IsTracked (evict_lru c)
unfolding evict_lru
evict_lru-IsTracked c v = evict_back-IsTracked c (back c.lru_list) refl v

pub evict_lru-length :
    (c : StatementCache) → IsTracked c → length (evict_lru c).cache ≡ length c.cache - 1
unfolding evict_lru
evict_lru-length c v = evict_back-length c (back c.lru_list) refl v

pub evict_lru-counted :
    (c : StatementCache)
    → c.stats.cache_size ≡ length c.cache
    → (evict_lru c).stats.cache_size ≡ length (evict_lru c).cache
unfolding evict_lru
evict_lru-counted c h = counted (back c.lru_list)
  where
    counted : (o : Option Bytes) → (evict_back c o).stats.cache_size ≡ length (evict_back c o).cache
    counted none = unfold evict_back in h
    counted (some k) = unfold evict_back in refl

pub evict_lru-max_size : (c : StatementCache) → (evict_lru c).max_size ≡ c.max_size
unfolding evict_lru
evict_lru-max_size c = same (back c.lru_list)
  where
    same : (o : Option Bytes) → (evict_back c o).max_size ≡ c.max_size
    same none = unfold evict_back in refl
    same (some k) = unfold evict_back in refl

-- After `make_room` there is room for one more, and a missing key is still missing.
module _ (c : StatementCache) (v : IsValid c) where
  make_room-IsTracked : IsTracked (make_room c)
  unfolding make_room
  make_room-IsTracked =
      if_elim IsTracked (leb c.max_size (length c.cache)) (λ _. evict_lru-IsTracked c v.tracked)
        (λ _. v.tracked)

  pub make_room-room : suc (length (make_room c).cache) ≤ limit (make_room c).max_size
  unfolding make_room
  make_room-room = ground (arith, evict_lru-length c v.tracked, evict_lru-max_size c, v.bounded)

  make_room-counted : (make_room c).stats.cache_size ≡ length (make_room c).cache
  unfolding make_room
  make_room-counted = ground (arith, evict_lru-counted c v.counted)

  pub make_room-missing :
      (k : Bytes) → occ k (keys c.cache) ≡ 0 → occ k (keys (make_room c).cache) ≡ 0
  unfolding make_room evict_lru
  make_room-missing k h =
      if_elim (λ (d : StatementCache). occ k (keys d.cache) ≡ 0) (leb c.max_size (length c.cache))
        (λ _. gone (back c.lru_list)) (λ _. h)
    where
      gone : (o : Option Bytes) → occ k (keys (evict_back c o).cache) ≡ 0
      gone none = unfold evict_back in h
      gone (some j) =
          unfold evict_back in
          rw (keys-erase j c.cache, occ-remove_key j k (keys c.cache)) (ground arith)

  pub make_room-IsValid : IsValid (make_room c)
  make_room-IsValid = record {
    tracked = make_room-IsTracked;
    counted = make_room-counted;
    bounded = omega (arith, make_room-room);
  }
