-- ===== src/StatementCache/Maintained.antt =====
-- The invariant of the cache through the operations that maintain it.
use fbpp.Prelude.{
  ℕ, zero, suc, ◌≤◌, ◌<◌, ◌≡◌, refl, ap, ◌∙◌, inl, inr, Bool, not, ◌&&◌, List, [], ◌∷◌, Option,
  none, some, ltb, ◌==◌, length, arith, Bool-cases, if_elim,
}
use fbpp.Prelude.Ascii.{Bytes}
use fbpp.Prelude.Dict.{erase, All-erase}
use fbpp.StatementCache.State.{CachedStatement, StatementCache}
use fbpp.StatementCache.Lru.{mem_key, evict_lru}
use fbpp.StatementCache.Maintain.{
  clear, remove_found, forget_key, forget_keys, set_enabled, shrink, set_max_size, remove_expired,
  expired_keys, ttl_nanos,
}
use fbpp.StatementCache.Counts.{keys, length-keys, length-remove_key, keys-erase}
use fbpp.StatementCache.Tracks.{Tracks-nil, Tracks-forget}
use fbpp.StatementCache.Invariant.{
  Few, IsTracked, IsValid, evict_lru-IsTracked, evict_lru-length, evict_lru-counted,
  evict_lru-max_size,
}

pub clear-IsValid : (c : StatementCache) → IsValid (clear c)
unfolding clear
clear-IsValid c = record {
  tracked = record { tracks = Tracks-nil; few_idle = tt };
  counted = refl;
  bounded = omega arith;
}

-- `forget_key` on the lists, and on the size.
pub forget_key-same :
    (c : StatementCache) (k : Bytes)
    → ((forget_key c k).cache ≡ erase k c.cache) × ((forget_key c k).config ≡ c.config)
forget_key-same c k = elim (Bool-cases (mem_key k c.lru_map)) [
  | inl e ↦ rw e (refl, refl)
  | inr e ↦ rw e (refl, refl)
]

forget_key-IsTracked : (c : StatementCache) (k : Bytes) → IsTracked c → IsTracked (forget_key c k)
forget_key-IsTracked c k v = record {
  tracks =
      rw ((forget_key-same c k).0, keys-erase k c.cache)
        (elim (Bool-cases (mem_key k c.lru_map)) [
          | inl e ↦ rw e (rw e at (Tracks-forget v.tracks k))
          | inr e ↦ rw e (rw e at (Tracks-forget v.tracks k))
        ]);
  few_idle = rw ((forget_key-same c k).0) (All-erase Few k c.cache v.few_idle);
}

length-forget_key :
    (c : StatementCache) (k : Bytes) → length (forget_key c k).cache ≤ length c.cache
length-forget_key c k = rw ((forget_key-same c k).0) (
    omega (
      arith,
      length-keys (erase k c.cache),
      ap length (keys-erase k c.cache),
      length-remove_key k (keys c.cache),
      length-keys c.cache,
    ))

forget_keys-IsTracked :
    (ks : List Bytes) (c : StatementCache)
    → IsTracked c
    → IsTracked (forget_keys c ks)
      × (length (forget_keys c ks).cache ≤ length c.cache)
      × ((forget_keys c ks).config ≡ c.config)
unfolding forget_keys
forget_keys-IsTracked [] c v = (v, omega arith, refl)
forget_keys-IsTracked (k ∷ ks) c v =
    let (t, l, e) = forget_keys-IsTracked ks (forget_key c k) (forget_key-IsTracked c k v) in
    (t, omega (arith, length-forget_key c k), e ∙ (forget_key-same c k).1)

pub remove_found-IsValid :
    (c : StatementCache) (k : Bytes) (o : Option CachedStatement)
    → IsValid c
    → IsValid (remove_found c k o).0
unfolding remove_found
remove_found-IsValid c k none v = v
remove_found-IsValid c k (some e) v = record {
  tracked = record {
    tracks = (forget_key-IsTracked c k v.tracked).tracks;
    few_idle = (forget_key-IsTracked c k v.tracked).few_idle;
  };
  counted = refl;
  bounded = rw ((forget_key-same c k).1) (omega (arith, length-forget_key c k, v.bounded));
}

pub remove_expired-IsValid :
    (c : StatementCache) (now : ℕ) → IsValid c → IsValid (remove_expired c now).0
unfolding remove_expired
remove_expired-IsValid c now v =
    let (t, l, e) = forget_keys-IsTracked (expired_keys now (ttl_nanos c) c.cache) c v.tracked in
    if_elim (λ (r : StatementCache × ℕ). IsValid r.0) (c.ttl_minutes == 0) (λ _. v)
      λ _. record {
        tracked = record { tracks = t.tracks; few_idle = t.few_idle };
        counted = refl;
        bounded = rw e (omega (arith, v.bounded));
      }

pub set_enabled-IsValid : (c : StatementCache) (b : Bool) → IsValid c → IsValid (set_enabled c b)
unfolding set_enabled
set_enabled-IsValid c b v =
    let w = if_elim IsValid (not b && c.enabled) (λ _. clear-IsValid c) (λ _. v) in
    record {
      tracked = record { tracks = w.tracks; few_idle = w.few_idle };
      counted = w.counted;
      bounded = w.bounded;
    }

-- The loop ends: each round takes one entry away.
shrink-IsValid :
    (fuel : ℕ) (c : StatementCache)
    → length c.cache < fuel
    → IsTracked c
    → c.stats.cache_size ≡ length c.cache
    → (d : StatementCache) × (shrink fuel c ≡ some d) × IsValid d × (length d.cache ≤ c.max_size)
unfolding shrink
shrink-IsValid zero c h v k = elim h [ ]
shrink-IsValid (suc fuel) c h v k = elim (Bool-cases (ltb c.max_size (length c.cache))) [
  | inl e ↦
      let (d, s, w, l) =
        shrink-IsValid fuel (evict_lru c) (ground (arith, evict_lru-length c v))
          (evict_lru-IsTracked c v) (evict_lru-counted c k) in
      (d, rw e s, w, rw (evict_lru-max_size c) at l)
  | inr e ↦ (c, rw e, record { tracked = v; counted = k; bounded = ground arith }, ground arith)
]

-- From a valid cache `setMaxSize` ends, and the cache is then within the new size, 0 included.
pub set_max_size-IsValid :
    (c : StatementCache) (n : ℕ)
    → IsValid c
    → (d : StatementCache) × (set_max_size c n ≡ some d) × IsValid d × (length d.cache ≤ n)
unfolding set_max_size
set_max_size-IsValid c n v =
    shrink-IsValid (suc (length c.cache)) (record c { config = record c.config { max_size = n } })
      (omega arith) (record { tracks = v.tracks; few_idle = v.few_idle }) v.counted
