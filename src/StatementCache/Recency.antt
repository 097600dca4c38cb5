-- ===== src/StatementCache/Recency.antt =====
-- `get` against the textbook LRU cache: a list of keys, the most recently used in front.
use fbpp.Prelude.{
  ℕ, ◌+◌, ◌≡◌, refl, ap, ◌∙◌, inl, inr, Bool, true, false, not, List, ◌∷◌, Option, none, some, leb,
  if◌then◌else◌, length, arith, Bool-cases, if_elim, lt→ltb,
}
use fbpp.Prelude.Ascii.{Bytes}
use fbpp.Prelude.Dict.{find}
use fbpp.StatementCache.Key.{generate_key}
use fbpp.StatementCache.State.{Instance, CachedStatement, StatementCache, Pool}
use fbpp.StatementCache.Lru.{
  remove_key, mem_key, touch_entry, evict_lru, evict_back, back, pop_back, count_miss,
}
use fbpp.StatementCache.Prepare.{Answer, Outcome, ok, thrown}
use fbpp.StatementCache.Get.{hit_core, add_entry, make_room, pop_valid, get, get_found, get_miss}
use fbpp.StatementCache.Counts.{length-keys, mem_key-occ, find-none-occ, find-some-occ, back-none}
use fbpp.StatementCache.Invariant.{IsValid}
use fbpp.StatementCache.Valid.{get_hit-core}

abbrev pub is_ok {ℓ} : {A : Type ℓ} → Outcome A → Bool
is_ok (ok a) = true
is_ok (thrown a) = false

-- The keys after an access: a known key moves to the front; a new one needs a place, for which
-- the last key goes if the list is full, and enters if its statement could be prepared.
abbrev pub room_for : ℕ → List Bytes → List Bytes
room_for max_size lru = if leb max_size (length lru) then pop_back lru else lru

abbrev pub access : ℕ → Bytes → Bool → List Bytes → List Bytes
access max_size key success lru =
    if mem_key key lru
    then key ∷ remove_key key lru
    else if success
    then key ∷ room_for max_size lru
    else room_for max_size lru

-- The counters after an access.
abbrev pub Accounts : StatementCache → Bytes → StatementCache → Type 0
Accounts c key d =
    (d.stats.hit_count ≡ c.stats.hit_count + (if mem_key key c.lru_list then 1 else 0))
    × (d.stats.miss_count ≡ c.stats.miss_count + (if mem_key key c.lru_list then 0 else 1))

abbrev Accesses : StatementCache → Bytes → Pool × Outcome Instance → Type 0
Accesses c key r =
    (r.0.lru_list ≡ access c.max_size key (is_ok r.1) c.lru_list) × Accounts c key r.0.core

module _ (c : StatementCache) (v : IsValid c) where
  evict_lru-lru_list : (evict_lru c).lru_list ≡ pop_back c.lru_list
  unfolding evict_lru
  evict_lru-lru_list = popped (back c.lru_list) refl
    where
      popped :
          (o : Option Bytes) → back c.lru_list ≡ o → (evict_back c o).lru_list ≡ pop_back c.lru_list
      popped none e = unfold evict_back pop_back in rw (back-none c.lru_list e)
      popped (some k) e = unfold evict_back in refl

  evict_lru-counts :
      ((evict_lru c).stats.hit_count ≡ c.stats.hit_count)
      × ((evict_lru c).stats.miss_count ≡ c.stats.miss_count)
  unfolding evict_lru
  evict_lru-counts = same (back c.lru_list)
    where
      same :
          (o : Option Bytes)
          → ((evict_back c o).stats.hit_count ≡ c.stats.hit_count)
            × ((evict_back c o).stats.miss_count ≡ c.stats.miss_count)
      same none = unfold evict_back in (refl, refl)
      same (some k) = unfold evict_back in (refl, refl)

  make_room-room_for : (make_room c).lru_list ≡ room_for c.max_size c.lru_list
  unfolding make_room
  make_room-room_for = ground (arith, evict_lru-lru_list, v.tracks.same_length, length-keys c.cache)

  make_room-counts :
      ((make_room c).stats.hit_count ≡ c.stats.hit_count)
      × ((make_room c).stats.miss_count ≡ c.stats.miss_count)
  unfolding make_room
  make_room-counts = ground (arith, evict_lru-counts)

  known : (k : Bytes) (e : CachedStatement) → find k c.cache ≡ some e → mem_key k c.lru_list ≡ true
  known k e f =
      rw (mem_key-occ k c.lru_list, v.tracks.in_lru k) (lt→ltb 0 _ (find-some-occ k c.cache e f))

  in_map : (k : Bytes) → mem_key k c.lru_map ≡ mem_key k c.lru_list
  in_map k = rw (mem_key-occ, mem_key-occ k c.lru_list, v.tracks.in_lru k, v.tracks.in_map k)

  unknown : (k : Bytes) → find k c.cache ≡ none → mem_key k c.lru_list ≡ false
  unknown k f = rw (mem_key-occ k c.lru_list, v.tracks.in_lru k, find-none-occ k c.cache f) refl

  hit_core-lru :
      (k : Bytes) (e : CachedStatement) (now : ℕ) (rest : List Instance)
      → find k c.cache ≡ some e
      → (hit_core c k e now rest).lru_list ≡ k ∷ remove_key k c.lru_list
  unfolding hit_core touch_entry
  hit_core-lru k e now rest f = rw (in_map k, known k e f)

  hit_core-counts :
      (k : Bytes) (e : CachedStatement) (now : ℕ) (rest : List Instance)
      → ((hit_core c k e now rest).stats.hit_count ≡ c.stats.hit_count + 1)
        × ((hit_core c k e now rest).stats.miss_count ≡ c.stats.miss_count)
  unfolding hit_core touch_entry
  hit_core-counts k e now rest = elim (Bool-cases (mem_key k c.lru_map)) [
    | inl m ↦ rw m (refl, refl)
    | inr m ↦ rw m (refl, refl)
  ]

get_miss-Accesses :
    (c : StatementCache) (p : Pool) (k : Bytes) (e : CachedStatement) (o : Outcome Instance)
    → mem_key k c.lru_list ≡ false
    → p.lru_list ≡ room_for c.max_size c.lru_list
    → p.core.stats.hit_count ≡ c.stats.hit_count
    → p.core.stats.miss_count ≡ c.stats.miss_count + 1
    → Accesses c k (get_miss p k e o)
unfolding get_miss add_entry
get_miss-Accesses c p k e (ok i) m l h n = rw m (ap (◌∷◌ k) l, (omega arith, n))
get_miss-Accesses c p k e (thrown a) m l h n = rw m (l, (omega arith, n))

get_found-Accesses :
    (valid : Instance → Bool) (p : Pool) (sql : Bytes) (flags now : ℕ) (answer : Answer) (k : Bytes)
    (o : Option CachedStatement)
    → find k p.cache ≡ o
    → IsValid p.core
    → Accesses p.core k (get_found valid p sql flags now answer k o)
unfolding get_found
get_found-Accesses valid p sql flags now answer k (some e) f v =
    let rest = (pop_valid valid e.idle).1 in
    let (h, n) = hit_core-counts p.core v k e now rest in
    rw (known p.core v k e f) (
      rw get_hit-core (hit_core-lru p.core v k e now rest f),
      (rw get_hit-core h, rw get_hit-core (n ∙ omega arith)),
    )
get_found-Accesses valid p sql flags now answer k none f v =
    let w : IsValid (count_miss p.core) = record {
      tracked = record { tracks = v.tracks; few_idle = v.few_idle };
      counted = v.counted;
      bounded = v.bounded;
    } in
    let (h, n) = make_room-counts (count_miss p.core) w in
    get_miss-Accesses p.core _ k _ _ (unknown p.core v k f)
      (make_room-room_for (count_miss p.core) w) h n

-- With the cache enabled and valid, `get` changes the LRU list as the textbook cache does, and
-- counts a hit if the key was in the list and a miss if not, also when the server fails.
pub get-access :
    (valid : Instance → Bool) (p : Pool) (sql : Bytes) (flags now : ℕ) (answer : Answer)
    → IsValid p.core
    → p.enabled ≡ true
    → ((get valid p sql flags now answer).0.lru_list
        ≡ access p.max_size
            (generate_key sql flags)
            (is_ok (get valid p sql flags now answer).1)
            p.lru_list)
      × Accounts p.core (generate_key sql flags) (get valid p sql flags now answer).0.core
unfolding get
get-access valid p sql flags now answer v on =
    if_elim (Accesses p.core (generate_key sql flags)) (not p.enabled) (λ h. absurd (ground arith))
      (λ _. get_found-Accesses valid p sql flags now answer (generate_key sql flags) _ refl v)
