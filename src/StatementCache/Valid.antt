-- ===== src/StatementCache/Valid.antt =====
-- The invariant of the cache through all its calls.
use fbpp.Prelude.{
  ℕ, suc, ◌+◌, ◌≤◌, ◌≡◌, refl, ap, ◌∙◌, inl, inr, Bool, true, not, ◌||◌, List, [], ◌∷◌, ◌++◌,
  Option, none, some, ltb, length, length-append, arith, Bool-cases, if_elim,
}
use fbpp.Prelude.Ascii.{Bytes}
use fbpp.Prelude.Dict.{find, insert, All-insert, All-find}
use fbpp.StatementCache.State.{
  Instance, CacheConfig, CachedStatement, StatementCache, Pool, max_idle_per_key,
}
use fbpp.StatementCache.Lru.{mem_key, touch_entry, count_hit, count_miss}
use fbpp.StatementCache.Prepare.{Answer, Outcome, ok, thrown, prepare_for}
use fbpp.StatementCache.Get.{
  hit_core, add_entry, make_room, push_idle, return_to_pool, pop_valid, new_entry, get, get_found,
  get_hit, get_miss, check_out_new, hand_out, release, drop_handle, bring_front, with_core,
}
use fbpp.StatementCache.Maintain.{remove, get_statistics, set_ttl_minutes, destroy}
use fbpp.StatementCache.Run.{
  Call, gets, releases, removes, enables, limits, expires, ttls, clears, counts, destroys, step,
  run, init,
}
use fbpp.StatementCache.Counts.{occ, keys, length-keys, keys-insert, find-none-occ, find-some-occ}
use fbpp.StatementCache.Tracks.{Tracks, Tracks-nil, Tracks-add, Tracks-touch}
use fbpp.StatementCache.Key.{generate_key}
use fbpp.StatementCache.Maintained.{
  set_max_size-IsValid, clear-IsValid, remove_found-IsValid, remove_expired-IsValid,
  set_enabled-IsValid,
}
use fbpp.StatementCache.Invariant.{
  Few, IsTracked, IsValid, limit, insert-IsTracked, length-insert_known, make_room-room,
  make_room-missing, make_room-IsValid,
}

length-pop_valid :
    (valid : Instance → Bool) (xs : List Instance) → length (pop_valid valid xs).1 ≤ length xs
unfolding pop_valid
length-pop_valid valid [] = omega arith
length-pop_valid valid (x ∷ xs) = ground (arith, length-pop_valid valid xs)

touch_entry-Tracks :
    (c : StatementCache) (k : Bytes)
    → Tracks (keys c.cache) c.lru_list c.lru_map
    → Tracks (keys c.cache) (touch_entry c k).lru_list (touch_entry c k).lru_map
unfolding touch_entry
touch_entry-Tracks c k t = elim (Bool-cases (mem_key k c.lru_map)) [
  | inl e ↦ rw e (Tracks-touch t k e)
  | inr e ↦ rw e t
]

pub touch_entry-same :
    (c : StatementCache) (k : Bytes)
    → ((touch_entry c k).cache ≡ c.cache)
      × ((touch_entry c k).stats ≡ c.stats)
      × ((touch_entry c k).config ≡ c.config)
unfolding touch_entry
touch_entry-same c k = elim (Bool-cases (mem_key k c.lru_map)) [
  | inl e ↦ rw e (refl, refl, refl)
  | inr e ↦ rw e (refl, refl, refl)
]

hit_core-IsValid :
    (c : StatementCache) (k : Bytes) (e : CachedStatement) (now : ℕ) (rest : List Instance)
    → find k c.cache ≡ some e
    → length rest ≤ length e.idle
    → IsValid c
    → IsValid (hit_core c k e now rest)
unfolding hit_core
hit_core-IsValid c k e now rest f h v =
    let here = find-some-occ k c.cache e f in
    let same = touch_entry-same (count_hit c) k in
    record {
      tracked =
          insert-IsTracked c _ k
            (record e { idle = rest; last_used = now; use_count = e.use_count + 1 })
            (ap (insert k _) same.0) here (omega (arith, All-find Few k c.cache e f v.few_idle))
            (touch_entry-Tracks (count_hit c) k v.tracks) v.few_idle;
      counted = rw (same.1, same.0, length-insert_known k _ c.cache here) v.counted;
      bounded = rw (same.0, same.2, length-insert_known k _ c.cache here) v.bounded;
    }

add_entry-IsValid :
    (c : StatementCache) (k : Bytes) (e : CachedStatement)
    → occ k (keys c.cache) ≡ 0
    → suc (length c.cache) ≤ limit c.max_size
    → length e.idle ≤ 8
    → IsTracked c
    → IsValid (add_entry c k e)
unfolding add_entry
add_entry-IsValid c k e missing room few v =
    let ks : keys (insert k e c.cache) ≡ keys c.cache ++ k ∷ [] =
      keys-insert k e c.cache ∙ ground (arith, missing) in
    record {
      tracked = record {
        tracks = rw ks (Tracks-add v.tracks k missing);
        few_idle = All-insert Few k e c.cache (λ _. few) v.few_idle;
      };
      counted = refl;
      bounded = omega (
        arith,
        room,
        ap length ks,
        length-keys (insert k e c.cache),
        length-keys c.cache,
        length-append (keys c.cache) (k ∷ []),
      );
    }

push_idle-IsValid :
    (c : StatementCache) (k : Bytes) (x : Instance) (o : Option CachedStatement)
    → find k c.cache ≡ o
    → IsValid c
    → IsValid (push_idle c k x o)
unfolding push_idle
push_idle-IsValid c k x none f v = v
push_idle-IsValid c k x (some e) f v =
    let here = find-some-occ k c.cache e f in
    if_elim IsValid (ltb (length e.idle) max_idle_per_key)
      (λ h. record {
        tracked =
            insert-IsTracked c _ k (record e { idle = x ∷ e.idle }) refl here (ground arith)
              v.tracks v.few_idle;
        counted = rw (length-insert_known k _ c.cache here) v.counted;
        bounded = rw (length-insert_known k _ c.cache here) v.bounded;
      })
      (λ _. v)

return_to_pool-IsValid :
    (valid : Instance → Bool) (c : StatementCache) (k : Bytes) (x : Instance)
    → IsValid c
    → IsValid (return_to_pool valid c k x)
unfolding return_to_pool
return_to_pool-IsValid valid c k x v =
    if_elim IsValid (not c.enabled || not (valid x)) (λ _. v)
      (λ _. push_idle-IsValid c k x (find k c.cache) refl v)

-- `get`, behind the lookup.
pub get_hit-core :
    (p : Pool) (k : Bytes) (o : Option Instance) (answer : Outcome Instance)
    → (get_hit p k o answer).0.core ≡ p.core
unfolding get_hit
get_hit-core p k (some x) answer = refl
get_hit-core p k none (ok x) = unfold check_out_new in refl
get_hit-core p k none (thrown a) = unfold check_out_new in refl

get_miss-IsValid :
    (p : Pool) (k : Bytes) (e : CachedStatement) (answer : Outcome Instance)
    → occ k (keys p.cache) ≡ 0
    → suc (length p.cache) ≤ limit p.max_size
    → length e.idle ≤ 8
    → IsValid p.core
    → IsValid (get_miss p k e answer).0.core
unfolding get_miss
get_miss-IsValid p k e (ok x) missing room few v =
    add_entry-IsValid p.core k e missing room few v.tracked
get_miss-IsValid p k e (thrown a) missing room few v = v

get_found-IsValid :
    (valid : Instance → Bool) (p : Pool) (sql : Bytes) (flags now : ℕ) (answer : Answer) (k : Bytes)
    (o : Option CachedStatement)
    → find k p.cache ≡ o
    → IsValid p.core
    → IsValid (get_found valid p sql flags now answer k o).0.core
unfolding get_found
get_found-IsValid valid p sql flags now answer k (some e) f v =
    rw get_hit-core (
      hit_core-IsValid p.core k e now (pop_valid valid e.idle).1 f (length-pop_valid valid e.idle)
        v)
get_found-IsValid valid p sql flags now answer k none f v =
    let w : IsValid (count_miss p.core) = record {
      tracked = record { tracks = v.tracks; few_idle = v.few_idle };
      counted = v.counted;
      bounded = v.bounded;
    } in
    get_miss-IsValid (with_core p (make_room (count_miss p.core))) k
      (new_entry sql flags now answer) (prepare_for p.next_id sql flags answer)
      (make_room-missing (count_miss p.core) w k (find-none-occ k p.cache f))
      (make_room-room (count_miss p.core) w) (omega arith) (make_room-IsValid (count_miss p.core) w)

hand_out-core : (p : Pool) (answer : Outcome Instance) → (hand_out p answer).0.core ≡ p.core
unfolding hand_out
hand_out-core p (ok x) = refl
hand_out-core p (thrown a) = refl

get-IsValid :
    (valid : Instance → Bool) (p : Pool) (sql : Bytes) (flags now : ℕ) (answer : Answer)
    → IsValid p.core
    → IsValid (get valid p sql flags now answer).0.core
unfolding get
get-IsValid valid p sql flags now answer v =
    if_elim (λ (r : Pool × Outcome Instance). IsValid r.0.core) (not p.enabled)
      (λ _. rw hand_out-core v)
      (λ _. get_found-IsValid valid p sql flags now answer (generate_key sql flags) _ refl v)

release-IsValid :
    (valid : Instance → Bool) (p : Pool) (i : ℕ) → IsValid p.core → IsValid (release valid p i).core
unfolding release
release-IsValid valid p i v = dropped (bring_front i p.checked_out)
  where
    dropped : (hs : List (Bytes × Instance)) → IsValid (drop_handle valid p hs).core
    dropped [] = unfold drop_handle in v
    dropped ((k, x) ∷ hs) =
        unfold drop_handle in
        if_elim IsValid p.closed (λ _. v) (λ _. return_to_pool-IsValid valid p.core k x v)

abbrev Succeeds : (Pool → Type 0) → Option Pool → Type 0
Succeeds P o = (q : Pool) × (o ≡ some q) × P q

abbrev pub HasValidCore : Pool → Type 0
HasValidCore p = IsValid p.core

step-IsValid : (p : Pool) (c : Call) → IsValid p.core → Succeeds HasValidCore (step p c)
unfolding step
step-IsValid p (gets valid sql flags now answer) v =
    (_, refl, get-IsValid valid p sql flags now answer v)
step-IsValid p (releases valid i) v = (_, refl, release-IsValid valid p i v)
step-IsValid p (removes sql flags) v = (_, refl, unfold remove in remove_found-IsValid p.core _ _ v)
step-IsValid p (enables b) v = (_, refl, set_enabled-IsValid p.core b v)
step-IsValid p (limits n) v =
    let (d, e, w, _) = set_max_size-IsValid p.core n v in (with_core p d, rw e, w)
step-IsValid p (expires now) v = (_, refl, remove_expired-IsValid p.core now v)
step-IsValid p (ttls n) v = (
  _,
  refl,
  unfold set_ttl_minutes in
      record {
        tracked = record { tracks = v.tracks; few_idle = v.few_idle };
        counted = v.counted;
        bounded = v.bounded;
      },
)
step-IsValid p clears v = (_, refl, clear-IsValid p.core)
step-IsValid p counts v = (
  _,
  refl,
  unfold get_statistics in
      record {
        tracked = record { tracks = v.tracks; few_idle = v.few_idle };
        counted = refl;
        bounded = v.bounded;
      },
)
step-IsValid p destroys v =
    (_, refl, unfold destroy in clear-IsValid (record p.core { closed = true }))

run-IsValid : (cs : List Call) (p : Pool) → IsValid p.core → Succeeds HasValidCore (run p cs)
unfolding run
run-IsValid [] p v = (p, refl, v)
run-IsValid (c ∷ cs) p v =
    let (q, e, w) = step-IsValid p c v in let (r, f, u) = run-IsValid cs q w in (r, rw e f, u)

-- Whatever calls are made of a new cache, in whatever order, with whatever answers of the server,
-- they all end, and then the cache, the LRU list and the LRU map have the same keys, each once;
-- the statistics count the entries; no key has more than 8 idle instances; and the size is within
-- the maximum, where a maximum of 0 counts as 1.
pub run-init-IsValid :
    (config : CacheConfig) (cs : List Call)
    → (q : Pool) × (run (init config) cs ≡ some q) × IsValid q.core
run-init-IsValid config cs = run-IsValid cs (init config) (record {
  tracked = record { tracks = Tracks-nil; few_idle = tt };
  counted = refl;
  bounded = omega arith;
})
