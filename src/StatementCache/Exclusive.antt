-- ===== src/StatementCache/Exclusive.antt =====
-- The instances in the idle pools and in the users' hands, through the calls of the cache.
use fbpp.Prelude.{
  ℕ, ◌+◌, ◌≤◌, ◌≡◌, refl, ap, inl, inr, Bool, not, List, [], ◌∷◌, Option, none, some, ltb, ◌==◌,
  if◌then◌else◌, arith, Option-cases, if_elim,
}
use fbpp.Prelude.Ascii.{Bytes}
use fbpp.Prelude.Dict.{find}
use fbpp.StatementCache.Key.{generate_key}
use fbpp.StatementCache.State.{Instance, CacheConfig, CachedStatement, StatementCache, Pool}
use fbpp.StatementCache.Lru.{count_miss}
use fbpp.StatementCache.Prepare.{
  Answer, prepared, Outcome, ok, thrown, prepare_for, prepare_instance,
}
use fbpp.StatementCache.Get.{
  add_entry, pop_valid, new_entry, get, get_found, get_hit, get_miss, check_out_new, hand_out,
  release, drop_handle, bring_front, with_core,
}
use fbpp.StatementCache.Maintain.{
  clear, remove, remove_expired, get_statistics, set_enabled, set_max_size, set_ttl_minutes,
  destroy,
}
use fbpp.StatementCache.Tally.{
  tally_list, tally, tally_handles, tally_popped, tally-insert-le, tally-make_room,
  tally-bring_front, tally-return_to_pool, tally-hit_core,
}
use fbpp.StatementCache.Shrinking.{
  tally-remove_found-le, tally-remove_expired-le, tally-set_enabled-le, tally-set_max_size-le,
}
use fbpp.StatementCache.Run.{
  Call, gets, releases, removes, enables, limits, expires, ttls, clears, counts, destroys, step,
  run, init, Holds, run-Holds,
}

-- An object that has been prepared is in one place at most, and no other object is anywhere.
abbrev pub Exclusive : Pool → Type 0
Exclusive p =
    (x : ℕ) → tally x p.cache + tally_handles x p.checked_out ≤ (if ltb x p.next_id then 1 else 0)

-- A pool whose counts are at most those of another, with the same numbers given out.
Exclusive-le :
    (p q : Pool)
    → ((x : ℕ)
        → tally x q.cache + tally_handles x q.checked_out
          ≤ tally x p.cache + tally_handles x p.checked_out)
    → q.next_id ≡ p.next_id
    → Exclusive p
    → Exclusive q
Exclusive-le p q h e v x = rw e (omega (arith, h x, v x))

-- The new object's number is the next one.
prepare_for-id :
    (id : ℕ) (sql : Bytes) (flags : ℕ) (answer : Answer) (i : Instance)
    → prepare_for id sql flags answer ≡ ok i
    → i.id ≡ id
unfolding prepare_for prepare_instance
prepare_for-id id sql flags (prepared ins outs) i e = ground arith
prepare_for-id id sql flags _ i e = absurd (cc)

-- One more object, with the next number.
Exclusive-new :
    (p q : Pool) (i : Instance)
    → ((x : ℕ)
        → tally x q.cache + tally_handles x q.checked_out
          ≤ tally x p.cache + tally_handles x p.checked_out + (if i.id == x then 1 else 0))
    → i.id ≡ p.next_id
    → q.next_id ≡ p.next_id + 1
    → Exclusive p
    → Exclusive q
Exclusive-new p q i h e n v = λ x. ground (arith, h x, v x)

-- What `get` hands out is in nobody's hands, and it stays alone.
abbrev pub Fresh : Pool → Outcome Instance → Type 0
Fresh p (ok i) = tally_handles i.id p.checked_out ≡ 0
Fresh p (thrown a) = Unit {0}

abbrev pub HandsOut : Pool → Pool × Outcome Instance → Type 0
HandsOut p r = Exclusive r.0 × Fresh p r.1

check_out_new-HandsOut :
    (p q : Pool) (k : Bytes) (o : Outcome Instance)
    → ((x : ℕ) → tally x q.cache ≤ tally x p.cache)
    → q.checked_out ≡ p.checked_out
    → q.next_id ≡ p.next_id
    → ((i : Instance) → o ≡ ok i → i.id ≡ p.next_id)
    → Exclusive p
    → HandsOut p (check_out_new q k o)
unfolding check_out_new
check_out_new-HandsOut p q k (ok i) le hs n new v = (
  Exclusive-new p (check_out_new q k (ok i)).0 i (λ x. omega (arith, le x, ap (tally_handles x) hs))
      (new i refl) (rw n) v,
  ground (arith, v i.id, new i refl),
)
check_out_new-HandsOut p q k (thrown a) le hs n new v =
    (Exclusive-le p q (λ x. omega (arith, le x, ap (tally_handles x) hs)) n v, tt)

get_hit-HandsOut :
    (p q : Pool) (k : Bytes) (o : Option Instance) (answer : Outcome Instance)
    → ((x : ℕ) → tally_popped x o + tally x q.cache ≤ tally x p.cache)
    → q.checked_out ≡ p.checked_out
    → q.next_id ≡ p.next_id
    → ((i : Instance) → answer ≡ ok i → i.id ≡ p.next_id)
    → Exclusive p
    → HandsOut p (get_hit q k o answer)
unfolding get_hit
get_hit-HandsOut p q k none answer le hs n new v =
    check_out_new-HandsOut p q k answer (λ x. omega (arith, le x)) hs n new v
get_hit-HandsOut p q k (some i) answer le hs n new v = (
  Exclusive-le p (get_hit q k (some i) answer).0 (λ x. omega (arith, le x, ap (tally_handles x) hs))
      n v,
  ground (arith, v i.id, le i.id),
)

get_miss-HandsOut :
    (p q : Pool) (k : Bytes) (e : CachedStatement) (o : Outcome Instance)
    → ((x : ℕ) → tally x q.cache ≤ tally x p.cache)
    → e.idle ≡ []
    → q.checked_out ≡ p.checked_out
    → q.next_id ≡ p.next_id
    → ((i : Instance) → o ≡ ok i → i.id ≡ p.next_id)
    → Exclusive p
    → HandsOut p (get_miss q k e o)
unfolding get_miss add_entry
get_miss-HandsOut p q k e (ok i) le bare hs n new v = (
  Exclusive-new p (get_miss q k e (ok i)).0 i
      (λ x. omega (
        arith,
        le x,
        ap (tally_handles x) hs,
        tally-insert-le x k e q.cache,
        ap (tally_list x) bare,
      ))
      (new i refl) (rw n) v,
  ground (arith, v i.id, new i refl),
)
get_miss-HandsOut p q k e (thrown a) le bare hs n new v =
    (Exclusive-le p q (λ x. omega (arith, le x, ap (tally_handles x) hs)) n v, tt)

get_found-HandsOut :
    (valid : Instance → Bool) (p : Pool) (sql : Bytes) (flags now : ℕ) (answer : Answer) (k : Bytes)
    (o : Option CachedStatement)
    → find k p.cache ≡ o
    → Exclusive p
    → HandsOut p (get_found valid p sql flags now answer k o)
unfolding get_found
get_found-HandsOut valid p sql flags now answer k (some e) f v =
    get_hit-HandsOut p _ k (pop_valid valid e.idle).0 _
      (λ x. tally-hit_core x valid p.core k e now f) refl refl
      (prepare_for-id p.next_id sql flags answer) v
get_found-HandsOut valid p sql flags now answer k none f v =
    get_miss-HandsOut p _ k (new_entry sql flags now answer) _
      (λ x. tally-make_room x (count_miss p.core)) refl refl refl
      (prepare_for-id p.next_id sql flags answer) v

hand_out-HandsOut :
    (p : Pool) (o : Outcome Instance)
    → ((i : Instance) → o ≡ ok i → i.id ≡ p.next_id)
    → Exclusive p
    → HandsOut p (hand_out p o)
unfolding hand_out
hand_out-HandsOut p (ok i) new v = (λ x. ground (arith, v x), ground (arith, v i.id, new i refl))
hand_out-HandsOut p (thrown a) new v = (v, tt)

get-HandsOut :
    (valid : Instance → Bool) (p : Pool) (sql : Bytes) (flags now : ℕ) (answer : Answer)
    → Exclusive p
    → HandsOut p (get valid p sql flags now answer)
unfolding get
get-HandsOut valid p sql flags now answer v =
    if_elim (HandsOut p) (not p.enabled)
      (λ _. hand_out-HandsOut p _ (prepare_for-id p.next_id sql flags answer) v)
      (λ _. get_found-HandsOut valid p sql flags now answer (generate_key sql flags) _ refl v)

release-Exclusive :
    (valid : Instance → Bool) (p : Pool) (n : ℕ) → Exclusive p → Exclusive (release valid p n)
unfolding release
release-Exclusive valid p n v =
    dropped (bring_front n p.checked_out) (λ x. tally-bring_front x n p.checked_out)
  where
    dropped :
        (hs : List (Bytes × Instance))
        → ((x : ℕ) → tally_handles x hs ≡ tally_handles x p.checked_out)
        → Exclusive (drop_handle valid p hs)
    dropped [] h = unfold drop_handle in v
    dropped ((k, i) ∷ hs) h =
        unfold drop_handle in
        λ x.
          if_elim
            (λ (c : StatementCache).
              tally x c.cache + tally_handles x hs ≤ (if ltb x p.next_id then 1 else 0))
            p.closed (λ _. omega (arith, h x, v x))
            (λ _. omega (arith, h x, v x, tally-return_to_pool x valid p.core k i))

-- The operations that only take entries away, or change settings.
set_core-Exclusive :
    (p : Pool) (c : StatementCache)
    → ((x : ℕ) → tally x c.cache ≤ tally x p.cache)
    → Exclusive p
    → Exclusive (with_core p c)
set_core-Exclusive p c h v = λ x. omega (arith, h x, v x)

step-Exclusive : (p : Pool) (c : Call) → Exclusive p → Holds Exclusive (step p c)
unfolding step
step-Exclusive p (gets valid sql flags now answer) v =
    (get-HandsOut valid p sql flags now answer v).0
step-Exclusive p (releases valid i) v = (release-Exclusive valid p i v)
step-Exclusive p (removes sql flags) v =
    (set_core-Exclusive p (remove p.core sql flags).0
      (λ x. unfold remove in tally-remove_found-le x p.core _ _) v)
step-Exclusive p (enables b) v =
    (set_core-Exclusive p (set_enabled p.core b) (λ x. tally-set_enabled-le x p.core b) v)
step-Exclusive p (limits n) v = elim (Option-cases (set_max_size p.core n)) [
  | inl e ↦ rw e tt
  | inr (c, e) ↦ rw e (set_core-Exclusive p c (λ x. tally-set_max_size-le x p.core c n e) v)
]
step-Exclusive p (expires now) v =
    (set_core-Exclusive p (remove_expired p.core now).0 (λ x. tally-remove_expired-le x p.core now)
      v)
step-Exclusive p (ttls n) v = (unfold set_ttl_minutes in v)
step-Exclusive p clears v =
    (set_core-Exclusive p (clear p.core) (λ x. unfold clear in omega arith) v)
step-Exclusive p counts v = (unfold get_statistics in v)
step-Exclusive p destroys v =
    (set_core-Exclusive p (destroy p.core) (λ x. unfold destroy clear in omega arith) v)

-- After any calls on a new cache, every object is at most once in the idle pools and in the users'
-- hands together, and what `get` then hands out, pooled or new, is in no other user's hands.
pub run-HandsOut :
    (config : CacheConfig) (cs : List Call) (p : Pool) (valid : Instance → Bool) (sql : Bytes)
    (flags now : ℕ) (answer : Answer)
    → run (init config) cs ≡ some p
    → Exclusive p × HandsOut p (get valid p sql flags now answer)
run-HandsOut config cs p valid sql flags now answer e =
    let kept = run-Holds Exclusive step-Exclusive cs (init config) (λ x. omega arith) in
    let v : Exclusive p = rw e at kept in (v, get-HandsOut valid p sql flags now answer v)
