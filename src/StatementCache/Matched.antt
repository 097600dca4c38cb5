-- ===== src/StatementCache/Matched.antt =====
-- Instances and their keys through the calls of the cache.
use fbpp.Prelude.{
  ℕ, zero, suc, ◌&&◌, ◌≡◌, refl, inl, inr, Bool, not, ◌||◌, List, [], ◌∷◌, Option, none, some, ltb,
  ◌==◌, length, All, Bool-cases, Option-cases, if_elim,
}
use fbpp.Prelude.Ascii.{Bytes}
use fbpp.Prelude.Dict.{find, All-find, All-erase}
use mathlib.Core.Path.{subst}
use fbpp.StatementCache.Key.{generate_key}
use fbpp.StatementCache.State.{
  Instance, CacheConfig, CachedStatement, StatementCache, Pool, max_idle_per_key,
}
use fbpp.StatementCache.Lru.{evict_lru}
use fbpp.StatementCache.Prepare.{Answer, ok}
use fbpp.StatementCache.Get.{
  push_idle, return_to_pool, get, release, drop_handle, swap_front, bring_front,
}
use fbpp.StatementCache.Maintain.{
  clear, remove, remove_found, forget_key, forget_keys, get_statistics, set_enabled, shrink,
  set_max_size, set_ttl_minutes, remove_expired, expired_keys, ttl_nanos, destroy,
}
use fbpp.StatementCache.Maintained.{forget_key-same}
use fbpp.StatementCache.Matching.{
  PreparedFor, IdleFor, HandleFor, Matches, insert-IdleFor, evict_lru-IdleFor, get-Handed,
}
use fbpp.StatementCache.Key.Flags.{generate_key-flags}
use fbpp.StatementCache.Run.{
  Call, gets, releases, removes, enables, limits, expires, ttls, clears, counts, destroys, step,
  run, init, Holds, run-Holds,
}

module _ (c : StatementCache) (a : All IdleFor c.cache) where
  forget_key-IdleFor : (k : Bytes) → All IdleFor (forget_key c k).cache
  forget_key-IdleFor k = rw ((forget_key-same c k).0) (All-erase IdleFor k c.cache a)

  push_idle-IdleFor :
      (k : Bytes) (i : Instance) (o : Option CachedStatement)
      → find k c.cache ≡ o
      → PreparedFor k i
      → All IdleFor (push_idle c k i o).cache
  unfolding push_idle
  push_idle-IdleFor k i none f h = a
  push_idle-IdleFor k i (some e) f h =
      if_elim (λ (d : StatementCache). All IdleFor d.cache) (ltb (length e.idle) max_idle_per_key)
        (λ _.
          insert-IdleFor k (record e { idle = i ∷ e.idle }) c.cache
            (h, All-find IdleFor k c.cache e f a) a)
        (λ _. a)

  return_to_pool-IdleFor :
      (valid : Instance → Bool) (k : Bytes) (i : Instance)
      → PreparedFor k i
      → All IdleFor (return_to_pool valid c k i).cache
  unfolding return_to_pool
  return_to_pool-IdleFor valid k i h =
      if_elim (λ (d : StatementCache). All IdleFor d.cache) (not c.enabled || not (valid i))
        (λ _. a) (λ _. push_idle-IdleFor k i (find k c.cache) refl h)

  remove_found-IdleFor :
      (k : Bytes) (o : Option CachedStatement) → All IdleFor (remove_found c k o).0.cache
  unfolding remove_found
  remove_found-IdleFor k none = a
  remove_found-IdleFor k (some e) = forget_key-IdleFor k

  set_enabled-IdleFor : (b : Bool) → All IdleFor (set_enabled c b).cache
  unfolding set_enabled clear
  set_enabled-IdleFor b =
      if_elim (λ (d : StatementCache). All IdleFor d.cache) (not b && c.enabled) (λ _. tt) (λ _. a)

forget_keys-IdleFor :
    (ks : List Bytes) (c : StatementCache)
    → All IdleFor c.cache
    → All IdleFor (forget_keys c ks).cache
unfolding forget_keys
forget_keys-IdleFor [] c a = a
forget_keys-IdleFor (k ∷ ks) c a =
    forget_keys-IdleFor ks (forget_key c k) (forget_key-IdleFor c a k)

remove_expired-IdleFor :
    (c : StatementCache) (now : ℕ)
    → All IdleFor c.cache
    → All IdleFor (remove_expired c now).0.cache
unfolding remove_expired
remove_expired-IdleFor c now a =
    if_elim (λ (r : StatementCache × ℕ). All IdleFor r.0.cache) (c.ttl_minutes == 0) (λ _. a)
      (λ _. forget_keys-IdleFor (expired_keys now (ttl_nanos c) c.cache) c a)

shrink-IdleFor :
    (fuel : ℕ) (c d : StatementCache)
    → shrink fuel c ≡ some d
    → All IdleFor c.cache
    → All IdleFor d.cache
unfolding shrink
shrink-IdleFor zero c d e a = absurd (cc)
shrink-IdleFor (suc fuel) c d e a = elim (Bool-cases (ltb c.max_size (length c.cache))) [
  | inl h ↦ shrink-IdleFor fuel (evict_lru c) d (rw h at e) (evict_lru-IdleFor c a)
  | inr h ↦
      let e' : some c ≡ some d = rw h at e in
      let c=d : c ≡ d = cc in subst (λ (x : StatementCache). All IdleFor x.cache) c=d a
]

bring_front-HandleFor :
    (n : ℕ) (hs : List (Bytes × Instance)) → All HandleFor hs → All HandleFor (bring_front n hs)
unfolding bring_front
bring_front-HandleFor n [] a = tt
bring_front-HandleFor zero (h ∷ hs) a = a
bring_front-HandleFor (suc n) (h ∷ hs) a =
    swapped (bring_front n hs) (bring_front-HandleFor n hs a.1)
  where
    swapped : (gs : List (Bytes × Instance)) → All HandleFor gs → All HandleFor (swap_front h gs)
    swapped [] b = unfold swap_front in (a.0, tt)
    swapped (g ∷ gs) b = unfold swap_front in (b.0, (a.0, b.1))

drop_handle-Matches :
    (valid : Instance → Bool) (p : Pool) (hs : List (Bytes × Instance))
    → Matches p
    → All HandleFor hs
    → Matches (drop_handle valid p hs)
unfolding drop_handle
drop_handle-Matches valid p [] m a = m
drop_handle-Matches valid p ((k, i) ∷ hs) m a = (
  if_elim (λ (c : StatementCache). All IdleFor c.cache) p.closed (λ _. m.0)
      (λ _. return_to_pool-IdleFor p.core m.0 valid k i a.0),
  a.1,
)

step-Matches : (p : Pool) (c : Call) → Matches p → Holds Matches (step p c)
unfolding step
step-Matches p (gets valid sql flags now answer) m = (get-Handed valid p sql flags now answer m).0
step-Matches p (releases valid n) m =
    unfold release in
    drop_handle-Matches valid p (bring_front n p.checked_out) m
      (bring_front-HandleFor n p.checked_out m.1)
step-Matches p (removes sql flags) m = (unfold remove in remove_found-IdleFor p.core m.0 _ _, m.1)
step-Matches p (enables b) m = (set_enabled-IdleFor p.core m.0 b, m.1)
step-Matches p (limits n) m = elim (Option-cases (set_max_size p.core n)) [
  | inl e ↦ rw e tt
  | inr (c, e) ↦ rw e (
    unfold set_max_size in
        shrink-IdleFor (suc (length p.cache))
          (record p.core { config = record p.core.config { max_size = n } }) c e m.0,
    m.1,
  )
]
step-Matches p (expires now) m = (remove_expired-IdleFor p.core now m.0, m.1)
step-Matches p (ttls n) m = (unfold set_ttl_minutes in m.0, m.1)
step-Matches p clears m = (unfold clear in tt, m.1)
step-Matches p counts m = (unfold get_statistics in m.0, m.1)
step-Matches p destroys m = (unfold destroy clear in tt, m.1)

-- After any calls on a new cache, what `get` hands out, pooled or new, was prepared with the asked
-- flags for a text with the asked key.
pub run-Handed :
    (config : CacheConfig) (cs : List Call) (p : Pool) (valid : Instance → Bool) (sql : Bytes)
    (flags now : ℕ) (answer : Answer) (i : Instance)
    → run (init config) cs ≡ some p
    → (get valid p sql flags now answer).1 ≡ ok i
    → PreparedFor (generate_key sql flags) i × (i.flags ≡ flags)
run-Handed config cs p valid sql flags now answer i e g =
    let m : Matches p = rw e at (run-Holds Matches step-Matches cs (init config) (tt, tt)) in
    let f : PreparedFor (generate_key sql flags) i =
      rw g at ((get-Handed valid p sql flags now answer m).1) in
    (f, generate_key-flags f.sql sql i.flags flags f.same_key)
