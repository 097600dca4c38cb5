-- ===== src/StatementCache/Shrinking.antt =====
-- The idle pools through the operations that take entries away.
use fbpp.Prelude.{
  ℕ, zero, suc, ◌≤◌, ◌≡◌, inl, inr, Bool, not, ◌&&◌, List, [], ◌∷◌, Option, none, some, ltb, ◌==◌,
  length, arith, Bool-cases, if_elim,
}
use fbpp.Prelude.Ascii.{Bytes}
use fbpp.StatementCache.State.{CachedStatement, StatementCache}
use fbpp.StatementCache.Lru.{evict_lru, back}
use fbpp.StatementCache.Maintain.{
  clear, remove_found, forget_key, forget_keys, set_enabled, shrink, set_max_size, remove_expired,
  expired_keys, ttl_nanos,
}
use fbpp.StatementCache.Tally.{tally, tally-erase-le, tally-evict_back}
use fbpp.StatementCache.Maintained.{forget_key-same}

tally-forget_key-le :
    (x : ℕ) (c : StatementCache) (k : Bytes) → tally x (forget_key c k).cache ≤ tally x c.cache
tally-forget_key-le x c k = rw ((forget_key-same c k).0) (tally-erase-le x k c.cache)

tally-forget_keys-le :
    (x : ℕ) (ks : List Bytes) (c : StatementCache)
    → tally x (forget_keys c ks).cache ≤ tally x c.cache
unfolding forget_keys
tally-forget_keys-le x [] c = omega arith
tally-forget_keys-le x (k ∷ ks) c =
    omega (arith, tally-forget_keys-le x ks (forget_key c k), tally-forget_key-le x c k)

tally-evict_lru-le : (x : ℕ) (c : StatementCache) → tally x (evict_lru c).cache ≤ tally x c.cache
unfolding evict_lru
tally-evict_lru-le x c = tally-evict_back x c (back c.lru_list)

tally-shrink-le :
    (x fuel : ℕ) (c d : StatementCache) → shrink fuel c ≡ some d → tally x d.cache ≤ tally x c.cache
unfolding shrink
tally-shrink-le x zero c d e = absurd (cc)
tally-shrink-le x (suc fuel) c d e = elim (Bool-cases (ltb c.max_size (length c.cache))) [
  | inl h ↦
      omega (arith, tally-shrink-le x fuel (evict_lru c) d (rw h at e), tally-evict_lru-le x c)
  | inr h ↦ let e' : some c ≡ some d = rw h at e in let c=d : c ≡ d = cc in rw c=d (omega arith)
]

pub tally-remove_found-le :
    (x : ℕ) (c : StatementCache) (k : Bytes) (o : Option CachedStatement)
    → tally x (remove_found c k o).0.cache ≤ tally x c.cache
unfolding remove_found
tally-remove_found-le x c k none = omega arith
tally-remove_found-le x c k (some e) = tally-forget_key-le x c k

pub tally-remove_expired-le :
    (x : ℕ) (c : StatementCache) (now : ℕ)
    → tally x (remove_expired c now).0.cache ≤ tally x c.cache
unfolding remove_expired
tally-remove_expired-le x c now =
    if_elim (λ (r : StatementCache × ℕ). tally x r.0.cache ≤ tally x c.cache) (c.ttl_minutes == 0)
      (λ _. omega arith) (λ _. tally-forget_keys-le x (expired_keys now (ttl_nanos c) c.cache) c)

pub tally-set_enabled-le :
    (x : ℕ) (c : StatementCache) (b : Bool) → tally x (set_enabled c b).cache ≤ tally x c.cache
unfolding set_enabled clear
tally-set_enabled-le x c b =
    if_elim (λ (d : StatementCache). tally x d.cache ≤ tally x c.cache) (not b && c.enabled)
      (λ _. omega arith) (λ _. omega arith)

pub tally-set_max_size-le :
    (x : ℕ) (c d : StatementCache) (n : ℕ)
    → set_max_size c n ≡ some d
    → tally x d.cache ≤ tally x c.cache
unfolding set_max_size
tally-set_max_size-le x c d n e =
    tally-shrink-le x (suc (length c.cache))
      (record c { config = record c.config { max_size = n } }) d e
