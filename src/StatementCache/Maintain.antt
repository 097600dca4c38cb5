-- ===== src/StatementCache/Maintain.antt =====
-- The operations that maintain the cache: removal, limits, expiry, statistics, destruction.
use fbpp.Prelude.{
  ℕ, zero, suc, ◌-◌, ◌*◌, Bool, true, false, not, ◌&&◌, List, [], ◌∷◌, Option, none, some, ltb,
  ◌==◌, if◌then◌else◌, length,
}
use fbpp.Prelude.Ascii.{Bytes}
use fbpp.Prelude.Dict.{Dict, find, erase}
use fbpp.StatementCache.Key.{generate_key}
use fbpp.StatementCache.State.{CachedStatement, Statistics, StatementCache}
use fbpp.StatementCache.Lru.{remove_key, mem_key, set_cache_size, evict_lru}

-- `clear`, and the part of `setEnabled` that does the same.
unfoldable pub clear : StatementCache → StatementCache
clear c = set_cache_size (record c { cache = []; lru_list = []; lru_map = [] })

abbrev pub forget_key : StatementCache → Bytes → StatementCache
forget_key c key =
    let c' =
      if mem_key key c.lru_map
      then record c { lru_list = remove_key key c.lru_list; lru_map = remove_key key c.lru_map }
      else c in
    record c' { cache = erase key c'.cache }

unfoldable pub remove_found :
    StatementCache → Bytes → Option CachedStatement → StatementCache × Bool
remove_found c key none = (c, false)
remove_found c key (some e) = (set_cache_size (forget_key c key), true)

unfoldable pub remove : StatementCache → Bytes → ℕ → StatementCache × Bool
unfolding remove_found
remove c sql flags = remove_found c (generate_key sql flags) (find (generate_key sql flags) c.cache)

unfoldable pub get_statistics : StatementCache → StatementCache × Statistics
get_statistics c = (set_cache_size c, (set_cache_size c).stats)

unfoldable pub set_enabled : StatementCache → Bool → StatementCache
unfolding clear
set_enabled c enabled =
    let c' = if not enabled && c.enabled then clear c else c in
    record c' { config = record c'.config { enabled = enabled } }

-- `while (cache_.size() > maxSize) evictLRU()`; `none` is a loop that has not ended.
unfoldable pub shrink : ℕ → StatementCache → Option StatementCache
unfolding evict_lru
shrink zero c = none
shrink (suc fuel) c =
    let rest = shrink fuel (evict_lru c) in if ltb c.max_size (length c.cache) then rest else some c

unfoldable pub set_max_size : StatementCache → ℕ → Option StatementCache
unfolding shrink
set_max_size c max_size =
    shrink (suc (length c.cache)) (record c { config = record c.config { max_size = max_size } })

unfoldable pub set_ttl_minutes : StatementCache → ℕ → StatementCache
set_ttl_minutes c ttl = record c { config = record c.config { ttl_minutes = ttl } }

-- `ttl`, in the ticks of the clock; it has no bound here, where the comparison of the code overflows
-- from 153722868 minutes on.
abbrev pub ttl_nanos : StatementCache → ℕ
ttl_nanos c = c.ttl_minutes * 60_000_000_000

unfoldable pub expired_keys : ℕ → ℕ → Dict CachedStatement → List Bytes
expired_keys now ttl [] = []
expired_keys now ttl ((key, e) ∷ m) =
    if ltb ttl (now - e.last_used) then key ∷ expired_keys now ttl m else expired_keys now ttl m

unfoldable pub forget_keys : StatementCache → List Bytes → StatementCache
forget_keys c [] = c
forget_keys c (k ∷ ks) = forget_keys (forget_key c k) ks

unfoldable pub remove_expired : StatementCache → ℕ → StatementCache × ℕ
unfolding expired_keys forget_keys
remove_expired c now =
    if c.ttl_minutes == 0
    then (c, 0)
    else let keys = expired_keys now (ttl_nanos c) c.cache in
      (set_cache_size (forget_keys c keys), length keys)

-- `~StatementCache`.
unfoldable pub destroy : StatementCache → StatementCache
unfolding clear
destroy c = clear (record c { closed = true })
