-- ===== src/StatementCache/Lru.antt =====
-- The bookkeeping of the LRU order: `touchEntry` and `evictLRU`.
use fbpp.Prelude.{◌+◌, Bool, false, ◌||◌, List, [], ◌∷◌, Option, none, some, if◌then◌else◌, length}
use fbpp.Prelude.Ascii.{Bytes, str_eq}
use fbpp.Prelude.Dict.{erase}
use fbpp.StatementCache.State.{StatementCache}

-- Erasing one key of a list, and its last element.
unfoldable pub remove_key : Bytes → List Bytes → List Bytes
remove_key k [] = []
remove_key k (j ∷ js) = if str_eq j k then js else j ∷ remove_key k js

unfoldable pub mem_key : Bytes → List Bytes → Bool
mem_key k [] = false
mem_key k (j ∷ js) = str_eq j k || mem_key k js

unfoldable pub back : List Bytes → Option Bytes
back [] = none
back (k ∷ []) = some k
back (k ∷ j ∷ js) = back (j ∷ js)

unfoldable pub pop_back : List Bytes → List Bytes
pop_back [] = []
pop_back (k ∷ []) = []
pop_back (k ∷ j ∷ js) = k ∷ pop_back (j ∷ js)

module _ (c : StatementCache) where
  abbrev pub count_hit : StatementCache
  count_hit = record c { stats = record c.stats { hit_count = c.stats.hit_count + 1 } }

  abbrev pub count_miss : StatementCache
  count_miss = record c { stats = record c.stats { miss_count = c.stats.miss_count + 1 } }

  abbrev pub set_cache_size : StatementCache
  set_cache_size = record c { stats = record c.stats { cache_size = length c.cache } }

  -- `touchEntry`.
  unfoldable pub touch_entry : Bytes → StatementCache
  unfolding mem_key remove_key
  touch_entry key =
      if mem_key key c.lru_map then record c { lru_list = key ∷ remove_key key c.lru_list } else c

-- `evictLRU`, with the key at the back of the list.
unfoldable pub evict_back : StatementCache → Option Bytes → StatementCache
evict_back c none = c
evict_back c (some key) = record c {
  lru_list = pop_back c.lru_list;
  lru_map = remove_key key c.lru_map;
  cache = erase key c.cache;
  stats = record c.stats {
    eviction_count = c.stats.eviction_count + 1;
    cache_size = length (erase key c.cache);
  };
}

unfoldable pub evict_lru : StatementCache → StatementCache
unfolding evict_back back pop_back remove_key
evict_lru c = evict_back c (back c.lru_list)
