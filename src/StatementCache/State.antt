-- ===== src/StatementCache/State.antt =====
-- The cache's data: prepared instances, entries, statistics, and the state of the pool together
-- with what its users hold.
use fbpp.Prelude.{ℕ, Bool, List, Option}
use fbpp.Prelude.Ascii.{Bytes}
use fbpp.Prelude.Dict.{Dict}

-- A prepared `Statement`: a number of its own for the object, the text it was prepared from, the
-- flags, and the mapping set by `setNamedParamMapping`.
pub record Instance : Type 0 where
  pub id : ℕ
  pub text : Bytes
  pub flags : ℕ
  pub mapping : Option (Dict (List ℕ))

-- `MessageMetadata::getField`, as far as the cache reads it.
pub record FieldInfo : Type 0 where
  pub name : Bytes
  pub alias : Bytes
  pub sql_type : ℕ
  pub length : ℕ
  pub scale : ℕ
  pub nullable : Bool

pub record ParamInfo : Type 0 where
  pub name : Bytes
  pub sql_type : ℕ
  pub length : ℕ
  pub scale : ℕ
  pub nullable : Bool

pub record CacheConfig : Type 0 where
  pub max_size : ℕ
  pub enabled : Bool
  pub ttl_minutes : ℕ

-- The head of `idle` is the back of the vector. Times are nanoseconds of the steady clock.
pub record CachedStatement : Type 0 where
  pub idle : List Instance
  pub sql : Bytes
  pub flags : ℕ
  pub last_used : ℕ
  pub use_count : ℕ
  pub input_params : List ParamInfo
  pub output_params : List ParamInfo

-- The hit rate, a double computed from the counts on demand, is left out.
pub record Statistics : Type 0 where
  pub cache_size : ℕ
  pub hit_count : ℕ
  pub miss_count : ℕ
  pub eviction_count : ℕ

-- `lru_list` has the most recent key in front. The iterators of `lruMap_` point at the element that
-- holds their key, so the map is the list of its keys, and erasing through it erases that element.
pub record StatementCache : Type 0 where
  pub config : CacheConfig
  pub open config use *
  pub cache : Dict CachedStatement
  pub lru_list : List Bytes
  pub lru_map : List Bytes
  pub stats : Statistics
  pub closed : Bool

-- The cache, the handles that users hold (each with its deleter's key), and the number of the next
-- instance to be prepared.
pub record Pool : Type 0 where
  pub core : StatementCache
  pub open core use *
  pub checked_out : List (Bytes × Instance)
  pub next_id : ℕ

abbrev pub max_idle_per_key : ℕ
max_idle_per_key = 8
