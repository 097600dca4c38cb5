-- ===== src/StatementCache/Get.antt =====
-- `get`, `makeCheckout` and `returnToPool`. A disabled cache prepares without the mutex.
use fbpp.Prelude.{
  ℕ, zero, suc, ◌+◌, Bool, not, ◌||◌, List, [], ◌∷◌, map, Option, none, some, ltb, leb,
  if◌then◌else◌, length,
}
use fbpp.Prelude.Ascii.{Bytes}
use fbpp.Prelude.Dict.{find, insert}
use fbpp.StatementCache.Key.{generate_key}
use fbpp.StatementCache.State.{Instance, CachedStatement, StatementCache, Pool, max_idle_per_key}
use fbpp.StatementCache.Lru.{mem_key, count_hit, count_miss, set_cache_size, touch_entry, evict_lru}
use fbpp.StatementCache.Prepare.{
  Answer, Outcome, ok, thrown, prepare_for, input_param, output_param, input_fields, output_fields,
}

-- `while (!idle.empty())`: the last valid instance, and the ones left.
unfoldable pub pop_valid : (Instance → Bool) → List Instance → Option Instance × List Instance
pop_valid valid [] = (none, [])
pop_valid valid (x ∷ xs) = let rest = pop_valid valid xs in if valid x then (some x, xs) else rest

-- `makeCheckout`: the handle goes to the user.
abbrev pub checkout : Pool → Bytes → Instance → Pool
checkout p key x = record p { checked_out = (key, x) ∷ p.checked_out }

abbrev pub with_core : Pool → StatementCache → Pool
with_core p c = record p { core = c }

abbrev pub count_prepared : Pool → Pool
count_prepared p = record p { next_id = p.next_id + 1 }

-- The disabled cache: the caller owns the instance, and nothing is kept of it.
unfoldable pub hand_out : Pool → Outcome Instance → Pool × Outcome Instance
hand_out p (ok x) = (count_prepared p, ok x)
hand_out p (thrown a) = (p, thrown a)

unfoldable pub check_out_new : Pool → Bytes → Outcome Instance → Pool × Outcome Instance
check_out_new p key (ok x) = (checkout (count_prepared p) key x, ok x)
check_out_new p key (thrown a) = (p, thrown a)

-- A key that is in the cache.
unfoldable pub hit_core :
    StatementCache → Bytes → CachedStatement → ℕ → List Instance → StatementCache
unfolding touch_entry
hit_core c key e now rest =
    let touched = touch_entry (count_hit c) key in
    record touched {
      cache =
          insert key (record e { idle = rest; last_used = now; use_count = e.use_count + 1 })
            touched.cache;
    }

unfoldable pub get_hit : Pool → Bytes → Option Instance → Outcome Instance → Pool × Outcome Instance
unfolding check_out_new
get_hit p key (some x) answer = (checkout p key x, ok x)
get_hit p key none answer = check_out_new p key answer

-- A key that is not: the eviction comes before the preparation, which may throw.
unfoldable pub make_room : StatementCache → StatementCache
unfolding evict_lru
make_room c = if leb c.max_size (length c.cache) then evict_lru c else c

abbrev pub add_key : Bytes → List Bytes → List Bytes
add_key k ks = if mem_key k ks then ks else k ∷ ks

abbrev pub new_entry : Bytes → ℕ → ℕ → Answer → CachedStatement
new_entry sql flags now answer = record {
  idle = [];
  sql = sql;
  flags = flags;
  last_used = now;
  use_count = 1;
  input_params = map input_param (input_fields answer);
  output_params = map output_param (output_fields answer);
}

unfoldable pub add_entry : StatementCache → Bytes → CachedStatement → StatementCache
unfolding mem_key
add_entry c key e = set_cache_size (record c {
  cache = insert key e c.cache;
  lru_list = key ∷ c.lru_list;
  lru_map = add_key key c.lru_map;
})

unfoldable pub get_miss :
    Pool → Bytes → CachedStatement → Outcome Instance → Pool × Outcome Instance
unfolding add_entry
get_miss p key e (ok x) =
    (checkout (count_prepared (with_core p (add_entry p.core key e))) key x, ok x)
get_miss p key e (thrown a) = (p, thrown a)

-- `get` behind `cache_.find(key)`. `valid` is `isValid()` of each instance.
unfoldable pub get_found :
    (Instance → Bool)
    → Pool
    → Bytes
    → ℕ
    → ℕ
    → Answer
    → Bytes
    → Option CachedStatement
    → Pool × Outcome Instance
unfolding hit_core get_hit pop_valid make_room get_miss prepare_for
get_found valid p sql flags now answer key (some e) =
    let popped = pop_valid valid e.idle in
    get_hit (with_core p (hit_core p.core key e now popped.1)) key popped.0
      (prepare_for p.next_id sql flags answer)
get_found valid p sql flags now answer key none =
    get_miss (with_core p (make_room (count_miss p.core))) key (new_entry sql flags now answer)
      (prepare_for p.next_id sql flags answer)

unfoldable pub get : (Instance → Bool) → Pool → Bytes → ℕ → ℕ → Answer → Pool × Outcome Instance
unfolding get_found hand_out prepare_for
get valid p sql flags now answer =
    if not p.enabled
    then hand_out p (prepare_for p.next_id sql flags answer)
    else get_found valid p sql flags now answer (generate_key sql flags)
        (find (generate_key sql flags) p.cache)

-- `returnToPool`.
unfoldable pub push_idle :
    StatementCache → Bytes → Instance → Option CachedStatement → StatementCache
push_idle c key x none = c
push_idle c key x (some e) =
    if ltb (length e.idle) max_idle_per_key
    then record c { cache = insert key (record e { idle = x ∷ e.idle }) c.cache }
    else c

unfoldable pub return_to_pool :
    (Instance → Bool) → StatementCache → Bytes → Instance → StatementCache
unfolding push_idle
return_to_pool valid c key x =
    if not c.enabled || not (valid x) then c else push_idle c key x (find key c.cache)

-- The deleter of the handle in front, which its user drops; `bring_front` chooses the handle.
unfoldable pub drop_handle : (Instance → Bool) → Pool → List (Bytes × Instance) → Pool
unfolding return_to_pool
drop_handle valid p [] = p
drop_handle valid p ((key, x) ∷ rest) = record p {
  core = if p.closed then p.core else return_to_pool valid p.core key x;
  checked_out = rest;
}

unfoldable pub swap_front : Bytes × Instance → List (Bytes × Instance) → List (Bytes × Instance)
swap_front h [] = h ∷ []
swap_front h (g ∷ gs) = g ∷ h ∷ gs

unfoldable pub bring_front : ℕ → List (Bytes × Instance) → List (Bytes × Instance)
unfolding swap_front
bring_front i [] = []
bring_front zero (h ∷ hs) = h ∷ hs
bring_front (suc i) (h ∷ hs) = swap_front h (bring_front i hs)

unfoldable pub release : (Instance → Bool) → Pool → ℕ → Pool
unfolding drop_handle bring_front
release valid p i = drop_handle valid p (bring_front i p.checked_out)
