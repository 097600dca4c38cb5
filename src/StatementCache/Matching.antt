-- ===== src/StatementCache/Matching.antt =====
-- Instances and the keys they were prepared for, through `get`.
use fbpp.Prelude.{
  ℕ, ◌+◌, ◌≡◌, refl, sym, Bool, not, List, [], ◌∷◌, Option, none, some, leb, length, All, if_elim,
}
use fbpp.Prelude.Ascii.{Bytes, str_eq, str_eq_iff}
use fbpp.Prelude.Dict.{Dict, find, insert, All-find, All-erase}
use mathlib.Core.Path.{subst}
use fbpp.NamedParam.{parse}
use fbpp.StatementCache.Key.{generate_key}
use fbpp.StatementCache.State.{Instance, CachedStatement, StatementCache, Pool}
use fbpp.StatementCache.Lru.{evict_lru, evict_back, back, count_hit, count_miss}
use fbpp.StatementCache.Prepare.{
  Answer, prepared, Outcome, ok, thrown, prepare_for, prepare_instance, actual_sql, name_mapping,
}
use fbpp.StatementCache.Get.{
  hit_core, add_entry, make_room, pop_valid, get, get_found, get_hit, get_miss, check_out_new,
  hand_out, with_core,
}
use fbpp.StatementCache.Valid.{touch_entry-same}

-- The instance is what `prepareInstance` makes for some text whose key is `key`.
pub record PreparedFor (key : Bytes) (i : Instance) : Type 0 where
  pub sql : Bytes
  pub same_key : generate_key sql i.flags ≡ key
  pub text_is : i.text ≡ actual_sql (parse sql) sql
  pub mapping_is : i.mapping ≡ name_mapping (parse sql)

abbrev pub IdleFor : Bytes × CachedStatement → Type 0
IdleFor kv = All (PreparedFor kv.0) kv.1.idle

abbrev pub HandleFor : Bytes × Instance → Type 0
HandleFor h = PreparedFor h.0 h.1

abbrev pub Matches : Pool → Type 0
Matches p = All IdleFor p.cache × All HandleFor p.checked_out

pub insert-IdleFor :
    (k : Bytes) (e : CachedStatement) (m : Dict CachedStatement)
    → All (PreparedFor k) e.idle
    → All IdleFor m
    → All IdleFor (insert k e m)
unfolding insert
insert-IdleFor k e [] h a = (h, tt)
insert-IdleFor k e ((j, d) ∷ m) h a =
    if_elim (All IdleFor) (str_eq j k)
      (λ q. (subst (λ i. All (PreparedFor i) e.idle) (sym ((str_eq_iff j k).0 q)) h, a.1))
      (λ _. (a.0, insert-IdleFor k e m h a.1))

-- What is handed out for a key was prepared for it.
abbrev pub OutcomeFor : Bytes → Outcome Instance → Type 0
OutcomeFor k (ok i) = PreparedFor k i
OutcomeFor k (thrown a) = Unit {0}

prepare_for-OutcomeFor :
    (id : ℕ) (sql : Bytes) (flags : ℕ) (answer : Answer)
    → OutcomeFor (generate_key sql flags) (prepare_for id sql flags answer)
unfolding prepare_for prepare_instance
prepare_for-OutcomeFor id sql flags (prepared ins outs) = record {
  sql = sql;
  same_key = refl;
  text_is = refl;
  mapping_is = refl;
}
prepare_for-OutcomeFor id sql flags _ = tt

abbrev PoppedFor : Bytes → Option Instance × List Instance → Type 0
PoppedFor k (none, rest) = All (PreparedFor k) rest
PoppedFor k (some i, rest) = PreparedFor k i × All (PreparedFor k) rest

pop_valid-PoppedFor :
    (valid : Instance → Bool) (k : Bytes) (xs : List Instance)
    → All (PreparedFor k) xs
    → PoppedFor k (pop_valid valid xs)
unfolding pop_valid
pop_valid-PoppedFor valid k [] h = tt
pop_valid-PoppedFor valid k (i ∷ is) h =
    if_elim (PoppedFor k) (valid i) (λ _. (h.0, h.1)) (λ _. pop_valid-PoppedFor valid k is h.1)

abbrev pub Handed : Bytes → Pool × Outcome Instance → Type 0
Handed k r = Matches r.0 × OutcomeFor k r.1

check_out_new-Handed :
    (p : Pool) (k : Bytes) (o : Outcome Instance)
    → Matches p
    → OutcomeFor k o
    → Handed k (check_out_new p k o)
unfolding check_out_new
check_out_new-Handed p k (ok i) m f = ((m.0, (f, m.1)), f)
check_out_new-Handed p k (thrown a) m f = (m, tt)

get_miss-Handed :
    (p : Pool) (k : Bytes) (e : CachedStatement) (o : Outcome Instance)
    → All (PreparedFor k) e.idle
    → Matches p
    → OutcomeFor k o
    → Handed k (get_miss p k e o)
unfolding get_miss add_entry
get_miss-Handed p k e (ok i) h m f = ((insert-IdleFor k e p.cache h m.0, (f, m.1)), f)
get_miss-Handed p k e (thrown a) h m f = (m, tt)

evict_back-IdleFor :
    (c : StatementCache) (o : Option Bytes)
    → All IdleFor c.cache
    → All IdleFor (evict_back c o).cache
unfolding evict_back
evict_back-IdleFor c none a = a
evict_back-IdleFor c (some k) a = All-erase IdleFor k c.cache a

pub evict_lru-IdleFor : (c : StatementCache) → All IdleFor c.cache → All IdleFor (evict_lru c).cache
unfolding evict_lru
evict_lru-IdleFor c a = evict_back-IdleFor c (back c.lru_list) a

make_room-IdleFor : (c : StatementCache) → All IdleFor c.cache → All IdleFor (make_room c).cache
unfolding make_room
make_room-IdleFor c a =
    if_elim (λ (d : StatementCache). All IdleFor d.cache) (leb c.max_size (length c.cache))
      (λ _. evict_lru-IdleFor c a) (λ _. a)

hit_core-IdleFor :
    (c : StatementCache) (k : Bytes) (e : CachedStatement) (now : ℕ) (rest : List Instance)
    → All (PreparedFor k) rest
    → All IdleFor c.cache
    → All IdleFor (hit_core c k e now rest).cache
unfolding hit_core
hit_core-IdleFor c k e now rest h a = rw ((touch_entry-same (count_hit c) k).0) (
    insert-IdleFor k (record e { idle = rest; last_used = now; use_count = e.use_count + 1 })
      c.cache h a)

get_hit-Handed :
    (p : Pool) (k : Bytes) (r : Option Instance × List Instance) (e : CachedStatement) (now : ℕ)
    (o : Outcome Instance)
    → PoppedFor k r
    → Matches p
    → OutcomeFor k o
    → Handed k (get_hit (with_core p (hit_core p.core k e now r.1)) k r.0 o)
unfolding get_hit
get_hit-Handed p k (none, rest) e now o h m f =
    check_out_new-Handed _ k o (hit_core-IdleFor p.core k e now rest h m.0, m.1) f
get_hit-Handed p k (some i, rest) e now o h m f =
    ((hit_core-IdleFor p.core k e now rest h.1 m.0, (h.0, m.1)), h.0)

get_found-Handed :
    (valid : Instance → Bool) (p : Pool) (sql : Bytes) (flags now : ℕ) (answer : Answer)
    (o : Option CachedStatement)
    → find (generate_key sql flags) p.cache ≡ o
    → Matches p
    → Handed
        (generate_key sql flags)
        (get_found valid p sql flags now answer (generate_key sql flags) o)
unfolding get_found
get_found-Handed valid p sql flags now answer (some e) f m =
    get_hit-Handed p (generate_key sql flags) (pop_valid valid e.idle) e now _
      (pop_valid-PoppedFor valid _ e.idle (All-find IdleFor _ p.cache e f m.0)) m
      (prepare_for-OutcomeFor p.next_id sql flags answer)
get_found-Handed valid p sql flags now answer none f m =
    get_miss-Handed _ (generate_key sql flags) _ _ tt
      (make_room-IdleFor (count_miss p.core) m.0, m.1)
      (prepare_for-OutcomeFor p.next_id sql flags answer)

hand_out-Handed :
    (p : Pool) (k : Bytes) (o : Outcome Instance)
    → Matches p
    → OutcomeFor k o
    → Handed k (hand_out p o)
unfolding hand_out
hand_out-Handed p k (ok i) m f = (m, f)
hand_out-Handed p k (thrown a) m f = (m, f)

pub get-Handed :
    (valid : Instance → Bool) (p : Pool) (sql : Bytes) (flags now : ℕ) (answer : Answer)
    → Matches p
    → Handed (generate_key sql flags) (get valid p sql flags now answer)
unfolding get
get-Handed valid p sql flags now answer m =
    if_elim (Handed (generate_key sql flags)) (not p.enabled)
      (λ _. hand_out-Handed p _ _ m (prepare_for-OutcomeFor p.next_id sql flags answer))
      (λ _. get_found-Handed valid p sql flags now answer _ refl m)
