-- ===== src/StatementCache/Run.antt =====
-- The calls that the program's threads make, in the order in which they take the mutex.
use fbpp.Prelude.{ℕ, Bool, false, List, [], ◌∷◌, Option, none, some, Option-cases, inl, inr}
use mathlib.Core.Option
use fbpp.Prelude.Ascii.{Bytes}
use fbpp.StatementCache.State.{Instance, CacheConfig, Pool}
use fbpp.StatementCache.Prepare.{Answer}
use fbpp.StatementCache.Get.{get, release, with_core}
use fbpp.StatementCache.Maintain.{
  clear, remove, get_statistics, set_enabled, set_max_size, set_ttl_minutes, remove_expired,
  destroy,
}

-- A `get` comes with the time and the server's answer, and with what `isValid()` says of each
-- instance at that time; so does the end of a handle.
pub data Call : Type 0 where
  gets : (Instance → Bool) → Bytes → ℕ → ℕ → Answer → Call
  releases : (Instance → Bool) → ℕ → Call
  removes : Bytes → ℕ → Call
  enables : Bool → Call
  limits expires ttls : ℕ → Call
  clears counts destroys : Call

unfoldable pub step : Pool → Call → Option Pool
step p (gets valid sql flags now answer) = some (get valid p sql flags now answer).0
step p (releases valid i) = some (release valid p i)
step p (removes sql flags) = some (with_core p (remove p.core sql flags).0)
step p (enables b) = some (with_core p (set_enabled p.core b))
step p (limits n) = Option.map (with_core p) (set_max_size p.core n)
step p (expires now) = some (with_core p (remove_expired p.core now).0)
step p (ttls n) = some (with_core p (set_ttl_minutes p.core n))
step p clears = some (with_core p (clear p.core))
step p counts = some (with_core p (get_statistics p.core).0)
step p destroys = some (with_core p (destroy p.core))

unfoldable pub run : Pool → List Call → Option Pool
unfolding step Option.bind
run p [] = some p
run p (c ∷ cs) = Option.bind (step p c) (λ q. run q cs)

-- The constructor.
abbrev pub init : CacheConfig → Pool
init config = record {
  core = record {
    config = config;
    cache = [];
    lru_list = [];
    lru_map = [];
    stats = record { cache_size = 0; hit_count = 0; miss_count = 0; eviction_count = 0 };
    closed = false;
  };
  checked_out = [];
  next_id = 0;
}

-- A property of the pool after a call, where the call ends.
abbrev pub Holds : (Pool → Type 0) → Option Pool → Type 0
Holds P none = Unit {0}
Holds P (some p) = P p

-- What every call keeps holds after any calls.
pub run-Holds :
    (P : Pool → Type 0)
    → ((p : Pool) (c : Call) → P p → Holds P (step p c))
    → (cs : List Call) (p : Pool) → P p
    → Holds P (run p cs)
unfolding run
run-Holds P keep [] p h = h
run-Holds P keep (c ∷ cs) p h = elim (Option-cases (step p c)) [
  | inl e ↦ rw e tt
  | inr (q, e) ↦ rw e (run-Holds P keep cs q (rw e at (keep p c h)))
]
