-- ===== src/StatementCache/Tests.antt =====
-- The theorems on the cache, used on a cache of two statements with one user.
use fbpp.Prelude.{ℕ, ◌≡◌, refl, sym, none, Bool, true, List, [], ◌∷◌, Option, some}
use mathlib.Core.Path.{subst}
use fbpp.Prelude.Ascii.{Bytes, codes, isspace, toupper, isalpha, isalnum, tolower, str_eq}
use fbpp.Prelude.Dict.{find, insert}
use fbpp.Prelude.Decimal.{to_string, to_chars}
use fbpp.NamedParam.{
  parse, step_code, is_ident_start, ident, is_ident, add_param, push_position, to_lower,
  step_block_comment, step_line_comment, step_quote,
}
use fbpp.NamedParam
use fbpp.StatementCache.Key.{generate_key}
use fbpp.StatementCache.Key.Spelling.{Plain, canon, generate_key-canon}
use fbpp.Prelude.{All, map}
use fbpp.StatementCache.State.{Instance, CacheConfig, Pool}
use fbpp.StatementCache.Prepare.{prepared, start_failed, ok}
use fbpp.StatementCache.Get.{get, release}
use fbpp.StatementCache.Run.{Call, gets, releases, init, run}
use fbpp.StatementCache.Invariant.{IsValid}
use fbpp.StatementCache.Valid.{run-init-IsValid}
use fbpp.StatementCache.Exclusive.{Exclusive, HandsOut, run-HandsOut}
use fbpp.StatementCache.Matching.{PreparedFor}
use fbpp.StatementCache.Matched.{run-Handed}
use fbpp.StatementCache.Recency.{access, is_ok, Accounts, get-access}

abbrev config : CacheConfig
config = record { max_size = 2; enabled = true; ttl_minutes = 60 }

abbrev all_valid : Instance → Bool
all_valid i = true

abbrev first : Bytes
first = codes "select :a"

abbrev second : Bytes
second = codes "b"

-- Two users of one text, one of another; the first handle ends.
abbrev calls : List Call
calls =
    gets all_valid first 0 10 (prepared [] [])
    ∷ gets all_valid (codes "SELECT  :a ") 0 20 (prepared [] [])
    ∷ gets all_valid second 1 30 start_failed
    ∷ gets all_valid second 1 40 (prepared [] [])
    ∷ releases all_valid 2
    ∷ []

abbrev or_init : Option Pool → Pool
or_init none = init config
or_init (some p) = p

abbrev pool : Pool
pool = or_init (run (init config) calls)

run-calls : run (init config) calls ≡ some pool
unfolding run get release
run-calls = refl

pool-IsValid : IsValid pool.core
pool-IsValid =
    let (q, e, v) = run-init-IsValid config calls in
    let same : pool ≡ q = rw e refl in subst (λ (p : Pool). IsValid p.core) (sym same) v

run-init-IsValid_example : (q : Pool) × (run (init config) calls ≡ some q) × IsValid q.core
run-init-IsValid_example = run-init-IsValid config calls

pool_enabled : pool.enabled ≡ true
unfolding run get release find insert generate_key isspace toupper to_string
pool_enabled = refl

run-HandsOut_example :
    Exclusive pool × HandsOut pool (get all_valid pool first 0 50 (prepared [] []))
run-HandsOut_example =
    run-HandsOut config calls pool all_valid first 0 50 (prepared [] []) run-calls

get-access_example :
    ((get all_valid pool second 2 50 (prepared [] [])).0.lru_list
      ≡ access pool.max_size
          (generate_key second 2)
          (is_ok (get all_valid pool second 2 50 (prepared [] [])).1)
          pool.lru_list)
    × Accounts pool.core
        (generate_key second 2)
        (get all_valid pool second 2 50 (prepared [] [])).0.core
get-access_example =
    get-access all_valid pool second 2 50 (prepared [] []) pool-IsValid pool_enabled

-- The instance that comes back on the next `get`.
abbrev returned : Instance
returned = record {
  id = 0;
  text = codes "select ?";
  flags = 0;
  mapping = some ((codes "a", 0 ∷ []) ∷ []);
}

get-returned : (get all_valid pool first 0 50 start_failed).1 ≡ ok returned
unfolding run get release find insert generate_key isspace toupper to_string parse NamedParam.step
    step_code is_ident_start isalpha ident is_ident isalnum add_param push_position to_lower
    step_block_comment step_line_comment step_quote tolower str_eq to_chars
get-returned = refl

run-Handed_example : PreparedFor (generate_key first 0) returned × (returned.flags ≡ 0)
run-Handed_example =
    run-Handed config calls pool all_valid first 0 50 start_failed returned run-calls get-returned

same_key : generate_key first 3 ≡ generate_key (codes "SELECT  :A ") 3
unfolding generate_key isspace toupper
same_key = refl

abbrev three : ℕ
three = 3

canon_example : All Plain first
canon_example = (
  (refl, refl),
  (
    (refl, refl),
    (
      (refl, refl),
      (
        (refl, refl),
        ((refl, refl), ((refl, refl), ((refl, refl), ((refl, refl), ((refl, refl), tt))))),
      ),
    ),
  ),
)

generate_key-canon_example : generate_key (map canon first) 1 ≡ generate_key first 1
generate_key-canon_example = generate_key-canon first 1 canon_example
