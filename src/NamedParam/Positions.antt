-- ===== src/NamedParam/Positions.antt =====
-- Positions of the parameters, and the map from names to positions.
use fbpp.Prelude.{
  ℕ, zero, suc, ◌+◌, ◌≤◌, ◌≡◌, refl, Bool, true, false, not, List, [], ◌∷◌, ◌++◌, Option, none,
  some, if◌then◌else◌, arith, Bool-cases, inl, inr,
}
use fbpp.Prelude.Ascii.{Bytes, str_eq, str_eq_iff}
use fbpp.Prelude.Dict.{find, find-insert}
use fbpp.NamedParam.{
  NamedParamInfo, ParseResult, Scan, loop, initial, parse, add_param, push_position, to_lower,
  or_empty, ident,
}
use fbpp.NamedParam.Steps.{Moves, copy_one, copy_two, take_param, Copies, step-Moves}

abbrev pub is_empty {ℓ} : {A : Type ℓ} → List A → Bool
is_empty [] = true
is_empty (x ∷ xs) = false

-- Positions rise strictly along the list, from `lo` on, and stay below `hi`.
abbrev pub Rising : ℕ → List NamedParamInfo → ℕ → Type 0
Rising lo [] hi = lo ≤ hi
Rising lo (p ∷ ps) hi = (lo ≤ p.position) × Rising (suc p.position) ps hi

-- The positions of the parameters called `k`, in the order of the text.
unfoldable pub positions_of : Bytes → List NamedParamInfo → List ℕ
positions_of k [] = []
positions_of k (p ∷ ps) =
    if str_eq p.name k then p.position ∷ positions_of k ps else positions_of k ps

-- A name with no position is no key of the map.
abbrev pub unless_empty : List ℕ → Option (List ℕ)
unless_empty [] = none
unless_empty (p ∷ ps) = some (p ∷ ps)

pub record IsConsistent (r : ParseResult) (count : ℕ) : Type 0 where
  pub flag : r.has_named_params ≡ not (is_empty r.parameters)
  pub rising : Rising 0 r.parameters count
  pub map_is : (k : Bytes) → find k r.name_to_positions ≡ unless_empty (positions_of k r.parameters)

Rising-weaken :
    (lo : ℕ) (ps : List NamedParamInfo) (m n : ℕ) → m ≤ n → Rising lo ps m → Rising lo ps n
Rising-weaken lo [] m n h r = omega arith
Rising-weaken lo (p ∷ ps) m n h r = (r.0, Rising-weaken (suc p.position) ps m n h r.1)

Rising-concat :
    (lo : ℕ) (ps : List NamedParamInfo) (p : NamedParamInfo)
    → Rising lo ps p.position
    → Rising lo (ps ++ p ∷ []) (p.position + 1)
Rising-concat lo [] p r = (r, omega arith)
Rising-concat lo (q ∷ ps) p r = (r.0, Rising-concat (suc q.position) ps p r.1)

positions_of-concat :
    (k : Bytes) (ps : List NamedParamInfo) (p : NamedParamInfo)
    → positions_of k (ps ++ p ∷ [])
      ≡ (if str_eq p.name k then positions_of k ps ++ p.position ∷ [] else positions_of k ps)
unfolding positions_of
positions_of-concat k [] p = refl
positions_of-concat k (q ∷ ps) p = ground (arith, positions_of-concat k ps p)

is_empty-concat {ℓ} : {A : Type ℓ} (xs : List A) (x : A) → is_empty (xs ++ x ∷ []) ≡ false
is_empty-concat [] x = refl
is_empty-concat (y ∷ xs) x = refl

or_empty-unless_empty : (xs : List ℕ) → or_empty (unless_empty xs) ≡ xs
or_empty-unless_empty [] = refl
or_empty-unless_empty (x ∷ xs) = refl

unless_empty-concat : (xs : List ℕ) (x : ℕ) → unless_empty (xs ++ x ∷ []) ≡ some (xs ++ x ∷ [])
unless_empty-concat [] x = refl
unless_empty-concat (y ∷ xs) x = refl

-- The two sides of `map_is` after a push under the name `n`, with `xs` and `ys` at `k` and `n`.
pushed :
    {f g : Option (List ℕ)} (k n : Bytes) (xs ys : List ℕ) (p : ℕ)
    → f ≡ unless_empty xs
    → g ≡ unless_empty ys
    → (n ≡ k → ys ≡ xs)
    → (if str_eq n k then some (or_empty g ++ p ∷ []) else f)
      ≡ unless_empty (if str_eq n k then xs ++ p ∷ [] else xs)
pushed k n xs ys p hf hg same = elim (Bool-cases (str_eq n k)) [
  | inl e ↦
      rw (e, hg, or_empty-unless_empty ys, unless_empty-concat, same ((str_eq_iff n k).0 e)) refl
  | inr e ↦ rw e hf
]

abbrev IsScanConsistent : Scan → Type 0
IsScanConsistent s = IsConsistent s.result s.param_position

Copies-IsScanConsistent :
    {s t : Scan} {bs : Bytes} → Copies s t bs → IsScanConsistent s → IsScanConsistent t
Copies-IsScanConsistent {s} {t} c v = record {
  flag = ground arith;
  rising =
      rw c.same_parameters
        (Rising-weaken 0 s.parameters s.param_position t.param_position (ground arith) v.rising);
  map_is = λ k. rw (c.same_map, c.same_parameters) (v.map_is k);
}

add_param-IsScanConsistent :
    (s : Scan) (i : ℕ) (name : Bytes) → IsScanConsistent s → IsScanConsistent (add_param s i name)
unfolding add_param push_position
add_param-IsScanConsistent s i name v = record {
  flag = rw is_empty-concat;
  rising = Rising-concat 0 s.parameters added v.rising;
  map_is = λ k.
      rw (find-insert, positions_of-concat)
        (pushed k (to_lower name) (positions_of k s.parameters)
          (positions_of (to_lower name) s.parameters) s.param_position (v.map_is k)
          (v.map_is (to_lower name)) (λ e. rw e));
}
  where
    added : NamedParamInfo
    added = record { name = to_lower name; position = s.param_position; sql_offset = i }

Moves-IsScanConsistent :
    {s : Scan} {i c : ℕ} {cs : Bytes} {t : Scan} {k : ℕ}
    → Moves s i c cs t k
    → IsScanConsistent s
    → IsScanConsistent t
Moves-IsScanConsistent (copy_one h) v = Copies-IsScanConsistent h v
Moves-IsScanConsistent (copy_two h) v = Copies-IsScanConsistent h v
Moves-IsScanConsistent {s} {i} (take_param {cs} _ _) v = add_param-IsScanConsistent s i (ident cs) v

loop-IsScanConsistent :
    (sql : Bytes) (s : Scan) (i skip : ℕ)
    → IsScanConsistent s
    → IsScanConsistent (loop s i skip sql)
unfolding loop
loop-IsScanConsistent [] s i skip v = v
loop-IsScanConsistent (c ∷ cs) s i (suc skip) v = loop-IsScanConsistent cs s (suc i) skip v
loop-IsScanConsistent (c ∷ cs) s i zero v =
    loop-IsScanConsistent cs _ (suc i) _ (Moves-IsScanConsistent (step-Moves s i c cs) v)

-- For every SQL text: the flag says whether a parameter was found, the positions of the parameters
-- rise strictly and are below some count, and the map holds exactly the names found, each with
-- all its positions in the order of the text.
pub parse-IsConsistent : (sql : Bytes) → (count : ℕ) × IsConsistent (parse sql) count
unfolding parse
parse-IsConsistent sql = (
  (loop initial 0 0 sql).param_position,
  loop-IsScanConsistent sql initial 0 0 (record {
    flag = refl;
    rising = omega arith;
    map_is = λ k. unfold find positions_of in refl;
  }),
)
