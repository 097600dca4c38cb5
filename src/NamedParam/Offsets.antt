-- ===== src/NamedParam/Offsets.antt =====
-- The parameters of `parse` and where they stand in the text.
use fbpp.Prelude.{ℕ, zero, suc, ◌≡◌, refl, ◌||◌, true, List, [], ◌∷◌, ◌==◌, drop, All, All-append}
use fbpp.Prelude.Ascii.{Bytes}
use fbpp.NamedParam.{
  NamedParamInfo, Scan, loop, initial, parse, add_param, to_lower, ident, is_ident_start, next_ch,
}
use fbpp.NamedParam.Steps.{Moves, copy_one, copy_two, take_param, step-Moves}

-- At the offset of `p` the text has a marker and then an identifier, whose lower case is the name.
pub record StandsIn (sql : Bytes) (p : NamedParamInfo) : Type 0 where
  pub marker : ℕ
  pub rest : Bytes
  pub found : drop p.sql_offset sql ≡ marker ∷ rest
  pub is_marker : (marker == b':' || marker == b'@') ≡ true
  pub starts : is_ident_start (next_ch rest) ≡ true
  pub named : p.name ≡ to_lower (ident rest)

drop-suc {ℓ} :
    {A : Type ℓ} (i : ℕ) (xs : List A) (c : A) (cs : List A)
    → drop i xs ≡ c ∷ cs
    → drop (suc i) xs ≡ cs
drop-suc zero [] c cs h = cc
drop-suc zero (x ∷ xs) c cs h = cc
drop-suc (suc i) [] c cs h = cc
drop-suc (suc i) (x ∷ xs) c cs h = drop-suc i xs c cs h

abbrev AllStand : Bytes → Scan → Type 0
AllStand sql s = All (StandsIn sql) s.parameters

Moves-AllStand :
    {s : Scan} {i c : ℕ} {cs : Bytes} {t : Scan} {k : ℕ} (sql : Bytes)
    → Moves s i c cs t k
    → drop i sql ≡ c ∷ cs
    → AllStand sql s
    → AllStand sql t
unfolding add_param
Moves-AllStand sql (copy_one h) d v = rw h.same_parameters v
Moves-AllStand sql (copy_two h) d v = rw h.same_parameters v
Moves-AllStand {s} {i} {c} sql (take_param {cs} m n) d v =
    All-append (StandsIn sql) s.parameters _ v
      (record { marker = c; rest = cs; found = d; is_marker = m; starts = n; named = refl }, tt)

loop-AllStand :
    (sql cs : Bytes) (s : Scan) (i skip : ℕ)
    → drop i sql ≡ cs
    → AllStand sql s
    → AllStand sql (loop s i skip cs)
unfolding loop
loop-AllStand sql [] s i skip d v = v
loop-AllStand sql (c ∷ cs) s i (suc skip) d v =
    loop-AllStand sql cs s (suc i) skip (drop-suc i sql c cs d) v
loop-AllStand sql (c ∷ cs) s i zero d v =
    loop-AllStand sql cs _ (suc i) _ (drop-suc i sql c cs d)
      (Moves-AllStand sql (step-Moves s i c cs) d v)

-- For every SQL text and every parameter of its result: at the parameter's offset the text has
-- `:` or `@`, an identifier starts behind it, and the parameter's name is the longest identifier
-- there, in lower case.
pub parse-StandsIn : (sql : Bytes) → All (StandsIn sql) (parse sql).parameters
unfolding parse
parse-StandsIn sql = loop-AllStand sql sql initial 0 0 refl tt
