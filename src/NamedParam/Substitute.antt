-- ===== src/NamedParam/Substitute.antt =====
-- The converted text of `parse` against the parameters that it lists.
use mathlib.Core.List.{append-nil, append_assoc}
use fbpp.Prelude.{
  ℕ, zero, suc, ◌+◌, ◌≤◌, ◌≡◌, refl, sym, ap, List, [], ◌∷◌, ◌++◌, ◌==◌, if◌then◌else◌, length, All,
  arith,
}
use fbpp.Prelude.Ascii.{Bytes}
use fbpp.NamedParam.{NamedParamInfo, Scan, step, loop, initial, parse, add_param, to_lower, ident}
use fbpp.NamedParam.Steps.{Moves, copy_one, copy_two, take_param, step-Moves}

-- The text from offset `i` on, with `?` for the marker and the name of each listed parameter; the
-- next `skip` bytes belong to a parameter that has been replaced.
unfoldable pub substitute : List NamedParamInfo → ℕ → ℕ → Bytes → Bytes
substitute ps i skip [] = []
substitute ps i (suc skip) (c ∷ cs) = substitute ps (suc i) skip cs
substitute [] i zero (c ∷ cs) = c ∷ substitute [] (suc i) zero cs
substitute (p ∷ ps) i zero (c ∷ cs) =
    if i == p.sql_offset
    then b'?' ∷ substitute ps (suc i) (length p.name) cs
    else c ∷ substitute (p ∷ ps) (suc i) zero cs

abbrev From : ℕ → List NamedParamInfo → Type 0
From i = All (λ p. i ≤ p.sql_offset)

From-weaken : (i j : ℕ) (ps : List NamedParamInfo) → i ≤ j → From j ps → From i ps
From-weaken i j [] h f = tt
From-weaken i j (p ∷ ps) h f = (omega arith, From-weaken i j ps h f.1)

substitute_past :
    (ps : List NamedParamInfo) (i c : ℕ) (cs : Bytes)
    → From (suc i) ps
    → substitute ps i 0 (c ∷ cs) ≡ c ∷ substitute ps (suc i) 0 cs
unfolding substitute
substitute_past [] i c cs f = refl
substitute_past (p ∷ ps) i c cs f = ground arith

substitute_here :
    (p : NamedParamInfo) (ps : List NamedParamInfo) (c : ℕ) (cs : Bytes)
    → substitute (p ∷ ps) p.sql_offset 0 (c ∷ cs)
      ≡ b'?' ∷ substitute ps (suc p.sql_offset) (length p.name) cs
unfolding substitute
substitute_here p ps c cs = ground arith

-- What the rest of the scan adds: parameters behind `i`, and their substitution into the text.
record Extends (s t : Scan) (i skip : ℕ) (cs : Bytes) : Type 0 where
  added : List NamedParamInfo
  parameters_are : t.parameters ≡ s.parameters ++ added
  ahead : From (i + skip) added
  converted_is : t.converted_sql ≡ s.converted_sql ++ substitute added i skip cs

length-to_lower : (bs : Bytes) → length (to_lower bs) ≡ length bs
unfolding to_lower
length-to_lower [] = refl
length-to_lower (b ∷ bs) = ap suc (length-to_lower bs)

Moves-Extends :
    {s : Scan} {i c : ℕ} {cs : Bytes} {t u : Scan} {k : ℕ}
    → Moves s i c cs t k
    → Extends t u (suc i) k cs
    → Extends s u i 0 (c ∷ cs)
unfolding add_param
Moves-Extends {i = i} (copy_one {cs} h) e = record {
  added = e.added;
  parameters_are = rw (← h.same_parameters) e.parameters_are;
  ahead = From-weaken _ _ e.added (omega arith) e.ahead;
  converted_is =
      rw
        (
          substitute_past e.added i _ cs (From-weaken _ _ e.added (omega arith) e.ahead),
          e.converted_is,
          h.converted,
        )
        (simp append_assoc);
}
Moves-Extends {i = i} (copy_two {d} {ds} h) e = record {
  added = e.added;
  parameters_are = rw (← h.same_parameters) e.parameters_are;
  ahead = From-weaken _ _ e.added (omega arith) e.ahead;
  converted_is =
      rw
        (
          substitute_past e.added i _ (d ∷ ds) (From-weaken _ _ e.added (omega arith) e.ahead),
          substitute_past e.added (suc i) d ds (From-weaken _ _ e.added (omega arith) e.ahead),
          e.converted_is,
          h.converted,
        )
        (unfold substitute in simp append_assoc);
}
Moves-Extends {s} {i} (take_param {cs} _ _) e = record {
  added =
      (record { name = to_lower (ident cs); position = s.param_position; sql_offset = i })
      ∷ e.added;
  parameters_are = rw e.parameters_are (simp append_assoc);
  ahead = (omega arith, From-weaken _ _ e.added (omega arith) e.ahead);
  converted_is =
      rw (e.converted_is, substitute_here, length-to_lower (ident cs)) (simp append_assoc);
}

loop-Extends : (sql : Bytes) (s : Scan) (i skip : ℕ) → Extends s (loop s i skip sql) i skip sql
unfolding loop substitute
loop-Extends [] s i skip = record {
  added = [];
  parameters_are = simp append-nil;
  ahead = tt;
  converted_is = simp append-nil;
}
loop-Extends (c ∷ cs) s i (suc skip) =
    let e = loop-Extends cs s (suc i) skip in
    record {
      added = e.added;
      parameters_are = e.parameters_are;
      ahead = From-weaken _ _ e.added (omega arith) e.ahead;
      converted_is = e.converted_is;
    }
loop-Extends (c ∷ cs) s i zero =
    Moves-Extends (step-Moves s i c cs)
      (loop-Extends cs (step s i c cs).0 (suc i) (step s i c cs).1)

-- The converted text is the input with `?` in place of each listed parameter, taken from its
-- offset over its marker and its name; every other character is kept, in its place.
pub converted-eq-substitute :
    (sql : Bytes) → (parse sql).converted_sql ≡ substitute (parse sql).parameters 0 0 sql
unfolding parse
converted-eq-substitute sql =
    let e = loop-Extends sql initial 0 0 in
    rw (e.converted_is) (ap (λ ps. substitute ps 0 0 sql) (sym e.parameters_are))

substitute-nil : (i : ℕ) (sql : Bytes) → substitute [] i 0 sql ≡ sql
unfolding substitute
substitute-nil i [] = refl
substitute-nil i (c ∷ cs) = ap (◌∷◌ c) (substitute-nil (suc i) cs)

-- With no parameter the text is unchanged.
pub converted-eq_self :
    (sql : Bytes) → (parse sql).parameters ≡ [] → (parse sql).converted_sql ≡ sql
converted-eq_self sql h = rw (converted-eq-substitute, h) (substitute-nil 0 sql)
