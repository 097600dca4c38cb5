-- ===== src/Schema/Analyzer/Names.antt =====
-- The names of the members of one struct are different, unless a name ends in a digit.
use fbpp.Prelude.{
  ℕ, suc, ◌+◌, ◌≤◌, ◌≡◌, ◌≢◌, refl, sym, ◌∙◌, ap, Bool, false, List, [], ◌∷◌, ◌++◌, map, Option,
  none, some, All, Bool-cases, Option-cases, ◌⊎◌, inl, inr, arith,
}
use mathlib.Core.Path.{subst}
use fbpp.Prelude.Ascii.{Bytes, codes, str_eq, str_eq_iff, str_eq_refl}
use fbpp.Prelude.Decimal.{to_string, to_chars}
use fbpp.Prelude.Dict.{Dict, find, insert, find-insert}
use fbpp.Schema.Analyzer.{
  to_camel_case, deduplicated_name, deduplicate, QueryParameterInfo, QueryAnalysis, build_inputs,
  build_outputs, analyzed, analyze, classify_query, named_by, parameter_at, or_numbered,
}
use fbpp.NamedParam.{ParseResult, parse}
use fbpp.Message.{FieldInfo}
use fbpp.Schema.Analyzer.Numbered.{
  strip_digits, strip_digits-nth_name, nth_name, nth_name-index, bare,
}

-- The counter behind a use: the name was that of this number.
abbrev Counts : Dict ℕ → Bytes → ℕ → Type 0
Counts used base k =
    ((find base used ≡ none) × (k ≡ 0)) ⊎ ((c : ℕ) × (find base used ≡ some c) × (k ≡ suc c))

deduplicated_name-nth :
    (base : Bytes) (used : Dict ℕ)
    → (k : ℕ) × (deduplicated_name base used ≡ (nth_name base k, insert base k used))
      × Counts used base k
unfolding deduplicated_name
deduplicated_name-nth base used = elim (Option-cases (find base used)) [
  | inl e ↦ (0, rw e refl, inl (e, refl))
  | inr (c, e) ↦ (
    suc c,
    rw e (ap (λ n. (base ++ to_string (c + 1 + 1), insert base n used)) (omega arith)),
    inr (c, e, refl),
  )
]

-- A name that was given out, by the counters.
record Emitted (used : Dict ℕ) (m : Bytes) : Type 0 where
  base : Bytes
  index : ℕ
  count : ℕ
  no_digit : strip_digits base ≡ base
  name_is : m ≡ nth_name base index
  counted : find base used ≡ some count
  below : index ≤ count

Emitted-new :
    (used : Dict ℕ) (base : Bytes) (k : ℕ)
    → strip_digits base ≡ base
    → Emitted (insert base k used) (nth_name base k)
Emitted-new used base k h = record {
  base = base;
  index = k;
  count = k;
  no_digit = h;
  name_is = refl;
  counted = find-insert base base k used ∙ rw (str_eq_refl base) refl;
  below = omega arith;
}

Emitted-ne :
    (used : Dict ℕ) (m base : Bytes) (k : ℕ)
    → strip_digits base ≡ base
    → Counts used base k
    → Emitted used m
    → nth_name base k ≢ m
Emitted-ne used m base k h counts e same =
    let named : nth_name base k ≡ nth_name e.base e.index = same ∙ e.name_is in
    let one_base : base ≡ e.base =
      sym (strip_digits-nth_name base k h)
      ∙ ap strip_digits named
      ∙ strip_digits-nth_name e.base e.index e.no_digit in
    let one_index : k ≡ e.index =
      nth_name-index base k e.index (named ∙ ap (λ b. nth_name b e.index) (sym one_base)) in
    let found : find base used ≡ some e.count = ap (λ b. find b used) one_base ∙ e.counted in
    elim counts [
      | inl (new, z) ↦ let clash : none ≡ some e.count = sym new ∙ found in absurd (cc)
      | inr (c, old, z) ↦
          let both : some c ≡ some e.count = sym old ∙ found in
          let one_count : c ≡ e.count = cc in absurd (omega (arith, e.below))
    ]

Emitted-kept :
    (used : Dict ℕ) (m base : Bytes) (k : ℕ)
    → Counts used base k
    → Emitted used m
    → Emitted (insert base k used) m
Emitted-kept used m base k counts e = elim (Bool-cases (str_eq base e.base)) [
  | inl same ↦
      let one_base : base ≡ e.base = (str_eq_iff base e.base).0 same in
      let found : find base used ≡ some e.count = ap (λ b. find b used) one_base ∙ e.counted in
      record {
        base = e.base;
        index = e.index;
        count = k;
        no_digit = e.no_digit;
        name_is = e.name_is;
        counted = find-insert e.base base k used ∙ rw same refl;
        below = elim counts [
          | inl (new, z) ↦ let clash : none ≡ some e.count = sym new ∙ found in absurd (cc)
          | inr (c, old, z) ↦
              let both : some c ≡ some e.count = sym old ∙ found in
              let one_count : c ≡ e.count = cc in omega (arith, e.below)
        ];
      }
  | inr other ↦ record {
    base = e.base;
    index = e.index;
    count = e.count;
    no_digit = e.no_digit;
    name_is = e.name_is;
    counted = find-insert e.base base k used ∙ rw other e.counted;
    below = e.below;
  }
]

abbrev pub NoDigitAtEnd : Bytes → Type 0
NoDigitAtEnd b = strip_digits b ≡ b

deduplicate-ne :
    (bases : List Bytes) (used : Dict ℕ) (m : Bytes)
    → All NoDigitAtEnd bases
    → Emitted used m
    → All (λ n. n ≢ m) (deduplicate used bases)
unfolding deduplicate
deduplicate-ne [] used m h e = tt
deduplicate-ne (base ∷ bases) used m h e =
    let (k, step, counts) = deduplicated_name-nth base used in
    rw step (
      Emitted-ne used m base k h.0 counts e,
      deduplicate-ne bases (insert base k used) m h.1 (Emitted-kept used m base k counts e),
    )

-- No text stands twice.
abbrev pub AllDifferent : List Bytes → Type 0
AllDifferent [] = Unit
AllDifferent (x ∷ xs) = All (λ y. y ≢ x) xs × AllDifferent xs

pub deduplicate-AllDifferent :
    (bases : List Bytes) (used : Dict ℕ)
    → All NoDigitAtEnd bases
    → AllDifferent (deduplicate used bases)
unfolding deduplicate
deduplicate-AllDifferent [] used h = tt
deduplicate-AllDifferent (base ∷ bases) used h =
    let (k, step, counts) = deduplicated_name-nth base used in
    rw step (
      deduplicate-ne bases (insert base k used) (nth_name base k) h.1 (Emitted-new used base k h.0),
      deduplicate-AllDifferent bases (insert base k used) h.1,
    )

-- The names that `build_inputs` and `build_outputs` give are those of `deduplicate`.
abbrev pub members : List QueryParameterInfo → List Bytes
members ps = map (λ (p : QueryParameterInfo). p.member_name) ps

abbrev pub bases_of : List QueryParameterInfo → List Bytes
bases_of ps = map (λ (p : QueryParameterInfo). to_camel_case p.sql_name) ps

members-build_inputs :
    (r : ParseResult) (i : ℕ) (used : Dict ℕ) (fs : List FieldInfo)
    → members (build_inputs r i used fs) ≡ deduplicate used (bases_of (build_inputs r i used fs))
unfolding build_inputs deduplicate
members-build_inputs r i used [] = refl
members-build_inputs r i used (f ∷ fs) =
    let named : Bytes × Bool = named_by r i f (parameter_at r i) in
    let member : Bytes × Dict ℕ = deduplicated_name (to_camel_case named.0) used in
    ap (λ (ns : List Bytes). member.0 ∷ ns) (members-build_inputs r (i + 1) member.1 fs)

members-build_outputs :
    (i : ℕ) (used : Dict ℕ) (fs : List FieldInfo)
    → members (build_outputs i used fs) ≡ deduplicate used (bases_of (build_outputs i used fs))
unfolding build_outputs deduplicate
members-build_outputs i used [] = refl
members-build_outputs i used (f ∷ fs) =
    let sql_name : Bytes = or_numbered (codes "FIELD_") i f.name in
    let member : Bytes × Dict ℕ = deduplicated_name (to_camel_case sql_name) used in
    ap (λ (ns : List Bytes). member.0 ∷ ns) (members-build_outputs (i + 1) member.1 fs)

analyzed-AllDifferent :
    (sql positional : Bytes) (r : ParseResult) (o : Option (List FieldInfo × List FieldInfo))
    (a : QueryAnalysis)
    → analyzed sql r positional o ≡ some a
    → All NoDigitAtEnd (bases_of a.input_params)
    → All NoDigitAtEnd (bases_of a.output_fields)
    → AllDifferent (members a.input_params) × AllDifferent (members a.output_fields)
analyzed-AllDifferent sql positional r none a e h k = absurd (cc)
analyzed-AllDifferent sql positional r (some (inputs, outputs)) a e h k =
    let built : QueryAnalysis = record {
      original_sql = sql;
      positional_sql = positional;
      kind = classify_query sql;
      has_named_parameters = r.has_named_params;
      input_params = build_inputs r 0 [] inputs;
      output_fields = build_outputs 0 [] outputs;
    } in
    let same : built ≡ a = cc in
    subst
      (λ (x : QueryAnalysis).
        All NoDigitAtEnd (bases_of x.input_params)
        → All NoDigitAtEnd (bases_of x.output_fields)
        → AllDifferent (members x.input_params) × AllDifferent (members x.output_fields))
      same
      (λ h' k'. (
        rw (members-build_inputs r 0 [] inputs) (deduplicate-AllDifferent _ [] h'),
        rw (members-build_outputs 0 [] outputs) (deduplicate-AllDifferent _ [] k'),
      ))
      h k

-- Where no base name of a member, the SQL name in camel case, ends in a digit, the members of the
-- struct of a query's inputs have different names, and so have those of its outputs.
pub analyze-AllDifferent :
    (describe : Bytes → Option (List FieldInfo × List FieldInfo)) (sql : Bytes) (a : QueryAnalysis)
    → analyze describe sql ≡ some a
    → All NoDigitAtEnd (bases_of a.input_params)
    → All NoDigitAtEnd (bases_of a.output_fields)
    → AllDifferent (members a.input_params) × AllDifferent (members a.output_fields)
unfolding analyze
analyze-AllDifferent describe sql a e h k = analyzed-AllDifferent sql _ (parse sql) _ a e h k

str_eq-numbered : (b : Bytes) → str_eq b (b ++ codes "2") ≡ false
unfolding to_string to_chars
str_eq-numbered b = elim (Bool-cases (str_eq b (b ++ codes "2"))) [
  | inl e ↦ absurd (bare b 0 ((str_eq_iff b (b ++ codes "2")).0 e))
  | inr e ↦ e
]

-- A name that occurs twice, and then the same name with the digit 2: the second and the third
-- member get the same name.
pub deduplicate-clash :
    (b : Bytes)
    → deduplicate [] (b ∷ b ∷ (b ++ codes "2") ∷ []) ≡ b ∷ (b ++ codes "2") ∷ (b ++ codes "2") ∷ []
unfolding deduplicate deduplicated_name find insert to_string to_chars
deduplicate-clash b = rw (str_eq_refl b, str_eq_refl b, str_eq-numbered b) refl
