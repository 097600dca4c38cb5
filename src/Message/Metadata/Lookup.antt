-- ===== src/Message/Metadata/Lookup.antt =====
-- Which field a name finds.
use fbpp.Prelude.{
  ℕ, ◌+◌, if◌then◌else◌, zero, suc, ◌≡◌, refl, sym, ◌∙◌, ap, Bool, true, false, ◌||◌, ◌&&◌, List,
  [], ◌∷◌, map, Option, none, some, get_elem?, All, ◌⊎◌, inl, inr, Bool-cases,
}
use fbpp.Prelude.Ascii.{Bytes, str_eq}
use fbpp.Prelude.Result.{ok}
use fbpp.NamedParam.Positional.{nonempty}
use fbpp.Message.{FieldInfo}
use fbpp.Message.Metadata.Loaded.{
  IsCached, after_loading, after_loading-IsCached, with_fields-loaded, with_fields-kept,
  with_fields-IsCached,
}
use fbpp.Message.Metadata.{
  Metadata, Loading, describes, ascii_upper, ascii_upper_trim, is_exact, exact_index, exact_field,
  upper_index, upper_field, next_index, or_second, get_index, get_field,
}

-- The first field that the test accepts is the one with the number `i`.
abbrev pub IsFirst : (FieldInfo → Bool) → List FieldInfo → ℕ → Type 0
IsFirst p [] i = ⊥
IsFirst p (f ∷ fs) zero = p f ≡ true
IsFirst p (f ∷ fs) (suc i) = (p f ≡ false) × IsFirst p fs i

abbrev pub IsNowhere : (FieldInfo → Bool) → List FieldInfo → Type 0
IsNowhere p fs = All (λ f. p f ≡ false) fs

-- The name or the alias in upper case is the name, trimmed and in upper case, which is not empty.
abbrev pub is_folded : Bytes → FieldInfo → Bool
is_folded name f =
    nonempty (ascii_upper_trim name)
    && (str_eq (ascii_upper f.name) (ascii_upper_trim name)
        || str_eq (ascii_upper f.alias) (ascii_upper_trim name))

-- The first exact match; with none, the first that matches but for case and blanks around the name.
abbrev pub Finds : Bytes → List FieldInfo → Option ℕ → Type 0
Finds name fs (some i) =
    IsFirst (is_exact name) fs i ⊎ (IsNowhere (is_exact name) fs × IsFirst (is_folded name) fs i)
Finds name fs none = IsNowhere (is_exact name) fs × IsNowhere (is_folded name) fs

abbrev pub Locates : (FieldInfo → Bool) → List FieldInfo → Option ℕ → Type 0
Locates p fs none = IsNowhere p fs
Locates p fs (some i) = IsFirst p fs i

next-Locates :
    (p : FieldInfo → Bool) (f : FieldInfo) (fs : List FieldInfo) (o : Option ℕ)
    → p f ≡ false
    → Locates p fs o
    → Locates p (f ∷ fs) (next_index o)
next-Locates p f fs none e h = (e, h)
next-Locates p f fs (some i) e h = (e, h)

exact_index-Locates :
    (name : Bytes) (fs : List FieldInfo) → Locates (is_exact name) fs (exact_index name fs)
unfolding exact_index
exact_index-Locates name [] = tt
exact_index-Locates name (f ∷ fs) = elim (Bool-cases (is_exact name f)) [
  | inl e ↦ rw e e
  | inr e ↦
      rw e (next-Locates (is_exact name) f fs (exact_index name fs) e (exact_index-Locates name fs))
]

folded_test :
    (name : Bytes) (f : FieldInfo)
    → nonempty (ascii_upper_trim name) ≡ true
    → is_folded name f ≡ (
        str_eq (ascii_upper f.name) (ascii_upper_trim name)
        || str_eq (ascii_upper f.alias) (ascii_upper_trim name))
folded_test name f h = rw h refl

upper_index-Locates :
    (name : Bytes) (fs : List FieldInfo)
    → nonempty (ascii_upper_trim name) ≡ true
    → Locates (is_folded name) fs (
        upper_index
          (ascii_upper_trim name)
          (map (λ (f : FieldInfo). ascii_upper f.name) fs)
          (map (λ (f : FieldInfo). ascii_upper f.alias) fs))
unfolding upper_index
upper_index-Locates name [] h = tt
upper_index-Locates name (f ∷ fs) h =
    let test : Bool =
      str_eq (ascii_upper f.name) (ascii_upper_trim name)
      || str_eq (ascii_upper f.alias) (ascii_upper_trim name) in
    elim (Bool-cases test) [
      | inl e ↦ rw e (folded_test name f h ∙ e)
      | inr e ↦ rw e (
          next-Locates (is_folded name) f fs _ (folded_test name f h ∙ e)
            (upper_index-Locates name fs h))
    ]

unusable :
    (name : Bytes) (fs : List FieldInfo)
    → nonempty (ascii_upper_trim name) ≡ false
    → IsNowhere (is_folded name) fs
unusable name [] h = tt
unusable name (f ∷ fs) h = (rw h refl, unusable name fs h)

-- The number that both passes give, over the fields as they are loaded.
abbrev pub index_in : Bytes → List FieldInfo → Option ℕ
index_in name fs = or_second (exact_index name fs) (nonempty (ascii_upper_trim name)) (
    upper_index (ascii_upper_trim name) (map (λ (f : FieldInfo). ascii_upper f.name) fs)
      (map (λ (f : FieldInfo). ascii_upper f.alias) fs))

second-Finds :
    (name : Bytes) (fs : List FieldInfo) (o : Option ℕ)
    → IsNowhere (is_exact name) fs
    → Locates (is_folded name) fs o
    → Finds name fs o
second-Finds name fs none h k = (h, k)
second-Finds name fs (some i) h k = inr (h, k)

index_in-Finds : (name : Bytes) (fs : List FieldInfo) → Finds name fs (index_in name fs)
index_in-Finds name fs = by_pass (exact_index name fs) (exact_index-Locates name fs)
  where
    by_pass :
        (o : Option ℕ)
        → Locates (is_exact name) fs o
        → Finds name fs (
            or_second o (nonempty (ascii_upper_trim name)) (
              upper_index
                (ascii_upper_trim name)
                (map (λ (f : FieldInfo). ascii_upper f.name) fs)
                (map (λ (f : FieldInfo). ascii_upper f.alias) fs)))
    by_pass (some i) h = inl h
    by_pass none h = elim (Bool-cases (nonempty (ascii_upper_trim name))) [
      | inl e ↦ rw e (second-Finds name fs _ h (upper_index-Locates name fs e))
      | inr e ↦ rw e (h, unusable name fs e)
    ]

abbrev pub at : Option ℕ → List FieldInfo → Option FieldInfo
at none fs = none
at (some i) fs = get_elem? fs i

at-next :
    (f : FieldInfo) (fs : List FieldInfo) (o : Option ℕ) → at (next_index o) (f ∷ fs) ≡ at o fs
at-next f fs none = refl
at-next f fs (some i) = refl

exact_field-at :
    (name : Bytes) (fs : List FieldInfo) → exact_field name fs ≡ at (exact_index name fs) fs
unfolding exact_field exact_index
exact_field-at name [] = refl
exact_field-at name (f ∷ fs) = elim (Bool-cases (is_exact name f)) [
  | inl e ↦ rw e refl
  | inr e ↦ rw e (exact_field-at name fs ∙ sym (at-next f fs (exact_index name fs)))
]

upper_field-at :
    (lookup : Bytes) (fs : List FieldInfo)
    → upper_field lookup fs
        (map (λ (f : FieldInfo). ascii_upper f.name) fs)
        (map (λ (f : FieldInfo). ascii_upper f.alias) fs)
      ≡ at
          (upper_index lookup
            (map (λ (f : FieldInfo). ascii_upper f.name) fs)
            (map (λ (f : FieldInfo). ascii_upper f.alias) fs))
          fs
unfolding upper_field upper_index
upper_field-at lookup [] = refl
upper_field-at lookup (f ∷ fs) =
    elim (Bool-cases (str_eq (ascii_upper f.name) lookup || str_eq (ascii_upper f.alias) lookup)) [
      | inl e ↦ rw e refl
      | inr e ↦ rw e (upper_field-at lookup fs ∙ sym (at-next f fs _))
    ]

IsFirst-get_elem? :
    (p : FieldInfo → Bool) (fs : List FieldInfo) (i : ℕ)
    → IsFirst p fs i
    → (f : FieldInfo) × (get_elem? fs i ≡ some f)
IsFirst-get_elem? p [] i h = absurd h
IsFirst-get_elem? p (f ∷ fs) zero h = (f, refl)
IsFirst-get_elem? p (f ∷ fs) (suc i) h = IsFirst-get_elem? p fs i h.1

or_second-at :
    (p : FieldInfo → Bool) (fs : List FieldInfo) (o o' : Option ℕ) (b : Bool)
    → Locates p fs o
    → or_second (at o fs) b (at o' fs) ≡ at (or_second o b o') fs
or_second-at p fs (some i) o' b h = let (f, e) = IsFirst-get_elem? p fs i h in rw e refl
or_second-at p fs none o' true h = refl
or_second-at p fs none o' false h = refl

field_in-at :
    (name : Bytes) (fs : List FieldInfo)
    → or_second (exact_field name fs) (nonempty (ascii_upper_trim name)) (
        upper_field
          (ascii_upper_trim name)
          fs
          (map (λ (f : FieldInfo). ascii_upper f.name) fs)
          (map (λ (f : FieldInfo). ascii_upper f.alias) fs))
      ≡ at (index_in name fs) fs
field_in-at name fs =
    rw (exact_field-at name fs, upper_field-at (ascii_upper_trim name) fs)
      (or_second-at (is_exact name) fs (exact_index name fs) _ _ (exact_index-Locates name fs))

-- Looking a name up in a description whose lists, if they count as loaded, are those of the engine.
-- They still are if they do behind it, also where the engine throws in the middle. Where it describes
-- its fields, it is asked for them only if they are not loaded, and then they are: whichever way it
-- would meet a further loading, looking the field up behind that does not ask it again. The number
-- that is found is that of the first field whose name or alias is the name, or with no such field, of
-- the first whose name or alias it is up to letter case and white space around the name; and the
-- field that is found is the one with that number.
pub get_index-Finds :
    (name : Bytes) (fs : List FieldInfo) (m : Metadata)
    → IsCached fs m
    → ((a : Loading) → IsCached fs (get_index m a name).0)
      × ((get_index m describes name).0.fields_loaded ≡ true)
      × ((get_index m describes name).0.asked ≡ (if m.fields_loaded then m.asked else m.asked + 1))
      × ((get_index m describes name).0 ≡ (get_field m describes name).0)
      × ((i : Option ℕ) × ((get_index m describes name).1 ≡ ok i)
          × Finds name fs i
          × ((get_field m describes name).1 ≡ ok (at i fs))
          × ((a : Loading)
              → get_field (get_index m describes name).0 a name
                ≡ ((get_index m describes name).0, ok (at i fs))))
unfolding get_index get_field
get_index-Finds name fs m c =
    let l : Metadata = after_loading fs m in
    let index : get_index m describes name ≡ (l, ok (index_in name fs)) =
      with_fields-loaded fs m _ c in
    let field : get_field m describes name ≡ (l, ok (at (index_in name fs) fs)) =
      with_fields-loaded fs m _ c ∙ ap (λ o. (l, ok o)) (field_in-at name fs) in
    let again : (a : Loading) → get_field l a name ≡ (l, ok (at (index_in name fs) fs)) = λ a.
      with_fields-kept fs l a _ (after_loading-IsCached fs m c) refl
      ∙ ap (λ o. (l, ok o)) (field_in-at name fs) in
    (
      λ a. with_fields-IsCached fs m a _ c,
      rw index refl,
      rw index refl,
      rw (index, field) refl,
      (
        index_in name fs,
        rw index refl,
        index_in-Finds name fs,
        rw field refl,
        λ a. rw index (again a),
      ),
    )
