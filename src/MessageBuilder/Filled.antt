-- ===== src/MessageBuilder/Filled.antt =====
-- `addField` for all the fields of a message.
use fbpp.Prelude.{
  ℕ, zero, suc, ◌+◌, ◌-◌, ◌*◌, ◌/◌, ◌&&◌, ◌==◌, if◌then◌else◌, ◌≤◌, ◌<◌, ◌≡◌, refl, ap, ◌∙◌, Bool,
  true, false, List, [], ◌∷◌, ◌++◌, map, append_assoc, append-nil, leb, length, set, arith,
  length-append,
}
use fbpp.Prelude.Int.{ℤ, pos, negsuc, is_zero}
use fbpp.Prelude.Ascii.{Bytes, toupper}
use fbpp.Prelude.Result.{ok, err}
use fbpp.MessageBuilder.{
  too_many_fields, Field, EngineCall, set_name, set_type, set_length, set_scale, firebird_type,
  Builder, calls_of, store_name, set_field, add_field, fresh, add_fields, leaves, issue,
}

-- What a field asks for, said without the code: the name with its small letters raised, the least odd
-- type from its own on, and a length and a scale where they are not 0.
abbrev pub raised : Bytes → Bytes
raised [] = []
raised (c ∷ cs) = (if leb 97 c && leb c 122 then c - 32 else c) ∷ raised cs

abbrev pub length_call : ℕ → ℕ → List EngineCall
length_call i zero = []
length_call i (suc n) = set_length i (suc n) ∷ []

abbrev pub scale_call : ℕ → ℤ → List EngineCall
scale_call i (pos zero) = []
scale_call i (pos (suc n)) = set_scale i (pos (suc n)) ∷ []
scale_call i (negsuc n) = set_scale i (negsuc n) ∷ []

abbrev pub request : ℕ → Field → List EngineCall
request i f =
    set_name i (raised f.name)
    ∷ set_type i (2 * (f.sql_type / 2) + 1)
    ∷ (length_call i f.length ++ scale_call i f.scale)

abbrev pub raised_names : List Field → List Bytes
raised_names [] = []
raised_names (f ∷ fs) = raised f.name ∷ raised_names fs

abbrev pub all_requests : ℕ → List Field → List EngineCall
all_requests i [] = []
all_requests i (f ∷ fs) = request i f ++ all_requests (i + 1) fs

toupper-raised : (cs : Bytes) → map toupper cs ≡ raised cs
unfolding toupper
toupper-raised [] = refl
toupper-raised (c ∷ cs) = ground (arith, toupper-raised cs)

firebird_type-odd : (n : ℕ) → firebird_type n ≡ 2 * (n / 2) + 1
unfolding firebird_type
firebird_type-odd n = ground arith

length_call-eq : (i n : ℕ) → (if n == 0 then [] else set_length i n ∷ []) ≡ length_call i n
length_call-eq i zero = refl
length_call-eq i (suc n) = ground arith

scale_call-eq : (i : ℕ) (s : ℤ) → (if is_zero s then [] else set_scale i s ∷ []) ≡ scale_call i s
scale_call-eq i (pos zero) = refl
scale_call-eq i (pos (suc n)) = ground arith
scale_call-eq i (negsuc n) = refl

calls_of-request : (i : ℕ) (f : Field) → calls_of i f ≡ request i f
calls_of-request i f =
    rw
      (
        toupper-raised f.name,
        firebird_type-odd f.sql_type,
        length_call-eq i f.length,
        scale_call-eq i f.scale,
      )
      refl

set-last : (xs : List Bytes) (x y : Bytes) → set (xs ++ (x ∷ [])) (length xs) y ≡ xs ++ (y ∷ [])
set-last [] x y = refl
set-last (z ∷ xs) x y = ap (λ (ys : List Bytes). z ∷ ys) (set-last xs x y)

one : (n : ℕ) → n + 1 - n ≡ 1
one n = omega arith

store_name-last : (xs : List Bytes) (y : Bytes) → store_name xs (length xs) y ≡ xs ++ (y ∷ [])
unfolding store_name
store_name-last xs y = rw (one (length xs)) (ground (arith, set-last xs [] y))

-- A builder of `n` fields in which `i` are set.
abbrev pub built : ℕ → ℕ → List Bytes → List EngineCall → Builder
built n i names told = record {
  has_builder = true;
  field_count = n;
  current_index = i;
  field_names = names;
  calls = told;
}

store_name-at :
    (xs : List Bytes) (i : ℕ) (y : Bytes) → length xs ≡ i → store_name xs i y ≡ xs ++ (y ∷ [])
store_name-at xs i y l = rw (← l) (store_name-last xs y)

leb-false : (n i : ℕ) → i < n → leb n i ≡ false
leb-false n i k = ground arith

length-snoc :
    (xs : List Bytes) (i : ℕ) (y : Bytes) → length xs ≡ i → length (xs ++ (y ∷ [])) ≡ i + 1
length-snoc xs i y l = rw (length-append xs (y ∷ []), l) refl

plus_0 : (i : ℕ) → i + 0 ≡ i
plus_0 i = omega arith

plus_suc : (i n : ℕ) → i + suc n ≡ i + 1 + n
plus_suc i n = omega arith

module _ (throws : EngineCall → Bool) (calm : (c : EngineCall) → leaves throws c ≡ false) where
  issue-all : (cs : List EngineCall) → issue throws cs ≡ (cs, true)
  unfolding issue
  issue-all [] = refl
  issue-all (c ∷ cs) = rw (calm c, issue-all cs) refl

  add_field-built :
      (n i : ℕ) (names : List Bytes) (told : List EngineCall) (f : Field)
      → length names ≡ i
      → i < n
      → add_field throws (built n i names told) f
        ≡ (built n (i + 1) (names ++ (raised f.name ∷ [])) (told ++ request i f), ok i)
  unfolding add_field set_field
  add_field-built n i names told f l k =
      rw
        (
          leb-false n i k,
          calls_of-request i f,
          issue-all (request i f),
          toupper-raised f.name,
          store_name-at names i (raised f.name) l,
        )
        refl

  add_fields-built :
      (fs : List Field) (n i : ℕ) (names : List Bytes) (told : List EngineCall)
      → length names ≡ i
      → i + length fs ≤ n
      → add_fields throws (built n i names told) fs ≡ (
        built n (i + length fs) (names ++ raised_names fs) (told ++ all_requests i fs),
        ok (i + length fs),
      )
  unfolding add_fields
  add_fields-built [] n i names told l k = rw (append-nil names, append-nil told, plus_0 i) refl
  add_fields-built (f ∷ fs) n i names told l k =
      rw
        (
          add_field-built n i names told f l (omega arith),
          add_fields-built fs n (i + 1) (names ++ (raised f.name ∷ [])) (told ++ request i f)
              (length-snoc names i (raised f.name) l) (omega arith),
          append_assoc names (raised f.name ∷ []) (raised_names fs),
          append_assoc told (request i f) (all_requests (i + 1) fs),
          plus_suc i (length fs),
        )
        refl

zero_plus : (i : ℕ) → 0 + i ≡ i
zero_plus i = omega arith

leb-true : (n : ℕ) → leb n n ≡ true
leb-true n = ground arith

fill_fresh :
    (throws : EngineCall → Bool)
    → ((c : EngineCall) → leaves throws c ≡ false)
    → (fs : List Field)
    → add_fields throws (fresh (length fs)) fs
      ≡ (built (length fs) (length fs) (raised_names fs) (all_requests 0 fs), ok (length fs))
fill_fresh throws calm fs =
    add_fields-built throws calm fs (length fs) 0 [] [] refl (omega arith)
    ∙ ap (λ (i : ℕ). (built (length fs) i (raised_names fs) (all_requests 0 fs), ok i))
        (zero_plus (length fs))

-- Where no call of the engine but that of a name's throws, adding as many fields as a new builder
-- has room for tells the engine of each at its own index, in order: its name with small letters
-- raised, its type with the lowest bit set, its length and its scale unless they are 0; it stores the
-- raised names in the order of the fields, and returns; one field more is refused as too many, and
-- the builder stays as it is.
pub add_fields-fresh :
    (throws : EngineCall → Bool)
    → ((c : EngineCall) → leaves throws c ≡ false)
    → (fs : List Field) (f : Field)
    → (add_fields throws (fresh (length fs)) fs
        ≡ (built (length fs) (length fs) (raised_names fs) (all_requests 0 fs), ok (length fs)))
      × (add_field throws (add_fields throws (fresh (length fs)) fs).0 f ≡ (
        built (length fs) (length fs) (raised_names fs) (all_requests 0 fs),
        err too_many_fields,
      ))
unfolding add_field
add_fields-fresh throws calm fs f =
    let filled = fill_fresh throws calm fs in (filled, rw (filled, leb-true (length fs)) refl)
