-- ===== src/Message/Layout.antt =====
-- Messages in which no two fields overlap, and what a field holds.
use fbpp.Prelude.{
  ℕ, zero, suc, ◌+◌, ◌≤◌, ◌≡◌, ◌≢◌, refl, sym, ◌∙◌, ap, List, [], ◌∷◌, some, length, take, drop,
  get_elem?, All, inl, inr, arith,
}
use fbpp.Prelude.Ascii.{Bytes}
use fbpp.Message.{FieldInfo}
use fbpp.Message.Wire.{get_bytes, le_bytes, Apart}

-- A field of `size f` bytes with its null indicator is within `n` bytes.
abbrev pub Inside : (FieldInfo → ℕ) → ℕ → FieldInfo → Type 0
Inside size n f =
    (f.offset + size f ≤ n) × (f.null_offset + 2 ≤ n) × Apart f.offset (size f) f.null_offset 2

-- Two fields do not overlap.
abbrev pub ApartSlots : (FieldInfo → ℕ) → FieldInfo → FieldInfo → Type 0
ApartSlots size f g =
    Apart f.offset (size f) g.offset (size g)
    × Apart f.offset (size f) g.null_offset 2
    × Apart f.null_offset 2 g.offset (size g)
    × Apart f.null_offset 2 g.null_offset 2

-- Fields that take `size f` bytes each, in a message of `n` bytes.
pub record Layout (size : FieldInfo → ℕ) (fs : List FieldInfo) (n : ℕ) : Type 0 where
  pub inside : (i : ℕ) (f : FieldInfo) → get_elem? fs i ≡ some f → Inside size n f
  pub apart :
      (i j : ℕ) (f g : FieldInfo)
      → i ≢ j
      → get_elem? fs i ≡ some f
      → get_elem? fs j ≡ some g
      → ApartSlots size f g

-- A field overlaps none of those behind it.
abbrev pub ApartRest : (FieldInfo → ℕ) → List FieldInfo → Type 0
ApartRest size [] = Unit
ApartRest size (f ∷ fs) = All (ApartSlots size f) fs × ApartRest size fs

-- The bytes stand at the field, and it is not null.
abbrev pub Holds : FieldInfo → Bytes → Bytes → Type 0
Holds f bs m =
    (get_bytes m f.offset (length bs) ≡ bs) × (get_bytes m f.null_offset 2 ≡ le_bytes 2 0)

-- The field and its null indicator are in both messages the same.
abbrev pub SameSlot : ℕ → FieldInfo → Bytes → Bytes → Type 0
SameSlot size f m m' =
    (get_bytes m' f.offset size ≡ get_bytes m f.offset size)
    × (get_bytes m' f.null_offset 2 ≡ get_bytes m f.null_offset 2)

pub Apart-shorter : (q n p k k' : ℕ) → k' ≤ k → Apart q n p k → Apart q n p k'
Apart-shorter q n p k k' h (inl a) = inl a
Apart-shorter q n p k k' h (inr a) = inr (omega arith)

pub Apart-sym : (q n p k : ℕ) → Apart q n p k → Apart p k q n
Apart-sym q n p k (inl a) = inr a
Apart-sym q n p k (inr a) = inl a

pub ApartSlots-sym :
    (size : FieldInfo → ℕ) (f g : FieldInfo) → ApartSlots size f g → ApartSlots size g f
ApartSlots-sym size f g (a, b, c, d) =
    (Apart-sym _ _ _ _ a, Apart-sym _ _ _ _ c, Apart-sym _ _ _ _ b, Apart-sym _ _ _ _ d)

All-get_elem? :
    (P : FieldInfo → Type 0) (fs : List FieldInfo) (i : ℕ) (f : FieldInfo)
    → All P fs
    → get_elem? fs i ≡ some f
    → P f
All-get_elem? P [] i f h e = absurd (cc)
All-get_elem? P (g ∷ fs) zero f h e = let same : g ≡ f = cc in rw (← same) h.0
All-get_elem? P (g ∷ fs) (suc i) f h e = All-get_elem? P fs i f h.1 e

ApartRest-apart :
    (size : FieldInfo → ℕ) (fs : List FieldInfo) (i j : ℕ) (f g : FieldInfo)
    → ApartRest size fs
    → i ≢ j
    → get_elem? fs i ≡ some f
    → get_elem? fs j ≡ some g
    → ApartSlots size f g
ApartRest-apart size [] i j f g h d e e' = absurd (cc)
ApartRest-apart size (x ∷ fs) zero zero f g h d e e' = absurd (d refl)
ApartRest-apart size (x ∷ fs) zero (suc j) f g h d e e' =
    let same : x ≡ f = cc in rw (← same) (All-get_elem? (ApartSlots size x) fs j g h.0 e')
ApartRest-apart size (x ∷ fs) (suc i) zero f g h d e e' =
    let same : x ≡ g = cc in
    rw (← same) (ApartSlots-sym size x f (All-get_elem? (ApartSlots size x) fs i f h.0 e))
ApartRest-apart size (x ∷ fs) (suc i) (suc j) f g h d e e' =
    ApartRest-apart size fs i j f g h.1 (λ r. d (ap suc r)) e e'

-- A description whose fields follow one another has this layout.
pub Layout-ApartRest :
    (size : FieldInfo → ℕ) (fs : List FieldInfo) (n : ℕ)
    → All (Inside size n) fs
    → ApartRest size fs
    → Layout size fs n
Layout-ApartRest size fs n inside rest = record {
  inside = λ i f e. All-get_elem? _ fs i f inside e;
  apart = λ i j f g d e e'. ApartRest-apart size fs i j f g rest d e e';
}

take-take : (k n : ℕ) (l : Bytes) → k ≤ n → take k (take n l) ≡ take k l
take-take zero n l h = refl
take-take (suc k) zero l h = absurd (omega arith)
take-take (suc k) (suc n) [] h = refl
take-take (suc k) (suc n) (x ∷ l) h = ap (λ (ys : Bytes). x ∷ ys) (take-take k n l (omega arith))

pub get_bytes-shorter :
    (m m' : Bytes) (at k n : ℕ)
    → k ≤ n
    → get_bytes m' at n ≡ get_bytes m at n
    → get_bytes m' at k ≡ get_bytes m at k
unfolding get_bytes
get_bytes-shorter m m' at k n h e =
    sym (take-take k n (drop at m') h) ∙ ap (take k) e ∙ take-take k n (drop at m) h

pub Holds-SameSlot :
    (size : ℕ) (f : FieldInfo) (bs m m' : Bytes)
    → length bs ≤ size
    → SameSlot size f m m'
    → Holds f bs m
    → Holds f bs m'
Holds-SameSlot size f bs m m' h same held =
    (get_bytes-shorter m m' f.offset (length bs) size h same.0 ∙ held.0, same.1 ∙ held.1)
