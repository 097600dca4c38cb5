-- ===== src/ParamBinder/Cleared.antt =====
-- A binder that is new or cleared has all its parameters at NULL.
use fbpp.Prelude.{
  ℕ, zero, suc, ◌+◌, ◌≤◌, ◌≡◌, refl, sym, ◌∙◌, ap, true, false, List, [], ◌∷◌, some, length,
  replicate, length-replicate, get_elem?, All, ◌⊎◌, inl, inr, arith,
}
use native.Mathlib.Decide.{ℕ_discrete}
use fbpp.Prelude.Ascii.{Bytes}
use fbpp.Message.{FieldInfo}
use fbpp.Message.Wire.{
  get_bytes, put_bytes, le_bytes, from_le-le_bytes, length-le_bytes, Apart, get_bytes-put_bytes,
  get_bytes-Apart, length-put_bytes,
}
use fbpp.Codec.{set_null, is_null}
use fbpp.ParamBinder.{Binder, init_nulls, cleared, clear}
use fbpp.Message.Layout.{Layout}

length-init_nulls : (fs : List FieldInfo) (m : Bytes) → length (init_nulls fs m) ≡ length m
unfolding init_nulls set_null
length-init_nulls [] m = refl
length-init_nulls (f ∷ fs) m =
    length-init_nulls fs (put_bytes m f.null_offset (le_bytes 2 65535))
    ∙ length-put_bytes m f.null_offset (le_bytes 2 65535)

-- A null indicator is at the place `a`, or apart from it.
abbrev ApartOrAt : ℕ → FieldInfo → Type 0
ApartOrAt a g = (g.null_offset ≡ a) ⊎ Apart a 2 g.null_offset 2

-- The indicator at the place says NULL.
abbrev NullAt : ℕ → Bytes → Type 0
NullAt a m = get_bytes m a 2 ≡ le_bytes 2 65535

put_null : (a : ℕ) (m : Bytes) → a + 2 ≤ length m → NullAt a (put_bytes m a (le_bytes 2 65535))
unfolding le_bytes
put_null a m h = get_bytes-put_bytes m a (le_bytes 2 65535) h

init_nulls-keep :
    (fs : List FieldInfo) (a : ℕ) (m : Bytes)
    → All (ApartOrAt a) fs
    → a + 2 ≤ length m
    → NullAt a m
    → NullAt a (init_nulls fs m)
unfolding init_nulls set_null
init_nulls-keep [] a m h l k = k
init_nulls-keep (f ∷ fs) a m h l k =
    init_nulls-keep fs a (put_bytes m f.null_offset (le_bytes 2 65535)) h.1
      (rw (length-put_bytes m f.null_offset (le_bytes 2 65535)) l)
      (elim h.0 [
        | inl e ↦ rw e (put_null a m l)
        | inr d ↦
            get_bytes-Apart m f.null_offset a 2 (le_bytes 2 65535) (rw (length-le_bytes 2 65535) d)
            ∙ k
      ])

init_nulls-NullAt :
    (fs : List FieldInfo) (i : ℕ) (f : FieldInfo) (m : Bytes)
    → get_elem? fs i ≡ some f
    → All (ApartOrAt f.null_offset) fs
    → f.null_offset + 2 ≤ length m
    → NullAt f.null_offset (init_nulls fs m)
unfolding init_nulls set_null
init_nulls-NullAt [] i f m e h l = absurd (cc)
init_nulls-NullAt (g ∷ fs) zero f m e h l =
    let same : g ≡ f = cc in
    let m1 : Bytes = put_bytes m g.null_offset (le_bytes 2 65535) in
    init_nulls-keep fs f.null_offset m1 h.1
      (rw (length-put_bytes m g.null_offset (le_bytes 2 65535)) l)
      (ap
          (λ (k : FieldInfo).
            get_bytes (put_bytes m k.null_offset (le_bytes 2 65535)) f.null_offset 2)
          same
        ∙ put_null f.null_offset m l)
init_nulls-NullAt (g ∷ fs) (suc i) f m e h l =
    init_nulls-NullAt fs i f (put_bytes m g.null_offset (le_bytes 2 65535)) e h.1
      (rw (length-put_bytes m g.null_offset (le_bytes 2 65535)) l)

All-get_elem? {κ} :
    (P : FieldInfo → Type κ) (fs : List FieldInfo)
    → ((j : ℕ) (g : FieldInfo) → get_elem? fs j ≡ some g → P g)
    → All P fs
All-get_elem? P [] h = tt
All-get_elem? P (f ∷ fs) h = (h 0 f refl, All-get_elem? P fs (λ j g e. h (suc j) g e))

Layout-ApartOrAt :
    (size : FieldInfo → ℕ) (fs : List FieldInfo) (n i : ℕ) (f : FieldInfo)
    → Layout size fs n
    → get_elem? fs i ≡ some f
    → All (ApartOrAt f.null_offset) fs
Layout-ApartOrAt size fs n i f layout e = All-get_elem? (ApartOrAt f.null_offset) fs (λ j g e'.
    elim (ℕ_discrete i j) [
      | yes same ↦
          let there : some f ≡ some g = sym e ∙ ap (get_elem? fs) same ∙ e' in
          let g=f : g ≡ f = cc in inl (ap (λ (k : FieldInfo). k.null_offset) g=f)
      | no d ↦ inr (layout.apart i j f g d e e').3
    ])

-- Clearing a binder for another use keeps its message as long as it was, marks every parameter as
-- not bound, and leaves each field at NULL, where the fields do not overlap.
pub clear-IsNull :
    (size : FieldInfo → ℕ) (b : Binder) (fs : List FieldInfo) (i : ℕ) (f : FieldInfo)
    → b.meta ≡ some fs
    → Layout size fs (length b.buffer)
    → get_elem? fs i ≡ some f
    → ((clear b).bound ≡ replicate (length b.bound) false)
      × (length (clear b).buffer ≡ length b.buffer)
      × (is_null (some f.null_offset) (clear b).buffer ≡ true)
unfolding clear is_null
clear-IsNull size b fs i f e layout at =
    let zeros : Bytes = replicate (length b.buffer) 0 in
    let length_zeros : length zeros ≡ length b.buffer =
      length-replicate {A = ℕ} (length b.buffer) 0 in
    let run : clear b ≡ cleared b (some fs) = ap (cleared b) e in
    let there : NullAt f.null_offset (init_nulls fs zeros) =
      init_nulls-NullAt fs i f zeros at (Layout-ApartOrAt size fs _ i f layout at)
        (rw length_zeros (layout.inside i f at).1) in
    (
      ap (λ (c : Binder). c.bound) run,
      ap (λ (c : Binder). length c.buffer) run ∙ length-init_nulls fs zeros ∙ length_zeros,
      ap (λ (c : Binder). is_null (some f.null_offset) c.buffer) run
          ∙ rw (there, from_le-le_bytes 2 65535 (omega arith)) refl,
    )
