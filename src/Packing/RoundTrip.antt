-- ===== src/Packing/RoundTrip.antt =====
-- A row of values that is packed into a message and unpacked from it.
use fbpp.Prelude.{
  ℕ, zero, suc, ◌+◌, ◌≤◌, ◌≡◌, refl, ◌∙◌, ap, Bool, List, [], ◌∷◌, some, length, replicate,
  length-replicate, length-append, drop, All, ==_iff, arith,
}
use fbpp.Prelude.Ascii.{Bytes}
use fbpp.Prelude.Result.{ok, ◌>>=◌}
use fbpp.Message.{FieldInfo}
use fbpp.Message.Wire.{get_bytes, le_bytes, get_bytes-put_bytes, length-put_bytes}
use fbpp.Message.Layout.{Inside, ApartSlots, ApartRest, Holds, SameSlot}
use fbpp.Codec.{Outside, int_bytes, set_null}
use fbpp.Codec.Slots.{stored, length-int_bytes}
use fbpp.Codec.Integer.Scale.{scaled}
use fbpp.Codec.Text.RoundTrip.{char_bytes}
use fbpp.Packing.{
  Value, Kind, context_of, pack_value, pack_fields, unpack_fields, zero_front, pack, unpack,
}
use fbpp.Packing.Fields.{
  whole, chars, pack_value-Takes, length-stored, stored-Holds, stored-SameSlot, set_null-SameSlot,
}
use fbpp.Packing.Held.{
  Passes, number, letters, engaged, missing, Held, length-char_bytes, Held-SameSlot,
  unpack_value-Held,
}

-- What packing one value does.
abbrev Packed : (FieldInfo → ℕ) → (f : FieldInfo) → (Bytes → Type 0) → Bytes → Bytes → Type 0
Packed size f held m m' =
    (length m' ≡ length m)
    × held m'
    × ((g : FieldInfo) → ApartSlots size g f → SameSlot (size g) g m m')

stored-Packed :
    (tx : Bool) (size : FieldInfo → ℕ) (f : FieldInfo) (bs m : Bytes)
    → Inside size (length m) f
    → length bs ≤ size f
    → Packed size f (Holds f bs) m (stored (context_of f tx) bs m)
stored-Packed tx size f bs m at h = (
  length-stored f tx bs m,
  stored-Holds size f tx bs m at h,
  λ g a. stored-SameSlot size f g tx bs m at a h,
)

put_null :
    (m : Bytes) (at : ℕ)
    → at + 2 ≤ length m
    → get_bytes (set_null (some at) m) at 2 ≡ le_bytes 2 65535
unfolding set_null le_bytes
put_null m at h = get_bytes-put_bytes m at (le_bytes 2 65535) h

pack_value-Packed :
    (E : Outside) (tx : Bool) (size : FieldInfo → ℕ) (f : FieldInfo) (m : Bytes) {k : Kind}
    {v v' : Value} (p : Passes (size f) f k v v')
    → Inside size (length m) f
    → (m' : Bytes) × (pack_value E (context_of f tx) v m ≡ ok m') × Packed size f (Held f p) m m'
unfolding pack_value
pack_value-Packed E tx size f m (number T w v h c s i u r) at = (
  stored (context_of f tx) (int_bytes w (scaled f v)) m,
  pack_value-Takes E tx f m (whole w v c s i),
  stored-Packed tx size f (int_bytes w (scaled f v)) m at (rw (length-int_bytes w (scaled f v)) h),
)
pack_value-Packed E tx size f m (letters k s h t l w) at = (
  stored (context_of f tx) (char_bytes k f.length s) m,
  pack_value-Takes E tx f m (chars k s t l),
  stored-Packed tx size f (char_bytes k f.length s) m at
      (omega (arith, length-char_bytes k f.length s l, h)),
)
pack_value-Packed E tx size f m (engaged p) at = pack_value-Packed E tx size f m p at
pack_value-Packed E tx size f m missing at = (
  set_null (some f.null_offset) m,
  refl,
  (
    unfold set_null in length-put_bytes m f.null_offset (le_bytes 2 65535),
    put_null m f.null_offset at.1,
    λ g a. set_null-SameSlot size f g m a,
  ),
)

-- The values of a row for its fields, the types of the elements, and what is read of them.
pub data Row (size : FieldInfo → ℕ)
    : List FieldInfo → List Kind → List Value → List Value → Type 0 where
  finish : Row size [] [] [] []
  element :
      {f : FieldInfo} {k : Kind} {v v' : Value} {fs : List FieldInfo} {ks : List Kind}
      {vs vs' : List Value}
      → Passes (size f) f k v v'
      → Row size fs ks vs vs'
      → Row size (f ∷ fs) (k ∷ ks) (v ∷ vs) (v' ∷ vs')

abbrev RowHeld :
    {size : FieldInfo → ℕ} {fs : List FieldInfo} {ks : List Kind} {vs vs' : List Value}
    → Row size fs ks vs vs'
    → Bytes
    → Type 0
RowHeld finish m = Unit {0}
RowHeld (element {f = f} p r) m = Held f p m × RowHeld r m

pack_fields-RowHeld :
    (E : Outside) (tx : Bool) (size : FieldInfo → ℕ) (n : ℕ) (m : Bytes) {fs : List FieldInfo}
    {ks : List Kind} {vs vs' : List Value} (r : Row size fs ks vs vs')
    → length m ≡ n
    → All (Inside size n) fs
    → ApartRest size fs
    → (m' : Bytes) × (pack_fields E tx fs vs m ≡ ok m')
      × (length m' ≡ n)
      × RowHeld r m'
      × ((g : FieldInfo) → All (ApartSlots size g) fs → SameSlot (size g) g m m')
unfolding pack_fields
pack_fields-RowHeld E tx size n m finish l inside rest = (m, refl, l, tt, λ g a. (refl, refl))
pack_fields-RowHeld E tx size n m (element {f = f} {fs = fs} {vs = vs} p r) l inside rest =
    let (m1, run, (same_length, held, kept)) = pack_value-Packed E tx size f m p (rw l inside.0) in
    let (m2, runs, length_m2, rest_held, rest_kept) =
      pack_fields-RowHeld E tx size n m1 r (same_length ∙ l) inside.1 rest.1 in
    (
      m2,
      ap (λ z. z >>= λ m'. pack_fields E tx fs vs m') run ∙ runs,
      length_m2,
      (Held-SameSlot (size f) f m1 m2 p (rest_kept f rest.0) held, rest_held),
      λ g a.
          let first : SameSlot (size g) g m m1 = kept g a.0 in
          let second : SameSlot (size g) g m1 m2 = rest_kept g a.1 in
          (second.0 ∙ first.0, second.1 ∙ first.1),
    )

unpack_fields-RowHeld :
    (E : Outside) (tx : Bool) (size : FieldInfo → ℕ) (m : Bytes) {fs : List FieldInfo}
    {ks : List Kind} {vs vs' : List Value} (r : Row size fs ks vs vs')
    → RowHeld r m
    → unpack_fields E tx fs ks m ≡ ok vs'
unfolding unpack_fields
unpack_fields-RowHeld E tx size m finish held = refl
unpack_fields-RowHeld E tx size m (element {f = f} p r) held =
    rw (unpack_value-Held E tx (size f) f m p held.0, unpack_fields-RowHeld E tx size m r held.1)
      refl

Row-length :
    {size : FieldInfo → ℕ} {fs : List FieldInfo} {ks : List Kind} {vs vs' : List Value}
    → Row size fs ks vs vs'
    → (length vs ≡ length fs) × (length fs ≡ length ks)
Row-length finish = (refl, refl)
Row-length (element p r) = let rest : _ × _ = Row-length r in (ap suc rest.0, ap suc rest.1)

drop-past : (n : ℕ) (l : Bytes) → length l ≤ n → drop n l ≡ []
drop-past zero [] h = refl
drop-past zero (x ∷ l) h = absurd (omega arith)
drop-past (suc n) [] h = refl
drop-past (suc n) (x ∷ l) h = drop-past n l (omega arith)

length-zero_front : (n : ℕ) (buffer : Bytes) → length buffer ≡ n → length (zero_front n buffer) ≡ n
unfolding zero_front
length-zero_front n buffer l =
    rw
      (
        drop-past n buffer (omega arith),
        length-append {A = ℕ} (replicate n 0) [],
        length-replicate {A = ℕ} n 0,
      )
      (omega arith)

-- Values that fit the fields of a message of `n` bytes, where no two fields overlap.
pub record RowFits (size : FieldInfo → ℕ) (fs : List FieldInfo) (n : ℕ) (ks : List Kind)
    (vs vs' : List Value) : Type 0 where
  pub inside : All (Inside size n) fs
  pub apart : ApartRest size fs
  pub row : Row size fs ks vs vs'

-- Values that fit the fields of a message, integers in integer columns, strings in CHAR and VARCHAR
-- columns and optionals of them, where no two fields overlap: they are packed, and unpacking the
-- message gives each value as it was, a string of a CHAR column without the blanks at its end.
pub unpack-pack :
    (E E' : Outside) (tx tx' : Bool) (size : FieldInfo → ℕ) (fs : List FieldInfo) (n : ℕ)
    (buffer : Bytes) (ks : List Kind) (vs vs' : List Value)
    → length buffer ≡ n
    → RowFits size fs n ks vs vs'
    → (m' : Bytes) × (pack E tx (some (fs, n)) vs (some buffer) ≡ ok m')
      × (length m' ≡ n)
      × (unpack E' tx' (some fs) ks (some m') ≡ ok vs')
unfolding pack unpack
unpack-pack E E' tx tx' size fs n buffer ks vs vs' l fits =
    let (m', run, length_m', held, kept) =
      pack_fields-RowHeld E tx size n (zero_front n buffer) fits.row (length-zero_front n buffer l)
        fits.inside fits.apart in
    let back : unpack_fields E' tx' fs ks m' ≡ ok vs' =
      unpack_fields-RowHeld E' tx' size m' fits.row held in
    let arity : (length vs ≡ length fs) × (length fs ≡ length ks) = Row-length fits.row in
    (
      m',
      rw ((==_iff (length vs) (length fs)).1 arity.0, run) refl,
      length_m',
      rw ((==_iff (length fs) (length ks)).1 arity.1, back) refl,
    )
