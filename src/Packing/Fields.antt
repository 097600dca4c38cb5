-- ===== src/Packing/Fields.antt =====
-- What a value that was packed leaves in its field and in the others.
use fbpp.Prelude.{ℕ, ◌≤◌, ◌≡◌, refl, ◌∙◌, Bool, some, length, arith}
use fbpp.Prelude.Int.{ℤ, neg_part}
use fbpp.Prelude.Ascii.{Bytes}
use fbpp.Prelude.Result.{ok}
use fbpp.Message.{FieldInfo}
use fbpp.Message.Wire.{
  put_bytes, le_bytes, get_bytes-put_bytes, get_bytes-Apart, length-put_bytes, length-le_bytes,
}
use fbpp.Message.Layout.{Inside, ApartSlots, Holds, SameSlot, Apart-shorter, Apart-sym}
use fbpp.Codec.{Outside, Width, int_bytes, exact_type, set_null, set_not_null}
use fbpp.Codec.Slots.{In, Fits, stored, get_bytes-stored, get_bytes-stored-Apart}
use fbpp.Codec.Integer.Scale.{column, scaled}
use fbpp.Codec.Integer.RoundTrip.{write_integer-In}
use fbpp.Codec.Text.RoundTrip.{CharColumn, char_type, char_bytes, write_text-char}
use fbpp.Packing.{Value, integer, string, context_of, pack_value}

-- A field has room for a value, which is these bytes there.
pub data Takes (f : FieldInfo) : Value → Bytes → Type 0 where
  whole :
      (w : Width) (v : ℤ)
      → f.type.base ≡ column w
      → neg_part f.scale ≤ 18
      → In w (scaled f v)
      → Takes f (integer v) (int_bytes w (scaled f v))
  chars :
      (k : CharColumn) (s : Bytes)
      → exact_type f.type ≡ char_type k
      → length s ≤ f.length
      → Takes f (string s) (char_bytes k f.length s)

pub pack_value-Takes :
    (E : Outside) (tx : Bool) (f : FieldInfo) {v : Value} {bs : Bytes} (m : Bytes)
    → Takes f v bs
    → pack_value E (context_of f tx) v m ≡ ok (stored (context_of f tx) bs m)
unfolding pack_value
pack_value-Takes E tx f m (whole w v c s i) = write_integer-In E w (context_of f tx) f v m refl c i
pack_value-Takes E tx f m (chars k s t h) = write_text-char E (context_of f tx) f k s m refl t h

pub length-stored :
    (f : FieldInfo) (tx : Bool) (bs m : Bytes) → length (stored (context_of f tx) bs m) ≡ length m
unfolding set_not_null
length-stored f tx bs m = length-put_bytes _ _ _ ∙ length-put_bytes m f.offset bs

pub Fits-Inside :
    (size : FieldInfo → ℕ) (f : FieldInfo) (tx : Bool) (k : ℕ) (m : Bytes)
    → Inside size (length m) f
    → k ≤ size f
    → Fits (context_of f tx) k m
Fits-Inside size f tx k m at h = record {
  data_fits = omega (arith, at.0, h);
  indicator_fits = (at.1, Apart-sym _ _ _ _ (Apart-shorter _ _ _ _ _ h (Apart-sym _ _ _ _ at.2)));
}

-- Writing one field.
pub stored-Holds :
    (size : FieldInfo → ℕ) (f : FieldInfo) (tx : Bool) (bs m : Bytes)
    → Inside size (length m) f
    → length bs ≤ size f
    → Holds f bs (stored (context_of f tx) bs m)
unfolding set_not_null le_bytes
stored-Holds size f tx bs m at h = (
  get_bytes-stored (context_of f tx) bs m (Fits-Inside size f tx (length bs) m at h),
  get_bytes-put_bytes (put_bytes m f.offset bs) f.null_offset (le_bytes 2 0)
      (rw (length-put_bytes m f.offset bs, length-le_bytes 2 0) at.1),
)

pub stored-SameSlot :
    (size : FieldInfo → ℕ) (f g : FieldInfo) (tx : Bool) (bs m : Bytes)
    → Inside size (length m) f
    → ApartSlots size g f
    → length bs ≤ size f
    → SameSlot (size g) g m (stored (context_of f tx) bs m)
stored-SameSlot size f g tx bs m at (a, b, c, d) h = (
  get_bytes-stored-Apart (context_of f tx) bs m g.offset (size g) (Apart-shorter _ _ _ _ _ h a)
      (at.1, b),
  get_bytes-stored-Apart (context_of f tx) bs m g.null_offset 2 (Apart-shorter _ _ _ _ _ h c)
      (at.1, d),
)

-- Writing NULL.
pub set_null-SameSlot :
    (size : FieldInfo → ℕ) (f g : FieldInfo) (m : Bytes)
    → ApartSlots size g f
    → SameSlot (size g) g m (set_null (some f.null_offset) m)
unfolding set_null
set_null-SameSlot size f g m (a, b, c, d) = (
  get_bytes-Apart m f.null_offset g.offset (size g) (le_bytes 2 65535)
      (rw (length-le_bytes 2 65535) b),
  get_bytes-Apart m f.null_offset g.null_offset 2 (le_bytes 2 65535)
      (rw (length-le_bytes 2 65535) d),
)
