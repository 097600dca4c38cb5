-- ===== src/Packing/Held.antt =====
-- A value in its field, and what is read there.
use fbpp.Prelude.{
  ℕ, ◌^◌, ◌≤◌, ◌<◌, ◌≡◌, refl, ◌∙◌, ap, Bool, true, false, [], some, length, ◌⊎◌, inl, inr, arith,
}
use fbpp.Prelude.Int.{ℤ, pos, neg_part, ◌≤ℤ◌}
use fbpp.Prelude.Ascii.{Bytes}
use fbpp.Prelude.Result.{ok}
use fbpp.Message.{FieldInfo}
use fbpp.Message.Wire.{get_bytes, le_bytes, from_le-le_bytes}
use fbpp.Message.Layout.{Holds, SameSlot, Holds-SameSlot}
use fbpp.Codec.{Outside, Width, bytes_of, int_bytes, exact_type, is_null}
use fbpp.Codec.Slots.{In, length-int_bytes, get_int-there}
use fbpp.Codec.Integer.{IntType}
use fbpp.Codec.Integer.Scale.{column, scaled}
use fbpp.Codec.Integer.RoundTrip.{read_integer-there}
use fbpp.Codec.Text.RoundTrip.{
  CharColumn, char_type, char_size, char_text, char_bytes, length-padded, length-prefixed,
  read_text-there,
}
use fbpp.Packing.{
  Value, integer, string, disengaged, Kind, integral, text, optional, context_of, unpack_value,
  as_integer, as_string,
}

-- A value for a field of `n` bytes, the type that it is read as, and what is read then.
pub data Passes (n : ℕ) (f : FieldInfo) : Kind → Value → Value → Type 0 where
  number :
      (T : IntType) (w : Width) (v : ℤ)
      → bytes_of w ≤ n
      → f.type.base ≡ column w
      → neg_part f.scale ≤ 18
      → In w (scaled f v)
      → (T.is_u64 ≡ true → T.low ≡ pos 0)
      → (T.low ≤ℤ v) × (v ≤ℤ T.high)
      → Passes n f (integral T) (integer v) (integer v)
  letters :
      (k : CharColumn) (s : Bytes)
      → char_size k f.length ≤ n
      → exact_type f.type ≡ char_type k
      → length s ≤ f.length
      → f.length < 2 ^ 16
      → Passes n f text (string s) (string (char_text k s))
  engaged : {k : Kind} {v v' : Value} → Passes n f k v v' → Passes n f (optional k) v v'
  missing : {k : Kind} → Passes n f (optional k) disengaged disengaged

-- The bytes of the value stand at its field, or the field is null.
abbrev pub Held :
    {n : ℕ} (f : FieldInfo) {k : Kind} {v v' : Value} → Passes n f k v v' → Bytes → Type 0
Held f (number T w v h c s i u r) m = Holds f (int_bytes w (scaled f v)) m
Held f (letters k s h t l w) m = Holds f (char_bytes k f.length s) m
Held f (engaged p) m = Held f p m
Held f missing m = get_bytes m f.null_offset 2 ≡ le_bytes 2 65535

pub length-char_bytes :
    (k : CharColumn) (n : ℕ) (s : Bytes) → length s ≤ n → length (char_bytes k n s) ≤ char_size k n
length-char_bytes CharColumn.fixed n s h = omega (arith, length-padded n s h)
length-char_bytes CharColumn.varying n s h = omega (arith, length-prefixed s, h)

pub Held-SameSlot :
    (n : ℕ) (f : FieldInfo) (m m' : Bytes) {k : Kind} {v v' : Value} (p : Passes n f k v v')
    → SameSlot n f m m'
    → Held f p m
    → Held f p m'
Held-SameSlot n f m m' (number T w v h c s i u r) same held =
    Holds-SameSlot n f (int_bytes w (scaled f v)) m m' (rw (length-int_bytes w (scaled f v)) h) same
      held
Held-SameSlot n f m m' (letters k s h t l w) same held =
    Holds-SameSlot n f (char_bytes k f.length s) m m'
      (omega (arith, length-char_bytes k f.length s l, h)) same held
Held-SameSlot n f m m' (engaged p) same held = Held-SameSlot n f m m' p same held
Held-SameSlot n f m m' missing same held = same.1 ∙ held

not_null-Holds :
    (f : FieldInfo) (bs m : Bytes) → Holds f bs m → is_null (some f.null_offset) m ≡ false
unfolding is_null
not_null-Holds f bs m (there, zeros) = rw (zeros, from_le-le_bytes 2 0 (omega arith)) refl

null-Held : (at : ℕ) (m : Bytes) → get_bytes m at 2 ≡ le_bytes 2 65535 → is_null (some at) m ≡ true
unfolding is_null
null-Held at m there = rw (there, from_le-le_bytes 2 65535 (omega arith)) refl

-- A field is null only if an optional without a value is read from it.
Held-null :
    (n : ℕ) (f : FieldInfo) (m : Bytes) {k : Kind} {v v' : Value} (p : Passes n f k v v')
    → Held f p m
    → (is_null (some f.null_offset) m ≡ false)
      ⊎ ((is_null (some f.null_offset) m ≡ true) × (v' ≡ disengaged))
Held-null n f m (number T w v h c s i u r) held = inl (not_null-Holds f _ m held)
Held-null n f m (letters k s h t l w) held = inl (not_null-Holds f _ m held)
Held-null n f m (engaged p) held = Held-null n f m p held
Held-null n f m missing held = inr (null-Held f.null_offset m held, refl)

pub unpack_value-Held :
    (E : Outside) (tx : Bool) (n : ℕ) (f : FieldInfo) (m : Bytes) {k : Kind} {v v' : Value}
    (p : Passes n f k v v')
    → Held f p m
    → unpack_value E (context_of f tx) k m ≡ ok v'
unfolding unpack_value
unpack_value-Held E tx n f m (number T w v h c s i u (l, b)) held = ap as_integer (
    read_integer-there T w (context_of f tx) f v m refl c (not_null-Holds f _ m held)
      (get_int-there w (scaled f v) (context_of f tx) m i held.0) u l b)
unpack_value-Held E tx n f m (letters k s h t l w) held =
    ap as_string
      (read_text-there E (context_of f tx) f k s [] m refl t l w (not_null-Holds f _ m held) held.0)
unpack_value-Held E tx n f m (engaged p) held =
    let inner : unpack_value E (context_of f tx) _ m ≡ ok _ = unpack_value-Held E tx n f m p held in
    elim (Held-null n f m p held) [ inl e ↦ rw e inner | inr (e, same) ↦ rw (e, same) refl ]
unpack_value-Held E tx n f m missing held = rw (null-Held f.null_offset m held) refl
