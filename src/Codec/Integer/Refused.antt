-- ===== src/Codec/Integer/Refused.antt =====
-- Integers that a column has no room for.
use fbpp.Prelude.{
  ℕ, suc, ◌-◌, ◌*◌, ◌/◌, ◌^◌, ◌≤◌, ◌<◌, ◌≡◌, refl, ◌∙◌, ap, true, false, not, ◌||◌, some, ltb,
  if◌then◌else◌, arith, ◌⊎◌, inl, inr, Bool-cases,
}
use native.Mathlib.Nat.{le-div_iff_mul-le}
use fbpp.Prelude.Int.{ℤ, pos, negsuc, pos_part, neg_part, is_neg, scale_by}
use fbpp.Prelude.Ascii.{Bytes}
use fbpp.Prelude.Result.{Result, ok, err}
use fbpp.Message.{SqlType, FieldInfo}
use fbpp.Message.Wire.{to_signed}
use fbpp.Codec.{
  Fault, scaled_out_of_range, out_of_range, negative_into_unsigned, Outside, Context, is_null,
  Width, lowest, highest, leb_int, checked_narrow, scale_up_checked, int_bytes, get_int,
  finish_write, normalize_sql_type,
}
use fbpp.Codec.Slots.{In, Fits, stored, is_null-stored, get_int-stored}
use fbpp.Codec.Integer.Scale.{
  pow10_pos, scale_up_checked-In, column, scaled, scale_by-one, scaled-whole, overflows,
}
use fbpp.Codec.Integer.RoundTrip.{write_field-In, read_field-stored}
use fbpp.Codec.Integer.{
  IntType, numeric_value, write_scaled, write_plain, write_field, write_integer, into_target,
  read_field, read_integer, narrowed,
}

within :
    (w : Width) (z : ℤ)
    → (not (leb_int (lowest w) z) || not (leb_int z (highest w))) ≡ false
    → In w z
within Width.bits16 z h = ground arith
within Width.bits32 z h = ground arith
within Width.bits64 z h = ground arith

checked_narrow-cases :
    (w : Width) (z : ℤ) → In w z ⊎ (checked_narrow (lowest w) (highest w) z ≡ err out_of_range)
unfolding checked_narrow
checked_narrow-cases w z =
    elim (Bool-cases (not (leb_int (lowest w) z) || not (leb_int z (highest w)))) [
      | inl e ↦ inr (rw e refl)
      | inr e ↦ inl (within w z e)
    ]

In-scaled : (v : ℤ) (f : ℕ) → 0 < f → overflows v f ≡ false → In Width.bits64 (scale_by v f)
In-scaled (pos n) f p h =
    let bound : n ≤ (2 ^ 63 - 1) / f = ground arith in
    let product : n * f ≤ 2 ^ 63 - 1 = (le-div_iff_mul-le p).0 bound in omega arith
In-scaled (negsuc n) f p h =
    let bound : suc n ≤ 2 ^ 63 / f = ground arith in
    let product : suc n * f ≤ 2 ^ 63 = (le-div_iff_mul-le p).0 bound in ground arith

unscaled-one : (v : ℤ) (f : ℕ) → 0 < f → ltb 1 f ≡ false → scale_by v f ≡ v
unscaled-one v f p h = let one : f ≡ 1 = ground arith in rw one (scale_by-one v)

scale_up_checked-cases :
    (v : ℤ) (s : ℕ)
    → In Width.bits64 v
    → In Width.bits64 (scale_by v (10 ^ s)) ⊎ (scale_up_checked v s ≡ err scaled_out_of_range)
unfolding scale_up_checked
scale_up_checked-cases v s i =
    let p : 0 < 10 ^ s = pow10_pos s in
    elim (Bool-cases (ltb 1 (10 ^ s))) [
      | inr small ↦ inl (rw (unscaled-one v (10 ^ s) p small) i)
      | inl large ↦ elim (Bool-cases (overflows v (10 ^ s))) [
        | inl e ↦ inr (rw (large, e) refl)
        | inr e ↦ inl (In-scaled v (10 ^ s) p e)
      ]
    ]

abbrev pub OutOfRange : Result Fault Bytes → Type 0
OutOfRange r = (r ≡ err scaled_out_of_range) ⊎ (r ≡ err out_of_range)

narrowed-OutOfRange :
    (ctx : Context) (w : Width) (z : ℤ) (m : Bytes)
    → ¬ In w z
    → OutOfRange (finish_write ctx m (narrowed w z))
narrowed-OutOfRange ctx w z m out = elim (checked_narrow-cases w z) [
  | inl i ↦ absurd (out i)
  | inr e ↦ inr (rw e refl)
]

write_scaled-OutOfRange :
    (E : Outside) (ctx : Context) (w : Width) (s : ℕ) (v : ℤ) (m : Bytes)
    → In Width.bits64 v
    → ¬ In w (scale_by v (10 ^ s))
    → OutOfRange (write_scaled E ctx (column w) s v m)
unfolding write_scaled
write_scaled-OutOfRange E ctx Width.bits16 s v m i out = elim (scale_up_checked-cases v s i) [
  | inl k ↦ rw (scale_up_checked-In v s k) (narrowed-OutOfRange ctx Width.bits16 _ m out)
  | inr e ↦ inl (rw e refl)
]
write_scaled-OutOfRange E ctx Width.bits32 s v m i out = elim (scale_up_checked-cases v s i) [
  | inl k ↦ rw (scale_up_checked-In v s k) (narrowed-OutOfRange ctx Width.bits32 _ m out)
  | inr e ↦ inl (rw e refl)
]
write_scaled-OutOfRange E ctx Width.bits64 s v m i out = elim (scale_up_checked-cases v s i) [
  | inl k ↦ absurd (out k)
  | inr e ↦ inl (rw e refl)
]

write_plain-OutOfRange :
    (E : Outside) (ctx : Context) (w : Width) (v : ℤ) (m : Bytes)
    → In Width.bits64 v
    → ¬ In w v
    → OutOfRange (write_plain E ctx (column w) v m)
unfolding write_plain
write_plain-OutOfRange E ctx Width.bits16 v m i out = narrowed-OutOfRange ctx Width.bits16 v m out
write_plain-OutOfRange E ctx Width.bits32 v m i out = narrowed-OutOfRange ctx Width.bits32 v m out
write_plain-OutOfRange E ctx Width.bits64 v m i out = absurd (out i)

write_field-OutOfRange :
    (E : Outside) (ctx : Context) (w : Width) (f : FieldInfo) (v : ℤ) (m : Bytes)
    → f.type.base ≡ column w
    → In Width.bits64 v
    → ¬ In w (scaled f v)
    → OutOfRange (write_field E ctx (some f) v m)
unfolding write_field normalize_sql_type
write_field-OutOfRange E ctx w f v m c i out = elim (Bool-cases (is_neg f.scale)) [
  | inl e ↦ rw (e, c) (write_scaled-OutOfRange E ctx w (neg_part f.scale) v m i out)
  | inr e ↦ rw (e, c) (write_plain-OutOfRange E ctx w v m i (rw (scaled-whole f v e) at out))
]

-- The integers of C++ of at most 64 bits, and the one that the code takes for each: from 2^63 on, a
-- `uint64_t` is taken for the value less 2^64.
abbrev pub IsInteger : ℤ → Type 0
IsInteger v = (neg_part v ≤ 2 ^ 63) × (pos_part v < 2 ^ 64)

abbrev pub taken : ℤ → ℤ
taken (pos n) = if ltb n (2 ^ 63) then pos n else negsuc (2 ^ 64 - 1 - n)
taken (negsuc n) = negsuc n

numeric_value-taken : (v : ℤ) → IsInteger v → numeric_value v ≡ taken v
unfolding numeric_value to_signed
numeric_value-taken (pos n) h = ground arith
numeric_value-taken (negsuc n) h = ground arith

taken-In : (v : ℤ) → IsInteger v → In Width.bits64 (taken v)
taken-In (pos n) h = ground arith
taken-In (negsuc n) h = ground arith

-- Integers of at most 64 bits, of which a `uint64_t` from 2^63 on is taken for its value less 2^64: if
-- the integer so taken, with its scale, does not fit a SMALLINT, INTEGER or BIGINT column of up to 18
-- decimal places, it is refused as out of range, also where the scaling itself would overflow.
pub write_integer-OutOfRange :
    (E : Outside) (w : Width) (ctx : Context) (f : FieldInfo) (v : ℤ) (m : Bytes)
    → ctx.field ≡ some f
    → f.type.base ≡ column w
    → neg_part f.scale ≤ 18
    → IsInteger v
    → ¬ In w (scaled f (taken v))
    → OutOfRange (write_integer E ctx v m)
unfolding write_integer
write_integer-OutOfRange E w ctx f v m e c s i out =
    let same : write_field E ctx ctx.field (numeric_value v) m
        ≡ write_field E ctx (some f) (taken v) m =
      ap (λ z. write_field E ctx ctx.field z m) (numeric_value-taken v i)
      ∙ ap (λ o. write_field E ctx o (taken v) m) e in
    rw same (write_field-OutOfRange E ctx w f (taken v) m c (taken-In v i) out)

numeric_value-u64 :
    (n : ℕ) → 2 ^ 63 ≤ n → n < 2 ^ 64 → numeric_value (pos n) ≡ negsuc (2 ^ 64 - 1 - n)
unfolding numeric_value to_signed
numeric_value-u64 n h k = ground arith

-- A `uint64_t` of 2^63 or more that is written into a BIGINT column with no decimal places is not
-- refused: the column holds it less 2^64, which a `uint64_t` does not read back.
read_integer-write_integer_u64 :
    (E : Outside) (T : IntType) (ctx : Context) (f : FieldInfo) (n : ℕ) (m : Bytes)
    → ctx.field ≡ some f
    → f.type.base ≡ SqlType.int64
    → is_neg f.scale ≡ false
    → Fits ctx 8 m
    → T.is_u64 ≡ true
    → 2 ^ 63 ≤ n
    → n < 2 ^ 64
    → (m' : Bytes) × (write_integer E ctx (pos n) m ≡ ok m')
      × (get_int Width.bits64 ctx m' ≡ negsuc (2 ^ 64 - 1 - n))
      × (read_integer T ctx m' ≡ err negative_into_unsigned)
unfolding write_integer read_integer into_target
read_integer-write_integer_u64 E T ctx f n m e c s fits u h k =
    let z : ℤ = negsuc (2 ^ 64 - 1 - n) in
    let whole : scaled f z ≡ z = scaled-whole f z s in
    let i : In Width.bits64 (scaled f z) = rw whole (omega arith) in
    let not_null : is_null ctx.null_indicator (stored ctx (int_bytes Width.bits64 (scaled f z)) m)
        ≡ false =
      is_null-stored ctx 8 _ m fits in
    (
      stored ctx (int_bytes Width.bits64 (scaled f z)) m,
      ap (λ y. write_field E ctx ctx.field y m) (numeric_value-u64 n h k)
          ∙ ap (λ o. write_field E ctx o z m) e
          ∙ write_field-In E ctx Width.bits64 f z m c i,
      get_int-stored Width.bits64 (scaled f z) ctx m i fits ∙ whole,
      rw not_null (
          ap (λ o. read_field T ctx o (stored ctx (int_bytes Width.bits64 (scaled f z)) m)) e
          ∙ read_field-stored T Width.bits64 ctx f z m c i fits
          ∙ rw u refl),
    )
