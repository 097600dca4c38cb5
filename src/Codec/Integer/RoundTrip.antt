-- ===== src/Codec/Integer/RoundTrip.antt =====
-- Integers written into a column and read back.
use fbpp.Prelude.{
  ℕ, ◌^◌, ◌≤◌, ◌<◌, ◌≡◌, refl, ◌∙◌, ap, true, false, some, arith, inl, inr, Bool-cases,
}
use fbpp.Prelude.Int.{ℤ, pos, neg_part, is_neg, scale_by, ◌≤ℤ◌}
use fbpp.Prelude.Ascii.{Bytes}
use fbpp.Prelude.Result.{ok}
use fbpp.Message.{FieldInfo}
use fbpp.Codec.{
  Outside, Context, is_null, Width, bytes_of, checked_narrow, int_bytes, get_int,
  normalize_sql_type,
}
use fbpp.Codec.Slots.{In, checked_narrow-In, Fits, stored, is_null-stored, get_int-stored}
use fbpp.Codec.Integer.Scale.{
  numeric_value-In, pow10_pos, scale_up_checked-In, quot-scale_by, rem-scale_by, column, scaled,
  In-unscaled, In-widened, scaled-whole,
}
use fbpp.Codec.Integer.{
  IntType, write_scaled, write_plain, write_field, write_integer, raw_integer, descaled,
  into_target, read_field, read_integer,
}

pub write_scaled-In :
    (E : Outside) (ctx : Context) (w : Width) (s : ℕ) (v : ℤ) (m : Bytes)
    → In w (scale_by v (10 ^ s))
    → write_scaled E ctx (column w) s v m ≡ ok (stored ctx (int_bytes w (scale_by v (10 ^ s))) m)
unfolding write_scaled
write_scaled-In E ctx Width.bits16 s v m h =
    rw (scale_up_checked-In v s (In-widened Width.bits16 _ h), checked_narrow-In Width.bits16 _ h)
      refl
write_scaled-In E ctx Width.bits32 s v m h =
    rw (scale_up_checked-In v s (In-widened Width.bits32 _ h), checked_narrow-In Width.bits32 _ h)
      refl
write_scaled-In E ctx Width.bits64 s v m h = rw (scale_up_checked-In v s h) refl

pub write_plain-In :
    (E : Outside) (ctx : Context) (w : Width) (v : ℤ) (m : Bytes)
    → In w v
    → write_plain E ctx (column w) v m ≡ ok (stored ctx (int_bytes w v) m)
unfolding write_plain
write_plain-In E ctx Width.bits16 v m h = rw (checked_narrow-In Width.bits16 v h) refl
write_plain-In E ctx Width.bits32 v m h = rw (checked_narrow-In Width.bits32 v h) refl
write_plain-In E ctx Width.bits64 v m h = refl

pub raw_integer-column :
    (w : Width) (ctx : Context) (m : Bytes) → raw_integer ctx (column w) m ≡ ok (get_int w ctx m)
unfolding raw_integer
raw_integer-column Width.bits16 ctx m = refl
raw_integer-column Width.bits32 ctx m = refl
raw_integer-column Width.bits64 ctx m = refl

pub write_field-In :
    (E : Outside) (ctx : Context) (w : Width) (f : FieldInfo) (v : ℤ) (m : Bytes)
    → f.type.base ≡ column w
    → In w (scaled f v)
    → write_field E ctx (some f) v m ≡ ok (stored ctx (int_bytes w (scaled f v)) m)
unfolding write_field normalize_sql_type
write_field-In E ctx w f v m c h = elim (Bool-cases (is_neg f.scale)) [
  | inl e ↦ rw (e, c) (write_scaled-In E ctx w (neg_part f.scale) v m h)
  | inr e ↦
      rw (e, c, scaled-whole f v e) (write_plain-In E ctx w v m (rw (scaled-whole f v e) at h))
]

descaled-scaled : (f : FieldInfo) (v : ℤ) → descaled (some f) (scaled f v) ≡ ok v
descaled-scaled f v = elim (Bool-cases (is_neg f.scale)) [
  | inl e ↦
      let p : 0 < 10 ^ neg_part f.scale = pow10_pos (neg_part f.scale) in
      rw (e, rem-scale_by v (10 ^ neg_part f.scale) p, quot-scale_by v (10 ^ neg_part f.scale) p)
        refl
  | inr e ↦ rw (e, scaled-whole f v e) refl
]

-- A value that is within the target's limits.
into_target-ok :
    (T : IntType) (v : ℤ)
    → (T.is_u64 ≡ true → T.low ≡ pos 0)
    → T.low ≤ℤ v
    → v ≤ℤ T.high
    → into_target T v ≡ ok v
unfolding into_target checked_narrow
into_target-ok T v u l h = elim (Bool-cases T.is_u64) [
  | inl e ↦ let z : T.low ≡ pos 0 = u e in rw e (ground arith)
  | inr e ↦ rw e (ground arith)
]

read_field-there :
    (T : IntType) (w : Width) (ctx : Context) (f : FieldInfo) (v : ℤ) (m : Bytes)
    → f.type.base ≡ column w
    → get_int w ctx m ≡ scaled f v
    → read_field T ctx (some f) m ≡ into_target T v
unfolding read_field normalize_sql_type
read_field-there T w ctx f v m c there =
    let raw : raw_integer ctx f.type.base m ≡ ok (scaled f v) =
      ap (λ b. raw_integer ctx b m) c ∙ raw_integer-column w ctx m ∙ ap ok there in
    rw (raw, descaled-scaled f v) refl

pub read_field-stored :
    (T : IntType) (w : Width) (ctx : Context) (f : FieldInfo) (v : ℤ) (m : Bytes)
    → f.type.base ≡ column w
    → In w (scaled f v)
    → Fits ctx (bytes_of w) m
    → read_field T ctx (some f) (stored ctx (int_bytes w (scaled f v)) m) ≡ into_target T v
read_field-stored T w ctx f v m c i fits =
    read_field-there T w ctx f v _ c (get_int-stored w (scaled f v) ctx m i fits)

-- A value that the message has and the target's limits allow.
pub read_integer-there :
    (T : IntType) (w : Width) (ctx : Context) (f : FieldInfo) (v : ℤ) (m : Bytes)
    → ctx.field ≡ some f
    → f.type.base ≡ column w
    → is_null ctx.null_indicator m ≡ false
    → get_int w ctx m ≡ scaled f v
    → (T.is_u64 ≡ true → T.low ≡ pos 0)
    → T.low ≤ℤ v
    → v ≤ℤ T.high
    → read_integer T ctx m ≡ ok v
unfolding read_integer
read_integer-there T w ctx f v m e c not_null there u l h = rw not_null (
    ap (λ o. read_field T ctx o m) e
    ∙ read_field-there T w ctx f v m c there
    ∙ into_target-ok T v u l h)

pub write_integer-In :
    (E : Outside) (w : Width) (ctx : Context) (f : FieldInfo) (v : ℤ) (m : Bytes)
    → ctx.field ≡ some f
    → f.type.base ≡ column w
    → In w (scaled f v)
    → write_integer E ctx v m ≡ ok (stored ctx (int_bytes w (scaled f v)) m)
unfolding write_integer
write_integer-In E w ctx f v m e c i =
    let int64 : In Width.bits64 v =
      In-widened w v (In-unscaled w v _ (pow10_pos (neg_part f.scale)) i) in
    ap (λ z. write_field E ctx ctx.field z m) (numeric_value-In v int64)
    ∙ ap (λ o. write_field E ctx o v m) e
    ∙ write_field-In E ctx w f v m c i

-- An integer whose scaled value fits a SMALLINT, INTEGER or BIGINT column, of any number of decimal
-- places up to 18, is written; it is not null then, and any integral type that has the value reads
-- it back.
pub read_integer-write_integer :
    (E : Outside) (T : IntType) (w : Width) (ctx : Context) (f : FieldInfo) (v : ℤ) (m : Bytes)
    → ctx.field ≡ some f
    → f.type.base ≡ column w
    → neg_part f.scale ≤ 18
    → In w (scaled f v)
    → Fits ctx (bytes_of w) m
    → (T.is_u64 ≡ true → T.low ≡ pos 0)
    → T.low ≤ℤ v
    → v ≤ℤ T.high
    → (m' : Bytes) × (write_integer E ctx v m ≡ ok m')
      × (is_null ctx.null_indicator m' ≡ false)
      × (read_integer T ctx m' ≡ ok v)
read_integer-write_integer E T w ctx f v m e c s i fits u l h =
    let not_null : is_null ctx.null_indicator (stored ctx (int_bytes w (scaled f v)) m) ≡ false =
      is_null-stored ctx (bytes_of w) _ m fits in
    (
      stored ctx (int_bytes w (scaled f v)) m,
      write_integer-In E w ctx f v m e c i,
      not_null,
      read_integer-there T w ctx f v _ e c not_null (get_int-stored w (scaled f v) ctx m i fits) u l
          h,
    )
