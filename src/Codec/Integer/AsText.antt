-- ===== src/Codec/Integer/AsText.antt =====
-- The same integer columns through strings.
use fbpp.Prelude.{
  ℕ, suc, ◌^◌, ◌≤◌, ◌<◌, ◌≡◌, refl, ◌∙◌, ap, true, false, some, ltb, leb, if◌then◌else◌, arith, inl,
  inr, ◌⊎◌,
}
use fbpp.Prelude.Int.{ℤ, pos, negsuc, is_neg}
use fbpp.Prelude.Ascii.{Bytes}
use fbpp.Prelude.Result.{Result, ok, err, ◌>>=◌}
use fbpp.Message.{FieldInfo}
use fbpp.Conversion
use fbpp.Conversion.{scale_not_negative, numeric_out_of_range}
use fbpp.Conversion.Decimals.{string_to_decimal_i64, decimal_to_string_i64, magnitude, int64_max}
use fbpp.Conversion.Decimals.ReadBack.{string_to_decimal_i64-decimal_to_string_i64}
use fbpp.Codec.{
  text, Outside, Context, is_null, exact_type, Width, bytes_of, int_bytes, finish_write,
  int_to_string,
}
use fbpp.Codec.Slots.{In, checked_narrow-In, Fits, stored, is_null-stored, get_int-stored}
use fbpp.Codec.Text.{
  decimal_bytes, int_text, text_bytes, write_text_at, write_text, text_of, read_text_at, read_text,
}
use fbpp.Codec.Integer.Scale.{column}

text_bytes-column :
    (E : Outside) (ctx : Context) (f : FieldInfo) (w : Width) (str : Bytes)
    → text_bytes E ctx f (column w) str ≡ decimal_bytes w f str
unfolding text_bytes
text_bytes-column E ctx f Width.bits16 str = refl
text_bytes-column E ctx f Width.bits32 str = refl
text_bytes-column E ctx f Width.bits64 str = refl

text_of-column :
    (E : Outside) (ctx : Context) (f : FieldInfo) (w : Width) (m : Bytes)
    → text_of E ctx f (column w) m ≡ int_text w ctx f m
unfolding text_of
text_of-column E ctx f Width.bits16 m = refl
text_of-column E ctx f Width.bits32 m = refl
text_of-column E ctx f Width.bits64 m = refl

-- Writing and reading a string where the field is an integer column.
module _ (E : Outside) (ctx : Context) (f : FieldInfo) (w : Width) (e : ctx.field ≡ some f)
    (t : exact_type f.type ≡ column w) where
  write_text-column :
      (str m : Bytes) → write_text E ctx str m ≡ finish_write ctx m (decimal_bytes w f str)
  unfolding write_text
  write_text-column str m =
      ap (λ o. write_text_at E ctx o str m) e
      ∙ ap (λ s. finish_write ctx m (text_bytes E ctx f s str)) t
      ∙ ap (finish_write ctx m) (text_bytes-column E ctx f w str)

  read_text-column :
      (value m : Bytes)
      → is_null ctx.null_indicator m ≡ false
      → read_text E ctx value m ≡ int_text w ctx f m
  unfolding read_text
  read_text-column value m h = rw h (
      ap (λ o. read_text_at E ctx o value m) e
      ∙ ap (λ s. text_of E ctx f s m) t
      ∙ text_of-column E ctx f w m)

decimal_bytes-whole :
    (w : Width) (f : FieldInfo) (n : ℕ) (str : Bytes)
    → f.scale ≡ pos n
    → decimal_bytes w f str ≡ err (text scale_not_negative)
unfolding decimal_bytes string_to_decimal_i64
decimal_bytes-whole w f n str h =
    let refused : string_to_decimal_i64 str f.scale ≡ err scale_not_negative =
      ap (λ z. string_to_decimal_i64 str z) h in
    rw refused refl

-- An integer column with no decimal places: what it holds is read as a string, but no string can be
-- written into it, not even the one that was read.
write_text-whole :
    (E : Outside) (ctx : Context) (f : FieldInfo) (w : Width) (n : ℕ) (v : ℤ) (str value m : Bytes)
    → ctx.field ≡ some f
    → exact_type f.type ≡ column w
    → f.scale ≡ pos n
    → In w v
    → Fits ctx (bytes_of w) m
    → (read_text E ctx value (stored ctx (int_bytes w v) m) ≡ ok (int_to_string v))
      × (write_text E ctx str m ≡ err (text scale_not_negative))
unfolding int_text
write_text-whole E ctx f w n v str value m e t s i fits =
    let whole : is_neg f.scale ≡ false = ap is_neg s in
    (
      read_text-column E ctx f w e t value (stored ctx (int_bytes w v) m)
            (is_null-stored ctx (bytes_of w) _ m fits)
          ∙ rw (whole, get_int-stored w v ctx m i fits) refl,
      write_text-column E ctx f w e t str m
          ∙ ap (finish_write ctx m) (decimal_bytes-whole w f n str s),
    )

-- What `decimal_to_string_i64` prints of a value that the column has, and its bytes again.
decimal_bytes-text :
    (w : Width) (f : FieldInfo) (n : ℕ) (v : ℤ) (str : Bytes)
    → f.scale ≡ negsuc n
    → In w v
    → string_to_decimal_i64 str (negsuc n) ≡ ok v
    → decimal_bytes w f str ≡ ok (int_bytes w v)
unfolding decimal_bytes
decimal_bytes-text w f n v str s i h =
    let read : string_to_decimal_i64 str f.scale ≡ ok v =
      ap (λ z. string_to_decimal_i64 str z) s ∙ h in
    rw (read, checked_narrow-In w v i) refl

-- The value comes back unless its integer part is zero and it is negative.
abbrev pub KeepsSign : ℕ → ℤ → Type 0
KeepsSign n v = (is_neg v ≡ false) ⊎ (10 ^ suc n ≤ magnitude v)

kept :
    (p : ℕ) (v : ℤ)
    → magnitude v ≤ int64_max
    → (is_neg v ≡ false) ⊎ (p ≤ magnitude v)
    → (if leb (magnitude v) int64_max
        then ok (if ltb (magnitude v) p then pos (magnitude v) else v)
        else err numeric_out_of_range)
      ≡ ok v
kept p (pos u) k sign = ground arith
kept p (negsuc u) k (inl e) = absurd (cc)
kept p (negsuc u) k (inr e) = ground arith

printed-read :
    (n : ℕ) (v : ℤ)
    → n < 18
    → magnitude v ≤ int64_max
    → KeepsSign n v
    → (decimal_to_string_i64 v (negsuc n) >>= (λ str. string_to_decimal_i64 str (negsuc n))) ≡ ok v
printed-read n v h k sign =
    string_to_decimal_i64-decimal_to_string_i64 v n h ∙ kept (10 ^ suc n) v k sign

-- Where the reader finds the number in what was printed, there was a text.
printed-text :
    (n : ℕ) (v : ℤ) (out : Result Conversion.Fault Bytes)
    → (out >>= λ t. string_to_decimal_i64 t (negsuc n)) ≡ ok v
    → (t : Bytes) × (out ≡ ok t) × (string_to_decimal_i64 t (negsuc n) ≡ ok v)
printed-text n v (err fault) reads = absurd (cc)
printed-text n v (ok t) reads = (t, refl, reads)

-- An integer column with one to 18 decimal places: the string that is read of a value is written
-- back as that value, unless it is negative and between -1 and 0, or the least of 64 bits.
pub write_text-read_text :
    (E : Outside) (ctx : Context) (f : FieldInfo) (w : Width) (n : ℕ) (v : ℤ) (value m : Bytes)
    → ctx.field ≡ some f
    → exact_type f.type ≡ column w
    → f.scale ≡ negsuc n
    → n < 18
    → In w v
    → magnitude v ≤ int64_max
    → KeepsSign n v
    → Fits ctx (bytes_of w) m
    → (str : Bytes) × (read_text E ctx value (stored ctx (int_bytes w v) m) ≡ ok str)
      × (write_text E ctx str m ≡ ok (stored ctx (int_bytes w v) m))
unfolding int_text
write_text-read_text E ctx f w n v value m e t s h i k sign fits =
    let (str, printed, read) =
      printed-text n v (decimal_to_string_i64 v (negsuc n)) (printed-read n v h k sign) in
    let scaled : is_neg f.scale ≡ true = ap is_neg s in
    let text_of_v : decimal_to_string_i64 v f.scale ≡ ok str =
      ap (λ z. decimal_to_string_i64 v z) s ∙ printed in
    (
      str,
      read_text-column E ctx f w e t value (stored ctx (int_bytes w v) m)
            (is_null-stored ctx (bytes_of w) _ m fits)
          ∙ rw (scaled, get_int-stored w v ctx m i fits, text_of_v) refl,
      write_text-column E ctx f w e t str m
          ∙ ap (finish_write ctx m) (decimal_bytes-text w f n v str s i read),
    )
