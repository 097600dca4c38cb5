-- ===== src/Codec/Text/RoundTrip.antt =====
-- Strings in CHAR and VARCHAR columns, and in integer columns.
use fbpp.Prelude.{
  ℕ, zero, suc, ◌+◌, ◌-◌, ◌^◌, ◌≤◌, ◌<◌, ◌≡◌, refl, ◌∙◌, ap, false, [], ◌∷◌, ◌++◌, some, length,
  replicate, take, drop, drop-drop, arith, length-append, length-replicate,
}
use fbpp.Prelude.Ascii.{Bytes}
use fbpp.Prelude.Result.{ok, err}
use fbpp.Message.{SqlType, FieldInfo}
use fbpp.Message.Wire.{get_bytes, le_bytes, from_le, length-le_bytes, from_le-le_bytes}
use fbpp.Codec.{too_long, Outside, Context, is_null, exact_type, finish_write}
use fbpp.Codec.Slots.{Fits, stored, is_null-stored, get_bytes-stored, Fits-shorter}
use fbpp.Codec.Text.{
  padded, prefixed, fitting, text_bytes, write_text_at, write_text, trim_blanks, keep_unless_blank,
  text_of, read_text_at, read_text, u16_at,
}

pub data CharColumn : Type 0 where
  fixed varying : CharColumn

abbrev pub char_type : CharColumn → SqlType
char_type CharColumn.fixed = SqlType.text
char_type CharColumn.varying = SqlType.varying

-- The bytes that the column takes in a message.
abbrev pub char_size : CharColumn → ℕ → ℕ
char_size CharColumn.fixed n = n
char_size CharColumn.varying n = n + 2

-- What is read back: a CHAR column loses the blanks at the end.
abbrev pub char_text : CharColumn → Bytes → Bytes
char_text CharColumn.fixed str = trim_blanks str
char_text CharColumn.varying str = str

abbrev pub char_bytes : CharColumn → ℕ → Bytes → Bytes
char_bytes CharColumn.fixed n str = padded n str
char_bytes CharColumn.varying n str = prefixed str

trim_blanks-blanks : (n : ℕ) → trim_blanks (replicate n b' ') ≡ []
unfolding trim_blanks
trim_blanks-blanks zero = refl
trim_blanks-blanks (suc n) = rw (trim_blanks-blanks n) refl

pub trim_blanks-padded :
    (str : Bytes) (n : ℕ) → trim_blanks (str ++ replicate n b' ') ≡ trim_blanks str
unfolding trim_blanks
trim_blanks-padded [] n = trim_blanks-blanks n
trim_blanks-padded (c ∷ cs) n = ap (keep_unless_blank c) (trim_blanks-padded cs n)

pub length-padded : (n : ℕ) (str : Bytes) → length str ≤ n → length (padded n str) ≡ n
unfolding padded
length-padded n str h =
    rw
      (
        length-append str (replicate (n - length str) b' '),
        length-replicate {A = ℕ} (n - length str) b' ',
      )
      (omega arith)

pub length-prefixed : (str : Bytes) → length (prefixed str) ≡ length str + 2
unfolding prefixed
length-prefixed str =
    rw (length-append (le_bytes 2 (length str)) str, length-le_bytes 2 (length str)) (omega arith)

take_front : (xs ys l : Bytes) (n : ℕ) → take n l ≡ xs ++ ys → take (length xs) l ≡ xs
take_front [] ys l n h = refl
take_front (x ∷ xs) ys l zero h = absurd (cc)
take_front (x ∷ xs) ys [] (suc n) h = absurd (cc)
take_front (x ∷ xs) ys (y ∷ l) (suc n) h =
    let same : y ≡ x = cc in
    let rest : take n l ≡ xs ++ ys = cc in
    let front : take (length xs) l ≡ xs = take_front xs ys l n rest in cc

take_back :
    (xs ys l : Bytes) (n : ℕ)
    → n ≡ length xs + length ys
    → take n l ≡ xs ++ ys
    → take (length ys) (drop (length xs) l) ≡ ys
take_back [] ys l n e h = let same : n ≡ length ys = omega arith in rw same at h
take_back (x ∷ xs) ys l zero e h = absurd (omega arith)
take_back (x ∷ xs) ys [] (suc n) e h = absurd (cc)
take_back (x ∷ xs) ys (y ∷ l) (suc n) e h =
    let rest : take n l ≡ xs ++ ys = cc in take_back xs ys l n (omega arith) rest

get_bytes-front :
    (m xs ys : Bytes) (at : ℕ)
    → get_bytes m at (length (xs ++ ys)) ≡ xs ++ ys
    → get_bytes m at (length xs) ≡ xs
unfolding get_bytes
get_bytes-front m xs ys at h = take_front xs ys (drop at m) (length (xs ++ ys)) h

get_bytes-back :
    (m xs ys : Bytes) (at : ℕ)
    → get_bytes m at (length (xs ++ ys)) ≡ xs ++ ys
    → get_bytes m (at + length xs) (length ys) ≡ ys
unfolding get_bytes
get_bytes-back m xs ys at h =
    rw (← drop-drop at (length xs) (at + length xs) m refl)
      (take_back xs ys (drop at m) (length (xs ++ ys)) (length-append xs ys) h)

text_bytes-char :
    (E : Outside) (ctx : Context) (f : FieldInfo) (k : CharColumn) (str : Bytes)
    → length str ≤ f.length
    → text_bytes E ctx f (char_type k) str ≡ ok (char_bytes k f.length str)
unfolding text_bytes fitting
text_bytes-char E ctx f CharColumn.fixed str h = ground arith
text_bytes-char E ctx f CharColumn.varying str h = ground arith

text_bytes-long :
    (E : Outside) (ctx : Context) (f : FieldInfo) (k : CharColumn) (str : Bytes)
    → f.length < length str
    → text_bytes E ctx f (char_type k) str ≡ err too_long
unfolding text_bytes fitting
text_bytes-long E ctx f CharColumn.fixed str h = ground arith
text_bytes-long E ctx f CharColumn.varying str h = ground arith

Fits-char :
    (ctx : Context) (n : ℕ) (k : CharColumn) (str m : Bytes)
    → length str ≤ n
    → Fits ctx (char_size k n) m
    → Fits ctx (length (char_bytes k n str)) m
Fits-char ctx n CharColumn.fixed str m h fits = rw (length-padded n str h) fits
Fits-char ctx n CharColumn.varying str m h fits =
    Fits-shorter ctx (n + 2) (length (prefixed str)) m (omega (arith, length-prefixed str, h)) fits

text_of-char :
    (E : Outside) (ctx : Context) (f : FieldInfo) (k : CharColumn) (str m : Bytes)
    → length str ≤ f.length
    → f.length < 2 ^ 16
    → get_bytes m ctx.data_at (length (char_bytes k f.length str)) ≡ char_bytes k f.length str
    → text_of E ctx f (char_type k) m ≡ ok (char_text k str)
unfolding text_of
text_of-char E ctx f CharColumn.fixed str m h w there =
    let read : get_bytes m ctx.data_at f.length ≡ padded f.length str =
      rw (length-padded f.length str h) at there in
    ap (λ (t : Bytes). ok (trim_blanks t)) read
    ∙ ap ok (unfold padded in trim_blanks-padded str (f.length - length str))
text_of-char E ctx f CharColumn.varying str m h w there =
    let there' : get_bytes m ctx.data_at (length (le_bytes 2 (length str) ++ str))
        ≡ le_bytes 2 (length str) ++ str =
      unfold prefixed in there in
    let front : get_bytes m ctx.data_at 2 ≡ le_bytes 2 (length str) =
      rw (length-le_bytes 2 (length str)) at
        (get_bytes-front m (le_bytes 2 (length str)) str ctx.data_at there') in
    let back : get_bytes m (ctx.data_at + 2) (length str) ≡ str =
      rw (length-le_bytes 2 (length str)) at
        (get_bytes-back m (le_bytes 2 (length str)) str ctx.data_at there') in
    let count : u16_at m ctx.data_at ≡ length str =
      ap from_le front ∙ from_le-le_bytes 2 (length str) (omega arith) in
    rw (count, back) refl

pub write_text-char :
    (E : Outside) (ctx : Context) (f : FieldInfo) (k : CharColumn) (str m : Bytes)
    → ctx.field ≡ some f
    → exact_type f.type ≡ char_type k
    → length str ≤ f.length
    → write_text E ctx str m ≡ ok (stored ctx (char_bytes k f.length str) m)
unfolding write_text
write_text-char E ctx f k str m e t h =
    ap (λ o. write_text_at E ctx o str m) e
    ∙ ap (λ s. finish_write ctx m (text_bytes E ctx f s str)) t
    ∙ ap (finish_write ctx m) (text_bytes-char E ctx f k str h)

-- A string that the message has.
pub read_text-there :
    (E : Outside) (ctx : Context) (f : FieldInfo) (k : CharColumn) (str value m : Bytes)
    → ctx.field ≡ some f
    → exact_type f.type ≡ char_type k
    → length str ≤ f.length
    → f.length < 2 ^ 16
    → is_null ctx.null_indicator m ≡ false
    → get_bytes m ctx.data_at (length (char_bytes k f.length str)) ≡ char_bytes k f.length str
    → read_text E ctx value m ≡ ok (char_text k str)
unfolding read_text
read_text-there E ctx f k str value m e t h w not_null there = rw not_null (
    ap (λ o. read_text_at E ctx o value m) e
    ∙ ap (λ s. text_of E ctx f s m) t
    ∙ text_of-char E ctx f k str m h w there)

-- A string that is not longer than its CHAR or VARCHAR column is written; it is not null then, and
-- is read back as it was, from a CHAR column without the blanks at its end.
pub read_text-write_text :
    (E : Outside) (ctx : Context) (f : FieldInfo) (k : CharColumn) (str value m : Bytes)
    → ctx.field ≡ some f
    → exact_type f.type ≡ char_type k
    → length str ≤ f.length
    → f.length < 2 ^ 16
    → Fits ctx (char_size k f.length) m
    → (m' : Bytes) × (write_text E ctx str m ≡ ok m')
      × (is_null ctx.null_indicator m' ≡ false)
      × (read_text E ctx value m' ≡ ok (char_text k str))
read_text-write_text E ctx f k str value m e t h w fits =
    let fits' : Fits ctx (length (char_bytes k f.length str)) m =
      Fits-char ctx f.length k str m h fits in
    let after : Bytes = stored ctx (char_bytes k f.length str) m in
    let not_null : is_null ctx.null_indicator after ≡ false =
      is_null-stored ctx (length (char_bytes k f.length str)) _ m fits' in
    (
      after,
      write_text-char E ctx f k str m e t h,
      not_null,
      read_text-there E ctx f k str value after e t h w not_null (get_bytes-stored ctx _ m fits'),
    )

-- A string that is longer than its CHAR or VARCHAR column is refused.
pub write_text-too_long :
    (E : Outside) (ctx : Context) (f : FieldInfo) (k : CharColumn) (str m : Bytes)
    → ctx.field ≡ some f
    → exact_type f.type ≡ char_type k
    → f.length < length str
    → write_text E ctx str m ≡ err too_long
unfolding write_text
write_text-too_long E ctx f k str m e t h =
    ap (λ o. write_text_at E ctx o str m) e
    ∙ ap (λ s. finish_write ctx m (text_bytes E ctx f s str)) t
    ∙ ap (finish_write ctx m) (text_bytes-long E ctx f k str h)
