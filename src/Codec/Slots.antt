-- ===== src/Codec/Slots.antt =====
-- Where a value and its null indicator stand in a message, and what is there after a write.
use fbpp.Prelude.{
  ℕ, ◌+◌, ◌^◌, ◌≤◌, ◌<◌, ◌≡◌, refl, ◌∙◌, false, Option, none, some, inl, inr, length, arith,
}
use fbpp.Prelude.Int.{ℤ, pos_part, neg_part, wrap}
use fbpp.Prelude.Ascii.{Bytes}
use fbpp.Prelude.Result.{ok}
use fbpp.Message.Wire.{
  put_bytes, get_bytes, le_bytes, from_le, Apart, get_bytes-put_bytes, get_bytes-Apart,
  length-put_bytes, length-le_bytes, from_le-le_bytes, to_signed-wrap, wrap-lt,
}
use fbpp.Codec.{
  Context, set_not_null, is_null, Width, half, bytes_of, lowest, highest, checked_narrow, int_bytes,
  get_int,
}

-- The range of a signed integer.
abbrev pub In : Width → ℤ → Type 0
In w z = (pos_part z < half w) × (neg_part z ≤ half w)

pub checked_narrow-In :
    (w : Width) (z : ℤ) → In w z → checked_narrow (lowest w) (highest w) z ≡ ok z
unfolding checked_narrow
checked_narrow-In Width.bits16 z h = ground arith
checked_narrow-In Width.bits32 z h = ground arith
checked_narrow-In Width.bits64 z h = ground arith

-- Both are within the message, and apart.
abbrev pub IndicatorFits : Option ℕ → ℕ → ℕ → ℕ → Type 0
IndicatorFits none at n size = Unit {0}
IndicatorFits (some p) at n size = (p + 2 ≤ size) × Apart at n p 2

pub record Fits (ctx : Context) (n : ℕ) (m : Bytes) : Type 0 where
  pub data_fits : ctx.data_at + n ≤ length m
  pub indicator_fits : IndicatorFits ctx.null_indicator ctx.data_at n (length m)

-- The message behind `finish_write`.
abbrev pub stored : Context → Bytes → Bytes → Bytes
stored ctx bs m = set_not_null ctx.null_indicator (put_bytes m ctx.data_at bs)

get_bytes-set_not_null :
    (ind : Option ℕ) (at n size : ℕ) (m : Bytes)
    → IndicatorFits ind at n size
    → get_bytes (set_not_null ind m) at n ≡ get_bytes m at n
unfolding set_not_null
get_bytes-set_not_null none at n size m h = refl
get_bytes-set_not_null (some p) at n size m h =
    get_bytes-Apart m p at n (le_bytes 2 0) (rw (length-le_bytes 2 0) h.1)

is_null-set_not_null :
    (ind : Option ℕ) (at n : ℕ) (m : Bytes)
    → IndicatorFits ind at n (length m)
    → is_null ind (set_not_null ind m) ≡ false
unfolding set_not_null is_null le_bytes
is_null-set_not_null none at n m h = refl
is_null-set_not_null (some p) at n m h =
    let there : get_bytes (put_bytes m p (le_bytes 2 0)) p 2 ≡ le_bytes 2 0 =
      get_bytes-put_bytes m p (le_bytes 2 0) h.0 in
    rw (there, from_le-le_bytes 2 0 (omega arith)) refl

pub is_null-stored :
    (ctx : Context) (n : ℕ) (bs m : Bytes)
    → Fits ctx n m
    → is_null ctx.null_indicator (stored ctx bs m) ≡ false
is_null-stored ctx n bs m h =
    is_null-set_not_null ctx.null_indicator ctx.data_at n (put_bytes m ctx.data_at bs)
      (rw (length-put_bytes m ctx.data_at bs) h.indicator_fits)

pub get_bytes-stored :
    (ctx : Context) (bs m : Bytes)
    → Fits ctx (length bs) m
    → get_bytes (stored ctx bs m) ctx.data_at (length bs) ≡ bs
get_bytes-stored ctx bs m h =
    get_bytes-set_not_null ctx.null_indicator ctx.data_at (length bs) (length m) _ h.indicator_fits
    ∙ get_bytes-put_bytes m ctx.data_at bs h.data_fits

pub length-int_bytes : (w : Width) (z : ℤ) → length (int_bytes w z) ≡ bytes_of w
unfolding int_bytes
length-int_bytes w z = length-le_bytes (bytes_of w) _

from_le-int_bytes : (w : Width) (z : ℤ) → from_le (int_bytes w z) ≡ wrap (half w + half w) z
unfolding int_bytes
from_le-int_bytes Width.bits16 z = from_le-le_bytes 2 _ (wrap-lt (2 ^ 16) z (omega arith))
from_le-int_bytes Width.bits32 z = from_le-le_bytes 4 _ (wrap-lt (2 ^ 32) z (omega arith))
from_le-int_bytes Width.bits64 z = from_le-le_bytes 8 _ (wrap-lt (2 ^ 64) z (omega arith))

-- The bytes of an integer at the data pointer.
pub get_int-there :
    (w : Width) (z : ℤ) (ctx : Context) (m : Bytes)
    → In w z
    → get_bytes m ctx.data_at (length (int_bytes w z)) ≡ int_bytes w z
    → get_int w ctx m ≡ z
unfolding get_int
get_int-there w z ctx m i h =
    let there : get_bytes m ctx.data_at (bytes_of w) ≡ int_bytes w z =
      rw (length-int_bytes w z) at h in
    rw (there, from_le-int_bytes w z) (to_signed-wrap (half w) z i.0 i.1)

pub get_int-stored :
    (w : Width) (z : ℤ) (ctx : Context) (m : Bytes)
    → In w z
    → Fits ctx (bytes_of w) m
    → get_int w ctx (stored ctx (int_bytes w z) m) ≡ z
get_int-stored w z ctx m i h =
    get_int-there w z ctx _ i (get_bytes-stored ctx (int_bytes w z) m (rw (length-int_bytes w z) h))

-- What is apart from both stays.
pub get_bytes-stored-Apart :
    (ctx : Context) (bs m : Bytes) (q n : ℕ)
    → Apart q n ctx.data_at (length bs)
    → IndicatorFits ctx.null_indicator q n (length m)
    → get_bytes (stored ctx bs m) q n ≡ get_bytes m q n
get_bytes-stored-Apart ctx bs m q n a i =
    get_bytes-set_not_null ctx.null_indicator q n (length m) _ i
    ∙ get_bytes-Apart m ctx.data_at q n bs a

IndicatorFits-shorter :
    (ind : Option ℕ) (at n k size : ℕ)
    → k ≤ n
    → IndicatorFits ind at n size
    → IndicatorFits ind at k size
IndicatorFits-shorter none at n k size h i = tt
IndicatorFits-shorter (some p) at n k size h (i, inl before) = (i, inl (omega arith))
IndicatorFits-shorter (some p) at n k size h (i, inr behind) = (i, inr behind)

pub Fits-shorter : (ctx : Context) (n k : ℕ) (m : Bytes) → k ≤ n → Fits ctx n m → Fits ctx k m
Fits-shorter ctx n k m h fits = record {
  data_fits = omega (arith, fits.data_fits);
  indicator_fits =
      IndicatorFits-shorter ctx.null_indicator ctx.data_at n k (length m) h fits.indicator_fits;
}
