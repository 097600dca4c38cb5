-- ===== src/Codec/Integer/Scale.antt =====
-- The decimal places of a column: scaling up, within range, and scaling back.
use fbpp.Prelude.{
  ℕ, zero, suc, ◌-◌, ◌*◌, ◌/◌, ◌%◌, ◌^◌, ◌≤◌, ◌<◌, ◌≡◌, refl, Bool, false, not, ◌||◌, arith,
}
use native.Mathlib.Nat.{le-div_iff_mul-le, mul-mod_left, pow-suc}
use fbpp.Prelude.Int.{ℤ, pos, negsuc, neg_part, is_neg, scale_by, quot, rem, neg, sub_ℕ}
use fbpp.Prelude.Result.{ok}
use fbpp.Message.{SqlType, FieldInfo}
use fbpp.Message.Wire.{to_signed-wrap}
use fbpp.Codec.{Width, leb_int, scale_up_checked}
use fbpp.Codec.Slots.{In}
use fbpp.Codec.Integer.{numeric_value}

pub numeric_value-In : (v : ℤ) → In Width.bits64 v → numeric_value v ≡ v
unfolding numeric_value
numeric_value-In v h = to_signed-wrap (2 ^ 63) v h.0 h.1

pub pow10_pos : (s : ℕ) → 0 < 10 ^ s
pow10_pos zero = omega arith
pow10_pos (suc s) = rw pow-suc (omega (arith, pow10_pos s))

-- The test of `scale_up_checked`, for a factor that is not zero.
abbrev pub overflows : ℤ → ℕ → Bool
overflows v f = not (leb_int v (pos ((2 ^ 63 - 1) / f))) || not (leb_int (neg (pos (2 ^ 63 / f))) v)

pub overflows-In : (v : ℤ) (f : ℕ) → 0 < f → In Width.bits64 (scale_by v f) → overflows v f ≡ false
overflows-In (pos n) f p h =
    let fits : n ≤ (2 ^ 63 - 1) / f = (le-div_iff_mul-le p).1 (omega arith) in ground arith
overflows-In (negsuc n) f p h =
    let fits : suc n ≤ 2 ^ 63 / f = (le-div_iff_mul-le p).1 (ground arith) in ground arith

pub scale_up_checked-In :
    (v : ℤ) (s : ℕ)
    → In Width.bits64 (scale_by v (10 ^ s))
    → scale_up_checked v s ≡ ok (scale_by v (10 ^ s))
unfolding scale_up_checked
scale_up_checked-In v s h = rw (overflows-In v (10 ^ s) (pow10_pos s) h) (ground arith)

suc_pred : (k : ℕ) → 0 < k → suc (k - 1) ≡ k
suc_pred k h = omega arith

minus : (k : ℕ) → 0 < k → sub_ℕ 0 k ≡ negsuc (k - 1)
minus k h = ground arith

quot-minus : (k f : ℕ) → 0 < k → quot (sub_ℕ 0 k) f ≡ sub_ℕ 0 (k / f)
quot-minus k f h = rw (minus k h, suc_pred k h) refl

rem-minus : (k f : ℕ) → 0 < k → rem (sub_ℕ 0 k) f ≡ sub_ℕ 0 (k % f)
rem-minus k f h = rw (minus k h, suc_pred k h) refl

pub quot-scale_by : (v : ℤ) (f : ℕ) → 0 < f → quot (scale_by v f) f ≡ v
quot-scale_by (pos n) f p = grind arith
quot-scale_by (negsuc n) f p =
    let back : suc n * f / f ≡ suc n = grind arith in
    rw (quot-minus (suc n * f) f (grind arith), back) (ground arith)

pub rem-scale_by : (v : ℤ) (f : ℕ) → 0 < f → rem (scale_by v f) f ≡ pos 0
rem-scale_by (pos n) f p = grind arith
rem-scale_by (negsuc n) f p =
    let none_left : suc n * f % f ≡ 0 = mul-mod_left (suc n) f in
    rw (rem-minus (suc n * f) f (grind arith), none_left) refl

abbrev pub column : Width → SqlType
column Width.bits16 = SqlType.short
column Width.bits32 = SqlType.long
column Width.bits64 = SqlType.int64

-- What the column holds for a value: the value times 10 to the number of its decimal places.
abbrev pub scaled : FieldInfo → ℤ → ℤ
scaled f v = scale_by v (10 ^ neg_part f.scale)

pub scale_by-one : (v : ℤ) → scale_by v (10 ^ 0) ≡ v
scale_by-one (pos n) = grind arith
scale_by-one (negsuc n) = ground arith

pub In-unscaled : (w : Width) (v : ℤ) (k : ℕ) → 0 < k → In w (scale_by v k) → In w v
In-unscaled w (pos n) k p h = grind arith
In-unscaled w (negsuc n) k p h =
    let shown : In w (negsuc (suc n * k - 1)) = rw (minus (suc n * k) (grind arith)) at h in
    (omega arith, grind (arith, shown))

pub In-widened : (w : Width) (v : ℤ) → In w v → In Width.bits64 v
In-widened Width.bits16 v h = omega arith
In-widened Width.bits32 v h = omega arith
In-widened Width.bits64 v h = h

pub neg_part-eq-zero : (z : ℤ) → is_neg z ≡ false → neg_part z ≡ 0
neg_part-eq-zero z h = ground arith

pub scaled-whole : (f : FieldInfo) (v : ℤ) → is_neg f.scale ≡ false → scaled f v ≡ v
scaled-whole f v h = rw (neg_part-eq-zero f.scale h) (scale_by-one v)
