-- ===== src/Message/Wire.antt =====
-- Bytes of a message buffer: `memcpy` into it and from it, and integers as the x86 lays them out,
-- the lowest byte first and in two's complement.
use fbpp.Prelude.{
  ℕ, zero, suc, ◌+◌, ◌-◌, ◌*◌, ◌/◌, ◌%◌, ◌≤◌, ◌<◌, ◌≡◌, refl, ap, [], ◌∷◌, ltb, if◌then◌else◌,
  length, take, drop, arith, ◌⊎◌, inl, inr,
}
use native.Mathlib.Nat.{mod-eq_of_lt}
use fbpp.Prelude.Int.{ℤ, pos, negsuc, sub_ℕ, wrap, pos_part, neg_part}
use fbpp.Prelude.Ascii.{Bytes}

-- `memcpy(buffer + at, xs, n)`. What lies behind the end of the buffer is not there.
unfoldable pub put_front : Bytes → Bytes → Bytes
put_front m [] = m
put_front [] (x ∷ xs) = []
put_front (y ∷ m) (x ∷ xs) = x ∷ put_front m xs

unfoldable pub put_bytes : Bytes → ℕ → Bytes → Bytes
unfolding put_front
put_bytes m zero xs = put_front m xs
put_bytes [] (suc at) xs = []
put_bytes (y ∷ m) (suc at) xs = y ∷ put_bytes m at xs

-- `memcpy(xs, buffer + at, n)`.
unfoldable pub get_bytes : Bytes → ℕ → ℕ → Bytes
get_bytes m at n = take n (drop at m)

unfoldable pub le_bytes : ℕ → ℕ → Bytes
le_bytes zero n = []
le_bytes (suc width) n = n % 256 ∷ le_bytes width (n / 256)

unfoldable pub from_le : Bytes → ℕ
from_le [] = 0
from_le (b ∷ bs) = b + 256 * from_le bs

-- An unsigned number of modulus `2 * half` as a signed one.
unfoldable pub to_signed : ℕ → ℕ → ℤ
to_signed half n = if ltb n half then pos n else sub_ℕ n (half + half)

length-put_front : (m xs : Bytes) → length (put_front m xs) ≡ length m
unfolding put_front
length-put_front m [] = refl
length-put_front [] (x ∷ xs) = refl
length-put_front (y ∷ m) (x ∷ xs) = ap suc (length-put_front m xs)

pub length-put_bytes : (m : Bytes) (at : ℕ) (xs : Bytes) → length (put_bytes m at xs) ≡ length m
unfolding put_bytes
length-put_bytes m zero xs = length-put_front m xs
length-put_bytes [] (suc at) xs = refl
length-put_bytes (y ∷ m) (suc at) xs = ap suc (length-put_bytes m at xs)

take-put_front : (m xs : Bytes) → length xs ≤ length m → take (length xs) (put_front m xs) ≡ xs
unfolding put_front
take-put_front [] [] h = refl
take-put_front (y ∷ m) [] h = refl
take-put_front [] (x ∷ xs) h = absurd (omega arith)
take-put_front (y ∷ m) (x ∷ xs) h = ap (λ (ys : Bytes). x ∷ ys) (take-put_front m xs (omega arith))

pub get_bytes-put_bytes :
    (m : Bytes) (at : ℕ) (xs : Bytes)
    → at + length xs ≤ length m
    → get_bytes (put_bytes m at xs) at (length xs) ≡ xs
unfolding get_bytes put_bytes
get_bytes-put_bytes m zero xs h = take-put_front m xs (omega arith)
get_bytes-put_bytes [] (suc at) xs h = absurd (omega arith)
get_bytes-put_bytes (y ∷ m) (suc at) xs h = get_bytes-put_bytes m at xs (omega arith)

-- The bytes `n` from `q` on and the bytes `k` from `p` on do not overlap.
abbrev pub Apart : ℕ → ℕ → ℕ → ℕ → Type 0
Apart q n p k = (q + n ≤ p) ⊎ (p + k ≤ q)

take-put_bytes : (m : Bytes) (p n : ℕ) (xs : Bytes) → n ≤ p → take n (put_bytes m p xs) ≡ take n m
unfolding put_bytes
take-put_bytes m p zero xs h = refl
take-put_bytes m zero (suc n) xs h = absurd (omega arith)
take-put_bytes [] (suc p) (suc n) xs h = refl
take-put_bytes (y ∷ m) (suc p) (suc n) xs h =
    ap (λ (ys : Bytes). y ∷ ys) (take-put_bytes m p n xs (omega arith))

drop-put_front :
    (m : Bytes) (q : ℕ) (xs : Bytes) → length xs ≤ q → drop q (put_front m xs) ≡ drop q m
unfolding put_front
drop-put_front m q [] h = refl
drop-put_front [] q (x ∷ xs) h = refl
drop-put_front (y ∷ m) zero (x ∷ xs) h = absurd (omega arith)
drop-put_front (y ∷ m) (suc q) (x ∷ xs) h = drop-put_front m q xs (omega arith)

drop-put_bytes :
    (m : Bytes) (p q : ℕ) (xs : Bytes) → p + length xs ≤ q → drop q (put_bytes m p xs) ≡ drop q m
unfolding put_bytes
drop-put_bytes m zero q xs h = drop-put_front m q xs (omega arith)
drop-put_bytes [] (suc p) q xs h = refl
drop-put_bytes (y ∷ m) (suc p) zero xs h = absurd (omega arith)
drop-put_bytes (y ∷ m) (suc p) (suc q) xs h = drop-put_bytes m p q xs (omega arith)

get_bytes-below :
    (m : Bytes) (p q n : ℕ) (xs : Bytes)
    → q + n ≤ p
    → get_bytes (put_bytes m p xs) q n ≡ get_bytes m q n
unfolding get_bytes put_bytes
get_bytes-below m p zero n xs h = take-put_bytes m p n xs (omega arith)
get_bytes-below m zero (suc q) n xs h = absurd (omega arith)
get_bytes-below [] (suc p) (suc q) n xs h = refl
get_bytes-below (y ∷ m) (suc p) (suc q) n xs h = get_bytes-below m p q n xs (omega arith)

pub get_bytes-Apart :
    (m : Bytes) (p q n : ℕ) (xs : Bytes)
    → Apart q n p (length xs)
    → get_bytes (put_bytes m p xs) q n ≡ get_bytes m q n
unfolding get_bytes
get_bytes-Apart m p q n xs (inl h) = unfold get_bytes in get_bytes-below m p q n xs h
get_bytes-Apart m p q n xs (inr h) = rw (drop-put_bytes m p q xs h) refl

pub length-le_bytes : (width n : ℕ) → length (le_bytes width n) ≡ width
unfolding le_bytes
length-le_bytes zero n = refl
length-le_bytes (suc width) n = ap suc (length-le_bytes width (n / 256))

-- 256 ^ width.
abbrev pub span : ℕ → ℕ
span zero = 1
span (suc width) = 256 * span width

pub from_le-le_bytes : (width n : ℕ) → n < span width → from_le (le_bytes width n) ≡ n
unfolding from_le le_bytes
from_le-le_bytes zero n h = omega arith
from_le-le_bytes (suc width) n h = omega (arith, from_le-le_bytes width (n / 256) (omega arith))

pub wrap-lt : (m : ℕ) (z : ℤ) → 0 < m → wrap m z < m
wrap-lt m (pos n) h = grind arith
wrap-lt m (negsuc n) h = grind arith

pub to_signed-wrap :
    (half : ℕ) (z : ℤ)
    → pos_part z < half
    → neg_part z ≤ half
    → to_signed half (wrap (half + half) z) ≡ z
unfolding to_signed
to_signed-wrap half (pos n) h k =
    let small : n % (half + half) ≡ n = mod-eq_of_lt (omega arith) in rw small (ground arith)
to_signed-wrap half (negsuc n) h k =
    let inner : suc n % (half + half) ≡ suc n = mod-eq_of_lt (omega arith) in
    let outer : (half + half - suc n) % (half + half) ≡ half + half - suc n =
      mod-eq_of_lt (omega arith) in
    rw (inner, outer) (ground arith)
