-- ===== src/Prelude/Decimal.antt =====
-- Decimal digits: std::to_string and stream output of unsigned numbers, and reading them back.
use Prim.Native.Nat.{ℕ, zero, suc, ◌+◌, ◌-◌, ◌*◌, ◌/◌, ◌%◌, ◌<◌}
use mathlib.Core.Path.{◌≡◌, refl, ap, ◌∙◌}
use mathlib.Core.Logic.{inl, inr}
use mathlib.Core.Bool.{Bool, true, ◌&&◌}
use mathlib.Core.List.{[], ◌∷◌}
use native.Mathlib.Omega.{arith}
use fbpp.Prelude.Tests.{ltb, if◌then◌else◌, Bool-cases}
use fbpp.Prelude.Ascii.{Bytes, isdigit}

unfoldable pub all_digits : Bytes → Bool
all_digits [] = true
all_digits (c ∷ cs) = isdigit c && all_digits cs

-- The number that a text of digits writes, behind the number that the digits so far write.
unfoldable pub decimal_from : ℕ → Bytes → ℕ
decimal_from n [] = n
decimal_from n (c ∷ cs) = decimal_from (n * 10 + (c - b'0')) cs

-- The digits of `n` in front of `acc`; the fuel bounds their number.
unfoldable pub to_chars : ℕ → ℕ → Bytes → Bytes
to_chars zero n acc = acc
to_chars (suc fuel) n acc =
    let rest = to_chars fuel (n / 10) ((n % 10 + b'0') ∷ acc) in
    if ltb n 10 then (n + b'0') ∷ acc else rest

unfoldable pub to_string : ℕ → Bytes
unfolding to_chars
to_string n = to_chars (suc n) n []

decimal_from-digit :
    (n d : ℕ) (acc : Bytes) → decimal_from n ((d + b'0') ∷ acc) ≡ decimal_from (n * 10 + d) acc
unfolding decimal_from
decimal_from-digit n d acc = ap (λ k. decimal_from k acc) (omega arith)

pub decimal_from-to_chars :
    (fuel n : ℕ) (acc : Bytes)
    → n < fuel
    → decimal_from 0 (to_chars fuel n acc) ≡ decimal_from n acc
unfolding to_chars
decimal_from-to_chars zero n acc h = elim h [ ]
decimal_from-to_chars (suc fuel) n acc h = elim (Bool-cases (ltb n 10)) [
  | inl e ↦ rw e (decimal_from-digit 0 n acc ∙ ap (λ k. decimal_from k acc) (omega arith))
  | inr e ↦ rw e (
      decimal_from-to_chars fuel (n / 10) _ (ground arith)
      ∙ decimal_from-digit (n / 10) (n % 10) acc
      ∙ ap (λ k. decimal_from k acc) (omega arith))
]

pub decimal_from-to_string : (n : ℕ) → decimal_from 0 (to_string n) ≡ n
unfolding to_string decimal_from
decimal_from-to_string n = decimal_from-to_chars (suc n) n [] (omega arith)

all_digits-to_chars :
    (fuel n : ℕ) (acc : Bytes) → all_digits acc ≡ true → all_digits (to_chars fuel n acc) ≡ true
unfolding to_chars all_digits
all_digits-to_chars zero n acc h = h
all_digits-to_chars (suc fuel) n acc h =
    ground (arith, all_digits-to_chars fuel (n / 10) ((n % 10 + b'0') ∷ acc))

pub all_digits-to_string : (n : ℕ) → all_digits (to_string n) ≡ true
unfolding to_string all_digits
all_digits-to_string n = all_digits-to_chars (suc n) n [] refl
