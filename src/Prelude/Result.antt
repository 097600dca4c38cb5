-- ===== src/Prelude/Result.antt =====
-- A value or the exception that the C++ function throws.

pub data Result {ℓ κ} (E : Type ℓ) (A : Type κ) : Type (ℓ ⊔ κ) where
  ok : A → Result E A
  err : E → Result E A

infixl 5 ◌>>=◌
abbrev pub ◌>>=◌ {ℓ κ κ'} :
    {E : Type ℓ} {A : Type κ} {B : Type κ'} → Result E A → (A → Result E B) → Result E B
ok a >>= f = f a
err e >>= f = err e
