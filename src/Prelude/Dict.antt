-- ===== src/Prelude/Dict.antt =====
-- A std::unordered_map or std::map with std::string keys, as an association list.
use mathlib.Core.Path.{◌≡◌, refl}
use mathlib.Core.List.{List, [], ◌∷◌}
use mathlib.Core.Option.{Option, none, some}
use native.Mathlib.Omega.{arith}
use mathlib.Core.Logic.{inl, inr}
use mathlib.Core.Path.{subst}
use fbpp.Prelude.Tests.{if◌then◌else◌, if_elim, Bool-cases}
use fbpp.Prelude.Lists.{All}
use fbpp.Prelude.Ascii.{Bytes, str_eq, str_eq_iff}

abbrev pub Dict {ℓ} : Type ℓ → Type ℓ
Dict V = List (Bytes × V)

module _ {ℓ} {V : Type ℓ} where
  unfoldable pub find : Bytes → Dict V → Option V
  unfolding str_eq
  find k [] = none
  find k ((j, v) ∷ m) = if str_eq j k then some v else find k m

  -- `m[k] = v`.
  unfoldable pub insert : Bytes → V → Dict V → Dict V
  unfolding str_eq
  insert k v [] = (k, v) ∷ []
  insert k v ((j, w) ∷ m) = if str_eq j k then (j, v) ∷ m else (j, w) ∷ insert k v m

  unfoldable pub erase : Bytes → Dict V → Dict V
  unfolding str_eq
  erase k [] = []
  erase k ((j, w) ∷ m) = if str_eq j k then m else (j, w) ∷ erase k m

  pub find-insert :
      (j k : Bytes) (v : V) (m : Dict V)
      → find j (insert k v m) ≡ (if str_eq k j then some v else find j m)
  unfolding find insert
  find-insert j k v [] = refl
  find-insert j k v ((i, w) ∷ m) =
      ground (arith, str_eq_iff k j, str_eq_iff i k, str_eq_iff i j, find-insert j k v m)

module _ {ℓ κ} {V : Type ℓ} (P : Bytes × V → Type κ) where
  pub All-insert :
      (k : Bytes) (v : V) (m : Dict V) → ((j : Bytes) → P (j, v)) → All P m → All P (insert k v m)
  unfolding insert
  All-insert k v [] h a = (h k, tt)
  All-insert k v ((j, w) ∷ m) h a =
      if_elim (All P) (str_eq j k) (λ _. (h j, a.1)) (λ _. (a.0, All-insert k v m h a.1))

  pub All-erase : (k : Bytes) (m : Dict V) → All P m → All P (erase k m)
  unfolding erase
  All-erase k [] a = tt
  All-erase k ((j, w) ∷ m) a =
      if_elim (All P) (str_eq j k) (λ _. a.1) (λ _. (a.0, All-erase k m a.1))

  pub All-find : (k : Bytes) (m : Dict V) (v : V) → find k m ≡ some v → All P m → P (k, v)
  unfolding find
  All-find k [] v e a = absurd (cc)
  All-find k ((j, w) ∷ m) v e a = elim (Bool-cases (str_eq j k)) [
    | inl h ↦
        let e' : some w ≡ some v = rw h at e in
        let j=k : j ≡ k = (str_eq_iff j k).0 h in
        subst (λ u. P (k, u)) (cc) (subst (λ i. P (i, w)) j=k a.0)
    | inr h ↦ All-find k m v (rw h at e) a.1
  ]
