-- ===== src/NamedParam/Positional.antt =====
-- include/fbpp/core/named_param_helper.hpp: JSON data with names becomes a positional array. The
-- values are of any type `V` with a null; an object is its list of pairs in the order of `items()`.
-- `size_t` and `unsigned long long` have 64 bits.
pub mod Bound
use fbpp.Prelude.{
  ℕ, ◌+◌, ◌-◌, ◌*◌, ◌^◌, Bool, true, false, not, ◌&&◌, List, [], ◌∷◌, Option, none, some, ltb, leb,
  ◌==◌, if◌then◌else◌, length, set, replicate,
}
use fbpp.Prelude.Ascii.{Bytes, isdigit}
use fbpp.Prelude.Decimal.{all_digits, decimal_from}
use fbpp.Prelude.Dict.{Dict, find}
use fbpp.NamedParam.{to_lower}

pub data Json {ℓ} (V : Type ℓ) : Type ℓ where
  array : List V → Json V
  object : Dict V → Json V
  other : Json V

pub data Error : Type 0 where
  size_mismatch not_array_or_object stoull_out_of_range : Error
  index_out_of_range unknown_name : Bytes → Error

pub data Result {ℓ} (A : Type ℓ) : Type ℓ where
  ok : A → Result A
  err : Error → Result A

infixl 5 ◌>>=◌
abbrev pub ◌>>=◌ {ℓ κ} : {A : Type ℓ} {B : Type κ} → Result A → (A → Result B) → Result B
ok a >>= f = f a
err e >>= f = err e

-- `!key.empty()`.
abbrev pub nonempty : Bytes → Bool
nonempty [] = false
nonempty (c ∷ cs) = true

-- std::stoull on a text of digits; `none` is std::out_of_range.
unfoldable pub stoull : Bytes → Option ℕ
stoull key = let n = decimal_from 0 key in if ltb n (2 ^ 64) then some n else none

-- The value at every position of a name; a position out of range is passed over.
unfoldable pub assign_all {ℓ} : {V : Type ℓ} → ℕ → V → List ℕ → List V → List V
assign_all param_count v [] result = result
assign_all param_count v (p ∷ ps) result =
    assign_all param_count v ps (if ltb p param_count then set result p v else result)

module _ {ℓ} {V : Type ℓ} (names : Dict (List ℕ)) (param_count : ℕ) where
  assign_index : List V → Bytes → V → Option ℕ → Result (List V)
  assign_index result key v none = err stoull_out_of_range
  assign_index result key v (some pos) =
      if leb param_count pos then err (index_out_of_range key) else ok (set result pos v)

  -- One pair, with what `find` gives for its key.
  assign_found : Option (List ℕ) → List V → Bytes → V → Result (List V)
  unfolding assign_index
  assign_found (some ps) result key v = ok (assign_all param_count v ps result)
  assign_found none result key v =
      if nonempty key && all_digits key
      then assign_index result key v (stoull key)
      else err (unknown_name key)

  unfoldable pub assign_pairs : List V → Dict V → Result (List V)
  unfolding assign_found
  assign_pairs result [] = ok result
  assign_pairs result ((key, v) ∷ pairs) = do
    next ← assign_found (find (to_lower key) names) result key v
    assign_pairs next pairs

  unfoldable pub convert_to_positional : V → Json V → Result (List V)
  unfolding assign_pairs
  convert_to_positional null (array vs) =
      if not (length vs == param_count) then err size_mismatch else ok vs
  convert_to_positional null (object pairs) = assign_pairs (replicate param_count null) pairs
  convert_to_positional null other = err not_array_or_object
