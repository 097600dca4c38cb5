-- ===== src/Conversion.antt =====
-- include/fbpp/core/detail/conversion_utils.hpp: numbers and dates in text.
mod Tests
pub mod Decimals
pub mod Iso
use fbpp.Prelude.{ℕ, List, [], ◌∷◌, ◌==◌, if◌then◌else◌}
use fbpp.Prelude.Ascii.{Bytes}

-- What the functions throw: the library's own exceptions, and those of std::stoul and std::stoi.
pub data Fault : Type 0 where
  scale_not_negative scale_too_large invalid_numeric numeric_out_of_range : Fault
  invalid_date invalid_time invalid_timestamp zone_required : Fault
  stoul_invalid stoul_out_of_range : Fault

-- `substr(0, find(ch))`, and `substr(find(ch) + 1)`; with no `ch`, all and nothing.
unfoldable pub before_ch : ℕ → Bytes → Bytes
before_ch ch [] = []
before_ch ch (c ∷ cs) = let rest = before_ch ch cs in if c == ch then [] else c ∷ rest

unfoldable pub after_ch : ℕ → Bytes → Bytes
after_ch ch [] = []
after_ch ch (c ∷ cs) = let rest = after_ch ch cs in if c == ch then cs else rest
