-- ===== src/Packing/Samples.antt =====
-- A sample row of three columns, for the tests.
use fbpp.Prelude.{ℕ, ◌≡◌, refl, List, [], ◌∷◌, inl, All, ◌==◌, if◌then◌else◌, arith}
use fbpp.Prelude.Int.{negsuc}
use fbpp.Prelude.Ascii.{codes}
use fbpp.Message.{FieldInfo, SqlType}
use fbpp.Message.Layout.{Inside, ApartRest}
use fbpp.Codec.{Width, exact_type}
use fbpp.Codec.Samples.{price, total, title, int32, uint64}
use fbpp.Codec.Text.RoundTrip.{CharColumn}
use fbpp.Packing.{Value, integer, string, disengaged, Kind, integral, text, optional}
use fbpp.Packing.Held.{number, letters, engaged, missing}
use fbpp.Packing.RoundTrip.{Row, finish, element, RowFits}

abbrev pub columns : List FieldInfo
columns = price ∷ total ∷ title ∷ []

-- VARCHAR has its length in front of its bytes.
abbrev pub room : FieldInfo → ℕ
room f = if f.length == 6 then 8 else f.length

columns-Inside : All (Inside room 30) columns
columns-Inside = (
  (omega arith, omega arith, inl (omega arith)),
  (
    (omega arith, omega arith, inl (omega arith)),
    ((omega arith, omega arith, inl (omega arith)), tt),
  ),
)

columns-ApartRest : ApartRest room columns
columns-ApartRest = (
  (
    (inl (omega arith), inl (omega arith), inl (omega arith), inl (omega arith)),
    ((inl (omega arith), inl (omega arith), inl (omega arith), inl (omega arith)), tt),
  ),
  (((inl (omega arith), inl (omega arith), inl (omega arith), inl (omega arith)), tt), (tt, tt)),
)

title_type : exact_type title.type ≡ SqlType.varying
unfolding exact_type
title_type = refl

abbrev pub kinds : List Kind
kinds = integral int32 ∷ optional (integral uint64) ∷ optional text ∷ []

abbrev pub values : List Value
values = integer (negsuc 11) ∷ disengaged ∷ string (codes "Ada ") ∷ []

values-Row : Row room columns kinds values values
values-Row =
    element
      (number int32 Width.bits32 (negsuc 11) (omega arith) refl (omega arith)
        (omega arith, omega arith) (λ h. absurd (cc)) (omega arith, omega arith))
      (element missing (
        element
          (engaged (
            letters CharColumn.varying (codes "Ada ") (omega arith) title_type (omega arith)
              (omega arith)))
          finish))

pub values-RowFits : RowFits room columns 30 kinds values values
values-RowFits = record { inside = columns-Inside; apart = columns-ApartRest; row = values-Row }
