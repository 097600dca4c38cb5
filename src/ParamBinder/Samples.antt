-- ===== src/ParamBinder/Samples.antt =====
-- A sample binder, for the tests: a statement with two parameters, of which one occurs twice.
use fbpp.Prelude.{
  ℕ, ◌≡◌, ◌≤◌, refl, false, List, [], ◌∷◌, some, replicate, get_elem?, All, inl, arith,
}
use fbpp.Prelude.Int.{pos}
use fbpp.Prelude.Ascii.{codes, str_eq, isspace, tolower}
use fbpp.Prelude.Dict.{find}
use fbpp.Message.{FieldInfo, SqlType}
use fbpp.Message.Metadata.{trim_start, trim_end}
use fbpp.Codec.{Width, int_bytes}
use fbpp.Codec.Slots.{length-int_bytes}
use fbpp.Codec.Samples.{column_at}
use fbpp.ParamBinder.{Binder, normalize_name}
use fbpp.Message.Layout.{Layout, Layout-ApartRest}
use fbpp.Packing.{integer}
use fbpp.Packing.Fields.{Takes, whole}
use fbpp.ParamBinder.Bound.{Ready}

abbrev first : FieldInfo
first = column_at (codes "P0") SqlType.long (pos 0) 4 0 4

abbrev pub second : FieldInfo
second = column_at (codes "P1") SqlType.int64 (pos 0) 8 8 16

abbrev third : FieldInfo
third = column_at (codes "P2") SqlType.long (pos 0) 4 20 24

abbrev pub three : List FieldInfo
three = first ∷ second ∷ third ∷ []

abbrev pub size : FieldInfo → ℕ
size f = f.length

abbrev pub binder : Binder
binder = record {
  mapping = (codes "id", 0 ∷ 2 ∷ []) ∷ (codes "sum", 1 ∷ []) ∷ [];
  meta = some three;
  buffer = replicate 26 0;
  bound = replicate 3 false;
  has_transaction = false;
}

pub three-Layout : Layout size three 26
three-Layout =
    Layout-ApartRest size three 26
      (
        (omega arith, omega arith, inl (omega arith)),
        (
          (omega arith, omega arith, inl (omega arith)),
          ((omega arith, omega arith, inl (omega arith)), tt),
        ),
      )
      (
        (
          (inl (omega arith), inl (omega arith), inl (omega arith), inl (omega arith)),
          ((inl (omega arith), inl (omega arith), inl (omega arith), inl (omega arith)), tt),
        ),
        (
          ((inl (omega arith), inl (omega arith), inl (omega arith), inl (omega arith)), tt),
          (tt, tt),
        ),
      )

pub find-id : find (normalize_name (codes " ID ")) binder.mapping ≡ some (0 ∷ 2 ∷ [])
unfolding normalize_name trim_start trim_end isspace str_eq tolower find
find-id = refl

seven-Ready :
    (f : FieldInfo) (p : ℕ)
    → 4 ≤ size f
    → get_elem? three p ≡ some f
    → Takes f (integer (pos 7)) (int_bytes Width.bits32 (pos 7))
    → Ready size three (integer (pos 7)) p
seven-Ready f p h at t =
    (f, int_bytes Width.bits32 (pos 7), at, t, rw (length-int_bytes Width.bits32 (pos 7)) h)

pub id-Ready : All (Ready size three (integer (pos 7))) (0 ∷ 2 ∷ [])
id-Ready = (
  seven-Ready first 0 (omega arith) refl
      (whole Width.bits32 (pos 7) refl (omega arith) (omega arith, omega arith)),
  (
    seven-Ready third 2 (omega arith) refl
        (whole Width.bits32 (pos 7) refl (omega arith) (omega arith, omega arith)),
    tt,
  ),
)
