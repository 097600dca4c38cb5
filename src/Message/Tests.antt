-- ===== src/Message/Tests.antt =====
-- The theorem on looking a name up, used on a description of two fields.
use fbpp.Prelude.{ℕ, ◌≡◌, refl, true, Option, some, [], ◌∷◌, List}
use fbpp.Prelude.Ascii.{codes, str_eq, isspace, toupper}
use fbpp.Prelude.Result.{ok}
use fbpp.Message.{FieldInfo}
use fbpp.Message.Metadata.{
  Loading, describes, fresh, get_index, get_field, exact_index, load_fields, is_exact,
  ascii_upper_trim, upper_index, ascii_upper,
}
use fbpp.Message.Metadata.Loaded.{IsCached, fresh-IsCached}
use fbpp.Message.Metadata.Lookup.{Finds, at, get_index-Finds}
use fbpp.Codec.Samples.{price, title}

abbrev two : List FieldInfo
two = price ∷ title ∷ []

get_index-Finds_example :
    ((a : Loading) → IsCached two (get_index (fresh two) a (codes " title")).0)
    × ((get_index (fresh two) describes (codes " title")).0.fields_loaded ≡ true)
    × ((get_index (fresh two) describes (codes " title")).0.asked ≡ 1)
    × ((get_index (fresh two) describes (codes " title")).0
        ≡ (get_field (fresh two) describes (codes " title")).0)
    × ((i : Option ℕ) × ((get_index (fresh two) describes (codes " title")).1 ≡ ok i)
        × Finds (codes " title") two i
        × ((get_field (fresh two) describes (codes " title")).1 ≡ ok (at i two))
        × ((a : Loading)
            → get_field (get_index (fresh two) describes (codes " title")).0 a (codes " title")
              ≡ ((get_index (fresh two) describes (codes " title")).0, ok (at i two))))
get_index-Finds_example = get_index-Finds (codes " title") two (fresh two) (fresh-IsCached two)

found : (get_index (fresh two) describes (codes " title")).1 ≡ ok (some 1)
unfolding get_index exact_index load_fields is_exact str_eq ascii_upper_trim isspace upper_index
    ascii_upper toupper
found = refl
