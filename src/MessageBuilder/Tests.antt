-- ===== src/MessageBuilder/Tests.antt =====
-- The theorem on a filled message, used on two fields, with an engine that knows no names.
use fbpp.Prelude.{ℕ, ap, ◌≡◌, refl, Bool, true, false, List, [], ◌∷◌}
use fbpp.Prelude.Int.{pos, negsuc}
use fbpp.Prelude.Ascii.{codes}
use fbpp.Prelude.Result.{Result, ok, err}
use fbpp.MessageBuilder.{
  Fault, Builder, too_many_fields, Field, EngineCall, set_name, set_type, set_length, set_scale,
  leaves, add_field, fresh, add_fields,
}
use fbpp.MessageBuilder.Filled.{raised_names, all_requests, built, add_fields-fresh}

abbrev nameless : EngineCall → Bool
nameless (set_name i name) = true
nameless c = false

nameless-leaves : (c : EngineCall) → leaves nameless c ≡ false
unfolding leaves
nameless-leaves (set_name i name) = refl
nameless-leaves (set_type i n) = refl
nameless-leaves (set_length i n) = refl
nameless-leaves (set_scale i s) = refl

abbrev id_field : Field
id_field = record { name = (codes "id"); sql_type = 496; length = 4; scale = pos 0 }

abbrev price_field : Field
price_field = record { name = (codes "Price"); sql_type = 581; length = 0; scale = negsuc 1 }

abbrev two_fields : List Field
two_fields = id_field ∷ price_field ∷ []

add_fields-fresh_example :
    (add_fields nameless (fresh 2) two_fields
      ≡ (built 2 2 (raised_names two_fields) (all_requests 0 two_fields), ok 2))
    × (add_field nameless (add_fields nameless (fresh 2) two_fields).0 id_field
        ≡ (built 2 2 (raised_names two_fields) (all_requests 0 two_fields), err too_many_fields))
add_fields-fresh_example = add_fields-fresh nameless nameless-leaves two_fields id_field

told_two :
    (add_fields nameless (fresh 2) two_fields).0.calls
    ≡ set_name 0 (codes "ID")
      ∷ set_type 0 497
      ∷ set_length 0 4
      ∷ set_name 1 (codes "PRICE")
      ∷ set_type 1 581
      ∷ set_scale 1 (negsuc 1)
      ∷ []
told_two = ap (λ (r : Builder × Result Fault ℕ). r.0.calls) add_fields-fresh_example.0
