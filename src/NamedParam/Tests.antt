-- ===== src/NamedParam/Tests.antt =====
-- The theorems on the scanner and on positional data, used on small queries.
use fbpp.Prelude.{ℕ, ◌≡◌, refl, false, List, [], ◌∷◌, tabulate, All, none, some}
use fbpp.Prelude.Ascii.{Bytes, codes, isalpha, isalnum, tolower}
use fbpp.Prelude.Decimal.{all_digits, decimal_from}
use fbpp.Prelude.Dict.{Dict, find}
use fbpp.NamedParam.{
  parse, initial, is_ident, is_ident_start, to_lower, step, step_code, ident, add_param, step_quote,
  step_line_comment, step_block_comment,
}
use fbpp.NamedParam.Segments.{
  Segment, literal, line_comment, block_comment, named, plain, print, escape, has_close, WellFormed,
  meaning_all,
}
use fbpp.NamedParam.Segments.Printed.{parse-print}
use fbpp.NamedParam.Substitute.{substitute, converted-eq-substitute}
use fbpp.NamedParam.Positions.{IsConsistent, parse-IsConsistent}
use fbpp.NamedParam.Offsets.{StandsIn, parse-StandsIn}
use fbpp.NamedParam.Stable.{position_count, parse-converted}
use fbpp.NamedParam.Positional.{object, ok, err, stoull, assign_all, convert_to_positional}
use fbpp.NamedParam.Positional.Bound.{
  fault, last_bound, first_fault, convert_to_positional-ok, convert_to_positional-err,
}

-- `a=:Id '@x''' @id ?--:z` with a line end, and `/*:w*/`.
abbrev query : List Segment
query =
    plain b'a'
    ∷ plain b'='
    ∷ named b':' (codes "Id")
    ∷ plain b' '
    ∷ literal b'\'' (codes "@x'")
    ∷ plain b' '
    ∷ named b'@' (codes "id")
    ∷ plain b' '
    ∷ plain b'?'
    ∷ line_comment (codes ":z") b'\n'
    ∷ block_comment (codes ":w")
    ∷ []

query-WellFormed : WellFormed query
query-WellFormed =
    unfold escape has_close is_ident is_ident_start isalpha isalnum in
    (
      (refl, refl, refl, refl),
      (
        (refl, refl, refl, refl),
        (
          (refl, refl, (refl, (refl, tt)), refl),
          (
            (refl, refl, refl, refl),
            (
              (refl, refl),
              (
                (refl, refl, refl, refl),
                (
                  (refl, refl, (refl, (refl, tt)), refl),
                  (
                    (refl, refl, refl, refl),
                    ((refl, refl, refl, refl), (((refl, (refl, tt)), refl), (refl, tt))),
                  ),
                ),
              ),
            ),
          ),
        ),
      ),
    )

parse-query : (parse (print query)).converted_sql ≡ codes "a=? '@x''' ? ?--:z\n/*:w*/"
unfolding parse escape to_lower tolower step step_code is_ident_start ident is_ident isalnum
    add_param step_quote step_line_comment step_block_comment
parse-query = refl

parse-print_example : parse (print query) ≡ (meaning_all initial 0 query).result
parse-print_example = parse-print query query-WellFormed

abbrev sql : Bytes
sql = codes "x = :A + @b1 -- :c"

converted-eq-substitute_example :
    (parse sql).converted_sql ≡ substitute (parse sql).parameters 0 0 sql
converted-eq-substitute_example = converted-eq-substitute sql

parse-IsConsistent_example : (count : ℕ) × IsConsistent (parse sql) count
parse-IsConsistent_example = parse-IsConsistent sql

parse-StandsIn_example : All (StandsIn sql) (parse sql).parameters
parse-StandsIn_example = parse-StandsIn sql

parse-converted_example :
    ((parse (parse (print query)).converted_sql).has_named_params ≡ false)
    × (position_count (parse (print query)).converted_sql ≡ position_count (print query))
parse-converted_example = parse-converted query query-WellFormed

-- One name at two positions, and a position that a number stands for.
abbrev names : Dict (List ℕ)
names = (codes "id", 0 ∷ 2 ∷ []) ∷ []

abbrev pairs : Dict ℕ
pairs = (codes "ID", 7) ∷ (codes "1", 8) ∷ []

abbrev bad_pairs : Dict ℕ
bad_pairs = (codes "ID", 7) ∷ (codes "3", 8) ∷ []

no_fault : first_fault names 3 pairs ≡ none
unfolding first_fault find to_lower all_digits decimal_from tolower
no_fault = refl

fault_3 : first_fault names 3 bad_pairs ≡ some (codes "3")
unfolding first_fault find to_lower all_digits decimal_from tolower
fault_3 = refl

convert_pairs : convert_to_positional names 3 0 (object pairs) ≡ ok (7 ∷ 8 ∷ 7 ∷ [])
unfolding convert_to_positional to_lower all_digits decimal_from find tolower stoull assign_all
convert_pairs = refl

convert_to_positional-ok_example :
    convert_to_positional names 3 0 (object pairs)
    ≡ ok (tabulate (λ pos. last_bound names pos 0 pairs) 0 3)
convert_to_positional-ok_example = convert_to_positional-ok names 3 0 pairs no_fault

convert_to_positional-err_example :
    convert_to_positional names 3 0 (object bad_pairs) ≡ err (fault (codes "3"))
convert_to_positional-err_example =
    convert_to_positional-err names 3 0 bad_pairs (codes "3") fault_3
