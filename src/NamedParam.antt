-- ===== src/NamedParam.antt =====
-- src/core/firebird/fb_named_param_parser.cpp and include/fbpp/core/named_param_parser.hpp:
-- the scanner that turns `:name` and `@name` into `?`. A byte is a number below 256; 0 stands for
-- '\0', which the source uses both for "no next character" and for "no open quote".
mod Steps
mod Tests
pub mod Substitute
pub mod Positions
pub mod Offsets
pub mod Segments
pub mod Stable
pub mod Positional
use fbpp.Prelude.{
  ℕ, zero, suc, ◌+◌, ◌-◌, Bool, true, false, not, ◌&&◌, ◌||◌, List, [], ◌∷◌, ◌++◌, map, Option,
  none, some, ◌==◌, if◌then◌else◌, length,
}
use fbpp.Prelude.Ascii.{Bytes, isalpha, isalnum, tolower}
use fbpp.Prelude.Dict.{Dict, find, insert}

pub record NamedParamInfo : Type 0 where
  pub name : Bytes
  pub position : ℕ
  pub sql_offset : ℕ

pub record ParseResult : Type 0 where
  pub converted_sql : Bytes
  pub parameters : List NamedParamInfo
  pub name_to_positions : Dict (List ℕ)
  pub has_named_params : Bool

-- The locals of the loop: the result under construction and the lexical mode.
pub record Scan : Type 0 where
  pub result : ParseResult
  pub open result use *
  pub param_position : ℕ
  pub current_quote : ℕ
  pub in_single_line_comment : Bool
  pub in_multi_line_comment : Bool

unfoldable pub to_lower : Bytes → Bytes
to_lower = map tolower

-- `i + 1 < sql.size() ? sql[i + 1] : '\0'`.
abbrev pub next_ch : Bytes → ℕ
next_ch [] = 0
next_ch (c ∷ cs) = c

unfoldable pub is_ident_start : ℕ → Bool
is_ident_start c = isalpha c || c == b'_'

unfoldable pub is_ident : ℕ → Bool
is_ident c = isalnum c || c == b'_'

-- `substr(nameStart, nameEnd - nameStart)`, with the `while` loop that finds `nameEnd`.
unfoldable pub ident : Bytes → Bytes
ident [] = []
ident (c ∷ cs) = if is_ident c then c ∷ ident cs else []

abbrev pub emit : Scan → Bytes → Scan
emit s bs = record s { result = record s.result { converted_sql = s.converted_sql ++ bs } }

abbrev pub or_empty : Option (List ℕ) → List ℕ
or_empty none = []
or_empty (some ps) = ps

-- `nameToPositions[name].push_back(position)`.
unfoldable pub push_position : Bytes → ℕ → Dict (List ℕ) → Dict (List ℕ)
push_position n p m = insert n (or_empty (find n m) ++ p ∷ []) m

-- A named parameter at offset `i` with the text `name` behind its marker.
unfoldable pub add_param : Scan → ℕ → Bytes → Scan
add_param s i name = record s {
  result = record {
    converted_sql = s.converted_sql ++ b'?' ∷ [];
    parameters =
        s.parameters
        ++ (record { name = to_lower name; position = s.param_position; sql_offset = i } ∷ []);
    name_to_positions = push_position (to_lower name) s.param_position s.name_to_positions;
    has_named_params = true;
  };
  param_position = s.param_position + 1;
}

-- The branches of the loop body give the next locals and how far `i` moves beyond the `++i`.
unfoldable pub step_quote : Scan → ℕ → ℕ → Scan × ℕ
step_quote s ch next =
    if ch == s.current_quote
    then (if next == s.current_quote
        then (emit s (ch ∷ next ∷ []), 1)
        else (record (emit s (ch ∷ [])) { current_quote = 0 }, 0))
    else (emit s (ch ∷ []), 0)

unfoldable pub step_line_comment : Scan → ℕ → Scan × ℕ
step_line_comment s ch =
    if ch == b'\n' || ch == b'\r'
    then (record (emit s (ch ∷ [])) { in_single_line_comment = false }, 0)
    else (emit s (ch ∷ []), 0)

unfoldable pub step_block_comment : Scan → ℕ → ℕ → Scan × ℕ
step_block_comment s ch next =
    if ch == b'*' && next == b'/'
    then (record (emit s (ch ∷ next ∷ [])) { in_multi_line_comment = false }, 1)
    else (emit s (ch ∷ []), 0)

-- `?` takes a position and is copied, as is any other character.
abbrev step_plain : Scan → ℕ → Scan × ℕ
step_plain s ch = (
  emit (record s { param_position = if ch == b'?' then s.param_position + 1 else s.param_position })
      (ch ∷ []),
  0,
)

unfoldable pub step_code : Scan → ℕ → ℕ → Bytes → Scan × ℕ
step_code s i ch rest =
    if ch == b'-' && next_ch rest == b'-'
    then (record (emit s (ch ∷ next_ch rest ∷ [])) { in_single_line_comment = true }, 1)
    else if ch == b'/' && next_ch rest == b'*'
    then (record (emit s (ch ∷ next_ch rest ∷ [])) { in_multi_line_comment = true }, 1)
    else if ch == b'\'' || ch == b'"'
    then (record (emit s (ch ∷ [])) { current_quote = ch }, 0)
    else if (ch == b':' || ch == b'@') && is_ident_start (next_ch rest)
    then (add_param s i (ident rest), length (ident rest))
    else step_plain s ch

unfoldable pub step : Scan → ℕ → ℕ → Bytes → Scan × ℕ
step s i ch rest =
    if not (s.current_quote == 0)
    then step_quote s ch (next_ch rest)
    else if s.in_single_line_comment
    then step_line_comment s ch
    else if s.in_multi_line_comment
    then step_block_comment s ch (next_ch rest)
    else step_code s i ch rest

-- The loop at index `i`; the next `skip` characters are those that `i` has jumped over.
unfoldable pub loop : Scan → ℕ → ℕ → Bytes → Scan
loop s i skip [] = s
loop s i (suc skip) (c ∷ cs) = loop s (suc i) skip cs
loop s i zero (c ∷ cs) = loop (step s i c cs).0 (suc i) (step s i c cs).1 cs

abbrev pub initial : Scan
initial = record {
  result = record {
    converted_sql = [];
    parameters = [];
    name_to_positions = [];
    has_named_params = false;
  };
  param_position = 0;
  current_quote = 0;
  in_single_line_comment = false;
  in_multi_line_comment = false;
}

unfoldable pub parse : Bytes → ParseResult
unfolding loop
parse sql = (loop initial 0 0 sql).result
