-- ===== src/NamedParam/Segments.antt =====
-- A description of SQL text that does not go through the scanner: a list of segments, with what is
-- printed for each.
mod Rounds
pub mod Printed
use fbpp.Prelude.{
  ℕ, ◌+◌, ◌≡◌, Bool, true, false, ◌&&◌, ◌||◌, List, [], ◌∷◌, ◌++◌, ◌==◌, if◌then◌else◌, length, All,
}
use fbpp.Prelude.Ascii.{Bytes}
use fbpp.NamedParam.{Scan, add_param, emit, is_ident, is_ident_start, next_ch}

pub data Segment : Type 0 where
  -- A quote and the text between the quotes.
  literal : ℕ → Bytes → Segment
  -- The text of a `--` comment, and the character that ends its line.
  line_comment : Bytes → ℕ → Segment
  block_comment : Bytes → Segment
  -- A marker and a name.
  named : ℕ → Bytes → Segment
  plain : ℕ → Segment

-- The text of a literal, with each quote doubled.
unfoldable pub escape : ℕ → Bytes → Bytes
escape q [] = []
escape q (c ∷ cs) = if c == q then c ∷ c ∷ escape q cs else c ∷ escape q cs

abbrev pub print_one : Segment → Bytes
print_one (literal q body) = q ∷ (escape q body ++ q ∷ [])
print_one (line_comment body e) = b'-' ∷ b'-' ∷ (body ++ e ∷ [])
print_one (block_comment body) = b'/' ∷ b'*' ∷ (body ++ b'*' ∷ b'/' ∷ [])
print_one (named m name) = m ∷ name
print_one (plain c) = c ∷ []

abbrev pub print : List Segment → Bytes
print [] = []
print (g ∷ gs) = print_one g ++ print gs

-- No `*/` in a comment's text, nor at its end together with the `*` that follows it.
unfoldable pub has_close : Bytes → Bool
has_close [] = false
has_close (c ∷ cs) = (c == b'*' && next_ch cs == b'/') || has_close cs

-- What a segment must be to be read back in front of `rest`.
abbrev pub Fits : Segment → Bytes → Type 0
Fits (literal q body) rest = ((q == b'\'' || q == b'"') ≡ true) × ((next_ch rest == q) ≡ false)
Fits (line_comment body e) rest =
    All (λ c. (c == b'\n' || c == b'\r') ≡ false) body × ((e == b'\n' || e == b'\r') ≡ true)
Fits (block_comment body) rest = has_close (body ++ b'*' ∷ []) ≡ false
Fits (named m name) rest =
    ((m == b':' || m == b'@') ≡ true)
    × (is_ident_start (next_ch name) ≡ true)
    × All (λ c. is_ident c ≡ true) name
    × (is_ident (next_ch rest) ≡ false)
Fits (plain c) rest =
    ((c == b'-' && next_ch rest == b'-') ≡ false)
    × ((c == b'/' && next_ch rest == b'*') ≡ false)
    × ((c == b'\'' || c == b'"') ≡ false)
    × (((c == b':' || c == b'@') && is_ident_start (next_ch rest)) ≡ false)

abbrev pub WellFormed : List Segment → Type 0
WellFormed [] = Unit {0}
WellFormed (g ∷ gs) = Fits g (print gs) × WellFormed gs

-- What a segment at offset `i` does: a name is a parameter, `?` takes a position, and all else is
-- copied.
abbrev pub meaning : Scan → ℕ → Segment → Scan
meaning s i (named m name) = add_param s i name
meaning s i (plain c) =
    emit
      (record s { param_position = if c == b'?' then s.param_position + 1 else s.param_position })
      (c ∷ [])
meaning s i g = emit s (print_one g)

abbrev pub meaning_all : Scan → ℕ → List Segment → Scan
meaning_all s i [] = s
meaning_all s i (g ∷ gs) = meaning_all (meaning s i g) (i + length (print_one g)) gs
