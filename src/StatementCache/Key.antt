-- ===== src/StatementCache/Key.antt =====
-- `StatementCache::generateKey`: the text of the cache key.
pub mod Flags
pub mod Spelling
use fbpp.Prelude.{
  ℕ, zero, suc, Bool, true, false, not, ◌&&◌, ◌||◌, [], ◌∷◌, ◌++◌, ◌==◌, if◌then◌else◌,
}
use fbpp.Prelude.Ascii.{Bytes, isspace, toupper}
use fbpp.Prelude.Decimal.{to_string}
use fbpp.NamedParam.{next_ch}

pub record Normalizer : Type 0 where
  pub normalized : Bytes
  pub in_string : Bool
  pub in_comment : Bool
  pub last_was_space : Bool
  pub string_delimiter : ℕ

abbrev pub add : Normalizer → Bytes → Normalizer
add n bs = record n { normalized = n.normalized ++ bs }

abbrev pub is_quote : ℕ → Bool
is_quote c = c == b'\'' || c == b'"'

-- Each function is one block of the loop body, down to the `continue`s; a block that falls through
-- calls the next. The number is how far `i` moves beyond the `++i`.
unfoldable pub normalize_plain : Normalizer → ℕ → Normalizer × ℕ
normalize_plain n c =
    if isspace c
    then (
      (if not n.last_was_space then record (add n (b' ' ∷ [])) { last_was_space = true } else n),
      0,
    )
    else (record (add n (toupper c ∷ [])) { last_was_space = false }, 0)

unfoldable pub normalize_comment : Normalizer → ℕ → ℕ → Normalizer × ℕ
unfolding normalize_plain
normalize_comment n c next =
    if c == b'-' && next == b'-'
    then (record n { in_comment = true }, 1)
    else if c == b'/' && next == b'*'
    then (record n { in_comment = true }, 1)
    else if n.in_comment && (c == b'*' && next == b'/')
    then (record n { in_comment = false }, 1)
    else if n.in_comment && c == b'\n'
    then (record n { in_comment = false }, 0)
    else if n.in_comment
    then (n, 0)
    else normalize_plain n c

unfoldable pub normalize_rest : Normalizer → ℕ → ℕ → Normalizer × ℕ
unfolding normalize_comment
normalize_rest n c next = if n.in_string then (add n (c ∷ []), 0) else normalize_comment n c next

unfoldable pub normalize_step : Normalizer → ℕ → ℕ → Normalizer × ℕ
unfolding normalize_rest
normalize_step n c next =
    if not n.in_comment && (not n.in_string && is_quote c)
    then (record (add n (c ∷ [])) { in_string = true; string_delimiter = c }, 0)
    else if not n.in_comment && (n.in_string && c == n.string_delimiter)
    then (if next == n.string_delimiter
        then (add n (c ∷ next ∷ []), 1)
        else (record (add n (c ∷ [])) { in_string = false; string_delimiter = 0 }, 0))
    else normalize_rest n c next

-- The next `skip` characters are those that `i` has jumped over.
unfoldable pub normalize_loop : Normalizer → ℕ → Bytes → Normalizer
unfolding normalize_step
normalize_loop n skip [] = n
normalize_loop n (suc skip) (c ∷ cs) = normalize_loop n skip cs
normalize_loop n zero (c ∷ cs) =
    normalize_loop (normalize_step n c (next_ch cs)).0 (normalize_step n c (next_ch cs)).1 cs

abbrev pub initial : Normalizer
initial = record {
  normalized = [];
  in_string = false;
  in_comment = false;
  last_was_space = false;
  string_delimiter = 0;
}

-- `while (!empty && isspace(back)) pop_back()`, with the rest trimmed first.
unfoldable pub trim_onto : ℕ → Bytes → Bytes
trim_onto c [] = if isspace c then [] else c ∷ []
trim_onto c (d ∷ ds) = c ∷ d ∷ ds

unfoldable pub trim_end : Bytes → Bytes
unfolding trim_onto
trim_end [] = []
trim_end (c ∷ cs) = trim_onto c (trim_end cs)

unfoldable pub normalize : Bytes → Bytes
unfolding normalize_loop trim_end
normalize sql = trim_end (normalize_loop initial 0 sql).normalized

unfoldable pub generate_key : Bytes → ℕ → Bytes
unfolding normalize
generate_key sql flags = normalize sql ++ (b'|' ∷ to_string flags)
