-- ===== src/NamedParam/Segments/Printed.antt =====
-- `parse` on printed segments.
use mathlib.Core.List.{append_assoc}
use fbpp.Prelude.{
  ℕ, suc, ◌+◌, ◌≡◌, refl, ap, ◌∙◌, true, false, ◌||◌, List, [], ◌∷◌, ◌++◌, ◌==◌, length, All, arith,
}
use fbpp.Prelude.Ascii.{Bytes, isalpha}
use fbpp.NamedParam.{
  Scan, loop, step, step_code, initial, parse, add_param, emit, ident, is_ident, is_ident_start,
  next_ch,
}
use fbpp.NamedParam.Segments.Rounds.{
  loop_any, loop_one, loop_two, landing, emit-emit, run_quote, run_line, run_block, in_quote,
  in_line, in_block,
}
use fbpp.NamedParam.Segments.{
  Segment, literal, line_comment, block_comment, named, plain, print_one, print, Fits, WellFormed,
  meaning, meaning_all,
}

loop_skip :
    (xs rest : Bytes) (s : Scan) (i : ℕ)
    → loop s i (length xs) (xs ++ rest) ≡ loop s (i + length xs) 0 rest
unfolding loop
loop_skip [] rest s i = landing rest refl (omega arith)
loop_skip (x ∷ xs) rest s i = loop_skip xs rest s (suc i) ∙ landing rest refl (omega arith)

ident-append :
    (name rest : Bytes)
    → All (λ c. is_ident c ≡ true) name
    → is_ident (next_ch rest) ≡ false
    → ident (name ++ rest) ≡ name
unfolding ident
ident-append [] [] h k = refl
ident-append [] (c ∷ cs) h k = rw k
ident-append (n ∷ ns) rest h k = rw (h.0, ident-append ns rest h.1 k)

next_ch-append :
    (name rest : Bytes)
    → is_ident_start (next_ch name) ≡ true
    → next_ch (name ++ rest) ≡ next_ch name
unfolding is_ident_start isalpha
next_ch-append [] rest h = absurd (ground arith)
next_ch-append (c ∷ cs) rest h = refl

abbrev pub in_code : Scan → Scan
in_code = in_block false

-- The first round of each kind of segment.
module _ (s : Scan) (i : ℕ) where
  begin_literal :
      (q : ℕ) (cs : Bytes)
      → (q == b'\'' || q == b'"') ≡ true
      → step (in_code s) i q cs ≡ (in_quote q (in_code (emit s (q ∷ []))), 0)
  unfolding step step_code
  begin_literal q cs h = ground arith

  begin_line :
      (cs : Bytes)
      → step (in_code s) i b'-' (b'-' ∷ cs)
        ≡ (in_line true (in_code (emit s (b'-' ∷ b'-' ∷ []))), 1)
  unfolding step step_code
  begin_line cs = refl

  begin_block :
      (cs : Bytes)
      → step (in_code s) i b'/' (b'*' ∷ cs) ≡ (in_block true (emit s (b'/' ∷ b'*' ∷ [])), 1)
  unfolding step step_code
  begin_block cs = refl

  begin_named :
      (m : ℕ) (cs : Bytes)
      → (m == b':' || m == b'@') ≡ true
      → is_ident_start (next_ch cs) ≡ true
      → step (in_code s) i m cs ≡ (in_code (add_param s i (ident cs)), length (ident cs))
  unfolding step step_code add_param
  begin_named m cs h k = ground arith

  step_other :
      (c : ℕ) (cs : Bytes)
      → Fits (plain c) cs
      → step (in_code s) i c cs ≡ (in_code (meaning s i (plain c)), 0)
  unfolding step step_code
  step_other c cs (h1, h2, h3, h4) = rw (h1, h2, h3, h4)

loop-print_one :
    (g : Segment) (rest : Bytes) (s : Scan) (i : ℕ)
    → Fits g rest
    → loop (in_code s) i 0 (print_one g ++ rest)
      ≡ loop (in_code (meaning s i g)) (i + length (print_one g)) 0 rest
loop-print_one (literal q body) rest s i (h, k) = rw append_assoc (
    loop_one _ _ _ _ _ (begin_literal s i q _ h)
    ∙ run_quote q body rest (in_code (emit s (q ∷ []))) (suc i) (ground arith) k
    ∙ landing rest (ap in_code (emit-emit s (q ∷ []) _)) (omega arith))
loop-print_one (line_comment body e) rest s i (h, k) = rw append_assoc (
    loop_two _ _ _ _ b'-' _ (begin_line s i _)
    ∙ run_line body rest e (in_code (emit s (b'-' ∷ b'-' ∷ []))) (suc (suc i)) h k
    ∙ landing rest (ap in_code (emit-emit s (b'-' ∷ b'-' ∷ []) _)) (omega arith))
loop-print_one (block_comment body) rest s i h = rw append_assoc (
    loop_two _ _ _ _ b'*' _ (begin_block s i _)
    ∙ run_block body rest (emit s (b'/' ∷ b'*' ∷ [])) (suc (suc i)) h
    ∙ landing rest (ap in_code (emit-emit s (b'/' ∷ b'*' ∷ []) _)) (omega arith))
loop-print_one (named m name) rest s i (h, k, l, n) =
    loop_any _ _ _ _ _ (name ++ rest) (
      rw (ident-append name rest l n) at
        (begin_named s i m (name ++ rest) h (rw (next_ch-append name rest k) k)))
    ∙ loop_skip name rest (in_code (add_param s i name)) (suc i)
    ∙ landing rest refl (omega arith)
loop-print_one (plain c) rest s i h =
    loop_one _ _ _ _ rest (step_other s i c rest h) ∙ landing rest refl (omega arith)

pub loop-print :
    (gs : List Segment) (s : Scan) (i : ℕ)
    → WellFormed gs
    → loop (in_code s) i 0 (print gs) ≡ in_code (meaning_all s i gs)
loop-print [] s i h = unfold loop in refl
loop-print (g ∷ gs) s i (h, w) =
    loop-print_one g (print gs) s i h ∙ loop-print gs (meaning s i g) (i + length (print_one g)) w

-- For every well-formed list of segments the scanner's result on the printed text is the one that
-- the description gives: a literal, whatever its text, a terminated comment and a plain character
-- are copied, a marker with a name is one parameter at its offset, and nothing else is.
pub parse-print :
    (gs : List Segment) → WellFormed gs → parse (print gs) ≡ (meaning_all initial 0 gs).result
unfolding parse
parse-print gs w = ap (λ (s : Scan). s.result) (loop-print gs initial 0 w)
