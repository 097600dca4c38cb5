-- ===== src/NamedParam/Segments/Rounds.antt =====
-- The rounds of the scanner over a literal and over a comment.
use mathlib.Core.List.{append_assoc}
use fbpp.Prelude.{
  ℕ, suc, ◌+◌, ◌≡◌, refl, ap, ◌∙◌, Bool, true, false, ◌&&◌, ◌||◌, [], ◌∷◌, ◌++◌, ◌==◌, length, All,
  arith, Bool-cases, inl, inr,
}
use fbpp.Prelude.Ascii.{Bytes}
use fbpp.NamedParam.{
  Scan, loop, step, step_quote, step_line_comment, step_block_comment, emit, next_ch,
}
use fbpp.NamedParam.Segments.{escape, has_close}

module _ (s : Scan) (i c : ℕ) (t : Scan) where
  pub loop_any :
      (k : ℕ) (cs : Bytes) → step s i c cs ≡ (t, k) → loop s i 0 (c ∷ cs) ≡ loop t (suc i) k cs
  unfolding loop
  loop_any k cs e = ap (λ (r : Scan × ℕ). loop r.0 (suc i) r.1 cs) e

  pub loop_one : (cs : Bytes) → step s i c cs ≡ (t, 0) → loop s i 0 (c ∷ cs) ≡ loop t (suc i) 0 cs
  unfolding loop
  loop_one cs e = ap (λ (r : Scan × ℕ). loop r.0 (suc i) r.1 cs) e

  pub loop_two :
      (d : ℕ) (ds : Bytes)
      → step s i c (d ∷ ds) ≡ (t, 1)
      → loop s i 0 (c ∷ d ∷ ds) ≡ loop t (suc (suc i)) 0 ds
  unfolding loop
  loop_two d ds e = ap (λ (r : Scan × ℕ). loop r.0 (suc i) r.1 (d ∷ ds)) e

pub landing :
    {s t : Scan} {i j : ℕ} (rest : Bytes) → s ≡ t → i ≡ j → loop s i 0 rest ≡ loop t j 0 rest
landing rest p q = rw (p, q)

pub emit-emit : (s : Scan) (a b : Bytes) → emit (emit s a) b ≡ emit s (a ++ b)
emit-emit s a b = rw append_assoc

abbrev pub in_quote : ℕ → Scan → Scan
in_quote q s = record s { current_quote = q }

-- A round in a literal: on another character, on a doubled quote, and on its end.
module _ (s : Scan) (i q : ℕ) (nz : (q == 0) ≡ false) where
  quote_other :
      (c : ℕ) (cs : Bytes)
      → (c == q) ≡ false
      → step (in_quote q s) i c cs ≡ (in_quote q (emit s (c ∷ [])), 0)
  unfolding step step_quote
  quote_other c cs h = rw (nz, h)

  quote_doubled :
      (c d : ℕ) (ds : Bytes)
      → (c == q) ≡ true
      → (d == q) ≡ true
      → step (in_quote q s) i c (d ∷ ds) ≡ (in_quote q (emit s (c ∷ d ∷ [])), 1)
  unfolding step step_quote
  quote_doubled c d ds h k = rw (nz, h, k)

  quote_end :
      (c : ℕ) (cs : Bytes)
      → (c == q) ≡ true
      → (next_ch cs == q) ≡ false
      → step (in_quote q s) i c cs ≡ (in_quote 0 (emit s (c ∷ [])), 0)
  unfolding step step_quote
  quote_end c cs h k = rw (nz, h, k)

==-refl : (q : ℕ) → (q == q) ≡ true
==-refl q = ground arith

pub run_quote :
    (q : ℕ) (body rest : Bytes) (s : Scan) (i : ℕ)
    → (q == 0) ≡ false
    → (next_ch rest == q) ≡ false
    → loop (in_quote q s) i 0 (escape q body ++ (q ∷ rest))
      ≡ loop
          (in_quote 0 (emit s (escape q body ++ q ∷ [])))
          (i + length (escape q body ++ q ∷ []))
          0
          rest
unfolding escape
run_quote q [] rest s i nz nq =
    loop_one _ _ _ _ rest (quote_end s i q nz q rest (==-refl q) nq)
    ∙ landing rest refl (omega arith)
run_quote q (c ∷ cs) rest s i nz nq = elim (Bool-cases (c == q)) [
  | inl e ↦ rw e (
      loop_two _ _ _ _ c _ (quote_doubled s i q nz c c _ e e)
      ∙ run_quote q cs rest (emit s (c ∷ c ∷ [])) (suc (suc i)) nz nq
      ∙ landing rest (ap (in_quote 0) (emit-emit s (c ∷ c ∷ []) _)) (omega arith))
  | inr e ↦ rw e (
      loop_one _ _ _ _ _ (quote_other s i q nz c _ e)
      ∙ run_quote q cs rest (emit s (c ∷ [])) (suc i) nz nq
      ∙ landing rest (ap (in_quote 0) (emit-emit s (c ∷ []) _)) (omega arith))
]

abbrev pub in_line : Bool → Scan → Scan
in_line b s = record s { current_quote = 0; in_single_line_comment = b }

pub run_line :
    (body rest : Bytes) (e : ℕ) (s : Scan) (i : ℕ)
    → All (λ c. (c == b'\n' || c == b'\r') ≡ false) body
    → (e == b'\n' || e == b'\r') ≡ true
    → loop (in_line true s) i 0 (body ++ (e ∷ rest))
      ≡ loop (in_line false (emit s (body ++ e ∷ []))) (i + length (body ++ e ∷ [])) 0 rest
unfolding step step_line_comment
run_line [] rest e s i h k = loop_one _ _ _ _ rest (rw k) ∙ landing rest refl (omega arith)
run_line (c ∷ cs) rest e s i h k =
    loop_one _ _ _ _ (cs ++ (e ∷ rest)) (rw h.0)
    ∙ run_line cs rest e (emit s (c ∷ [])) (suc i) h.1 k
    ∙ landing rest (ap (in_line false) (emit-emit s (c ∷ []) _)) (omega arith)

abbrev pub in_block : Bool → Scan → Scan
in_block b s = record s {
  current_quote = 0;
  in_single_line_comment = false;
  in_multi_line_comment = b;
}

pub run_block :
    (body rest : Bytes) (s : Scan) (i : ℕ)
    → has_close (body ++ b'*' ∷ []) ≡ false
    → loop (in_block true s) i 0 (body ++ (b'*' ∷ b'/' ∷ rest))
      ≡ loop
          (in_block false (emit s (body ++ b'*' ∷ b'/' ∷ [])))
          (i + length (body ++ b'*' ∷ b'/' ∷ []))
          0
          rest
unfolding step step_block_comment has_close
run_block [] rest s i h = loop_two _ _ _ _ b'/' rest refl ∙ landing rest refl (omega arith)
run_block (c ∷ cs) rest s i h =
    loop_one _ _ _ _ (cs ++ (b'*' ∷ b'/' ∷ rest)) (rw (stays cs h) refl)
    ∙ run_block cs rest (emit s (c ∷ [])) (suc i) (ground arith)
    ∙ landing rest (ap (in_block false) (emit-emit s (c ∷ []) _)) (omega arith)
  where
    stays :
        (cs : Bytes)
        → has_close (c ∷ (cs ++ b'*' ∷ [])) ≡ false
        → (c == b'*' && next_ch (cs ++ (b'*' ∷ b'/' ∷ rest)) == b'/') ≡ false
    stays [] h = ground arith
    stays (d ∷ ds) h = ground arith
