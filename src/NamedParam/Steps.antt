-- ===== src/NamedParam/Steps.antt =====
-- What one round of the scanner does, whatever its mode: it copies one or two characters, or it
-- takes a named parameter.
use fbpp.Prelude.{
  ℕ, ◌+◌, ◌≡◌, sym, ◌≢◌, ◌⊎◌, true, not, ◌&&◌, ◌||◌, [], ◌∷◌, ◌++◌, ◌==◌, length, arith, if_elim,
}
use fbpp.Prelude.Ascii.{Bytes}
use fbpp.NamedParam.{
  Scan, step, step_quote, step_line_comment, step_block_comment, step_code, add_param, ident,
  is_ident_start, next_ch,
}

-- `t` differs from `s` in its mode and position count only, and has copied `bs`.
pub record Copies (s t : Scan) (bs : Bytes) : Type 0 where
  pub converted : t.converted_sql ≡ s.converted_sql ++ bs
  pub same_parameters : t.parameters ≡ s.parameters
  pub same_map : t.name_to_positions ≡ s.name_to_positions
  pub same_flag : t.has_named_params ≡ s.has_named_params
  pub grows : t.param_position ≡ s.param_position ⊎ (t.param_position ≡ s.param_position + 1)

pub data Moves (s : Scan) (i c : ℕ) : Bytes → Scan → ℕ → Type 0 where
  copy_one : {cs : Bytes} {t : Scan} → Copies s t (c ∷ []) → Moves s i c cs t 0
  copy_two : {d : ℕ} {ds : Bytes} {t : Scan} → Copies s t (c ∷ d ∷ []) → Moves s i c (d ∷ ds) t 1
  take_param :
      {cs : Bytes}
      → (c == b':' || c == b'@') ≡ true
      → is_ident_start (next_ch cs) ≡ true
      → Moves s i c cs (add_param s i (ident cs)) (length (ident cs))

abbrev MovesBy : Scan → ℕ → ℕ → Bytes → Scan × ℕ → Type 0
MovesBy s i c cs r = Moves s i c cs r.0 r.1

-- The second of two equal characters is there, since the first is not '\0'.
two :
    {s t : Scan} {i c : ℕ} (d : ℕ) (cs : Bytes)
    → d ≢ 0
    → next_ch cs ≡ d
    → Copies s t (c ∷ next_ch cs ∷ [])
    → Moves s i c cs t 1
two d [] h e k = absurd (h (sym e))
two d (x ∷ cs) h e k = copy_two k

step_quote-Moves :
    (s : Scan) (i c : ℕ) (cs : Bytes)
    → s.current_quote ≢ 0
    → MovesBy s i c cs (step_quote s c (next_ch cs))
unfolding step_quote
step_quote-Moves s i c cs h =
    if_elim (MovesBy s i c cs) (c == s.current_quote)
      (λ e.
        if_elim (MovesBy s i c cs) (next_ch cs == s.current_quote)
          (λ k. two s.current_quote cs h (ground arith) (ground arith))
          (λ k. copy_one (ground arith)))
      (λ e. copy_one (ground arith))

step_line_comment-Moves :
    (s : Scan) (i c : ℕ) (cs : Bytes) → MovesBy s i c cs (step_line_comment s c)
unfolding step_line_comment
step_line_comment-Moves s i c cs =
    if_elim (MovesBy s i c cs) (c == b'\n' || c == b'\r') (λ e. copy_one (ground arith))
      (λ e. copy_one (ground arith))

step_block_comment-Moves :
    (s : Scan) (i c : ℕ) (cs : Bytes) → MovesBy s i c cs (step_block_comment s c (next_ch cs))
unfolding step_block_comment
step_block_comment-Moves s i c cs =
    if_elim (MovesBy s i c cs) (c == b'*' && next_ch cs == b'/')
      (λ e. two b'/' cs (omega arith) (ground arith) (ground arith)) (λ e. copy_one (ground arith))

step_code-Moves : (s : Scan) (i c : ℕ) (cs : Bytes) → MovesBy s i c cs (step_code s i c cs)
unfolding step_code
step_code-Moves s i c cs =
    if_elim P (c == b'-' && next_ch cs == b'-')
      (λ e. two b'-' cs (omega arith) (ground arith) (ground arith))
      λ _.
        if_elim P (c == b'/' && next_ch cs == b'*')
          (λ e. two b'*' cs (omega arith) (ground arith) (ground arith))
          λ _.
            if_elim P (c == b'\'' || c == b'"') (λ e. copy_one (ground arith))
              λ _.
                if_elim P ((c == b':' || c == b'@') && is_ident_start (next_ch cs))
                  (λ e. take_param (ground arith) (ground arith)) λ _. copy_one (ground arith)
  where
    P : Scan × ℕ → Type 0
    P = MovesBy s i c cs

pub step-Moves :
    (s : Scan) (i c : ℕ) (cs : Bytes) → Moves s i c cs (step s i c cs).0 (step s i c cs).1
unfolding step
step-Moves s i c cs =
    if_elim (MovesBy s i c cs) (not (s.current_quote == 0))
      (λ e. step_quote-Moves s i c cs (λ z. ground arith))
      λ _.
        if_elim (MovesBy s i c cs) s.in_single_line_comment (λ _. step_line_comment-Moves s i c cs)
          λ _.
            if_elim (MovesBy s i c cs) s.in_multi_line_comment
              (λ _. step_block_comment-Moves s i c cs) (λ _. step_code-Moves s i c cs)
