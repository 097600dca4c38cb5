-- ===== src/Schema/Generator/Literals.antt =====
-- What a C++ compiler reads from the constants of the generated header.
use fbpp.Prelude.{
  ℕ, suc, ◌≤◌, ◌≡◌, refl, sym, ◌∙◌, ap, Bool, true, false, ◌||◌, [], ◌∷◌, ◌++◌, Option, none, some,
  ◌==◌, if◌then◌else◌, length, All, Bool-cases, ==_iff, inl, inr, arith, ◌↔◌,
}
use fbpp.Prelude.Ascii.{Bytes}
use fbpp.Schema.Generator.{
  escape_char, escape_string, is_brace, escape_braces_for_format, sql_constant,
}

-- The simple escape sequences that are needed.
unfoldable pub unescape : ℕ → Option ℕ
unescape c =
    if c == 92
    then some 92
    else if c == 34
    then some 34
    else if c == b'n'
    then some 10
    else if c == b'r'
    then some 13
    else if c == b't'
    then some 9
    else none

abbrev pub read_more : Option ℕ → Option Bytes → Option Bytes
read_more (some c) (some text) = some (c ∷ text)
read_more (some c) none = none
read_more none text = none

-- The value of a string literal, from the text between its quotes; a quote or a newline that is not
-- escaped ends it too early. The flag is set behind a backslash.
unfoldable pub read_literal : Bool → Bytes → Option Bytes
read_literal true [] = none
read_literal false [] = some []
read_literal true (c ∷ cs) = read_more (unescape c) (read_literal false cs)
read_literal false (c ∷ cs) =
    let escaped = read_literal true cs in
    let plain = read_literal false cs in
    if c == 92 then escaped else if c == 34 || c == 10 then none else read_more (some c) plain

read_literal-plain :
    (c : ℕ) (cs text : Bytes)
    → (c == 92) ≡ false
    → (c == 34) ≡ false
    → (c == 10) ≡ false
    → read_literal false cs ≡ some text
    → read_literal false (c ∷ cs) ≡ some (c ∷ text)
unfolding read_literal
read_literal-plain c cs text p q r h = rw (p, q, r, h) refl

read_literal-once_or_twice :
    (c : ℕ) (cs text : Bytes)
    → (c == 92) ≡ false
    → (c == 34) ≡ false
    → (c == 10) ≡ false
    → read_literal false (escape_braces_for_format cs) ≡ some text
    → read_literal false (escape_braces_for_format (c ∷ cs))
      ≡ some ((if is_brace c then c ∷ c ∷ [] else c ∷ []) ++ text)
unfolding escape_braces_for_format
read_literal-once_or_twice c cs text p q r h = elim (Bool-cases (is_brace c)) [
  | inl e ↦ rw e (read_literal-plain c _ (c ∷ text) p q r (read_literal-plain c _ text p q r h))
  | inr e ↦ rw e (read_literal-plain c _ text p q r h)
]

-- Both escapes of one character in front of a text.
read_literal-char :
    (c : ℕ) (cs text : Bytes)
    → read_literal false (escape_braces_for_format cs) ≡ some text
    → read_literal false (escape_braces_for_format (escape_char c ++ cs))
      ≡ some ((if is_brace c then c ∷ c ∷ [] else c ∷ []) ++ text)
unfolding escape_char escape_braces_for_format read_literal unescape
read_literal-char c cs text h = elim (Bool-cases (c == 92)) [
  | inl e ↦ let same : c ≡ 92 = (==_iff c 92).0 e in rw (same, h) refl
  | inr a ↦ elim (Bool-cases (c == 34)) [
    | inl e ↦ let same : c ≡ 34 = (==_iff c 34).0 e in rw (same, h) refl
    | inr b ↦ elim (Bool-cases (c == 10)) [
      | inl e ↦ let same : c ≡ 10 = (==_iff c 10).0 e in rw (same, h) refl
      | inr d ↦ elim (Bool-cases (c == 13)) [
        | inl e ↦ let same : c ≡ 13 = (==_iff c 13).0 e in rw (same, h) refl
        | inr g ↦ elim (Bool-cases (c == 9)) [
          | inl e ↦ let same : c ≡ 9 = (==_iff c 9).0 e in rw (same, h) refl
          | inr k ↦ rw (a, b, d, g, k) (read_literal-once_or_twice c cs text a b d h)
        ]
      ]
    ]
  ]
]

sql_constant-read_from :
    (sql : Bytes) → read_literal false (sql_constant sql) ≡ some (escape_braces_for_format sql)
unfolding sql_constant escape_string escape_braces_for_format read_literal
sql_constant-read_from [] = refl
sql_constant-read_from (c ∷ cs) =
    read_literal-char c (escape_string cs) (escape_braces_for_format cs) (sql_constant-read_from cs)

abbrev pub NoBrace : Bytes → Type 0
NoBrace s = All (λ c. is_brace c ≡ false) s

escape_braces_for_format-NoBrace : (s : Bytes) → NoBrace s → escape_braces_for_format s ≡ s
unfolding escape_braces_for_format
escape_braces_for_format-NoBrace [] h = refl
escape_braces_for_format-NoBrace (c ∷ cs) h = rw (h.0, escape_braces_for_format-NoBrace cs h.1) refl

length-escape_braces : (s : Bytes) → length s ≤ length (escape_braces_for_format s)
unfolding escape_braces_for_format
length-escape_braces [] = omega arith
length-escape_braces (c ∷ cs) = elim (Bool-cases (is_brace c)) [
  | inl e ↦ rw e (omega (arith, length-escape_braces cs))
  | inr e ↦ rw e (omega (arith, length-escape_braces cs))
]

NoBrace-escape_braces : (s : Bytes) → escape_braces_for_format s ≡ s → NoBrace s
unfolding escape_braces_for_format
NoBrace-escape_braces [] h = tt
NoBrace-escape_braces (c ∷ cs) h = elim (Bool-cases (is_brace c)) [
  | inl e ↦
      let lengths : suc (suc (length (escape_braces_for_format cs))) ≡ suc (length cs) =
        rw e at (ap length h) in
      absurd (omega (arith, length-escape_braces cs))
  | inr e ↦
      let rest : escape_braces_for_format cs ≡ cs =
        let h' : c ∷ escape_braces_for_format cs ≡ c ∷ cs = rw e at h in cc in
      (e, NoBrace-escape_braces cs rest)
]

-- The constant of the generated header is a string literal, whatever the SQL, and what is read from
-- it is the SQL with every brace doubled; so it is the SQL exactly if the SQL has no brace.
pub sql_constant-read :
    (sql : Bytes)
    → (read_literal false (sql_constant sql) ≡ some (escape_braces_for_format sql))
      × ((read_literal false (sql_constant sql) ≡ some sql) ↔ NoBrace sql)
sql_constant-read sql =
    let read : read_literal false (sql_constant sql) ≡ some (escape_braces_for_format sql) =
      sql_constant-read_from sql in
    (
      read,
      (
        λ h.
            let both : some (escape_braces_for_format sql) ≡ some sql = sym read ∙ h in
            let same : escape_braces_for_format sql ≡ sql = cc in NoBrace-escape_braces sql same,
        λ h. read ∙ ap some (escape_braces_for_format-NoBrace sql h),
      ),
    )
