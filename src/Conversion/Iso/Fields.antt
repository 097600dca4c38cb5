-- ===== src/Conversion/Iso/Fields.antt =====
-- `parseIsoDate` and `parseIsoTime` on the texts that the codec prints.
use fbpp.Prelude.{
  ℕ, zero, suc, ◌^◌, ◌<◌, ◌≡◌, refl, ap, ◌∙◌, false, List, [], ◌∷◌, ◌++◌, ltb, length, take, drop,
  arith, append_assoc, append-nil, sym, length-append,
}
use fbpp.Prelude.Ascii.{Bytes}
use fbpp.Prelude.Decimal.{to_string}
use fbpp.Prelude.Result.{ok, ◌>>=◌}
use fbpp.NamedParam.{next_ch}
use fbpp.Conversion.Decimals.{pad_zeros}
use fbpp.Conversion.Decimals.Padding.{length-pad_zeros}
use fbpp.Conversion.Iso.{
  DateFields, TimeFields, stoul, parse_iso_date, parse_iso_time, print_date, print_time,
  print_timestamp, read_timestamp,
}
use fbpp.Conversion.Iso.Stoul.{stoul-pad_zeros}

two : (xs : Bytes) → length xs ≡ 2 → (a : ℕ) × (b : ℕ) × (xs ≡ a ∷ b ∷ [])
two [] h = absurd (omega arith)
two (a ∷ []) h = absurd (omega (arith, h))
two (a ∷ b ∷ []) h = (a, b, refl)
two (a ∷ b ∷ c ∷ xs) h = absurd (omega (arith, h))

four :
    (xs : Bytes) → length xs ≡ 4 → (a : ℕ) × (b : ℕ) × (c : ℕ) × (d : ℕ) × (xs ≡ a ∷ b ∷ c ∷ d ∷ [])
four [] h = absurd (omega arith)
four (a ∷ []) h = absurd (omega (arith, h))
four (a ∷ b ∷ []) h = absurd (omega (arith, h))
four (a ∷ b ∷ xs) h =
    let (c, d, e) = two xs (omega (arith, h)) in (a, b, c, d, ap (λ (ys : Bytes). a ∷ b ∷ ys) e)

long_enough :
    (rest : Bytes)
    → ltb (suc (suc (suc (suc (suc (suc (suc (suc (suc (suc (length rest))))))))))) 10 ≡ false
long_enough rest = ground arith

parse_iso_date-parts :
    (ys ms ds rest : Bytes)
    → length ys ≡ 4
    → length ms ≡ 2
    → length ds ≡ 2
    → parse_iso_date (ys ++ (b'-' ∷ (ms ++ (b'-' ∷ (ds ++ rest)))))
      ≡ (do y ← stoul ys; m ← stoul ms; d ← stoul ds; ok (record { year = y; month = m; day = d }))
unfolding parse_iso_date
parse_iso_date-parts ys ms ds rest hy hm hd =
    let (a, b, c, d, ey) = four ys hy in
    let (e, f, em) = two ms hm in
    let (g, h, ed) = two ds hd in rw (ey, em, ed, long_enough rest) refl

parse_iso_time-parts :
    (hs ms ss fs : Bytes)
    → length hs ≡ 2
    → length ms ≡ 2
    → length ss ≡ 2
    → length fs ≡ 4
    → parse_iso_time (hs ++ (b':' ∷ (ms ++ (b':' ∷ (ss ++ (b'.' ∷ fs)))))) ≡ (do
      h ← stoul hs
      m ← stoul ms
      s ← stoul ss
      f ← stoul fs
      ok (record { hours = h; minutes = m; seconds = s; fractions = f }))
unfolding parse_iso_time
parse_iso_time-parts hs ms ss fs hh hm hd hf =
    let (a, b, eh) = two hs hh in
    let (c, d, em) = two ms hm in
    let (e, f, es) = two ss hd in let (g, h, i, j, ef) = four fs hf in rw (eh, em, es, ef) refl

abbrev pub IsDate : DateFields → Type 0
IsDate d = (d.year < 10 ^ 4) × (d.month < 10 ^ 2) × (d.day < 10 ^ 2)

abbrev pub IsTime : TimeFields → Type 0
IsTime t = (t.hours < 10 ^ 2) × (t.minutes < 10 ^ 2) × (t.seconds < 10 ^ 2) × (t.fractions < 10 ^ 4)

-- A printed date, whatever follows it, is parsed as its fields.
parse_iso_date-print_date :
    (d : DateFields) (rest : Bytes) → IsDate d → parse_iso_date (print_date d ++ rest) ≡ ok d
unfolding print_date
parse_iso_date-print_date d rest (y, m, k) =
    rw
      (
        append_assoc (pad_zeros 4 (to_string d.year)),
        append_assoc (pad_zeros 2 (to_string d.month)),
      )
      (parse_iso_date-parts _ _ _ rest (length-pad_zeros 3 d.year y) (length-pad_zeros 1 d.month m)
          (length-pad_zeros 1 d.day k)
        ∙ rw
            (
              stoul-pad_zeros d.year 3 (omega arith) y,
              stoul-pad_zeros d.month 1 (omega arith) m,
              stoul-pad_zeros d.day 1 (omega arith) k,
            )
            refl)

parse_iso_time-print_time : (t : TimeFields) → IsTime t → parse_iso_time (print_time t) ≡ ok t
unfolding print_time
parse_iso_time-print_time t (h, m, s, f) =
    parse_iso_time-parts _ _ _ _ (length-pad_zeros 1 t.hours h) (length-pad_zeros 1 t.minutes m)
      (length-pad_zeros 1 t.seconds s) (length-pad_zeros 3 t.fractions f)
    ∙ rw
        (
          stoul-pad_zeros t.hours 1 (omega arith) h,
          stoul-pad_zeros t.minutes 1 (omega arith) m,
          stoul-pad_zeros t.seconds 1 (omega arith) s,
          stoul-pad_zeros t.fractions 3 (omega arith) f,
        )
        refl

print_date-length : (d : DateFields) → IsDate d → length (print_date d) ≡ 10
unfolding print_date
print_date-length d (y, m, k) =
    rw (length-append, length-append)
      (omega (
        arith,
        length-pad_zeros 3 d.year y,
        length-pad_zeros 1 d.month m,
        length-pad_zeros 1 d.day k,
      ))

print_time-length : (t : TimeFields) → IsTime t → length (print_time t) ≡ 13
unfolding print_time
print_time-length t (h, m, s, f) =
    rw (length-append, length-append, length-append)
      (omega (
        arith,
        length-pad_zeros 1 t.hours h,
        length-pad_zeros 1 t.minutes m,
        length-pad_zeros 1 t.seconds s,
        length-pad_zeros 3 t.fractions f,
      ))

pub take-length {ℓ} : {A : Type ℓ} (xs ys : List A) (n : ℕ) → length xs ≡ n → take n (xs ++ ys) ≡ xs
take-length [] ys zero h = refl
take-length [] ys (suc n) h = absurd (omega (arith, h))
take-length (x ∷ xs) ys zero h = absurd (omega (arith, h))
take-length (x ∷ xs) ys (suc n) h = ap (λ zs. x ∷ zs) (take-length xs ys n (omega (arith, h)))

pub drop-length {ℓ} : {A : Type ℓ} (xs ys : List A) (n : ℕ) → length xs ≡ n → drop n (xs ++ ys) ≡ ys
drop-length [] ys zero h = refl
drop-length [] ys (suc n) h = absurd (omega (arith, h))
drop-length (x ∷ xs) ys zero h = absurd (omega (arith, h))
drop-length (x ∷ xs) ys (suc n) h = drop-length xs ys n (omega (arith, h))

drop-length_suc {ℓ} :
    {A : Type ℓ} (xs : List A) (y : A) (ys : List A) (n : ℕ)
    → length xs ≡ n
    → drop (suc n) (xs ++ (y ∷ ys)) ≡ ys
drop-length_suc [] y ys zero h = refl
drop-length_suc [] y ys (suc n) h = absurd (omega (arith, h))
drop-length_suc (x ∷ xs) y ys zero h = absurd (omega (arith, h))
drop-length_suc (x ∷ xs) y ys (suc n) h = drop-length_suc xs y ys n (omega (arith, h))

-- The parts of a printed timestamp.
module _ (d : DateFields) (t : TimeFields) (hd : IsDate d) (ht : IsTime t) where
  pub print_timestamp-length : length (print_timestamp d t) ≡ 24
  unfolding print_timestamp
  print_timestamp-length = omega (
    arith,
    length-append (print_date d) (b'T' ∷ print_time t),
    print_date-length d hd,
    print_time-length t ht,
  )

  pub date_part : parse_iso_date (take 10 (print_timestamp d t)) ≡ ok d
  unfolding print_timestamp
  date_part =
      rw (take-length (print_date d) (b'T' ∷ print_time t) 10 (print_date-length d hd))
        (ap parse_iso_date (sym (append-nil (print_date d))) ∙ parse_iso_date-print_date d [] hd)

  pub time_part : parse_iso_time (drop 11 (print_timestamp d t)) ≡ ok t
  unfolding print_timestamp
  time_part =
      rw (drop-length_suc (print_date d) b'T' (print_time t) 10 (print_date-length d hd))
        (parse_iso_time-print_time t ht)

  marker : next_ch (drop 10 (print_timestamp d t)) ≡ b'T'
  unfolding print_timestamp
  marker = ap next_ch (drop-length (print_date d) (b'T' ∷ print_time t) 10 (print_date-length d hd))

  -- A printed timestamp whose fields fit their width is read back.
  read_timestamp-print_timestamp : read_timestamp (print_timestamp d t) ≡ ok (d, t)
  unfolding read_timestamp
  read_timestamp-print_timestamp = rw (print_timestamp-length, marker, date_part, time_part) refl
