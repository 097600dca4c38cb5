-- ===== src/DateTime/Civil.antt =====
-- `Date(year, month, day)` against the Gregorian calendar.
use fbpp.Prelude.{
  ℕ, ◌+◌, ◌-◌, ◌*◌, ◌/◌, ◌%◌, ◌^◌, ◌≤◌, ◌<◌, ◌≡◌, refl, Bool, true, false, not, ◌&&◌, ◌||◌, leb,
  ltb, ◌==◌, if◌then◌else◌, arith, inl, inr, Bool-cases, ◌∙◌, ==_iff,
}
use fbpp.Prelude.Int.{pos, ◌+ℤ◌, ◌-ℤ◌, wrap}
use fbpp.DateTime.{make_date, civil_year, year_of_era, day_of_year, day_of_era}

-- The Gregorian calendar.
abbrev pub is_leap : ℕ → Bool
is_leap y = y % 4 == 0 && (not (y % 100 == 0) || y % 400 == 0)

abbrev pub days_in_month : ℕ → ℕ → ℕ
days_in_month y m =
    if m == 2
    then (if is_leap y then 29 else 28)
    else if m == 4 || (m == 6 || (m == 9 || m == 11))
    then 30
    else 31

abbrev pub IsDay : ℕ → ℕ → ℕ → Type 0
IsDay y m d = (1 ≤ y) × (y < 10000) × (1 ≤ m) × (m ≤ 12) × (1 ≤ d) × (d ≤ days_in_month y m)

-- The day number in the years after 1 BC, with no wrap.
abbrev plain_number : ℕ → ℕ → ℕ
plain_number y doy = y / 400 * 146097 + (y % 400 * 365 + y % 400 / 4 - y % 400 / 100 + doy)

abbrev plain_day_of_year : ℕ → ℕ → ℕ
plain_day_of_year m d = (153 * (if ltb 2 m then m - 3 else m + 9) + 2) / 5 + d - 1

civil_year-pos : (y m : ℕ) → 1 ≤ y → civil_year (pos y) m ≡ pos (if leb m 2 then y - 1 else y)
unfolding ◌-ℤ◌
civil_year-pos y m h = ground arith

year_of_era-pos : (n : ℕ) → year_of_era (pos n) ≡ n % 400
unfolding ◌-ℤ◌
year_of_era-pos n = ground arith

day_of_year-plain :
    (m d : ℕ) → 1 ≤ m → m ≤ 12 → 1 ≤ d → d ≤ 31 → day_of_year m d ≡ plain_day_of_year m d
day_of_year-plain m d a b c e = ground arith

day_of_year-bound : (m d : ℕ) → 1 ≤ m → m ≤ 12 → 1 ≤ d → d ≤ 31 → plain_day_of_year m d ≤ 400
day_of_year-bound m d a b c e = ground arith

day_of_era-plain :
    (yoe doy : ℕ)
    → yoe < 400
    → doy ≤ 400
    → day_of_era yoe doy ≡ yoe * 365 + yoe / 4 - yoe / 100 + doy
day_of_era-plain yoe doy h k = omega arith

shifted :
    (a b : ℕ)
    → wrap (2 ^ 32) (pos a +ℤ pos b -ℤ pos 719468 +ℤ pos 40587)
      ≡ (a + b + 40587 + 2 ^ 32 - 719468) % 2 ^ 32
unfolding ◌+ℤ◌ ◌-ℤ◌
shifted a b = ground arith

make_date-plain :
    (y m d : ℕ)
    → 1 ≤ y
    → 1 ≤ m
    → m ≤ 12
    → 1 ≤ d
    → d ≤ 31
    → make_date (pos y) m d
      ≡ (plain_number (if leb m 2 then y - 1 else y) (plain_day_of_year m d)
          + 40587
          + 2 ^ 32
          - 719468)
        % 2 ^ 32
unfolding make_date
make_date-plain y m d hy a b c e =
    rw
      (
        civil_year-pos y m hy,
        year_of_era-pos (if leb m 2 then y - 1 else y),
        day_of_year-plain m d a b c e,
        day_of_era-plain ((if leb m 2 then y - 1 else y) % 400) (plain_day_of_year m d)
            (omega arith) (day_of_year-bound m d a b c e),
      )
      (shifted ((if leb m 2 then y - 1 else y) / 400 * 146097) _)

year_length :
    (y : ℕ) → 1 ≤ y → plain_number y 0 ≡ plain_number (y - 1) (if is_leap y then 366 else 365)
year_length y h = ground arith

-- The calendar's next day.
abbrev pub next_day : ℕ → ℕ → ℕ → ℕ × ℕ × ℕ
next_day y m d =
    if ltb d (days_in_month y m)
    then (y, m, d + 1)
    else if m == 12
    then (y + 1, 1, 1)
    else (y, m + 1, 1)

abbrev number : ℕ × ℕ × ℕ → ℕ
number t = make_date (pos t.0) t.1 t.2

-- Numbers that differ by one, and are taken modulo 2^32.
successive :
    (a b : ℕ)
    → b ≡ a + 1
    → (b + 40587 + 2 ^ 32 - 719468) % 2 ^ 32 ≡ ((a + 40587 + 2 ^ 32 - 719468) % 2 ^ 32 + 1) % 2 ^ 32
successive a b h = ground arith

abbrev plain : ℕ → ℕ → ℕ → ℕ
plain y m d = plain_number (if leb m 2 then y - 1 else y) (plain_day_of_year m d)

same_month : (y m d : ℕ) → 1 ≤ d → plain y m (d + 1) ≡ plain y m d + 1
same_month y m d h = ground arith

new_year : (y : ℕ) → plain (y + 1) 1 1 ≡ plain y 12 31 + 1
new_year y = ground arith

month_length :
    (y m d : ℕ)
    → 1 ≤ m
    → m ≤ 11
    → (m == 2) ≡ false
    → d ≡ days_in_month y m
    → plain_day_of_year (m + 1) 1 ≡ plain_day_of_year m d + 1
month_length y m d h k n e = ground arith

same_year : (y m : ℕ) → 1 ≤ m → (m == 2) ≡ false → leb (m + 1) 2 ≡ leb m 2
same_year y m h n = ground arith

new_month :
    (y m d : ℕ)
    → 1 ≤ y
    → 1 ≤ m
    → m ≤ 11
    → d ≡ days_in_month y m
    → plain y (m + 1) 1 ≡ plain y m d + 1
new_month y m d hy h k e = elim (Bool-cases (m == 2)) [
  | inl t ↦ february t
  | inr n ↦ rw (same_year y m h n, month_length y m d h k n e) (omega arith)
]
  where
    february : (m == 2) ≡ true → plain y (m + 1) 1 ≡ plain y m d + 1
    february t =
        let two : m ≡ 2 = (==_iff m 2).0 t in
        let days : d ≡ (if is_leap y then 29 else 28) = e ∙ rw two refl in
        rw two (ground (arith, year_length y hy, days))

-- For every day of the years 1 to 9998, the next day of the Gregorian calendar has the next number
-- modulo 2^32, and the first of January 1970 has number 40587.
pub make_date-next_day :
    (y m d : ℕ)
    → IsDay y m d
    → y < 9999
    → (number (next_day y m d) ≡ (make_date (pos y) m d + 1) % 2 ^ 32)
      × (make_date (pos 1970) 1 1 ≡ 40587)
make_date-next_day y m d h k = (
  elim (Bool-cases (ltb d (days_in_month y m))) [
    | inl e ↦ rw e (same e)
    | inr e ↦
        rw e
          (elim (Bool-cases (m == 12)) [ inl t ↦ rw t (december t e) | inr n ↦ rw n (later n e) ])
  ],
  unfold make_date ◌+ℤ◌ ◌-ℤ◌ in refl,
)
  where
    last_day : ltb d (days_in_month y m) ≡ false → d ≡ days_in_month y m
    last_day e = ground (arith, h)

    short : d ≤ 31
    short = ground (arith, h)

    today :
        make_date (pos y) m d
        ≡ (plain_number (if leb m 2 then y - 1 else y) (plain_day_of_year m d)
            + 40587
            + 2 ^ 32
            - 719468)
          % 2 ^ 32
    today = make_date-plain y m d h.0 h.2 h.3 h.4 short

    last_of_year : (m == 12) ≡ true → d ≡ days_in_month y m → plain (y + 1) 1 1 ≡ plain y m d + 1
    last_of_year t e =
        let twelve : m ≡ 12 = (==_iff m 12).0 t in
        let days : d ≡ 31 = e ∙ rw twelve refl in rw (twelve, days) (new_year y)

    same :
        ltb d (days_in_month y m) ≡ true
        → make_date (pos y) m (d + 1) ≡ (make_date (pos y) m d + 1) % 2 ^ 32
    same e =
        rw (today, make_date-plain y m (d + 1) h.0 h.2 h.3 (omega arith) (ground arith))
          (successive (plain y m d) (plain y m (d + 1)) (same_month y m d h.4))

    december :
        (m == 12) ≡ true
        → ltb d (days_in_month y m) ≡ false
        → make_date (pos (y + 1)) 1 1 ≡ (make_date (pos y) m d + 1) % 2 ^ 32
    december t e =
        rw
          (
            today,
            make_date-plain (y + 1) 1 1 (omega arith) (omega arith) (omega arith) (omega arith)
                (omega arith),
          )
          (successive (plain y m d) (plain (y + 1) 1 1) (last_of_year t (last_day e)))

    later :
        (m == 12) ≡ false
        → ltb d (days_in_month y m) ≡ false
        → make_date (pos y) (m + 1) 1 ≡ (make_date (pos y) m d + 1) % 2 ^ 32
    later n e =
        rw
          (
            today,
            make_date-plain y (m + 1) 1 h.0 (omega arith) (ground (arith, h.3)) (omega arith)
                (omega arith),
          )
          (successive (plain y m d) (plain y (m + 1) 1)
            (new_month y m d h.0 h.2 (ground (arith, h.3)) (last_day e)))
