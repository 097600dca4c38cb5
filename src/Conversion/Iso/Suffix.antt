-- ===== src/Conversion/Iso/Suffix.antt =====
-- `splitTzSuffix` on the texts that the codec prints.
use fbpp.Prelude.{
  ℕ, zero, suc, ◌^◌, ◌≤◌, ◌<◌, ◌≡◌, refl, ap, Bool, true, false, ◌||◌, List, [], ◌∷◌, ◌++◌, ◌==◌,
  length, take, drop, arith, All, none, some, Bool-cases, inl, inr, All-map, take-drop,
}
use fbpp.Prelude.Ascii.{Bytes, isdigit}
use fbpp.Prelude.Decimal.{to_string, all_digits}
use fbpp.Prelude.Result.{ok}
use fbpp.NamedParam.{next_ch}
use fbpp.NamedParam.Positional.{nonempty}
use fbpp.Conversion.{before_ch, after_ch}
use fbpp.Conversion.Decimals.{is_sign, pad_zeros}
use fbpp.Conversion.Decimals.Padding.{all_digits-pad_zeros}
use fbpp.Conversion.Iso.{
  DateFields, TimeFields, has_ch, last_ch, last_sign, split_tz_suffix, print_date, print_time,
  print_timestamp, append_zone, read_timestamp_tz,
}
use fbpp.Conversion.Iso.Fields.{
  IsDate, IsTime, print_timestamp-length, date_part, time_part, take-length, drop-length,
}

take-append {ℓ} :
    {A : Type ℓ} (n : ℕ) (xs ys : List A) → n ≤ length xs → take n (xs ++ ys) ≡ take n xs
take-append zero xs ys h = refl
take-append (suc n) [] ys h = absurd (omega (arith, h))
take-append (suc n) (x ∷ xs) ys h = ap (λ zs. x ∷ zs) (take-append n xs ys (omega (arith, h)))

drop-append {ℓ} :
    {A : Type ℓ} (n : ℕ) (xs ys : List A) → n ≤ length xs → drop n (xs ++ ys) ≡ drop n xs ++ ys
drop-append zero xs ys h = refl
drop-append (suc n) [] ys h = absurd (omega (arith, h))
drop-append (suc n) (x ∷ xs) ys h = drop-append n xs ys (omega (arith, h))

has_ch-append : (ch : ℕ) (xs ys : Bytes) → has_ch ch (xs ++ ys) ≡ (has_ch ch xs || has_ch ch ys)
unfolding has_ch
has_ch-append ch [] ys = refl
has_ch-append ch (x ∷ xs) ys = ground (arith, has_ch-append ch xs ys)

has_ch-drop : (ch n : ℕ) (xs : Bytes) → has_ch ch xs ≡ false → has_ch ch (drop n xs) ≡ false
unfolding has_ch
has_ch-drop ch zero xs h = h
has_ch-drop ch (suc n) [] h = h
has_ch-drop ch (suc n) (x ∷ xs) h = has_ch-drop ch n xs (ground (arith, h))

before_ch-absent :
    (ch : ℕ) (xs ys : Bytes) → has_ch ch xs ≡ false → before_ch ch (xs ++ (ch ∷ ys)) ≡ xs
unfolding has_ch before_ch
before_ch-absent ch [] ys h = ground arith
before_ch-absent ch (x ∷ xs) ys h = ground (arith, before_ch-absent ch xs ys)

after_ch-absent :
    (ch : ℕ) (xs ys : Bytes) → has_ch ch xs ≡ false → after_ch ch (xs ++ (ch ∷ ys)) ≡ ys
unfolding has_ch after_ch
after_ch-absent ch [] ys h = ground arith
after_ch-absent ch (x ∷ xs) ys h = ground (arith, after_ch-absent ch xs ys)

last_sign-append :
    (xs : Bytes) (c : ℕ) (ds : Bytes)
    → is_sign c ≡ true
    → last_sign ds ≡ none
    → last_sign (xs ++ (c ∷ ds)) ≡ some (length xs)
unfolding last_sign
last_sign-append [] c ds h k = rw (k, h) refl
last_sign-append (x ∷ xs) c ds h k = rw (last_sign-append xs c ds h k) refl

last_ch-append : (xs : Bytes) (c : ℕ) (ds : Bytes) → last_ch (xs ++ (c ∷ ds)) ≡ last_ch (c ∷ ds)
unfolding last_ch
last_ch-append [] c ds = refl
last_ch-append (x ∷ []) c ds = refl
last_ch-append (x ∷ y ∷ xs) c ds = last_ch-append (y ∷ xs) c ds

-- The digits and colons of an offset.
abbrev pub IsOffset : Bytes → Type 0
IsOffset = All (λ c. (isdigit c || c == b':') ≡ true)

last_sign-IsOffset : (ds : Bytes) → IsOffset ds → last_sign ds ≡ none
unfolding last_sign
last_sign-IsOffset [] h = refl
last_sign-IsOffset (d ∷ ds) h = rw (last_sign-IsOffset ds h.1) (ground (arith, h.0))

has_ch-IsOffset : (ds : Bytes) → IsOffset ds → has_ch b' ' ds ≡ false
unfolding has_ch
has_ch-IsOffset [] h = refl
has_ch-IsOffset (d ∷ ds) h = ground (arith, h.0, has_ch-IsOffset ds h.1)

last_ch-All : (P : ℕ → Type 0) (x : ℕ) (xs : Bytes) → P x → All P xs → P (last_ch (x ∷ xs))
unfolding last_ch
last_ch-All P x [] p h = p
last_ch-All P x (y ∷ xs) p h = last_ch-All P y xs h.0 h.1

abbrev is_utc : ℕ → Bool
is_utc c = c == b'Z' || c == b'z'

last_ch-IsOffset :
    (c : ℕ) (ds : Bytes) → is_sign c ≡ true → IsOffset ds → is_utc (last_ch (c ∷ ds)) ≡ false
last_ch-IsOffset c ds h k =
    last_ch-All (λ x. is_utc x ≡ false) c ds (ground arith)
      (All-map (λ x (e : (isdigit x || x == b':') ≡ true). ground (arith, e)) ds k)

has_ch-digits : (xs : Bytes) → all_digits xs ≡ true → has_ch b' ' xs ≡ false
unfolding has_ch all_digits
has_ch-digits [] h = refl
has_ch-digits (x ∷ xs) h = ground (arith, has_ch-digits xs)

has_ch-padded : (n w : ℕ) → n < 10 ^ suc w → has_ch b' ' (pad_zeros (suc w) (to_string n)) ≡ false
has_ch-padded n w h = has_ch-digits _ (all_digits-pad_zeros w n h)

has_ch-cons : (c : ℕ) (xs : Bytes) → has_ch b' ' (c ∷ xs) ≡ (c == b' ' || has_ch b' ' xs)
unfolding has_ch
has_ch-cons c xs = refl

print_timestamp-no_blank :
    (d : DateFields) (t : TimeFields)
    → IsDate d
    → IsTime t
    → has_ch b' ' (print_timestamp d t) ≡ false
unfolding print_timestamp print_date print_time
print_timestamp-no_blank d t (y, m, k) (h, mi, s, f) =
    rw
      (
        has_ch-append,
        has_ch-append,
        has_ch-cons,
        has_ch-append,
        has_ch-cons,
        has_ch-cons,
        has_ch-append,
        has_ch-cons,
        has_ch-append,
        has_ch-cons,
        has_ch-append,
        has_ch-cons,
        has_ch-padded d.year 3 y,
        has_ch-padded d.month 1 m,
        has_ch-padded d.day 1 k,
        has_ch-padded t.hours 1 h,
        has_ch-padded t.minutes 1 mi,
        has_ch-padded t.seconds 1 s,
        has_ch-padded t.fractions 3 f,
      )
      refl

-- What the engine names a zone: an offset, or a region, which does not begin with a sign.
abbrev pub IsZone : Bytes → Type 0
IsZone zone = (nonempty zone ≡ true) × (is_sign (next_ch zone) ≡ true → IsOffset (drop 1 zone))

module _ (min_body : ℕ) (body : Bytes) (long : min_body ≤ length body)
    (no_blank : has_ch b' ' body ≡ false) where
  tail_clear : has_ch b' ' (drop min_body body) ≡ false
  tail_clear = has_ch-drop b' ' min_body body no_blank

  split_tz_suffix-region :
      (z : Bytes) → nonempty z ≡ true → split_tz_suffix (body ++ (b' ' ∷ z)) min_body ≡ ok (body, z)
  unfolding split_tz_suffix has_ch
  split_tz_suffix-region z h =
      rw
        (
          drop-append min_body body (b' ' ∷ z) long,
          take-append min_body body (b' ' ∷ z) long,
          has_ch-append b' ' (drop min_body body) (b' ' ∷ z),
          after_ch-absent b' ' (drop min_body body) z tail_clear,
          before_ch-absent b' ' (drop min_body body) z tail_clear,
          take-drop min_body body,
          tail_clear,
          h,
        )
        refl

  split_tz_suffix-offset :
      (c : ℕ) (ds : Bytes)
      → is_sign c ≡ true
      → IsOffset ds
      → split_tz_suffix (body ++ (c ∷ ds)) min_body ≡ ok (body, c ∷ ds)
  unfolding split_tz_suffix
  split_tz_suffix-offset c ds h k =
      rw
        (
          drop-append min_body body (c ∷ ds) long,
          has_ch-append b' ' (drop min_body body) (c ∷ ds),
          tail_clear,
          no_blank_behind,
          last_ch-append body c ds,
          last_ch-IsOffset c ds h k,
          last_sign-append body c ds h (last_sign-IsOffset ds k),
        )
        (ground (
          arith,
          long,
          take-length body (c ∷ ds) (length body) refl,
          drop-length body (c ∷ ds) (length body) refl,
        ))
    where
      no_blank_behind : has_ch b' ' (c ∷ ds) ≡ false
      no_blank_behind = unfold has_ch in ground (arith, has_ch-IsOffset ds k)

append_zone-split :
    (body zone : Bytes)
    → 19 ≤ length body
    → has_ch b' ' body ≡ false
    → IsZone zone
    → split_tz_suffix (append_zone body zone) 19 ≡ ok (body, zone)
unfolding append_zone
append_zone-split body [] long no_blank z = absurd (cc)
append_zone-split body (c ∷ cs) long no_blank (z, o) = elim (Bool-cases (is_sign c)) [
  | inl e ↦ rw e (split_tz_suffix-offset 19 body long no_blank c cs e (o e))
  | inr e ↦ rw e (split_tz_suffix-region 19 body long no_blank (c ∷ cs) refl)
]

-- A timestamp with a zone, printed from fields that fit their width and a zone that is an offset
-- of digits and colons or a region, is read back as the same fields and the same zone.
pub read_timestamp_tz-append_zone :
    (d : DateFields) (t : TimeFields) (zone : Bytes)
    → IsDate d
    → IsTime t
    → IsZone zone
    → read_timestamp_tz (append_zone (print_timestamp d t) zone) ≡ ok (d, t, zone)
unfolding read_timestamp_tz
read_timestamp_tz-append_zone d t zone hd ht hz =
    rw
      (
        append_zone-split (print_timestamp d t) zone
            (omega (arith, print_timestamp-length d t hd ht)) (print_timestamp-no_blank d t hd ht)
            hz,
        date_part d t hd ht,
        time_part d t hd ht,
      )
      refl
