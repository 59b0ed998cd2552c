-- ===== src/Dates/Iso/RoundTrip.antt =====
-- What `isoformat` writes is read back by `fromisoformat`.
use plain_text_gtd.Prelude.{
  ℕ, ◌+◌, ◌-◌, ◌*◌, ◌/◌, ◌%◌, ◌≤◌, ◌<◌, ◌≡◌, refl, ◌∙◌, ap, true, false, [], ◌∷◌, ◌++◌, some, arith,
  nat_eq, le→leb, leb, length, take, drop,
}
use plain_text_gtd.Text.{Text}
use plain_text_gtd.Dates.{
  Date, DateTime, IsDate, date_of, day_length, CivilDate, civil_of, ordinal_of, days_in_month,
  is_leap,
}
use plain_text_gtd.Dates.Civil.{civil_of-fits, ordinal_of-civil_of}
use plain_text_gtd.Dates.Iso.{
  two_digits, four_digits, number_from, civil_iso, date_iso, civil_parts, civil_from_iso,
  date_from_iso, clock_iso, datetime_iso, clock_parts, clock_from_iso, datetime_from_iso, digit,
  ◌>>=◌,
}

number_from-digit :
    (n k : ℕ) (s : Text) → number_from n (digit k ∷ s) ≡ number_from (n * 10 + k % 10) s
unfolding number_from
number_from-digit n k s =
    let b : leb (digit k) 57 ≡ true = le→leb _ _ (omega arith) in
    let a : leb 48 (digit k) ≡ true = le→leb _ _ (omega arith) in
    rw (a, b) (ap (λ m. number_from m s) (omega arith))

number_from-two_digits : (n : ℕ) → n ≤ 99 → number_from 0 (two_digits n) ≡ some n
unfolding two_digits
number_from-two_digits n h =
    rw (number_from-digit 0, number_from-digit) (unfold number_from in ap some (omega arith))

number_from-four_digits : (n : ℕ) → n ≤ 9999 → number_from 0 (four_digits n) ≡ some n
unfolding four_digits
number_from-four_digits n h = simp number_from-digit (unfold number_from in ap some (omega arith))

days_in_month-le : (leap : _) (m : ℕ) → days_in_month leap m ≤ 99
unfolding days_in_month
days_in_month-le leap m = ground arith

civil_parts-digits :
    (c : CivilDate)
    → c.year ≤ 9999
    → c.month ≤ 99
    → c.day ≤ 99
    → civil_parts (four_digits c.year) (two_digits c.month) (two_digits c.day) ≡ some c
unfolding civil_parts
civil_parts-digits c hy hm hd = rw (
  number_from-four_digits c.year hy,
  number_from-two_digits c.month hm,
  number_from-two_digits c.day hd,
)

-- Day numbers with a separator between them are taken apart at the separators.
civil_from_iso-civil_iso :
    (c : CivilDate)
    → civil_from_iso (civil_iso c)
      ≡ civil_parts (four_digits c.year) (two_digits c.month) (two_digits c.day)
unfolding civil_from_iso civil_iso nat_eq
civil_from_iso-civil_iso c = refl

date_from_iso-bind : (s : Text) → date_from_iso s ≡ (civil_from_iso s >>= ordinal_of)
unfolding date_from_iso
date_from_iso-bind s = refl

pub date_from_iso-date_iso : (d : Date) → IsDate d → date_from_iso (date_iso d) ≡ some d
unfolding date_iso
date_from_iso-date_iso d h =
    let f = civil_of-fits d h in
    let small = days_in_month-le (is_leap (civil_of d).year) (civil_of d).month in
    let read : civil_from_iso (civil_iso (civil_of d)) ≡ some (civil_of d) =
      civil_from_iso-civil_iso (civil_of d)
      ∙ civil_parts-digits (civil_of d) f.year_high (omega (arith, f.month_high))
          (omega (arith, f.day_high, small)) in
    date_from_iso-bind _ ∙ ap (λ o. o >>= ordinal_of) read ∙ ordinal_of-civil_of d h

clock_parts-digits :
    (s : ℕ)
    → s < 86400
    → clock_parts (two_digits (s / 3600)) (two_digits (s / 60 % 60)) (two_digits (s % 60)) []
      ≡ some (s * 1000000)
unfolding clock_parts
clock_parts-digits s h =
    rw
      (
        number_from-two_digits (s / 3600) (omega arith),
        number_from-two_digits (s / 60 % 60) (omega arith),
        number_from-two_digits (s % 60) (omega arith),
      )
      (unfold number_from in ground arith)

clock_from_iso-clock_iso : (s : ℕ) → s < 86400 → clock_from_iso (clock_iso s) ≡ some (s * 1000000)
unfolding clock_from_iso clock_iso nat_eq
clock_from_iso-clock_iso s h = clock_parts-digits s h

datetime_from_iso-long :
    (s : Text)
    → leb (length s) 10 ≡ false
    → datetime_from_iso s ≡ (
        date_from_iso (take 10 s) >>= λ d.
        clock_from_iso (drop 11 s) >>= λ t. some (d * day_length + t))
unfolding datetime_from_iso
datetime_from_iso-long s h = rw h

date_iso-then :
    (c : CivilDate) (s : Text)
    → (take 10 (civil_iso c ++ (84 ∷ s)) ≡ civil_iso c) × (drop 11 (civil_iso c ++ (84 ∷ s)) ≡ s)
unfolding civil_iso
date_iso-then c s = (refl, refl)

date_iso-then_long : (c : CivilDate) (s : Text) → leb (length (civil_iso c ++ (84 ∷ s))) 10 ≡ false
unfolding civil_iso
date_iso-then_long c s = ground arith

-- A time comes back without its fraction of a second.
pub datetime_from_iso-datetime_iso :
    (t : DateTime)
    → IsDate (date_of t)
    → datetime_from_iso (datetime_iso t) ≡ some (t - t % 1000000)
datetime_from_iso-datetime_iso t h =
    let clock = t % day_length / 1000000 in
    let c = civil_of (date_of t) in
    let parts = date_iso-then c (clock_iso clock) in
    let spelled : datetime_iso t ≡ civil_iso c ++ (84 ∷ clock_iso clock) =
      unfold datetime_iso in refl in
    let day : date_from_iso (civil_iso c) ≡ some (date_of t) =
      unfold date_iso in date_from_iso-date_iso (date_of t) h in
    ap datetime_from_iso spelled
    ∙ datetime_from_iso-long _ (date_iso-then_long c (clock_iso clock))
    ∙ rw (parts.0, parts.1, day, clock_from_iso-clock_iso clock (omega arith))
        (ap some (omega arith))
