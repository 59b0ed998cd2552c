-- ===== src/Dates/Iso.antt =====
-- `isoformat` and `fromisoformat`. Of the forms that Python reads, those of the calendar are modelled
-- (`YYYY-MM-DD`, `YYYYMMDD`, and with a time `HH:MM:SS`, with or without six digits of a fraction).
pub mod RoundTrip
use plain_text_gtd.Prelude.{
  ℕ, ◌+◌, ◌-◌, ◌*◌, ◌/◌, ◌%◌, ◌≤◌, ◌<◌, ◌≡◌, refl, ◌∙◌, ap, Bool, true, false, ◌&&◌, List, [], ◌∷◌,
  ◌++◌, Option, none, some, arith, leb, ltb, ◌==◌, nat_eq, length, take, drop, if◌then◌else◌,
}
use plain_text_gtd.Text.{Text, lit}
use plain_text_gtd.Dates.{
  Date, DateTime, IsDate, date_of, day_length, CivilDate, civil_of, ordinal_of,
}
use plain_text_gtd.Dates.Civil.{CivilFits, civil_of-fits, ordinal_of-civil_of}

abbrev ◌>>=◌ {ℓ κ} : {A : Type ℓ} {B : Type κ} → Option A → (A → Option B) → Option B
o >>= f = elim o [ none ↦ none | some a ↦ f a ]

infixl 5 ◌>>=◌
abbrev digit : ℕ → ℕ
digit n = 48 + n % 10

two_digits : ℕ → Text
two_digits n = digit (n / 10) ∷ digit n ∷ []

four_digits : ℕ → Text
four_digits n = digit (n / 1000) ∷ digit (n / 100) ∷ digit (n / 10) ∷ digit n ∷ []

-- A run of decimal digits as a number.
number_from : ℕ → Text → Option ℕ
number_from n [] = some n
number_from n (c ∷ s) =
    let rest = number_from (n * 10 + (c - 48)) s in if leb 48 c && leb c 57 then rest else none

unfoldable pub civil_iso : CivilDate → Text
unfolding two_digits four_digits
civil_iso c = four_digits c.year ++ (45 ∷ two_digits c.month ++ (45 ∷ two_digits c.day))

-- `d.isoformat()`
unfoldable pub date_iso : Date → Text
unfolding civil_iso
date_iso d = civil_iso (civil_of d)

civil_parts : Text → Text → Text → Option CivilDate
civil_parts y m d = do
  year ← number_from 0 y
  month ← number_from 0 m
  day ← number_from 0 d
  some (record { year = year; month = month; day = day })

civil_from_iso : Text → Option CivilDate
civil_from_iso (a ∷ b ∷ c ∷ d ∷ e ∷ f ∷ g ∷ h ∷ i ∷ j ∷ []) =
    if e == 45 && h == 45 then civil_parts (a ∷ b ∷ c ∷ d ∷ []) (f ∷ g ∷ []) (i ∷ j ∷ []) else none
civil_from_iso (a ∷ b ∷ c ∷ d ∷ e ∷ f ∷ g ∷ h ∷ []) =
    civil_parts (a ∷ b ∷ c ∷ d ∷ []) (e ∷ f ∷ []) (g ∷ h ∷ [])
civil_from_iso _ = none

-- `date.fromisoformat(s)`, `none` for a ValueError
unfoldable pub date_from_iso : Text → Option Date
unfolding civil_from_iso civil_parts number_from nat_eq
date_from_iso s = do c ← civil_from_iso s; ordinal_of c

clock_iso : ℕ → Text
unfolding two_digits
clock_iso s = two_digits (s / 3600) ++ (58 ∷ two_digits (s / 60 % 60) ++ (58 ∷ two_digits (s % 60)))

-- `t.isoformat(timespec="seconds")`
unfoldable pub datetime_iso : DateTime → Text
unfolding date_iso clock_iso
datetime_iso t = date_iso (date_of t) ++ (84 ∷ clock_iso (t % day_length / 1000000))

clock_parts : Text → Text → Text → Text → Option ℕ
clock_parts h m s f = do
  hour ← number_from 0 h
  minute ← number_from 0 m
  second ← number_from 0 s
  fraction ← number_from 0 f
  if ltb hour 24 && ltb minute 60 && ltb second 60
      then some ((hour * 3600 + minute * 60 + second) * 1000000 + fraction)
      else none

clock_from_iso : Text → Option ℕ
clock_from_iso (a ∷ b ∷ p ∷ c ∷ d ∷ q ∷ e ∷ f ∷ []) =
    if p == 58 && q == 58 then clock_parts (a ∷ b ∷ []) (c ∷ d ∷ []) (e ∷ f ∷ []) [] else none
clock_from_iso (a ∷ b ∷ p ∷ c ∷ d ∷ q ∷ e ∷ f ∷ r ∷ fraction) =
    if p == 58 && q == 58 && r == 46 && length fraction == 6
    then clock_parts (a ∷ b ∷ []) (c ∷ d ∷ []) (e ∷ f ∷ []) fraction
    else none
clock_from_iso _ = none

-- `datetime.fromisoformat(s)`, `none` for a ValueError
unfoldable pub datetime_from_iso : Text → Option DateTime
unfolding date_from_iso clock_from_iso clock_parts number_from nat_eq
datetime_from_iso s =
    if leb (length s) 10
    then (do d ← date_from_iso s; some (d * day_length))
    else do d ← date_from_iso (take 10 s); t ← clock_from_iso (drop 11 s); some (d * day_length + t)
