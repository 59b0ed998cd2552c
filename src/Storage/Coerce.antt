-- ===== src/Storage/Coerce.antt =====
-- storage.py: the coercions of metadata values, and the checks that pydantic makes of the fields.
use plain_text_gtd.Prelude.{
  ℕ, ◌+◌, ◌*◌, Bool, true, false, not, ◌&&◌, List, [], ◌∷◌, map, Option, none, some, ◌==◌, nat_eq,
  if◌then◌else◌,
}
use plain_text_gtd.Text.{Text, strip}
use plain_text_gtd.Dates.{Date, DateTime, date_of}
use plain_text_gtd.Dates.Iso.{date_from_iso, datetime_from_iso}
use plain_text_gtd.DataTypes.{
  Failure, gtd_value_error, value_error, type_error, validation_error, ℤ, pos, negsuc,
}
use plain_text_gtd.Host.{Host}
use plain_text_gtd.Frontmatter.{
  Frontmatter, Value, Scalar, scalar, sequence, null, flag, number, text, date, datetime,
}
use plain_text_gtd.World.{M, Result, ok, err, pure, raise, or_raise, now}

abbrev ok_or : {A : Type 0} → Failure → Option A → Result A
ok_or e none = err e
ok_or e (some a) = ok a

-- `_coerce_datetime`
unfoldable pub coerce_datetime : {fm : Frontmatter} → Value → M fm DateTime
coerce_datetime (scalar (datetime t)) = pure t
coerce_datetime (scalar (text s)) = or_raise value_error (datetime_from_iso s)
coerce_datetime (scalar null) = now
coerce_datetime _ = raise gtd_value_error

-- `_coerce_date`
unfoldable pub coerce_date : Value → Result (Option Date)
coerce_date (scalar null) = ok none
coerce_date (scalar (datetime t)) = ok (some (date_of t))
coerce_date (scalar (date d)) = ok (some d)
coerce_date (scalar (text s)) = elim (date_from_iso s) [
  | none ↦ err value_error
  | some d ↦ ok (some d)
]
coerce_date _ = err gtd_value_error

abbrev truth : Scalar → Bool
truth null = false
truth (flag b) = b
truth (number (pos n)) = not (n == 0)
truth (number (negsuc n)) = true
truth (text []) = false
truth (text (_ ∷ _)) = true
truth (date d) = true
truth (datetime t) = true

-- `bool(value)`
unfoldable pub is_truthy : Value → Bool
unfolding nat_eq
is_truthy (scalar s) = truth s
is_truthy (sequence []) = false
is_truthy (sequence (_ ∷ _)) = true

-- `tuple(value or ())`: of a text, its characters
unfoldable pub as_tuple : Value → Result (List Scalar)
as_tuple (sequence l) = ok l
as_tuple (scalar (text s)) = ok (map (λ c. text (c ∷ [])) s)
as_tuple (scalar s) = if truth s then err type_error else ok []

-- The digits of `int(text)`, with single underscores between them.
digits_value : Host → ℕ → Bool → Text → Option ℕ
digits_value h n last_digit [] = if last_digit then some n else none
digits_value h n last_digit (c ∷ s) = elim (h.decimal c) [
  | some d ↦ digits_value h (n * 10 + d) true s
  | none ↦ let rest = digits_value h n false s in if last_digit && c == 95 then rest else none
]

negate : ℕ → ℤ
negate ℕ.zero = pos 0
negate (ℕ.suc n) = negsuc n

signed_value : Host → Text → Option ℤ
signed_value h [] = none
signed_value h (c ∷ s) =
    if c == 43
    then elim (digits_value h 0 false s) [ none ↦ none | some n ↦ some (pos n) ]
    else if c == 45
    then elim (digits_value h 0 false s) [ none ↦ none | some n ↦ some (negate n) ]
    else elim (digits_value h 0 false (c ∷ s)) [ none ↦ none | some n ↦ some (pos n) ]

-- `int(text)`, `none` for a ValueError
unfoldable pub int_of_text : Host → Text → Option ℤ
unfolding digits_value negate signed_value nat_eq
int_of_text h s = signed_value h (strip s)

-- `int(value)`
unfoldable pub as_int : Host → Scalar → Result ℤ
as_int h (number n) = ok n
as_int h (flag b) = ok (pos (if b then 1 else 0))
as_int h (text s) = ok_or value_error (int_of_text h s)
as_int h _ = err type_error

-- A comprehension over values that may raise.
unfoldable pub traverse : {A B : Type 0} → (A → Result B) → List A → Result (List B)
traverse f [] = ok []
traverse f (x ∷ xs) = elim (f x) [
  | err e ↦ err e
  | ok y ↦ elim (traverse f xs) [ err e ↦ err e | ok ys ↦ ok (y ∷ ys) ]
]

-- pydantic's check of a `str` field
unfoldable pub checked_text : Value → Result Text
checked_text (scalar (text s)) = ok s
checked_text _ = err validation_error

-- pydantic's check of a `str | None` field
unfoldable pub checked_optional : Value → Result (Option Text)
checked_optional (scalar null) = ok none
checked_optional (scalar (text s)) = ok (some s)
checked_optional _ = err validation_error

-- pydantic's check of an element of a `tuple[str, ...]` field
unfoldable pub checked_element : Scalar → Result Text
checked_element (text s) = ok s
checked_element _ = err validation_error
