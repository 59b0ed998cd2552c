-- ===== src/Storage/Readback.antt =====
-- What `_item_from_post` makes of the values that `write_item` puts into the metadata.
use plain_text_gtd.Prelude.{
  ◌-◌, ◌%◌, ◌≡◌, refl, Bool, true, false, not, List, [], ◌∷◌, map, Option, none, some, ◌==◌,
  text_eq,
}
use plain_text_gtd.Text.{Text, lit}
use plain_text_gtd.Dates.{Date, DateTime, IsDate, date_of}
use plain_text_gtd.Dates.Iso.{date_iso, datetime_iso}
use plain_text_gtd.Dates.Iso.RoundTrip.{date_from_iso-date_iso, datetime_from_iso-datetime_iso}
use plain_text_gtd.DataTypes.{
  ItemStatus, Priority, high, normal, low, priority_eq, status_value, priority_value, ℤ, inbox,
  next, waiting, someday, read_review, reference, done, trashed,
}
use plain_text_gtd.DataTypes.Values.{status_of, priority_of, status_of-status_value}
use plain_text_gtd.Host.{Host}
use plain_text_gtd.Frontmatter.{Frontmatter, scalar, text, number, flag, null}
use plain_text_gtd.World.{World, ok}
use plain_text_gtd.Storage.Coerce.{
  coerce_datetime, coerce_date, is_truthy, as_tuple, as_int, traverse, checked_text,
  checked_optional, checked_element,
}
use plain_text_gtd.Storage.Posts.{
  or_value, text_value, is_text, status_from, priority_from, prev_status_from, current_status,
  fold_tickler, mapped, when, texts_value, numbers_value,
}

abbrev pub IsOptionalDate : Option Date → Type 0
IsOptionalDate none = Unit
IsOptionalDate (some d) = IsDate d

-- The time without its fraction of a second.
abbrev pub whole_second : DateTime → DateTime
whole_second t = t - t % 1000000

pub coerce_datetime-written :
    {fm : Frontmatter} (t : DateTime) (w : World fm)
    → IsDate (date_of t)
    → coerce_datetime (text_value (datetime_iso t)) w ≡ (ok (whole_second t), w)
unfolding coerce_datetime
coerce_datetime-written t w h = rw (datetime_from_iso-datetime_iso t h)

pub coerce_date-written :
    (o : Option Date)
    → IsOptionalDate o
    → coerce_date (or_value (mapped (λ d. text_value (date_iso d)) o) (scalar null)) ≡ ok o
unfolding coerce_date
coerce_date-written none h = refl
coerce_date-written (some d) h = rw (date_from_iso-date_iso d h, coerce_date)

pub coerce_date-null : coerce_date (scalar null) ≡ ok none
unfolding coerce_date
coerce_date-null = refl

pub status_from-written :
    (s : ItemStatus) → status_from (current_status (text_value (status_value s))) ≡ ok s
unfolding status_from current_status is_text status_of
status_from-written inbox = refl
status_from-written next = refl
status_from-written waiting = refl
status_from-written someday = refl
status_from-written read_review = refl
status_from-written reference = refl
status_from-written done = refl
status_from-written trashed = refl

pub not_project : (s : ItemStatus) → is_text (text_value (status_value s)) (lit "project") ≡ false
unfolding is_text
not_project inbox = refl
not_project next = refl
not_project waiting = refl
not_project someday = refl
not_project read_review = refl
not_project reference = refl
not_project done = refl
not_project trashed = refl

pub priority_from-written :
    (p : Priority)
    → priority_from (
        or_value
          (when (not (p == normal)) (text_value (priority_value p)))
          (text_value (lit "normal")))
      ≡ ok p
unfolding priority_from priority_of priority_eq
priority_from-written high = refl
priority_from-written normal = refl
priority_from-written low = refl

pub prev_status_from-written :
    (o : Option ItemStatus)
    → prev_status_from (or_value (mapped (λ s. text_value (status_value s)) o) (scalar null)) ≡ ok o
unfolding prev_status_from is_truthy status_from
prev_status_from-written none = refl
prev_status_from-written (some inbox) = rw (status_of-status_value inbox)
prev_status_from-written (some next) = rw (status_of-status_value next)
prev_status_from-written (some waiting) = rw (status_of-status_value waiting)
prev_status_from-written (some someday) = rw (status_of-status_value someday)
prev_status_from-written (some read_review) = rw (status_of-status_value read_review)
prev_status_from-written (some reference) = rw (status_of-status_value reference)
prev_status_from-written (some done) = rw (status_of-status_value done)
prev_status_from-written (some trashed) = rw (status_of-status_value trashed)

pub as_tuple-texts :
    (l : List Text) → as_tuple (or_value (texts_value l) (scalar null)) ≡ ok (map text l)
unfolding as_tuple texts_value
as_tuple-texts [] = refl
as_tuple-texts (t ∷ l) = refl

pub as_tuple-numbers :
    (l : List ℤ) → as_tuple (or_value (numbers_value l) (scalar null)) ≡ ok (map number l)
unfolding as_tuple numbers_value
as_tuple-numbers [] = refl
as_tuple-numbers (n ∷ l) = refl

pub traverse-texts : (l : List Text) → traverse checked_element (map text l) ≡ ok l
unfolding traverse checked_element
traverse-texts [] = refl
traverse-texts (t ∷ l) = rw (traverse-texts l)

pub traverse-numbers : (h : Host) (l : List ℤ) → traverse (as_int h) (map number l) ≡ ok l
unfolding traverse as_int
traverse-numbers h [] = refl
traverse-numbers h (n ∷ l) = rw (traverse-numbers h l)

pub is_truthy-when :
    (b : Bool) → is_truthy (or_value (when b (scalar (flag true))) (scalar (flag false))) ≡ b
unfolding is_truthy
is_truthy-when true = refl
is_truthy-when false = refl

pub checked_text-text : (t : Text) → checked_text (text_value t) ≡ ok t
unfolding checked_text
checked_text-text t = refl

pub checked_optional-written :
    (o : Option Text) → checked_optional (or_value (mapped text_value o) (scalar null)) ≡ ok o
unfolding checked_optional
checked_optional-written none = refl
checked_optional-written (some t) = refl

pub fold_tickler-none : (o : Option Date) → fold_tickler none o ≡ o
unfolding fold_tickler
fold_tickler-none none = refl
fold_tickler-none (some d) = refl
