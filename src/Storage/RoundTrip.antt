-- ===== src/Storage/RoundTrip.antt =====
-- An item that is written is read back: what `_item_from_post` makes of each entry of `write_item`.
use plain_text_gtd.Prelude.{◌≡◌, false, ◌||◌, map, none, text_eq}
use plain_text_gtd.Text.{Text, lit}
use plain_text_gtd.Dates.{IsDate, date_of}
use plain_text_gtd.DataTypes.{Item, priority_eq}
use plain_text_gtd.Host.{Host}
use plain_text_gtd.Frontmatter.{Frontmatter, Value, scalar, text, number, flag}
use plain_text_gtd.World.{World, ok, then_ok, then_lift}
use plain_text_gtd.Storage.Coerce.{
  coerce_datetime, coerce_date, is_truthy, as_tuple, checked_text, checked_optional,
}
use plain_text_gtd.Storage.Posts.{
  get_or, get_value, text_value, is_text, status_from, priority_from, prev_status_from,
  current_status, item_from,
}
use plain_text_gtd.Storage.Keys.{
  written, key_id, key_title, key_status, key_created_at, key_updated_at, key_due_date,
  key_start_date, key_tickler_date, key_parent, key_waiting_for, key_contexts, key_tags, key_quick,
  key_is_project, key_priority, key_prev_status, key_recur_weekdays,
}
use plain_text_gtd.Storage.Readback.{
  coerce_datetime-written, coerce_date-written, coerce_date-null, status_from-written, not_project,
  priority_from-written, prev_status_from-written, as_tuple-texts, as_tuple-numbers, traverse-texts,
  traverse-numbers, is_truthy-when, checked_text-text, checked_optional-written, fold_tickler-none,
  IsOptionalDate, whole_second,
}

-- The dates of the item are dates that Python has.
pub record HasDates (item : Item) : Type 0 where
  pub created : IsDate (date_of item.created_at)
  pub updated : IsDate (date_of item.updated_at)
  pub due : IsOptionalDate item.due_date
  pub start : IsOptionalDate item.start_date

-- What is left of an item in its file: whole seconds.
abbrev pub in_whole_seconds : Item → Text → Item
in_whole_seconds item content = record item {
  created_at = whole_second item.created_at;
  updated_at = whole_second item.updated_at;
  body = content;
}

module _ (item : Item) (d : HasDates item) where
  read_created :
      {fm : Frontmatter} (w : World fm)
      → coerce_datetime (get_value (written item) (lit "created_at")) w
        ≡ (ok (whole_second item.created_at), w)
  read_created w = rw (key_created_at item) (coerce_datetime-written item.created_at w d.created)

  read_updated :
      {fm : Frontmatter} (default : Value) (w : World fm)
      → coerce_datetime (get_or (written item) (lit "updated_at") default) w
        ≡ (ok (whole_second item.updated_at), w)
  read_updated default w =
      rw (key_updated_at item) (coerce_datetime-written item.updated_at w d.updated)

  read_tickler : coerce_date (get_value (written item) (lit "tickler_date")) ≡ ok none
  read_tickler = rw (key_tickler_date item) coerce_date-null

  read_start : coerce_date (get_value (written item) (lit "start_date")) ≡ ok item.start_date
  read_start = rw (key_start_date item) (coerce_date-written item.start_date d.start)

  read_due : coerce_date (get_value (written item) (lit "due_date")) ≡ ok item.due_date
  read_due = rw (key_due_date item) (coerce_date-written item.due_date d.due)

module _ (item : Item) where
  read_status :
      (default : Value)
      → status_from (current_status (get_or (written item) (lit "status") default)) ≡ ok item.status
  read_status default = rw (key_status item) (status_from-written item.status)

  read_contexts : as_tuple (get_value (written item) (lit "contexts")) ≡ ok (map text item.contexts)
  read_contexts = rw (key_contexts item) (as_tuple-texts item.contexts)

  read_tags : as_tuple (get_value (written item) (lit "tags")) ≡ ok (map text item.tags)
  read_tags = rw (key_tags item) (as_tuple-texts item.tags)

  read_priority :
      priority_from (get_or (written item) (lit "priority") (text_value (lit "normal")))
      ≡ ok item.priority
  read_priority = rw (key_priority item) (priority_from-written item.priority)

  read_prev_status :
      prev_status_from (get_value (written item) (lit "prev_status")) ≡ ok item.prev_status
  read_prev_status = rw (key_prev_status item) (prev_status_from-written item.prev_status)

  read_weekdays :
      as_tuple (get_value (written item) (lit "recur_weekdays"))
      ≡ ok (map number item.recur_weekdays)
  read_weekdays = rw (key_recur_weekdays item) (as_tuple-numbers item.recur_weekdays)

  read_id : (default : Value) → checked_text (get_or (written item) (lit "id") default) ≡ ok item.id
  read_id default = rw (key_id item) (checked_text-text item.id)

  read_title :
      (default : Value) → checked_text (get_or (written item) (lit "title") default) ≡ ok item.title
  read_title default = rw (key_title item) (checked_text-text item.title)

  read_parent : checked_optional (get_value (written item) (lit "parent")) ≡ ok item.parent
  read_parent = rw (key_parent item) (checked_optional-written item.parent)

  read_waiting_for :
      checked_optional (get_value (written item) (lit "waiting_for")) ≡ ok item.waiting_for
  read_waiting_for = rw (key_waiting_for item) (checked_optional-written item.waiting_for)

  read_quick : is_truthy (get_or (written item) (lit "quick") (scalar (flag false))) ≡ item.quick
  read_quick = rw (key_quick item) (is_truthy-when item.quick)

  read_is_project :
      (is_text (get_or (written item) (lit "status") (text_value (lit "inbox"))) (lit "project")
        || is_truthy (get_or (written item) (lit "is_project") (scalar (flag false))))
      ≡ item.is_project
  read_is_project =
      rw (key_status item, not_project item.status, key_is_project item)
        (is_truthy-when item.is_project)

pub item_from-written :
    {fm : Frontmatter} (h : Host) (name content : Text) (item : Item) (w : World fm)
    → HasDates item
    → item_from h name (written item) content w ≡ (ok (in_whole_seconds item content), w)
unfolding item_from
item_from-written h name content item w d = then_ok _ _ (read_created item d w) (
    then_lift _ _ (read_tickler item d) (
      then_lift _ _ (read_start item d) (
        then_lift _ _ (read_status item _) (
          then_ok _ _ (read_updated item d _ w) (
            then_lift _ _ (read_due item d) (
              then_lift _ _ (read_contexts item) (
                then_lift _ _ (read_tags item) (
                  then_lift _ _ (read_priority item) (
                    then_lift _ _ (read_prev_status item) (
                      then_lift _ _ (read_weekdays item) (
                        then_lift _ _ (traverse-numbers h item.recur_weekdays) (
                          then_lift _ _ (read_id item _) (
                            then_lift _ _ (read_title item _) (
                              then_lift _ _ (read_parent item) (
                                then_lift _ _ (read_waiting_for item) (
                                  then_lift _ _ (traverse-texts item.contexts) (
                                    then_lift _ _ (traverse-texts item.tags) (
                                      rw (
                                        read_is_project item,
                                        read_quick item,
                                        fold_tickler-none item.start_date,
                                      )))))))))))))))))))
