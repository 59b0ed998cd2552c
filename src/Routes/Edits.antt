-- ===== src/Routes/Edits.antt =====
-- runner.py: the handlers that change one field of one item, and those that remove an item.
use plain_text_gtd.Prelude.{List, [], ◌∷◌, Option, none, some}
use plain_text_gtd.Text.{Text, strip}
use plain_text_gtd.Dates.{Date, date_of}
use plain_text_gtd.DataTypes.{Item, ItemStatus, ℤ, inbox, done}
use plain_text_gtd.Host.{Host}
use plain_text_gtd.Frontmatter.{Frontmatter}
use plain_text_gtd.World.{M, Result, ok, err, pure, lift, now, ◌>>=◌, ◌>>◌}
use plain_text_gtd.Storage.Files.{read_item, write_item, delete_item}
use plain_text_gtd.Routes.Requests.{
  Request, Reply, redirect, no_content, html, came_from, or_location, none_if_empty, text_or,
  parse_optional_date, priority_in,
}
use plain_text_gtd.Routes.Recurrence.{next_recurrence_after}
use plain_text_gtd.Routes.Weekdays.{recur_from}

-- The new value of a field that a form fills, where it can be read.
abbrev pub with_value : {A : Type 0} → Result A → (A → Item) → Result Item
with_value (ok a) f = ok (f a)
with_value (err e) f = err e

module _ {fm : Frontmatter} (h : Host) where
  -- Read the item, and write it with a change and a new `updated_at`.
  unfoldable pub edit : Text → (Item → Result Item) → M fm (Unit {0})
  edit item_id change = do
    existing ← read_item h item_id
    changed ← lift (change existing)
    t ← now
    write_item (record changed { updated_at = t })

  -- `rename_item_route`
  unfoldable pub rename_item_route : Text → Text → M fm Reply
  unfolding edit
  rename_item_route item_id title = do
    edit item_id (λ existing. ok (record existing { title = text_or (strip title) existing.title }))
    pure no_content

  -- `save_body_route`; the reply is the HTML of the body
  unfoldable pub save_body_route : Text → Text → M fm Reply
  unfolding edit
  save_body_route item_id body = do
    edit item_id (λ existing. ok (record existing { body = body }))
    pure (html body)

  -- `set_parent_route`
  unfoldable pub set_parent_route : Request → Text → Text → M fm Reply
  unfolding edit
  set_parent_route request item_id parent = do
    edit item_id (λ existing. ok (record existing { parent = none_if_empty (strip parent) }))
    pure (redirect (came_from request))

  -- `set_due_date_route`
  unfoldable pub set_due_date_route : Request → Text → Text → M fm Reply
  unfolding edit
  set_due_date_route request item_id due_date = do
    edit item_id (λ existing.
        with_value (parse_optional_date due_date) (λ d. record existing { due_date = d }))
    pure (redirect (came_from request))

  -- `set_start_date_route`
  unfoldable pub set_start_date_route : Request → Text → Text → M fm Reply
  unfolding edit
  set_start_date_route request item_id start_date = do
    edit item_id (λ existing.
        with_value (parse_optional_date start_date) (λ d. record existing { start_date = d }))
    pure (redirect (came_from request))

  -- `set_priority_route`
  unfoldable pub set_priority_route : Request → Text → Text → M fm Reply
  unfolding edit
  set_priority_route request item_id priority = do
    edit item_id
        (λ existing. with_value (priority_in priority) (λ p. record existing { priority = p }))
    pure (redirect (came_from request))

  -- `set_recur_route`
  unfoldable pub set_recur_route : Text → List Text → M fm Reply
  unfolding edit
  set_recur_route item_id weekdays = do
    edit item_id (λ existing.
        with_value (recur_from h weekdays) (λ r. record existing { recur_weekdays = r }))
    pure no_content

  -- `_today`
  unfoldable pub today : M fm Date
  unfolding now
  today = do t ← now; pure (date_of t)

  -- `_next_recurrence_after(_today(), …)` for an item that recurs, and nothing for another
  unfoldable pub next_occurrence : List ℤ → M fm (Option Date)
  unfolding today
  next_occurrence [] = pure none
  next_occurrence (d ∷ weekdays) = do day ← today; lift (next_recurrence_after day (d ∷ weekdays))

  unfoldable pub set_and_write : Item → ItemStatus → M fm (Unit {0})
  set_and_write existing new_status = do
    t ← now
    write_item (record existing { status = new_status; updated_at = t })

  -- The end of a check: the item bounces to its next day, or it is done.
  unfoldable pub bounce_or_finish : Item → Option Date → M fm (Unit {0})
  unfolding set_and_write
  bounce_or_finish existing none = set_and_write existing done
  bounce_or_finish existing (some d) = do
    t ← now
    write_item (record existing { start_date = some d; updated_at = t })

  unfoldable pub check_or_uncheck : Text → Item → M fm (Unit {0})
  unfolding next_occurrence bounce_or_finish set_and_write
  check_or_uncheck [] existing = set_and_write existing inbox
  check_or_uncheck (c ∷ s) existing = do
    next_date ← next_occurrence existing.recur_weekdays
    bounce_or_finish existing next_date

  -- `check_item_route`
  unfoldable pub check_item_route : Request → Text → Text → M fm Reply
  unfolding check_or_uncheck
  check_item_route request item_id checked = do
    existing ← read_item h item_id
    check_or_uncheck checked existing
    pure (redirect (came_from request))

module _ {fm : Frontmatter} where
  -- `delete_item_route`
  unfoldable pub delete_item_route : Request → Text → Text → M fm Reply
  delete_item_route request item_id back = do
    delete_item item_id
    pure (redirect (or_location back (came_from request)))
