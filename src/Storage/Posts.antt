-- ===== src/Storage/Posts.antt =====
-- storage.py: `_item_from_post`, and the metadata that `write_item` builds.
use plain_text_gtd.Prelude.{
  Bool, true, false, not, ◌||◌, List, [], ◌∷◌, map, Option, none, some, ◌==◌, text_eq, lookup,
  if◌then◌else◌,
}
use plain_text_gtd.Text.{Text, lit, rstrip, is_newline}
use plain_text_gtd.Dates.{Date}
use plain_text_gtd.Dates.Iso.{date_iso, datetime_iso}
use plain_text_gtd.DataTypes.{
  Item, ItemStatus, Priority, next, normal, status_value, priority_value, priority_eq, value_error,
  ℤ,
}
use plain_text_gtd.DataTypes.Values.{status_of, priority_of}
use plain_text_gtd.Host.{Host}
use plain_text_gtd.Frontmatter.{
  Frontmatter, Value, Scalar, Metadata, Post, scalar, sequence, null, flag, number, text,
}
use plain_text_gtd.World.{M, Result, ok, err, pure, lift, ◌>>=◌}
use plain_text_gtd.Storage.Coerce.{
  coerce_datetime, coerce_date, is_truthy, as_tuple, as_int, traverse, checked_text,
  checked_optional, checked_element,
}

-- The metadata as its `get`.
abbrev pub Get : Type 0
Get = Text → Option Value

abbrev pub or_value : Option Value → Value → Value
or_value none default = default
or_value (some v) default = v

-- `metadata.get(key, default)`
abbrev pub get_or : Get → Text → Value → Value
get_or get key default = or_value (get key) default

-- `metadata.get(key)`
abbrev pub get_value : Get → Text → Value
get_value get key = get_or get key (scalar null)

abbrev pub text_value : Text → Value
text_value s = scalar (text s)

-- Python's `==` between a metadata value and a text.
unfoldable pub is_text : Value → Text → Bool
unfolding text_eq
is_text (scalar (text s)) t = s == t
is_text _ t = false

-- `ItemStatus(value)`
unfoldable pub status_from : Value → Result ItemStatus
status_from (scalar (text s)) = elim (status_of s) [ none ↦ err value_error | some x ↦ ok x ]
status_from _ = err value_error

-- `Priority(value)`
unfoldable pub priority_from : Value → Result Priority
priority_from (scalar (text s)) = elim (priority_of s) [ none ↦ err value_error | some x ↦ ok x ]
priority_from _ = err value_error

unfoldable pub prev_status_from : Value → Result (Option ItemStatus)
prev_status_from v =
    if is_truthy v then elim (status_from v) [ err e ↦ err e | ok s ↦ ok (some s) ] else ok none

-- The status that the file names: the two of older files stand for `next`.
unfoldable pub current_status : Value → Value
current_status raw =
    if is_text raw (lit "project") || is_text raw (lit "tickler")
    then text_value (status_value next)
    else raw

-- `tickler_date`, of older files, counts where there is no `start_date`.
unfoldable pub fold_tickler : Option Date → Option Date → Option Date
fold_tickler tickler (some d) = some d
fold_tickler tickler none = tickler

module _ {fm : Frontmatter} (h : Host) where
  unfoldable pub item_from : Text → Get → Text → M fm Item
  item_from item_id get content = do
    created ← coerce_datetime (get_value get (lit "created_at"))
    let raw_status = get_or get (lit "status") (text_value (lit "inbox"))
    let is_project =
        is_text raw_status (lit "project")
        || is_truthy (get_or get (lit "is_project") (scalar (flag false)))
    tickler ← lift (coerce_date (get_value get (lit "tickler_date")))
    own_start ← lift (coerce_date (get_value get (lit "start_date")))
    status ← lift (status_from (current_status raw_status))
    updated ← coerce_datetime (get_or get (lit "updated_at") (scalar (Scalar.datetime created)))
    due ← lift (coerce_date (get_value get (lit "due_date")))
    contexts ← lift (as_tuple (get_value get (lit "contexts")))
    tags ← lift (as_tuple (get_value get (lit "tags")))
    priority ← lift (priority_from (get_or get (lit "priority") (text_value (lit "normal"))))
    prev_status ← lift (prev_status_from (get_value get (lit "prev_status")))
    weekdays ← lift (as_tuple (get_value get (lit "recur_weekdays")))
    recur ← lift (traverse (as_int h) weekdays)
    id ← lift (checked_text (get_or get (lit "id") (text_value item_id)))
    title ← lift (checked_text (get_or get (lit "title") (text_value (lit "(untitled)"))))
    parent ← lift (checked_optional (get_value get (lit "parent")))
    waiting_for ← lift (checked_optional (get_value get (lit "waiting_for")))
    context_texts ← lift (traverse checked_element contexts)
    tag_texts ← lift (traverse checked_element tags)
    pure (record {
      id = id;
      title = title;
      status = status;
      created_at = created;
      updated_at = updated;
      body = content;
      due_date = due;
      start_date = fold_tickler tickler own_start;
      parent = parent;
      waiting_for = waiting_for;
      contexts = context_texts;
      tags = tag_texts;
      quick = is_truthy (get_or get (lit "quick") (scalar (flag false)));
      recur_weekdays = recur;
      is_project = is_project;
      priority = priority;
      prev_status = prev_status;
    })

  -- `_item_from_post`
  abbrev pub item_from_post : Text → Post → M fm Item
  item_from_post item_id post = item_from item_id (λ key. lookup key post.metadata) post.content

-- An entry that is written only where there is something to write.
unfoldable pub entry : Text → Option Value → Metadata → Metadata
entry key none rest = rest
entry key (some v) rest = (key, v) ∷ rest

abbrev pub mapped {ℓ κ} : {A : Type ℓ} {B : Type κ} → (A → B) → Option A → Option B
mapped f none = none
mapped f (some a) = some (f a)

abbrev pub when : {A : Type 0} → Bool → A → Option A
when true a = some a
when false a = none

unfoldable pub texts_value : List Text → Option Value
texts_value [] = none
texts_value (t ∷ ts) = some (sequence (text t ∷ map text ts))

unfoldable pub numbers_value : List ℤ → Option Value
numbers_value [] = none
numbers_value (n ∷ ns) = some (sequence (number n ∷ map number ns))

-- The metadata of `write_item`.
unfoldable pub metadata_of : Item → Metadata
unfolding entry texts_value numbers_value priority_eq
metadata_of item =
    (lit "id", text_value item.id)
    ∷ (lit "title", text_value item.title)
    ∷ (lit "status", text_value (status_value item.status))
    ∷ (lit "created_at", text_value (datetime_iso item.created_at))
    ∷ (lit "updated_at", text_value (datetime_iso item.updated_at))
    ∷ (entry (lit "due_date") (mapped (λ d. text_value (date_iso d)) item.due_date) (
        entry (lit "start_date") (mapped (λ d. text_value (date_iso d)) item.start_date) (
          entry (lit "parent") (mapped text_value item.parent) (
            entry (lit "waiting_for") (mapped text_value item.waiting_for) (
              entry (lit "contexts") (texts_value item.contexts) (
                entry (lit "tags") (texts_value item.tags) (
                  entry (lit "quick") (when item.quick (scalar (flag true))) (
                    entry (lit "is_project") (when item.is_project (scalar (flag true))) (
                      entry (lit "priority")
                        (when (not (item.priority == normal))
                          (text_value (priority_value item.priority)))
                        (entry (lit "prev_status")
                          (mapped (λ s. text_value (status_value s)) item.prev_status)
                          (entry (lit "recur_weekdays") (numbers_value item.recur_weekdays)
                            [])))))))))))

-- The post of `write_item`, its body without the line feeds at its end.
abbrev pub post_of : Item → Post
post_of item = record { metadata = metadata_of item; content = rstrip is_newline item.body }
