-- ===== src/Routes/Save.antt =====
-- runner.py: `save_item`, the whole edit form.
use plain_text_gtd.Prelude.{not, List, [], ◌∷◌, none, if◌then◌else◌}
use plain_text_gtd.Text.{Text, strip, is_empty}
use plain_text_gtd.Text.Lines.{split}
use plain_text_gtd.Host.{Host}
use plain_text_gtd.Frontmatter.{Frontmatter}
use plain_text_gtd.World.{M, pure, lift, now, ◌>>=◌, ◌>>◌}
use plain_text_gtd.Storage.Files.{read_item, write_item}
use plain_text_gtd.Routes.Requests.{
  Reply, redirect, page, inbox_page, or_location, none_if_empty, text_or, parse_optional_date,
  status_in, priority_in,
}
use plain_text_gtd.Routes.Weekdays.{recur_from}
use plain_text_gtd.Routes.Cascade.{cascade_project_status}

-- The fields of the form.
pub record Form : Type 0 where
  pub title : Text
  pub status : Text
  pub due_date : Text
  pub start_date : Text
  pub waiting_for : Text
  pub parent : Text
  pub tags : Text
  pub quick : Text
  pub is_project : Text
  pub priority : Text
  pub recur_weekdays : List Text
  pub body : Text
  pub back : Text

stripped_parts : List Text → List Text
stripped_parts [] = []
stripped_parts (t ∷ ts) =
    let rest = stripped_parts ts in if is_empty (strip t) then rest else strip t ∷ rest

-- `tuple(t.strip() for t in tags.split(",") if t.strip())`
unfoldable pub tag_list : Text → List Text
unfolding stripped_parts split
tag_list tags = stripped_parts (split 44 tags)

module _ {fm : Frontmatter} (h : Host) where
  -- `save_item`
  unfoldable pub save_item : Text → Form → M fm Reply
  save_item item_id form = do
    existing ← read_item h item_id
    recur ← lift (recur_from h form.recur_weekdays)
    new_status ← lift (status_in form.status)
    t ← now
    due ← lift (parse_optional_date form.due_date)
    start ← lift (parse_optional_date form.start_date)
    priority ← lift (priority_in form.priority)
    write_item (record {
      id = existing.id;
      title = text_or (strip form.title) existing.title;
      status = new_status;
      created_at = existing.created_at;
      updated_at = t;
      body = form.body;
      due_date = due;
      start_date = start;
      parent = none_if_empty (strip form.parent);
      waiting_for = none_if_empty (strip form.waiting_for);
      contexts = existing.contexts;
      tags = tag_list form.tags;
      quick = not (is_empty form.quick);
      recur_weekdays = recur;
      is_project = not (is_empty form.is_project);
      priority = priority;
      prev_status = none;
    })
    cascade_project_status h existing new_status
    pure (redirect (or_location form.back (page inbox_page)))
