-- ===== src/Routes/Saved.antt =====
-- The edit form and the status picker, for an item that is no project.
use plain_text_gtd.Prelude.{◌+◌, ◌≡◌, refl, ap, true, false, not, List, Option, none}
use plain_text_gtd.Text.{Text, strip, is_empty}
use plain_text_gtd.Dates.{Date}
use plain_text_gtd.DataTypes.{Failure, Item, ItemStatus, Priority, status_eq, ℤ}
use plain_text_gtd.Host.{Host}
use plain_text_gtd.Frontmatter.{Frontmatter}
use plain_text_gtd.World.{World, ok, err, now, now_lem, then_ok, then_err, then_lift}
use plain_text_gtd.Storage.Files.{is_item_id, read_item, write_item}
use plain_text_gtd.Storage.Writes.{write_item_lem}
use plain_text_gtd.Routes.Requests.{
  Request, redirect, page, inbox_page, or_location, none_if_empty, text_or, came_from, status_in,
  priority_in, parse_optional_date,
}
use plain_text_gtd.Routes.Weekdays.{recur_from}
use plain_text_gtd.Routes.Cascade.{cascade_project_status, set_status_route}
use plain_text_gtd.Routes.Save.{Form, tag_list, save_item}
use plain_text_gtd.Routes.Bounce.{after_item}

module _ {fm : Frontmatter} (h : Host) where
  -- A change of the status of an item that is no project changes nothing else.
  cascade_plain :
      (item : Item) (target : ItemStatus) (w : World fm)
      → item.is_project ≡ false
      → cascade_project_status h item target w ≡ (ok tt, w)
  unfolding cascade_project_status
  cascade_plain item target w plain = rw plain

  module _ (item_id : Text) (w : World fm) (existing : Item)
      (found : read_item h item_id w ≡ (ok existing, w)) where
    -- The status picker gives an item that is no project the status that it names, and a new time of
    -- change; the rest of the item is kept, the saved status too.
    pub set_status_route_plain :
        (request : Request) (status : Text) (target : ItemStatus)
        → is_item_id existing.id ≡ true
        → existing.is_project ≡ false
        → status_in status ≡ ok target
        → set_status_route h request item_id status w ≡ (
          ok (redirect (came_from request)),
          after_item w
              (w.ticks + 1)
              (record existing { status = target; updated_at = w.clock w.ticks }),
        )
    unfolding set_status_route
    set_status_route_plain request status target valid plain named =
        then_ok (read_item h item_id) _ found (
          then_lift _ _ named (
            then_ok now _ (now_lem w) (
              then_ok (write_item _) _ (write_item_lem _ _ valid) (
                then_ok (cascade_project_status h existing target) _ (cascade_plain _ _ _ plain)
                  refl))))

    -- A status that is none of the eight is refused, and no file is changed.
    pub set_status_route_refused :
        (request : Request) (status : Text) (e : Failure)
        → status_in status ≡ err e
        → set_status_route h request item_id status w ≡ (err e, w)
    unfolding set_status_route
    set_status_route_refused request status e bad =
        then_ok (read_item h item_id) _ found (then_err _ _ (ap (λ r. (r, w)) bad))

    module _ (form : Form) (recur : List ℤ) (target : ItemStatus) (due start : Option Date)
        (priority : Priority) (valid : is_item_id existing.id ≡ true)
        (plain : existing.is_project ≡ false)
        (recur_read : recur_from h form.recur_weekdays ≡ ok recur)
        (status_read : status_in form.status ≡ ok target)
        (due_read : parse_optional_date form.due_date ≡ ok due)
        (start_read : parse_optional_date form.start_date ≡ ok start)
        (priority_read : priority_in form.priority ≡ ok priority) where
      -- The edit form of an item that is no project, where its fields can be read, replaces the item in
      -- its file: the id, the time of making and the contexts are kept, an empty title stands for the
      -- old one, and the saved status of a parked item is lost.
      pub save_item_plain : save_item h item_id form w ≡ (
        ok (redirect (or_location form.back (page inbox_page))),
        after_item w (w.ticks + 1) (record {
          id = existing.id;
          title = text_or (strip form.title) existing.title;
          status = target;
          created_at = existing.created_at;
          updated_at = w.clock w.ticks;
          body = form.body;
          due_date = due;
          start_date = start;
          parent = none_if_empty (strip form.parent);
          waiting_for = none_if_empty (strip form.waiting_for);
          contexts = existing.contexts;
          tags = tag_list form.tags;
          quick = not (is_empty form.quick);
          recur_weekdays = recur;
          is_project = not (is_empty form.is_project);
          priority = priority;
          prev_status = none;
        }),
      )
      unfolding save_item
      save_item_plain = then_ok (read_item h item_id) _ found (
          then_lift _ _ recur_read (
            then_lift _ _ status_read (
              then_ok now _ (now_lem w) (
                then_lift _ _ due_read (
                  then_lift _ _ start_read (
                    then_lift _ _ priority_read (
                      then_ok (write_item _) _ (write_item_lem _ _ valid) (
                        then_ok (cascade_project_status h existing target) _
                          (cascade_plain _ _ _ plain) refl))))))))
