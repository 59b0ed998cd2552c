-- ===== src/Routes/Bounce.antt =====
-- Checking off an item, from the request to the file.
use mathlib.Core.Bool.{false≢true}
use plain_text_gtd.Prelude.{
  ℕ, ◌+◌, ◌≤◌, ◌<◌, ◌≡◌, refl, ap, Bool, true, false, List, [], ◌∷◌, Option, none, some, contains,
  assign, text_eq,
}
use plain_text_gtd.Text.{Text}
use plain_text_gtd.Dates.{Date, date_of, max_date}
use plain_text_gtd.DataTypes.{Item, ℤ, pos, int_eq, done, inbox}
use plain_text_gtd.Host.{Host}
use plain_text_gtd.Frontmatter.{Frontmatter}
use plain_text_gtd.World.{World, Result, ok, err, now, now_lem, then_ok}
use plain_text_gtd.Storage.Posts.{post_of}
use plain_text_gtd.Storage.Files.{is_item_id, file_name, files, with_files, read_item}
use plain_text_gtd.Storage.Writes.{write_item_lem}
use plain_text_gtd.Routes.Requests.{Request, redirect, came_from}
use plain_text_gtd.Routes.Recurrence.{next_recurrence_after, next_recurrence_after_least, IsNextOn}
use plain_text_gtd.Routes.Edits.{
  check_item_route, next_occurrence, bounce_or_finish, check_or_uncheck, set_and_write, today,
}

has_date : Result (Option Date) → Bool
has_date (ok (some d)) = true
has_date (ok none) = false
has_date (err e) = false

module _ {fm : Frontmatter} where
  -- The world after a write of the item, and the number of times that the clock was read.
  abbrev pub after_item : World fm → ℕ → Item → World fm
  after_item w ticks item =
      with_files (record w { ticks = ticks })
        (assign (file_name item.id) (fm.dumps (post_of item)) (files w))

module _ {fm : Frontmatter} (h : Host) where
  next_occurrence_lem :
      (l : List ℤ) (w : World fm) {d : Date}
      → next_recurrence_after (date_of (w.clock w.ticks)) l ≡ ok (some d)
      → next_occurrence h l w ≡ (ok (some d), record w { ticks = w.ticks + 1 })
  unfolding next_occurrence next_recurrence_after
  next_occurrence_lem [] w e = absurd (false≢true (unfold has_date in ap has_date e))
  next_occurrence_lem (v ∷ weekdays) w e =
      then_ok (today h) _ (unfold today in then_ok now _ (now_lem w) refl)
        (ap (λ r. (r, record w { ticks = w.ticks + 1 })) e)

  next_occurrence-none : (l : List ℤ) (w : World fm) → l ≡ [] → next_occurrence h l w ≡ (ok none, w)
  unfolding next_occurrence
  next_occurrence-none l w e = rw e

  module _ (request : Request) (item_id : Text) (w : World fm) (existing : Item)
      (found : read_item h item_id w ≡ (ok existing, w))
      (valid : is_item_id existing.id ≡ true) where
    -- A recurring item that is checked off keeps its status, and everything but its start date and its
    -- time of change: the start date becomes the first later day that falls on one of its weekdays,
    -- within a week. The item names some weekday from 0 to 6, its id is valid, and the calendar does
    -- not end within the week.
    pub check_item_route_recurs :
        (c : ℕ) (checked : Text) (k : ℕ)
        → k < 7
        → contains existing.recur_weekdays (pos k) ≡ true
        → date_of (w.clock w.ticks) + 7 ≤ max_date
        → (d : Date) × (check_item_route h request item_id (c ∷ checked) w ≡ (
          ok (redirect (came_from request)),
          after_item w
              (w.ticks + 1 + 1)
              (record existing { start_date = some d; updated_at = w.clock (w.ticks + 1) }),
        ))
          × (d ≤ date_of (w.clock w.ticks) + 7)
          × IsNextOn existing.recur_weekdays (date_of (w.clock w.ticks)) d
    unfolding check_item_route check_or_uncheck bounce_or_finish
    check_item_route_recurs c checked k small listed fits =
        let (d, e, within, first) =
          next_recurrence_after_least (date_of (w.clock w.ticks)) existing.recur_weekdays k small
            listed fits in
        let w1 : World fm = record w { ticks = w.ticks + 1 } in
        (
          d,
          then_ok (read_item h item_id) _ found (
              then_ok (check_or_uncheck h (c ∷ checked) existing) _
                (then_ok (next_occurrence h existing.recur_weekdays) _
                  (next_occurrence_lem existing.recur_weekdays w e)
                  (then_ok now _ (now_lem w1) (write_item_lem _ _ valid)))
                refl),
          within,
          first,
        )

    -- Any other item that is checked off becomes done, and one that is unchecked goes to the Inbox; the
    -- rest of it is kept.
    pub check_item_route_once :
        (checked : Text)
        → existing.recur_weekdays ≡ []
        → check_item_route h request item_id checked w ≡ (
          ok (redirect (came_from request)),
          after_item w (w.ticks + 1) (record existing {
            status = elim checked [ [] ↦ inbox | _ ∷ _ ↦ done ];
            updated_at = w.clock w.ticks;
          }),
        )
    unfolding check_item_route check_or_uncheck bounce_or_finish set_and_write next_occurrence
    check_item_route_once [] once = then_ok (read_item h item_id) _ found (
        then_ok (check_or_uncheck h [] existing) _
          (then_ok now _ (now_lem w) (write_item_lem _ _ valid)) refl)
    check_item_route_once (c ∷ checked) once = then_ok (read_item h item_id) _ found (
        then_ok (check_or_uncheck h (c ∷ checked) existing) _
          (then_ok (next_occurrence h existing.recur_weekdays) _
            (next_occurrence-none existing.recur_weekdays w once)
            (then_ok now _ (now_lem w) (write_item_lem _ _ valid)))
          refl)
