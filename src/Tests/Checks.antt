-- ===== src/Tests/Checks.antt =====
-- Runs of checking off, of recurrence and of capture.
use plain_text_gtd.Storage.Files.{token_hex, files}
use plain_text_gtd.Routes.Capture.{create_items}
use plain_text_gtd.Routes.Created.{captured, create_items-Holds, lookup-create_items}
use plain_text_gtd.Routes.Parking.{Holds}
use plain_text_gtd.Routes.Save.{Form}
use plain_text_gtd.Prelude.{
  All, ◌∙◌, ◌+◌, ◌≡◌, ◌≤◌, refl, [], ◌∷◌, none, some, lookup, text_eq, option_eq, arith, nat_eq,
}
use plain_text_gtd.Text.{Text, lit, rstrip, strip}
use plain_text_gtd.Dates.{Date}
use plain_text_gtd.DataTypes.{Item, status_eq, pos, int_eq}
use plain_text_gtd.Host.{ascii_host}
use plain_text_gtd.World.{World, ok}
use plain_text_gtd.Storage.Memory.{memory_frontmatter, memory_frontmatter-IsLawful}
use plain_text_gtd.Storage.Files.{is_item_id, read_item}
use plain_text_gtd.Storage.RoundTrip.{HasDates}
use plain_text_gtd.Storage.Writes.{load_item-dumps}
use plain_text_gtd.Routes.Recurrence.{next_recurrence_after, next_recurrence_after_least, IsNextOn}
use plain_text_gtd.Storage.Writes.{read_item_lem}
use plain_text_gtd.Routes.Requests.{Request, redirect, page, inbox_page}
use plain_text_gtd.Routes.Edits.{check_item_route}
use plain_text_gtd.Routes.Bounce.{after_item, check_item_route_recurs}
use plain_text_gtd.Routes.Capture.{split_capture_block}
use plain_text_gtd.Tests.Items.{
  noon, project, child, child-HasDates, decided, world_of, two_items, noon-IsDate, project-HasDates,
  empty-IsClean,
}

next_recurrence_after_least_example :
    (d : Date) × (next_recurrence_after 700000 (pos 2 ∷ []) ≡ ok (some d))
    × (d ≤ 700007)
    × IsNextOn (pos 2 ∷ []) 700000 d
unfolding int_eq
next_recurrence_after_least_example =
    next_recurrence_after_least 700000 (pos 2 ∷ []) 2 (omega arith) refl (omega arith)

abbrev weekly : Item
weekly = record project { recur_weekdays = pos 2 ∷ [] }

abbrev weekly_items : World memory_frontmatter
weekly_items = world_of (weekly ∷ [])

weekly-HasDates : HasDates weekly
weekly-HasDates = record { created = noon-IsDate; updated = noon-IsDate; due = tt; start = tt }

found_weekly : read_item ascii_host (lit "gtd-a1") weekly_items ≡ (ok weekly, weekly_items)
unfolding is_item_id lookup text_eq rstrip
found_weekly =
    read_item_lem ascii_host (lit "gtd-a1") weekly_items refl refl
    ∙ load_item-dumps ascii_host memory_frontmatter-IsLawful (lit "gtd-a1") weekly weekly_items
        weekly-HasDates empty-IsClean

pub found_project : read_item ascii_host (lit "gtd-a1") two_items ≡ (ok project, two_items)
unfolding is_item_id lookup text_eq rstrip
found_project =
    read_item_lem ascii_host (lit "gtd-a1") two_items refl refl
    ∙ load_item-dumps ascii_host memory_frontmatter-IsLawful (lit "gtd-a1") project two_items
        project-HasDates empty-IsClean

abbrev pub no_referer : Request
no_referer = record { referer = none }

check_item_route_recurs_example :
    (d : Date) × (check_item_route ascii_host no_referer (lit "gtd-a1") (lit "on") weekly_items ≡ (
      ok (redirect (page inbox_page)),
      after_item weekly_items 2 (record weekly { start_date = some d; updated_at = noon + 1 }),
    ))
    × (d ≤ 700007)
    × IsNextOn (pos 2 ∷ []) 700000 d
unfolding is_item_id int_eq
check_item_route_recurs_example =
    check_item_route_recurs ascii_host no_referer (lit "gtd-a1") weekly_items weekly found_weekly
      refl 111 (lit "n") 2 (omega arith) refl (omega arith)

abbrev block : Text
block = lit "milk"

create_items-Holds_example :
    ((create_items ascii_host block two_items).0 ≡ ok (redirect (page inbox_page)))
    × All (Holds (create_items ascii_host block two_items).1) (captured ascii_host block two_items)
unfolding split_capture_block strip
create_items-Holds_example = create_items-Holds ascii_host block two_items (tt, tt)

lookup-create_items_example :
    lookup (lit "gtd-a1.md") (files (create_items ascii_host block two_items).1)
    ≡ lookup (lit "gtd-a1.md") (files two_items)
unfolding split_capture_block strip text_eq token_hex
lookup-create_items_example =
    lookup-create_items ascii_host block two_items (lit "gtd-a1.md") (decided refl, tt)

found_child : read_item ascii_host (lit "gtd-b2") two_items ≡ (ok child, two_items)
unfolding is_item_id lookup text_eq rstrip
found_child =
    read_item_lem ascii_host (lit "gtd-b2") two_items refl refl
    ∙ load_item-dumps ascii_host memory_frontmatter-IsLawful (lit "gtd-b2") child two_items
        child-HasDates empty-IsClean

abbrev call_form : Form
call_form = record {
  title = lit "Call";
  status = lit "next";
  due_date = [];
  start_date = [];
  waiting_for = [];
  parent = [];
  tags = lit "home, phone";
  quick = [];
  is_project = [];
  priority = lit "high";
  recur_weekdays = [];
  body = [];
  back = [];
}
