-- ===== src/Tests/Projects.antt =====
-- Runs of the way to Someday and back.
use plain_text_gtd.Prelude.{assign, ◌+◌}
use plain_text_gtd.DataTypes.Values.{status_of}
use plain_text_gtd.Routes.Requests.{redirect, page, inbox_page, status_in}
use plain_text_gtd.Routes.Cascade.{set_status_route}
use plain_text_gtd.Routes.Bounce.{after_item}
use plain_text_gtd.Routes.Shelved.{set_status_route_parks}
use plain_text_gtd.Tests.Checks.{found_project, no_referer}
use plain_text_gtd.Prelude.{
  ◌≢◌, none, inl, All, ◌≡◌, refl, [], ◌∷◌, some, lookup, text_eq, option_eq, sort, insert,
  compare_text, key_le, nat_eq,
}
use plain_text_gtd.Text.{Text, lit, rstrip, is_newline, starts_with, ends_with}
use plain_text_gtd.Dates.{DateTime}
use plain_text_gtd.DataTypes.{Item, status_eq, someday, next, waiting, int_eq}
use plain_text_gtd.Host.{ascii_host}
use plain_text_gtd.Frontmatter.{IsClean}
use plain_text_gtd.World.{World, ok, then_ok}
use plain_text_gtd.Storage.Memory.{memory_frontmatter, memory_frontmatter-IsLawful}
use plain_text_gtd.Storage.Posts.{post_of}
use plain_text_gtd.Storage.Files.{
  file_name, is_item_id, item_files, load_all, all_items, files, load_item, children_of,
}
use plain_text_gtd.Storage.RoundTrip.{HasDates, in_whole_seconds}
use plain_text_gtd.Storage.Writes.{load_item-dumps}
use plain_text_gtd.Routes.Cascade.{parked, restored, cascade_project_status}
use plain_text_gtd.Routes.Someday.{
  IsMoving, cascade_parks, cascade_restores, restored-load_item-parked,
}
use plain_text_gtd.Tests.Items.{
  noon, project, child, world_of, two_items, noon-IsDate, project-HasDates, child-HasDates,
  empty-IsClean,
}

listed :
    (parent_item child_item : Item)
    → HasDates parent_item
    → HasDates child_item
    → (w : World memory_frontmatter)
    → item_files w
      ≡ (lit "gtd-a1.md", post_of parent_item) ∷ (lit "gtd-b2.md", post_of child_item) ∷ []
    → IsClean (rstrip is_newline parent_item.body)
    → IsClean (rstrip is_newline child_item.body)
    → all_items ascii_host w ≡ (
      ok (
          in_whole_seconds parent_item (rstrip is_newline parent_item.body)
          ∷ in_whole_seconds child_item (rstrip is_newline child_item.body)
          ∷ []),
      w,
    )
unfolding all_items load_all
listed p c pd cd w e pc cc = rw e (
    then_ok _ _ (load_item-dumps ascii_host memory_frontmatter-IsLawful _ p w pd pc) (
      then_ok _ _
        (then_ok _ _ (load_item-dumps ascii_host memory_frontmatter-IsLawful _ c w cd cc)
          (then_ok _ _ refl refl))
        refl))

children_of_project : children_of ascii_host (lit "gtd-a1") two_items ≡ (ok (child ∷ []), two_items)
unfolding children_of item_files sort insert compare_text key_le text_eq starts_with ends_with
    rstrip option_eq
children_of_project =
    then_ok _ _
      (listed project child project-HasDates child-HasDates two_items refl empty-IsClean
        empty-IsClean)
      refl

child_moves : IsMoving child.status
unfolding status_eq
child_moves = (λ e. cc, λ e. cc, λ e. cc)

cascade_parks_example :
    ((cascade_project_status ascii_host project someday two_items).0 ≡ ok tt)
    × ((t : DateTime) × (lookup
            (lit "gtd-b2.md")
            (files (cascade_project_status ascii_host project someday two_items).1)
          ≡ some (
              post_of (record child {
                status = someday;
                prev_status = some child.status;
                updated_at = t;
              }))))
    × ((name : Text)
        → All (λ (d : Item). IsMoving d.status → name ≢ file_name d.id) (child ∷ [])
        → lookup name (files (cascade_project_status ascii_host project someday two_items).1)
          ≡ lookup name (files two_items))
unfolding is_item_id status_eq
cascade_parks_example =
    cascade_parks ascii_host project two_items (child ∷ []) two_items children_of_project refl
      (refl, tt) (tt, tt) refl [] child [] refl child_moves

abbrev shelved_project : Item
shelved_project = record project { status = someday; updated_at = noon + 0 }

abbrev shelved_items : World memory_frontmatter
shelved_items = after_item two_items 1 shelved_project

shelved_project-HasDates : HasDates shelved_project
shelved_project-HasDates = record {
  created = noon-IsDate;
  updated = noon-IsDate;
  due = tt;
  start = tt;
}

children_of_shelved :
    children_of ascii_host (lit "gtd-a1") shelved_items ≡ (ok (child ∷ []), shelved_items)
unfolding children_of item_files sort insert compare_text key_le text_eq starts_with ends_with
    rstrip option_eq assign
children_of_shelved =
    then_ok _ _
      (listed shelved_project child shelved_project-HasDates child-HasDates shelved_items refl
        empty-IsClean empty-IsClean)
      refl

set_status_route_parks_example :
    ((set_status_route ascii_host no_referer (lit "gtd-a1") (lit "someday") two_items).0
      ≡ ok (redirect (page inbox_page)))
    × (t : DateTime) × (lookup (lit "gtd-b2.md") (
          files (set_status_route ascii_host no_referer (lit "gtd-a1") (lit "someday") two_items).1)
        ≡ some (
            post_of
              (record child { status = someday; prev_status = some child.status; updated_at = t })))
unfolding is_item_id status_eq status_in status_of
set_status_route_parks_example =
    set_status_route_parks ascii_host no_referer (lit "gtd-a1") (lit "someday") two_items project
      found_project refl refl refl refl (child ∷ []) shelved_items children_of_shelved (refl, tt)
      (tt, tt) [] child [] refl child_moves

abbrev away : Item
away = record project { status = someday }

abbrev waiting_child : Item
waiting_child = record child { status = someday; prev_status = some waiting }

abbrev away_items : World memory_frontmatter
away_items = world_of (away ∷ waiting_child ∷ [])

away-HasDates : HasDates away
away-HasDates = record { created = noon-IsDate; updated = noon-IsDate; due = tt; start = tt }

waiting_child-HasDates : HasDates waiting_child
waiting_child-HasDates = record {
  created = noon-IsDate;
  updated = noon-IsDate;
  due = tt;
  start = tt;
}

children_of_away :
    children_of ascii_host (lit "gtd-a1") away_items ≡ (ok (waiting_child ∷ []), away_items)
unfolding children_of item_files sort insert compare_text key_le text_eq starts_with ends_with
    rstrip option_eq
children_of_away =
    then_ok _ _
      (listed away waiting_child away-HasDates waiting_child-HasDates away_items refl empty-IsClean
        empty-IsClean)
      refl

cascade_restores_example :
    ((cascade_project_status ascii_host away next away_items).0 ≡ ok tt)
    × (t : DateTime) × (lookup
          (lit "gtd-b2.md")
          (files (cascade_project_status ascii_host away next away_items).1)
        ≡ some (
            post_of
              (record waiting_child { status = waiting; prev_status = none; updated_at = t })))
unfolding is_item_id status_eq
cascade_restores_example =
    cascade_restores ascii_host away away_items (waiting_child ∷ []) away_items children_of_away
      refl (refl, tt) (tt, tt) next refl refl [] waiting_child [] refl refl waiting (inl refl)

restored-load_item-parked_example :
    (p : Item) × (load_item ascii_host (lit "gtd-b2") (post_of (parked child noon)) two_items
      ≡ (ok p, two_items))
    × (restored p noon ≡ record (in_whole_seconds child []) { updated_at = noon })
unfolding rstrip
restored-load_item-parked_example =
    restored-load_item-parked ascii_host memory_frontmatter-IsLawful child noon noon two_items
      (record { created = noon-IsDate; updated = noon-IsDate; due = tt; start = tt }) empty-IsClean
      refl
