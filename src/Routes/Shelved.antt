-- ===== src/Routes/Shelved.antt =====
-- The status picker on a project that goes to Someday, from the request to its children's files.
use plain_text_gtd.Prelude.{
  ◌+◌, ◌≡◌, refl, ap, ◌∙◌, true, false, List, ◌∷◌, ◌++◌, some, lookup, text_eq, ◌==◌,
}
use plain_text_gtd.Text.{Text}
use plain_text_gtd.Dates.{DateTime}
use plain_text_gtd.DataTypes.{Item, status_eq, someday}
use plain_text_gtd.Host.{Host}
use plain_text_gtd.Frontmatter.{Frontmatter}
use plain_text_gtd.World.{World, Result, ok, now, now_lem, then_ok, then_lift}
use plain_text_gtd.Storage.Posts.{post_of}
use plain_text_gtd.Storage.Files.{is_item_id, file_name, files, read_item, write_item, children_of}
use plain_text_gtd.Storage.Writes.{write_item_lem}
use plain_text_gtd.Routes.Requests.{Request, redirect, came_from, status_in}
use plain_text_gtd.Routes.Cascade.{cascade_project_status, set_status_route}
use plain_text_gtd.Routes.Parking.{HaveValidIds, HaveDistinctFiles}
use plain_text_gtd.Routes.Someday.{IsMoving, cascade_parks}
use plain_text_gtd.Routes.Bounce.{after_item}

returned : {A B : Type 0} {a : Result A} (r : Result A × B) → r.0 ≡ a → r ≡ (a, r.1)
returned r e = ap (λ x. (x, r.1)) e

module _ {fm : Frontmatter} (h : Host) (request : Request) (item_id status : Text) (w : World fm)
    (project : Item) (found : read_item h item_id w ≡ (ok project, w))
    (valid : is_item_id project.id ≡ true) (is_project : project.is_project ≡ true)
    (active : (project.status == someday) ≡ false) (named : status_in status ≡ ok someday) where
  -- The world in which the project has its new status, and its children have their old ones.
  abbrev pub shelved : World fm
  shelved =
      after_item w (w.ticks + 1) (record project { status = someday; updated_at = w.clock w.ticks })

  module _ (children : List Item) (w' : World fm)
      (listed : children_of h project.id shelved ≡ (ok children, w'))
      (valid_ids : HaveValidIds children) (distinct : HaveDistinctFiles children) where
    -- The request that sends an active project to Someday succeeds, and each child of the project that
    -- is not done, trashed or in Someday already is then in its file with the status Someday and its
    -- old status saved, and otherwise as it was but for the time of change. The children are those
    -- that are listed once the project is written; they have valid ids and files of their own.
    pub set_status_route_parks :
        (before : List Item) (c : Item) (after : List Item)
        → children ≡ before ++ (c ∷ after)
        → IsMoving c.status
        → ((set_status_route h request item_id status w).0 ≡ ok (redirect (came_from request)))
          × (t : DateTime) × (lookup
                (file_name c.id)
                (files (set_status_route h request item_id status w).1)
              ≡ some (
                  fm.dumps (
                    post_of (record c {
                      status = someday;
                      prev_status = some c.status;
                      updated_at = t;
                    }))))
    unfolding set_status_route
    set_status_route_parks before c after split moving =
        let (returns, (t, held), others) =
          cascade_parks h project shelved children w' listed is_project valid_ids distinct active
            before c after split moving in
        let run : set_status_route h request item_id status w ≡ (
          ok (redirect (came_from request)),
          (cascade_project_status h project someday shelved).1,
        ) =
          then_ok (read_item h item_id) _ found (
            then_lift _ _ named (
              then_ok now _ (now_lem w) (
                then_ok (write_item _) _ (write_item_lem _ _ valid) (
                  then_ok (cascade_project_status h project someday) _ (returned _ returns)
                    refl)))) in
        (ap (λ r. r.0) run, t, ap (λ r. lookup (file_name c.id) (files r.1)) run ∙ held)
