-- ===== src/Views/Projects.antt =====
-- runner.py: `view_someday`, `view_projects`, `view_project_detail` and `edit_item_route`.
use plain_text_gtd.Prelude.{
  Bool, not, ◌&&◌, ◌||◌, List, [], ◌∷◌, map, Option, none, some, ◌==◌, text_eq, option_eq, select,
  first, textual, if◌then◌else◌,
}
use plain_text_gtd.Text.{Text}
use plain_text_gtd.DataTypes.{Item, status_eq, someday}
use plain_text_gtd.Host.{Host}
use plain_text_gtd.Views.Keys.{
  is_closed, is_set, sort_by, parent_of, newest_key, title_key, project_child_key, open_children,
}
use plain_text_gtd.Views.Next.{Group}

-- A group for each project, with its open children.
abbrev pub groups_with_children : List Item → List Item → List Group
groups_with_children snapshot =
    map (λ p. record { project = p; tasks = open_children p.id snapshot })

pub record SomedayPage : Type 0 where
  pub project_groups : List Group
  pub standalone_tasks : List Item

pub record ProjectsPage : Type 0 where
  pub next_project_groups : List Group
  pub someday_project_groups : List Group

pub record DetailPage : Type 0 where
  pub project : Item
  pub children : List Item

pub record EditPage : Type 0 where
  pub item : Item
  pub projects : List Item

abbrev pub is_someday_project : Item → Bool
is_someday_project it = it.is_project && it.status == someday

-- done, trashed and someday projects are not active
abbrev pub is_active_project : Item → Bool
is_active_project it = it.is_project && not (is_closed it.status || it.status == someday)

abbrev pub is_loose_someday : Item → Bool
is_loose_someday it = it.status == someday && (not it.is_project && not (is_set (parent_of it)))

module _ (h : Host) where
  unfoldable pub view_someday : List Item → SomedayPage
  view_someday snapshot = record {
    project_groups =
        groups_with_children snapshot (sort_by (title_key h) (select is_someday_project snapshot));
    standalone_tasks = sort_by (newest_key h) (select is_loose_someday snapshot);
  }

  unfoldable pub view_projects : List Item → ProjectsPage
  view_projects snapshot = record {
    next_project_groups =
        groups_with_children snapshot (sort_by (title_key h) (select is_active_project snapshot));
    someday_project_groups =
        groups_with_children snapshot (sort_by (title_key h) (select is_someday_project snapshot));
  }

abbrev detail_of : List Item → Option Item → Option DetailPage
detail_of snapshot none = none
detail_of snapshot (some p) =
    if p.is_project
    then some (record {
      project = p;
      children = sort_by project_child_key (select (λ it. it.parent == some p.id) snapshot);
    })
    else none

-- `view_project_detail`, `none` for the page that says that nothing was found
unfoldable pub view_project_detail : Text → List Item → Option DetailPage
view_project_detail item_id snapshot = detail_of snapshot (first (λ it. it.id == item_id) snapshot)

abbrev edit_of : Host → List Item → Option Item → Option EditPage
edit_of h snapshot none = none
edit_of h snapshot (some item) = some (record {
  item = item;
  projects =
      sort_by (textual (λ p. h.lower p.title) ∷ [])
        (select (λ it. it.is_project && not (it.id == item.id)) snapshot);
})

-- `edit_item_route`, `none` for the page that says that nothing was found
unfoldable pub edit_item_page : Host → Text → List Item → Option EditPage
edit_item_page h item_id snapshot = edit_of h snapshot (first (λ it. it.id == item_id) snapshot)
