-- ===== src/Tests/Pages.antt =====
-- Runs of the pages.
use plain_text_gtd.Prelude.{
  Bool, ◌||◌, Mem, ◌+◌, ◌≡◌, refl, true, false, List, [], ◌∷◌, none, some, text_eq, option_eq,
  nat_eq,
}
use plain_text_gtd.DataTypes.{Item, status_eq, waiting, int_eq}
use plain_text_gtd.Host.{ascii_host}
use plain_text_gtd.World.{ok}
use mathlib.Core.List.{mem-cons}
use mathlib.Core.Logic.Or
use plain_text_gtd.Views.Keys.{is_closed}
use plain_text_gtd.Views.Context.{count}
use plain_text_gtd.Views.Next.{NextPage, view_next, next_tasks}
use plain_text_gtd.Views.Search.{Query}
use plain_text_gtd.Views.Today.{view_today}
use plain_text_gtd.Views.Grouping.{count_groups, view_next_total}
use plain_text_gtd.Views.Sections.{has_come, items_shown, view_today_complete, view_today_sound}
use plain_text_gtd.Tests.Items.{project, child}

abbrev page_example : List Item
page_example = project ∷ child ∷ []

view_next_total_example :
    (page : NextPage) × (view_next ascii_host 700000 page_example ≡ ok page)
    × ((p : Item → Bool)
        → count p page.loose + count_groups p page.project_groups
          ≡ count p (next_tasks 700000 page_example))
view_next_total_example = view_next_total ascii_host 700000 page_example

abbrev due_item : Item
due_item = record child { due_date = some 700000 }

due_listed : Mem due_item (due_item ∷ [])
due_listed = mem-cons.1 (Or.inl refl)

view_today_complete_example :
    Mem due_item (items_shown (view_today ascii_host 700000 (due_item ∷ [])))
unfolding status_eq
view_today_complete_example =
    view_today_complete ascii_host 700000 (due_item ∷ []) due_item due_listed refl refl

view_today_sound_example :
    ∥ Mem due_item (due_item ∷ [])
      × ((is_closed waiting ≡ false)
          × ((has_come (some 700000) 700000 || has_come none 700000) ≡ true)) ∥₁
unfolding status_eq
view_today_sound_example =
    view_today_sound ascii_host 700000 (due_item ∷ []) due_item
      (view_today_complete ascii_host 700000 (due_item ∷ []) due_item due_listed refl refl)

abbrev everything : Query
everything = record { q = []; status = []; priority = []; kind = [] }
