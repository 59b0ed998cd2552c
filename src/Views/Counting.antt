-- ===== src/Views/Counting.antt =====
-- What the counts of the sidebar say of the pages.
use plain_text_gtd.Prelude.{
  suc, ◌+◌, ◌≡◌, refl, sym, ap, ◌∙◌, Bool, not, ◌&&◌, List, [], ◌∷◌, map, arith, length, select,
  sort, insert,
}
use plain_text_gtd.Dates.{Date}
use plain_text_gtd.DataTypes.{Item, status_eq}
use plain_text_gtd.Host.{Host}
use plain_text_gtd.Views.Keys.{title_key, open_children, is_closed, sort_by}
use plain_text_gtd.Views.Context.{count, status_counts}
use plain_text_gtd.Views.Lists.{
  view_inbox, view_waiting, view_read, view_reference, list_view, view_tickler,
}
use plain_text_gtd.Views.Next.{Group, next_tasks}
use plain_text_gtd.Views.Projects.{view_projects, is_active_project, is_someday_project}

count-length : (p : Item → Bool) (items : List Item) → count p items ≡ length (select p items)
unfolding count
count-length p [] = refl
count-length p (it ∷ items) = ground (arith, count-length p items)

module _ {ℓ} {A : Type ℓ} (le : A → A → Bool) where
  length-insert : (x : A) (xs : List A) → length (insert le x xs) ≡ suc (length xs)
  unfolding insert
  length-insert x [] = refl
  length-insert x (y ∷ ys) = ground (arith, length-insert x ys)

  pub length-sort : (xs : List A) → length (sort le xs) ≡ length xs
  unfolding sort
  length-sort [] = refl
  length-sort (x ∷ xs) = length-insert x (sort le xs) ∙ ap suc (length-sort xs)

length-map {ℓ κ} :
    {A : Type ℓ} {B : Type κ} (f : A → B) (xs : List A) → length (map f xs) ≡ length xs
length-map f [] = refl
length-map f (x ∷ xs) = ap suc (length-map f xs)

counted :
    (key : _) (p : Item → Bool) (items : List Item)
    → count p items ≡ length (sort_by key (select p items))
counted key p items = count-length p items ∙ sym (length-sort _ (select p items))

-- A project that is neither done nor trashed is active or in Someday, and not both.
project_split :
    (items : List Item)
    → count (λ it. it.is_project && not (is_closed it.status)) items
      ≡ count is_active_project items + count is_someday_project items
unfolding count status_eq
project_split [] = refl
project_split (it ∷ items) = ground (arith, project_split items)

-- Each count of the sidebar is the number of items that its page lists: Inbox, Next, Waiting, Someday
-- Read, Reference and Tickler; and the count of projects is the number of groups on the Projects page.
pub status_counts_pages :
    (h : Host) (today : Date) (items : List Item)
    → let c = status_counts today items in
      (c.inbox ≡ length (view_inbox h items))
      × (c.next ≡ length (next_tasks today items))
      × (c.waiting ≡ length (view_waiting h items))
      × (c.read_review ≡ length (view_read h items))
      × (c.reference ≡ length (view_reference h items))
      × (c.tickler ≡ length (view_tickler h today items))
      × (c.project
          ≡ length (view_projects h items).next_project_groups
            + length (view_projects h items).someday_project_groups)
unfolding status_counts view_inbox next_tasks view_waiting view_read view_reference list_view
    view_tickler view_projects
status_counts_pages h today items = (
  counted _ _ items,
  counted _ _ items,
  counted _ _ items,
  counted _ _ items,
  counted _ _ items,
  counted _ _ items,
  project_split items
      ∙ omega (
        arith,
        counted (title_key h) is_active_project items,
        counted (title_key h) is_someday_project items,
        length-map {B = Group} (λ p. record { project = p; tasks = open_children p.id items })
            (sort_by (title_key h) (select is_active_project items)),
        length-map {B = Group} (λ p. record { project = p; tasks = open_children p.id items })
            (sort_by (title_key h) (select is_someday_project items)),
      ),
)
