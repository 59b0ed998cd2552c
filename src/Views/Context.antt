-- ===== src/Views/Context.antt =====
-- runner.py: `_status_counts`, `_parent_lookup` and the lists that `_render` adds to every page.
use plain_text_gtd.Prelude.{
  ℕ, suc, ◌+◌, Bool, not, ◌&&◌, List, [], ◌∷◌, map, Option, none, some, ◌==◌, text_eq, nat_eq,
  Assoc, lookup, assign, length, select, descending, textual, if◌then◌else◌,
}
use plain_text_gtd.Text.{Text}
use plain_text_gtd.Dates.{Date}
use plain_text_gtd.DataTypes.{Item, ItemStatus, status_eq}
use plain_text_gtd.Host.{Host}
use plain_text_gtd.Views.Keys.{is_closed, is_next_action, is_deferred, parent_of, sort_by}

-- A loop that counts.
unfoldable pub count : (Item → Bool) → List Item → ℕ
count p [] = 0
count p (it ∷ items) = if p it then suc (count p items) else count p items

-- The keys of the counts: the statuses, and the two views that are no statuses.
pub record Counts : Type 0 where
  pub inbox : ℕ
  pub next : ℕ
  pub waiting : ℕ
  pub someday : ℕ
  pub read_review : ℕ
  pub reference : ℕ
  pub done : ℕ
  pub trashed : ℕ
  pub project : ℕ
  pub tickler : ℕ

abbrev pub has_status : ItemStatus → Item → Bool
has_status s it = it.status == s

-- `_status_counts`: the count for `next` is set anew at the end, without projects and deferred items
unfoldable pub status_counts : Date → List Item → Counts
unfolding count
status_counts today items = record {
  inbox = count (has_status ItemStatus.inbox) items;
  next = count (is_next_action today) items;
  waiting = count (has_status ItemStatus.waiting) items;
  someday = count (has_status ItemStatus.someday) items;
  read_review = count (has_status ItemStatus.read_review) items;
  reference = count (has_status ItemStatus.reference) items;
  done = count (has_status ItemStatus.done) items;
  trashed = count (has_status ItemStatus.trashed) items;
  project = count (λ it. it.is_project && not (is_closed it.status)) items;
  tickler = count (is_deferred today) items;
}

-- `{item.id: item for item in items if …}`: a later item takes the place of an earlier one
unfoldable pub index_items : Assoc Text Item → List Item → Assoc Text Item
unfolding assign
index_items d [] = d
index_items d (it ∷ items) = index_items (assign it.id it d) items

-- `_parent_lookup`
unfoldable pub parent_lookup : List Item → Assoc Text Item
unfolding index_items
parent_lookup items = index_items [] (select (λ it. it.is_project) items)

abbrev count_or : Option ℕ → ℕ
count_or none = 0
count_or (some n) = n

-- `d[k] = d.get(k, 0) + 1`, for an item that has a parent and is open
count_child : Item → Option Text → Assoc Text ℕ → Assoc Text ℕ
unfolding assign lookup
count_child it none d = d
count_child it (some parent) d =
    if is_closed it.status then d else assign parent (count_or (lookup parent d) + 1) d

child_counts_from : Assoc Text ℕ → List Item → Assoc Text ℕ
child_counts_from d [] = d
child_counts_from d (it ∷ items) = child_counts_from (count_child it (parent_of it) d) items

unfoldable pub child_counts : List Item → Assoc Text ℕ
unfolding child_counts_from count_child
child_counts = child_counts_from []

-- The part of the template's context that depends on the items.
pub record Context : Type 0 where
  pub counts : Counts
  pub all_count : ℕ
  pub is_fresh : Bool
  pub parents : Assoc Text Item
  pub all_projects : List Item
  pub children : Assoc Text ℕ
  pub done_items : List Item

module _ (h : Host) where
  -- The projects that a picker offers.
  unfoldable pub all_projects_of : List Item → List Item
  unfolding parent_lookup
  all_projects_of snapshot =
      sort_by (textual (λ p. h.lower p.title) ∷ [])
        (select (λ p. not (is_closed p.status)) (map (λ e. e.1) (parent_lookup snapshot)))

  -- `_render`
  unfoldable pub render : Date → List Item → Context
  unfolding all_projects_of status_counts child_counts nat_eq
  render today snapshot = record {
    counts = status_counts today snapshot;
    all_count = length snapshot;
    is_fresh = length snapshot == 0;
    parents = parent_lookup snapshot;
    all_projects = all_projects_of snapshot;
    children = child_counts snapshot;
    done_items =
        sort_by (descending (λ it. it.updated_at) ∷ [])
          (select (has_status ItemStatus.done) snapshot);
  }
