-- ===== src/Routes/Cascade.antt =====
-- runner.py: `_cascade_project_status` and `set_status_route`.
use plain_text_gtd.Prelude.{
  Bool, not, ◌&&◌, ◌||◌, List, [], ◌∷◌, Option, none, some, ◌==◌, if◌then◌else◌,
}
use plain_text_gtd.Text.{Text}
use plain_text_gtd.Dates.{DateTime}
use plain_text_gtd.DataTypes.{Item, ItemStatus, status_eq, someday, next, done, trashed}
use plain_text_gtd.Host.{Host}
use plain_text_gtd.Frontmatter.{Frontmatter}
use plain_text_gtd.World.{M, pure, lift, now, ◌>>=◌, ◌>>◌}
use plain_text_gtd.Storage.Files.{read_item, write_item, children_of}
use plain_text_gtd.Routes.Requests.{Request, Reply, redirect, came_from, status_in}

-- The children that the move to Someday leaves alone.
abbrev pub stays_put : ItemStatus → Bool
stays_put s = s == done || (s == trashed || s == someday)

-- A child on the way to Someday.
abbrev pub parked : Item → DateTime → Item
parked child t = record child { status = someday; prev_status = some child.status; updated_at = t }

abbrev pub status_or : Option ItemStatus → ItemStatus → ItemStatus
status_or none default = default
status_or (some s) default = s

-- A child on the way back.
abbrev pub restored : Item → DateTime → Item
restored child t = record child {
  status = status_or child.prev_status next;
  prev_status = none;
  updated_at = t;
}

module _ {fm : Frontmatter} where
  -- The loops over the children: those that the test skips are left alone.
  unfoldable pub update_children :
      (Item → Bool) → (Item → DateTime → Item) → List Item → M fm (Unit {0})
  update_children skips updated [] = pure tt
  update_children skips updated (child ∷ children) =
      let rest = update_children skips updated children in
      let write : M fm (Unit {0}) = (do t ← now; write_item (updated child t); rest) in
      if skips child then rest else write

module _ {fm : Frontmatter} (h : Host) where
  -- `_cascade_project_status`
  unfoldable pub cascade_project_status : Item → ItemStatus → M fm (Unit {0})
  unfolding update_children
  cascade_project_status project new_status =
      if not project.is_project || project.status == new_status then pure tt else do
        children ← children_of h project.id
        if new_status == someday && not (project.status == someday)
            then update_children (λ c. stays_put c.status) parked children
            else if project.status == someday && not (new_status == someday)
            then update_children (λ c. not (c.status == someday)) restored children
            else pure tt

  -- `set_status_route`
  unfoldable pub set_status_route : Request → Text → Text → M fm Reply
  set_status_route request item_id status = do
    existing ← read_item h item_id
    new_status ← lift (status_in status)
    t ← now
    write_item (record existing { status = new_status; updated_at = t })
    cascade_project_status existing new_status
    pure (redirect (came_from request))
