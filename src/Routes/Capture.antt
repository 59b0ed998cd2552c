-- ===== src/Routes/Capture.antt =====
-- runner.py: `_split_capture_block`, `create_items` and `add_child_route`.
use plain_text_gtd.Prelude.{
  ◌||◌, List, [], ◌∷◌, Option, none, some, ◌==◌, nat_eq, take, contains, if◌then◌else◌,
}
use plain_text_gtd.Text.{Text, is_space, is_empty, lstrip, strip}
use plain_text_gtd.Text.Lines.{splitlines}
use plain_text_gtd.Dates.{DateTime}
use plain_text_gtd.DataTypes.{new_item, inbox, next}
use plain_text_gtd.Host.{Host}
use plain_text_gtd.Frontmatter.{Frontmatter}
use plain_text_gtd.World.{M, pure, now, ◌>>=◌, ◌>>◌}
use plain_text_gtd.Storage.Files.{new_item_id, write_item}
use plain_text_gtd.Routes.Requests.{Reply, redirect, page, inbox_page, project_page}

module _ (h : Host) where
  -- `\s+` after a bullet: the rest of the line behind the space, if there is some
  after_spaces : Text → Option Text
  after_spaces [] = none
  after_spaces (c ∷ s) = if is_space c then some (lstrip is_space s) else none

  -- `\d+[.)]` after its first digits
  after_number : Text → Option Text
  unfolding nat_eq
  after_number [] = none
  after_number (c ∷ s) = elim (h.decimal c) [
    | some d ↦ after_number s
    | none ↦ if c == 46 || c == 41 then after_spaces s else none
  ]

  -- `(?:[-*•]|\d+[.)])\s+`
  after_bullet : Text → Option Text
  unfolding after_number after_spaces
  after_bullet [] = none
  after_bullet (c ∷ s) = elim (h.decimal c) [
    | some d ↦ after_number s
    | none ↦ if contains (45 ∷ 42 ∷ 8226 ∷ []) c then after_spaces s else none
  ]

  -- `_BULLET_RE.sub("", line)`
  pub without_bullet : Text → Text
  unfolding after_bullet lstrip is_space
  without_bullet line = elim (after_bullet (lstrip is_space line)) [
    | none ↦ line
    | some rest ↦ rest
  ]

  unfoldable pub titles_of : List Text → List Text
  unfolding without_bullet strip
  titles_of [] = []
  titles_of (line ∷ lines) =
      let rest = titles_of lines in
      let cleaned = strip (without_bullet line) in if is_empty cleaned then rest else cleaned ∷ rest

  -- `_split_capture_block`
  unfoldable pub split_capture_block : Text → List Text
  unfolding titles_of splitlines
  split_capture_block block = titles_of (splitlines block)

  module _ {fm : Frontmatter} where
    unfoldable pub create_each : DateTime → List Text → M fm (Unit {0})
    create_each created [] = pure tt
    create_each created (title ∷ titles) = do
      id ← new_item_id
      write_item (new_item id (take 300 title) inbox created)
      create_each created titles

    -- `create_items`
    unfoldable pub create_items : Text → M fm Reply
    unfolding create_each
    create_items block = do
      created ← now
      create_each created (split_capture_block block)
      pure (redirect (page inbox_page))

module _ {fm : Frontmatter} where
  create_child : Text → Text → M fm (Unit {0})
  create_child item_id [] = pure tt
  create_child item_id (c ∷ s) = do
    created ← now
    id ← new_item_id
    write_item (record (new_item id (take 300 (c ∷ s)) next created) { parent = some item_id })

  -- `add_child_route`
  unfoldable pub add_child_route : Text → Text → M fm Reply
  unfolding create_child
  add_child_route item_id title = do
    create_child item_id (strip title)
    pure (redirect (page (project_page item_id)))
