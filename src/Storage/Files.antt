-- ===== src/Storage/Files.antt =====
-- storage.py: the operations on the files. Every caller leaves `root` at its default, so the model
-- has one root, and a path is the name of a file under it.
use plain_text_gtd.Prelude.{
  ℕ, ◌+◌, ◌-◌, ◌/◌, ◌%◌, Bool, true, false, ◌&&◌, ◌||◌, List, [], ◌∷◌, ◌++◌, none, some, ◌==◌,
  text_eq, option_eq, Assoc, lookup, assign, remove, leb, length, take, drop, select, sort, key_le,
  compare_text, textual, if◌then◌else◌,
}
use plain_text_gtd.Text.{Text, lit, starts_with, ends_with}
use plain_text_gtd.DataTypes.{
  Item, ItemStatus, status_eq, gtd_value_error, file_not_found, parse_error,
}
use plain_text_gtd.Host.{Host}
use plain_text_gtd.Frontmatter.{Frontmatter}
use plain_text_gtd.World.{M, World, ok, pure, raise, or_raise, ◌>>=◌, ◌>>◌}
use plain_text_gtd.Storage.Posts.{item_from_post, post_of}

-- `[a-z0-9]`
unfoldable pub id_char : ℕ → Bool
id_char c = (leb 97 c && leb c 122) || (leb 48 c && leb c 57)

-- `[a-z0-9]+$` from here on, after the first character if the flag is set: `$` also stands before a
-- line feed that ends the text.
unfoldable pub id_tail : Bool → Text → Bool
id_tail some_read [] = some_read
id_tail some_read (c ∷ s) =
    let rest = id_tail true s in if id_char c then rest else some_read && (c ∷ s) == lit "\n"

-- `_ID_PATTERN.match`
unfoldable pub is_item_id : Text → Bool
unfolding id_tail id_char starts_with text_eq
is_item_id s = starts_with s (lit "gtd-") && id_tail false (drop 4 s)

-- `f"{item_id}.md"`
abbrev pub file_name : Text → Text
file_name item_id = item_id ++ lit ".md"

-- `path_for_id`: the name of the file in `items/`
unfoldable pub path_for_id : {fm : Frontmatter} → Text → M fm Text
path_for_id item_id = if is_item_id item_id then pure (file_name item_id) else raise gtd_value_error

unfoldable pub hex_digit : ℕ → ℕ
hex_digit n = if leb n 9 then 48 + n else 87 + n

-- `secrets.token_hex(3)`, of a random number below 2 ^ 24
unfoldable pub token_hex : ℕ → Text
unfolding hex_digit
token_hex n =
    hex_digit (n / 1048576 % 16)
    ∷ hex_digit (n / 65536 % 16)
    ∷ hex_digit (n / 4096 % 16)
    ∷ hex_digit (n / 256 % 16)
    ∷ hex_digit (n / 16 % 16)
    ∷ hex_digit (n % 16)
    ∷ []

-- `new_item_id`
unfoldable pub new_item_id : {fm : Frontmatter} → M fm Text
unfolding token_hex
new_item_id w = (ok (lit "gtd-" ++ token_hex (w.random w.draws)), record w { draws = w.draws + 1 })

-- `gtd-*.md`
is_item_file : Text → Bool
unfolding starts_with ends_with
is_item_file name = starts_with name (lit "gtd-") && ends_with name (lit ".md")

module _ {fm : Frontmatter} where
  -- the item files, none where the directory is not there
  abbrev pub files : World fm → Assoc Text fm.File
  files w = elim w.disk.items [ none ↦ [] | some d ↦ d ]

  abbrev pub with_files : World fm → Assoc Text fm.File → World fm
  with_files w d = record w { disk = record w.disk { items = some d } }

  -- `items_dir(root).mkdir(parents=True, exist_ok=True)`
  make_items_dir : M fm (Unit {0})
  make_items_dir w = (ok tt, with_files w (files w))

  -- `path.open("r")`
  unfoldable pub open_item : Text → M fm fm.File
  open_item name w = or_raise file_not_found (lookup name (files w)) w

  -- `path.write_text(…)` of an item
  put_item : Text → fm.File → M fm (Unit {0})
  put_item name f w = (ok tt, with_files w (assign name f (files w)))

  -- `write_item`
  unfoldable pub write_item : Item → M fm (Unit {0})
  unfolding make_items_dir put_item path_for_id
  write_item item = do
    make_items_dir
    path ← path_for_id item.id
    put_item path (fm.dumps (post_of item))

  unlink : Text → M fm (Unit {0})
  unlink name w = elim w.disk.items [
    | none ↦ (ok tt, w)
    | some d ↦ (ok tt, with_files w (remove name d))
  ]

  -- `delete_item`
  unfoldable pub delete_item : Text → M fm (Unit {0})
  unfolding unlink path_for_id
  delete_item item_id = do path ← path_for_id item_id; unlink path

module _ {fm : Frontmatter} where
  -- `sorted(directory.glob("gtd-*.md"))`
  unfoldable pub item_files : World fm → Assoc Text fm.File
  unfolding is_item_file sort compare_text key_le
  item_files w = sort (key_le (textual (λ e. e.0) ∷ [])) (select (λ e. is_item_file e.0) (files w))

module _ {fm : Frontmatter} (h : Host) where
  unfoldable pub load_item : Text → fm.File → M fm Item
  load_item item_id f = do post ← or_raise parse_error (fm.loads f); item_from_post h item_id post

  -- `read_item`
  unfoldable pub read_item : Text → M fm Item
  unfolding open_item path_for_id
  read_item item_id = do path ← path_for_id item_id; f ← open_item path; load_item item_id f

  unfoldable pub load_all : Assoc Text fm.File → M fm (List Item)
  load_all [] = pure []
  load_all ((name, f) ∷ rest) = do
    item ← load_item (take (length name - 3) name) f
    items ← load_all rest
    pure (item ∷ items)

  -- `list(all_items())`
  unfoldable pub all_items : M fm (List Item)
  all_items w = load_all (item_files w) w

  -- `items_by_status`
  unfoldable pub items_by_status : ItemStatus → M fm (List Item)
  items_by_status status = do items ← all_items; pure (select (λ it. it.status == status) items)

  -- `children_of`
  unfoldable pub children_of : Text → M fm (List Item)
  children_of parent_id = do
    items ← all_items
    pure (select (λ it. it.parent == some parent_id) items)
