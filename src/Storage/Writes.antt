-- ===== src/Storage/Writes.antt =====
-- `write_item`, `read_item` and `delete_item` as functions of the files.
use plain_text_gtd.Prelude.{
  ◌≡◌, ◌≢◌, refl, ◌∙◌, ap, true, false, none, some, arith, ◌==◌, text_eq, ≡→eq, Bool-cases,
  Option-cases, inl, inr, lookup, assign, lookup-assign, lookup-remove, if◌then◌else◌,
}
use mathlib.Core.Path.{fun_ext}
use plain_text_gtd.Text.{Text, rstrip, is_newline}
use plain_text_gtd.DataTypes.{Item, gtd_value_error, file_not_found}
use plain_text_gtd.Host.{Host}
use plain_text_gtd.Frontmatter.{Frontmatter, Post, IsClean, IsLawful}
use plain_text_gtd.World.{World, ok, err, ◌>>=◌}
use plain_text_gtd.Storage.Posts.{item_from, item_from_post, post_of}
use plain_text_gtd.Storage.Keys.{written, written_lem}
use plain_text_gtd.Storage.RoundTrip.{HasDates, in_whole_seconds, item_from-written}
use plain_text_gtd.Storage.Files.{
  is_item_id, file_name, files, with_files, write_item, load_item, read_item, delete_item,
}

module _ {fm : Frontmatter} where
  pub write_item_lem :
      (item : Item) (w : World fm)
      → is_item_id item.id ≡ true
      → write_item item w
        ≡ (ok tt, with_files w (assign (file_name item.id) (fm.dumps (post_of item)) (files w)))
  unfolding write_item ◌>>=◌
  write_item_lem item w valid = rw valid

  -- A bad id is refused, and nothing but the directory is made.
  pub write_item_refused :
      (item : Item) (w : World fm)
      → is_item_id item.id ≡ false
      → write_item item w ≡ (err gtd_value_error, with_files w (files w))
  unfolding write_item ◌>>=◌
  write_item_refused item w bad = rw bad

module _ {fm : Frontmatter} (h : Host) where
  load_item_lem :
      (id : Text) (f : fm.File) (w : World fm) {q : Post}
      → fm.loads f ≡ some q
      → load_item h id f w ≡ item_from_post h id q w
  unfolding load_item ◌>>=◌
  load_item_lem id f w e = rw e

  pub read_item_lem :
      (id : Text) (w : World fm) {f : fm.File}
      → is_item_id id ≡ true
      → lookup (file_name id) (files w) ≡ some f
      → read_item h id w ≡ load_item h id f w
  unfolding read_item ◌>>=◌
  read_item_lem id w valid found = rw (valid, found)

  pub read_item_missing :
      (id : Text) (w : World fm)
      → is_item_id id ≡ true
      → lookup (file_name id) (files w) ≡ none
      → read_item h id w ≡ (err file_not_found, w)
  unfolding read_item ◌>>=◌
  read_item_missing id w valid missing = rw (valid, missing)

  module _ (lawful : IsLawful fm) where
    pub load_item-dumps :
        (id : Text) (item : Item) (w : World fm)
        → HasDates item
        → IsClean (rstrip is_newline item.body)
        → load_item h id (fm.dumps (post_of item)) w
          ≡ (ok (in_whole_seconds item (rstrip is_newline item.body)), w)
    load_item-dumps id item w dated clean =
        let (q, loaded, content, keys) = lawful.loads-dumps (post_of item) clean in
        load_item_lem id _ w loaded
        ∙ ap (λ get. item_from h id get q.content w) (fun_ext λ k. keys k ∙ written_lem item k)
        ∙ ap (λ c. item_from h id (written item) c w) content
        ∙ item_from-written h id _ item w dated

    -- An item that is written is read back as it was, with its times cut to whole seconds and its
    -- body without line feeds at the end; nothing else about the world changes. The item has a valid
    -- id, its dates are dates of the calendar, and its body, without the line feeds at its end, is one
    -- that a document keeps: it has no white space at its ends and no carriage returns.
    pub read-write_item :
        (item : Item) (w : World fm)
        → is_item_id item.id ≡ true
        → HasDates item
        → IsClean (rstrip is_newline item.body)
        → read_item h item.id (write_item item w).1
          ≡ (ok (in_whole_seconds item (rstrip is_newline item.body)), (write_item item w).1)
    read-write_item item w valid dated clean = rw (write_item_lem item w valid) (
        read_item_lem item.id _ valid
          (lookup-assign _ _ _ _ ∙ rw (≡→eq (file_name item.id) (file_name item.id) refl))
        ∙ load_item-dumps item.id item _ dated clean)

module _ {fm : Frontmatter} where
  -- Writing an item changes the file of that item alone.
  pub lookup-write_item :
      (item : Item) (w : World fm) (name : Text)
      → name ≢ file_name item.id
      → lookup name (files (write_item item w).1) ≡ lookup name (files w)
  lookup-write_item item w name other = elim (Bool-cases (is_item_id item.id)) [
    | inl valid ↦ rw (write_item_lem item w valid, lookup-assign) (ground arith)
    | inr bad ↦ rw (write_item_refused item w bad)
  ]

  files-delete_item :
      (id : Text) (w : World fm) (name : Text)
      → is_item_id id ≡ true
      → ((delete_item id w).0 ≡ ok tt)
        × (lookup name (files (delete_item id w).1)
            ≡ (if name == file_name id then none else lookup name (files w)))
  unfolding delete_item ◌>>=◌
  files-delete_item id w name valid = elim (Option-cases w.disk.items) [
    | inl none_there ↦ rw (valid, none_there) (refl, unfold lookup in ground arith)
    | inr (d, there) ↦ rw (valid, there) (refl, lookup-remove (file_name id) name d)
  ]

  -- Deleting an item under a valid id succeeds, whether it was there or not: reading it then fails, for
  -- the file is not there, and the other files are as they were.
  pub read_item-delete_item :
      (h : Host) (id : Text) (w : World fm)
      → is_item_id id ≡ true
      → let (r, t) = delete_item id w in
        (r ≡ ok tt)
        × (read_item h id t ≡ (err file_not_found, t))
        × ((name : Text) → name ≢ file_name id → lookup name (files t) ≡ lookup name (files w))
  read_item-delete_item h id w valid =
      let (done, gone) = files-delete_item id w (file_name id) valid in
      (
        done,
        read_item_missing h id _ valid (gone ∙ same_file _ (file_name id)),
        λ name other.
            (files-delete_item id w name valid).1 ∙ other_file _ name (file_name id) other,
      )
    where
      same_file : {A : Type 0} {a : A} (b : A) (name : Text) → (if name == name then a else b) ≡ a
      same_file b name = ground arith

      other_file :
          {A : Type 0} (a : A) {b : A} (name file : Text)
          → name ≢ file
          → (if name == file then a else b) ≡ b
      other_file a name file n = ground arith
