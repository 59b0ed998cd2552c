-- ===== src/Routes/Created.antt =====
-- What `create_items` leaves in the files.
use plain_text_gtd.Prelude.{
  ℕ, ◌+◌, ◌≡◌, ◌≢◌, refl, sym, ap, subst, ◌∙◌, List, [], ◌∷◌, ◌++◌, All, take, lookup, assign,
  lookup-assign, text_eq,
}
use plain_text_gtd.Text.{Text, lit}
use plain_text_gtd.Dates.{DateTime}
use plain_text_gtd.DataTypes.{Item, new_item, inbox}
use plain_text_gtd.Host.{Host}
use plain_text_gtd.Frontmatter.{Frontmatter}
use plain_text_gtd.World.{World, ok, now, now_lem, then_ok}
use plain_text_gtd.Storage.Posts.{post_of}
use plain_text_gtd.Storage.Files.{file_name, files, with_files, token_hex, new_item_id, write_item}
use plain_text_gtd.Storage.Ids.{new_item_id_lem, token_hex-IsItemId}
use plain_text_gtd.Storage.Writes.{write_item_lem}
use plain_text_gtd.Routes.Requests.{redirect, page, inbox_page}
use plain_text_gtd.Routes.Capture.{split_capture_block, create_each, create_items}
use plain_text_gtd.Routes.Parking.{HaveDistinctFiles, Holds, ne_name, same_name}

-- The items that titles become, from the random numbers that are drawn one after the other.
abbrev pub items_made : (ℕ → ℕ) → ℕ → DateTime → List Text → List Item
items_made random draws t [] = []
items_made random draws t (title ∷ titles) =
    new_item (lit "gtd-" ++ token_hex (random draws)) (take 300 title) inbox t
    ∷ items_made random (draws + 1) t titles

module _ {fm : Frontmatter} where
  -- The world after one item is made.
  abbrev with_item : World fm → Item → World fm
  with_item w item =
      with_files (record w { draws = w.draws + 1 })
        (assign (file_name item.id) (fm.dumps (post_of item)) (files w))

  abbrev first_made : World fm → DateTime → Text → Item
  first_made w t title =
      new_item (lit "gtd-" ++ token_hex (w.random w.draws)) (take 300 title) inbox t

  -- The world after all of them are made.
  abbrev with_items : World fm → List Item → World fm
  with_items w [] = w
  with_items w (item ∷ items) = with_items (with_item w item) items

  lookup-with_items :
      (items : List Item) (w : World fm) (name : Text)
      → All (λ (it : Item). name ≢ file_name it.id) items
      → lookup name (files (with_items w items)) ≡ lookup name (files w)
  lookup-with_items [] w name h = refl
  lookup-with_items (it ∷ items) w name h =
      lookup-with_items items (with_item w it) name h.1
      ∙ lookup-assign _ _ _ _
      ∙ ne_name _ _ _ _ h.0

  with_items-Holds :
      (items : List Item) (w : World fm)
      → HaveDistinctFiles items
      → All (Holds (with_items w items)) items
  with_items-Holds [] w d = tt
  with_items-Holds (it ∷ items) w d = (
    lookup-with_items items (with_item w it) (file_name it.id) d.0
        ∙ lookup-assign _ _ _ _
        ∙ same_name _ _ (file_name it.id),
    with_items-Holds items (with_item w it) d.1,
  )

  module _ (h : Host) where
    create_each_lem :
        (t : DateTime) (titles : List Text) (w : World fm)
        → create_each h t titles w ≡ (ok tt, with_items w (items_made w.random w.draws t titles))
    unfolding create_each
    create_each_lem t [] w = refl
    create_each_lem t (title ∷ titles) w =
        let item = first_made w t title in
        then_ok new_item_id _ (new_item_id_lem w) (
          then_ok (write_item item) _
            (write_item_lem item (record w { draws = w.draws + 1 })
              (token_hex-IsItemId (w.random w.draws)))
            (create_each_lem t titles (with_item w item)))

    -- The items that a captured block becomes.
    abbrev pub captured : Text → World fm → List Item
    captured block w = items_made w.random w.draws (w.clock w.ticks) (split_capture_block h block)

    create_items_lem :
        (block : Text) (w : World fm)
        → create_items h block w ≡ (
          ok (redirect (page inbox_page)),
          with_items (record w { ticks = w.ticks + 1 }) (captured block w),
        )
    unfolding create_items
    create_items_lem block w = then_ok now _ (now_lem w) (
        then_ok (create_each h (w.clock w.ticks) (split_capture_block h block)) _
          (create_each_lem (w.clock w.ticks) (split_capture_block h block)
            (record w { ticks = w.ticks + 1 }))
          refl)

    -- Where the random ids of the new items differ, a captured block is taken in without a failure, and
    -- for each of its titles, cut to 300 characters, the file of a new item holds that item, in the
    -- Inbox and with that title.
    pub create_items-Holds :
        (block : Text) (w : World fm)
        → HaveDistinctFiles (captured block w)
        → ((create_items h block w).0 ≡ ok (redirect (page inbox_page)))
          × All (Holds (create_items h block w).1) (captured block w)
    create_items-Holds block w d = (
      ap (λ r. r.0) (create_items_lem block w),
      subst (λ r. All (Holds r.1) (captured block w)) (sym (create_items_lem block w))
          (with_items-Holds (captured block w) (record w { ticks = w.ticks + 1 }) d),
    )

    -- No other file is changed: where a name is that of no new item, the file of that name stays.
    pub lookup-create_items :
        (block : Text) (w : World fm) (name : Text)
        → All (λ (it : Item). name ≢ file_name it.id) (captured block w)
        → lookup name (files (create_items h block w).1) ≡ lookup name (files w)
    lookup-create_items block w name others =
        ap (λ r. lookup name (files r.1)) (create_items_lem block w)
        ∙ lookup-with_items (captured block w) (record w { ticks = w.ticks + 1 }) name others
