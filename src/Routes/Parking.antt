-- ===== src/Routes/Parking.antt =====
-- What `_cascade_project_status` leaves in the files.
use mathlib.Core.Bool.{false≢true}
use plain_text_gtd.Prelude.{
  ◌+◌, ◌≡◌, ◌≢◌, refl, sym, ap, subst, ◌∙◌, Bool, true, false, List, [], ◌∷◌, some, arith, ◌==◌,
  text_eq, All, inl, inr, Bool-cases, lookup, assign, lookup-assign, if◌then◌else◌,
}
use plain_text_gtd.Text.{Text}
use plain_text_gtd.Dates.{DateTime}
use plain_text_gtd.DataTypes.{Item, status_eq}
use plain_text_gtd.Frontmatter.{Frontmatter}
use plain_text_gtd.World.{World, ok, now, now_lem, then_ok}
use plain_text_gtd.Storage.Posts.{post_of}
use plain_text_gtd.Storage.Files.{is_item_id, file_name, files, with_files, write_item}
use plain_text_gtd.Storage.Writes.{write_item_lem}
use plain_text_gtd.Routes.Cascade.{update_children}

-- The children have files of their own.
abbrev pub HaveDistinctFiles : List Item → Type 0
HaveDistinctFiles [] = Unit
HaveDistinctFiles (c ∷ children) =
    All (λ (d : Item). file_name c.id ≢ file_name d.id) children × HaveDistinctFiles children

abbrev pub HaveValidIds : List Item → Type 0
HaveValidIds children = All (λ (c : Item). is_item_id c.id ≡ true) children

module _ {fm : Frontmatter} where
  -- The file of the item holds it.
  abbrev pub Holds : World fm → Item → Type 0
  Holds w item = lookup (file_name item.id) (files w) ≡ some (fm.dumps (post_of item))

pub ne_name :
    {A : Type 0} (a b : A) (name other : Text) → name ≢ other → (if name == other then a else b) ≡ b
ne_name a b name other h = ground arith

pub same_name : {A : Type 0} (a b : A) (name : Text) → (if name == name then a else b) ≡ a
same_name a b name = ground arith

All-after :
    (skips : Item → Bool) (c : Item) (children : List Item)
    → All (λ (d : Item). file_name c.id ≢ file_name d.id) children
    → All (λ (d : Item). skips d ≡ false → file_name c.id ≢ file_name d.id) children
All-after skips c [] h = tt
All-after skips c (d ∷ children) h = ((λ _. h.0), All-after skips c children h.1)

module _ {fm : Frontmatter} (skips : Item → Bool) (updated : Item → DateTime → Item)
    (keeps_id : (c : Item) (t : DateTime) → (updated c t).id ≡ c.id) where
  abbrev after_write : Item → World fm → World fm
  after_write c w =
      with_files (record w { ticks = w.ticks + 1 })
        (assign (file_name c.id) (fm.dumps (post_of (updated c (w.clock w.ticks)))) (files w))

  update_skipped :
      (c : Item) (children : List Item) (w : World fm)
      → skips c ≡ true
      → update_children skips updated (c ∷ children) w ≡ update_children skips updated children w
  unfolding update_children
  update_skipped c children w e = rw e

  write_one :
      (c : Item) (w : World fm)
      → is_item_id c.id ≡ true
      → write_item (updated c (w.clock w.ticks)) (record w { ticks = w.ticks + 1 })
        ≡ (ok tt, after_write c w)
  write_one c w valid =
      let u = updated c (w.clock w.ticks) in
      let w1 : World fm = record w { ticks = w.ticks + 1 } in
      write_item_lem u w1 (rw (keeps_id c (w.clock w.ticks)) valid)
      ∙ ap (λ n. (ok tt, with_files w1 (assign (file_name n) (fm.dumps (post_of u)) (files w1))))
          (keeps_id c (w.clock w.ticks))

  update_written :
      (c : Item) (children : List Item) (w : World fm)
      → skips c ≡ false
      → is_item_id c.id ≡ true
      → update_children skips updated (c ∷ children) w
        ≡ update_children skips updated children (after_write c w)
  unfolding update_children
  update_written c children w e valid = rw e (
      then_ok now _ (now_lem w) (
        then_ok (write_item (updated c (w.clock w.ticks)))
          (λ _. update_children skips updated children) (write_one c w valid) refl))

  pub update_children_ok :
      (children : List Item) (w : World fm)
      → HaveValidIds children
      → (update_children skips updated children w).0 ≡ ok tt
  update_children_ok [] w v = unfold update_children in refl
  update_children_ok (c ∷ children) w v = elim (Bool-cases (skips c)) [
    | inl e ↦ rw (update_skipped c children w e) (update_children_ok children w v.1)
    | inr e ↦
        rw (update_written c children w e v.0) (update_children_ok children (after_write c w) v.1)
  ]

  -- A file that is no updated child's stays as it was.
  pub lookup-update_children :
      (children : List Item) (w : World fm) (name : Text)
      → HaveValidIds children
      → All (λ (c : Item). skips c ≡ false → name ≢ file_name c.id) children
      → lookup name (files (update_children skips updated children w).1) ≡ lookup name (files w)
  lookup-update_children [] w name v others = unfold update_children in refl
  lookup-update_children (c ∷ children) w name v others = elim (Bool-cases (skips c)) [
    | inl e ↦
        rw (update_skipped c children w e) (lookup-update_children children w name v.1 others.1)
    | inr e ↦ rw (update_written c children w e v.0) (
        lookup-update_children children (after_write c w) name v.1 others.1
        ∙ lookup-assign _ _ _ _
        ∙ ne_name _ _ _ _ (others.0 e))
  ]

  -- Every child that is not skipped has its updated form in its file, with some time of change.
  abbrev pub IsUpdated : World fm → Item → Type 0
  IsUpdated w c =
      skips c ≡ false
      → (t : DateTime) × (lookup (file_name c.id) (files w)
          ≡ some (fm.dumps (post_of (updated c t))))

  pub update_children_updates :
      (children : List Item) (w : World fm)
      → HaveValidIds children
      → HaveDistinctFiles children
      → All (IsUpdated (update_children skips updated children w).1) children
  update_children_updates [] w v d = tt
  update_children_updates (c ∷ children) w v d = elim (Bool-cases (skips c)) [
    | inl e ↦
        subst (λ r. All (IsUpdated r.1) (c ∷ children)) (sym (update_skipped c children w e))
          ((λ f. absurd (false≢true (sym f ∙ e))), update_children_updates children w v.1 d.1)
    | inr e ↦
        subst (λ r. All (IsUpdated r.1) (c ∷ children)) (sym (update_written c children w e v.0))
          (
            (λ _. (
              w.clock w.ticks,
              lookup-update_children children (after_write c w) (file_name c.id) v.1
                    (All-after skips c children d.0)
                  ∙ lookup-assign _ _ _ _
                  ∙ same_name _ _ (file_name c.id),
            )),
            update_children_updates children (after_write c w) v.1 d.1,
          )
  ]
