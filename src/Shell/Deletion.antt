-- ===== src/Shell/Deletion.antt =====
-- What the deletion of a layout leaves.
use plain_text_gtd.Prelude.{
  ◌≤◌, true, false, [], ◌∷◌, some, Assoc, remove, text_eq, option_eq, length, leb, ◌≡◌, refl, ◌∙◌,
  arith, ≡→eq,
}
use plain_text_gtd.Text.{Text}
use plain_text_gtd.Shell.Layouts.{
  LayoutDir, gives, raises, layout_not_found, is_registered, first_slug, read_meta,
  write_layout_content, read_layout_content, delete_layout,
}
use plain_text_gtd.Shell.Registry.{
  HasDistinctSlugs, registered_remove, length-remove, first_slug-registered,
}

first_left :
    (slug : Text) (names : Assoc Text Text)
    → HasDistinctSlugs names
    → leb (length names) 1 ≡ false
    → (fallback : Text) × (first_slug (remove slug names) ≡ some fallback)
first_left slug names d l =
    some_first (remove slug names) (ground (arith, length-remove slug names d))
  where
    some_first :
        (left : Assoc Text Text)
        → 1 ≤ length left
        → (fallback : Text) × (first_slug left ≡ some fallback)
    some_first [] h = absurd (omega arith)
    some_first (x ∷ left) h = (x.0, refl)

removed : (slug : Text) (names : Assoc Text Text) → is_registered slug (remove slug names) ≡ false
removed slug names = registered_remove slug slug names ∙ (rw (≡→eq slug slug refl) refl)

module _ {ℓ} {A : Type ℓ} where
  -- Where no slug is registered twice, a registered layout that is not the only one is deleted, and the slug that is returned, to which the
  -- clients turn, is that of a layout that is left. The content of the deleted layout can then neither
  -- be read nor written, so that a late autosave does not bring it back.
  pub delete_layout_gone :
      (slug : Text) (content : A) (d : LayoutDir A)
      → let names = (read_meta d).0.display_name_by_slug in
        HasDistinctSlugs names
        → is_registered slug names ≡ true
        → leb (length names) 1 ≡ false
        → let (r, t) = delete_layout slug d in
          (fallback : Text) × (r ≡ gives fallback)
          × (is_registered fallback (read_meta t).0.display_name_by_slug ≡ true)
          × ((read_layout_content slug t).0 ≡ raises layout_not_found)
          × (write_layout_content slug content t ≡ (raises layout_not_found, t))
  unfolding delete_layout read_layout_content write_layout_content read_meta
  delete_layout_gone slug content d h r l =
      let names = (read_meta d).0.display_name_by_slug in
      let (f, e) = first_left slug names h l in
      let gone = removed slug names in
      rw (r, l, e)
        (f, refl, first_slug-registered (remove slug names) f e, rw gone refl, rw gone refl)
