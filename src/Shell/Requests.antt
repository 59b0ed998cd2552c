-- ===== src/Shell/Requests.antt =====
-- The layouts after any requests.
use plain_text_gtd.Prelude.{
  true, false, List, [], ◌∷◌, Option, none, some, remove, text_eq, option_eq, length, leb, ◌==◌,
  ◌≡◌, refl, sym, Bool-cases, inl, inr, subst,
}
use plain_text_gtd.Text.{Text}
use plain_text_gtd.Shell.Layouts.{
  Meta, LayoutDir, gives, is_registered, first_slug, read_meta, meta_or_default,
  get_last_active_slug, set_last_active_slug, write_layout_content, register_layout, register_slug,
  register_as, delete_layout, deleted_to,
}
use plain_text_gtd.Shell.Slugs.{slugify_layout_name}
use plain_text_gtd.Shell.Registry.{
  IsProper, default-IsProper, activated-IsProper, registered-IsProper, IsSoundMeta,
  deleted-IsProper, last_or_first_registered,
}

-- The requests that change what lies under the directory.
pub data Request {ℓ} (A : Type ℓ) : Type ℓ where
  reads : Request A
  sets_active : Text → Request A
  writes : Text → A → Request A
  registers : Text → Request A
  deletes : Text → Request A

module _ {ℓ} {A : Type ℓ} where
  unfoldable pub serve : (Text → Text) → Request A → LayoutDir A → LayoutDir A
  unfolding read_meta set_last_active_slug write_layout_content register_layout delete_layout
  serve lower reads d = (read_meta d).1
  serve lower (sets_active slug) d = set_last_active_slug slug d
  serve lower (writes slug content) d = (write_layout_content slug content d).1
  serve lower (registers name) d = (register_layout lower name d).1
  serve lower (deletes slug) d = (delete_layout slug d).1

  unfoldable pub serve_all : (Text → Text) → List (Request A) → LayoutDir A → LayoutDir A
  unfolding serve
  serve_all lower [] d = d
  serve_all lower (request ∷ requests) d = serve_all lower requests (serve lower request d)

  abbrev IsSound : LayoutDir A → Type 0
  IsSound d = IsSoundMeta d.meta

  read_or-IsSound :
      (o : Option Meta) (d : LayoutDir A)
      → d.meta ≡ o
      → IsSound d
      → let (m, t) = meta_or_default o d in IsProper m × IsSound t
  read_or-IsSound none d e h = (default-IsProper, default-IsProper)
  read_or-IsSound (some m) d e h = (subst IsSoundMeta e h, h)

  read_meta-IsSound :
      (d : LayoutDir A) → IsSound d → let (m, t) = read_meta d in IsProper m × IsSound t
  unfolding read_meta
  read_meta-IsSound d h = read_or-IsSound d.meta d refl h

  set_active-IsSound :
      (slug : Text) (d : LayoutDir A) → IsSound d → IsSound (set_last_active_slug slug d)
  unfolding set_last_active_slug
  set_active-IsSound slug d h =
      let (p, k) = read_meta-IsSound d h in
      let m = (read_meta d).0 in
      elim (Bool-cases (is_registered slug m.display_name_by_slug)) [
        | inr e ↦ rw e k
        | inl e ↦
            rw e
              (elim (Bool-cases
                (◌==◌ ⦃e = option_eq ⦃e = text_eq⦄⦄ m.last_active_slug (some slug))) [
                  | inl q ↦ rw q k
                  | inr q ↦ rw q (activated-IsProper slug m p e)
                ])
      ]

  write-IsSound :
      (slug : Text) (content : A) (d : LayoutDir A)
      → IsSound d
      → IsSound (write_layout_content slug content d).1
  unfolding write_layout_content
  write-IsSound slug content d h =
      let (p, k) = read_meta-IsSound d h in
      let m = (read_meta d).0 in
      elim (Bool-cases (is_registered slug m.display_name_by_slug)) [
        | inr e ↦ rw e k
        | inl e ↦ rw e (activated-IsProper slug m p e)
      ]

  register_as-IsSound :
      (slug name : Text) (o : Option Text) (m : Meta) (t : LayoutDir A)
      → IsProper m
      → IsSound t
      → IsSound (register_as slug name o m t).1
  register_as-IsSound slug name none m t p k = registered-IsProper slug name m p
  register_as-IsSound slug name (some existing) m t p k =
      elim (Bool-cases (◌==◌ ⦃e = text_eq⦄ existing name)) [ inl e ↦ rw e k | inr e ↦ rw e k ]

  register_slug-IsSound :
      (o : Option Text) (name : Text) (d : LayoutDir A)
      → IsSound d
      → IsSound (register_slug o name d).1
  register_slug-IsSound none name d h = h
  register_slug-IsSound (some slug) name d h =
      let (p, k) = read_meta-IsSound d h in
      register_as-IsSound slug name _ (read_meta d).0 (read_meta d).1 p k

  deleted_to-IsSound :
      (slug : Text) (o : Option Text) (m : Meta) (t : LayoutDir A)
      → IsProper m
      → is_registered slug m.display_name_by_slug ≡ true
      → leb (length m.display_name_by_slug) 1 ≡ false
      → first_slug (remove slug m.display_name_by_slug) ≡ o
      → IsSound t
      → IsSound
          (deleted_to slug o
            (record m { display_name_by_slug = remove slug m.display_name_by_slug })
            t).1
  deleted_to-IsSound slug none m t p r l f k = k
  deleted_to-IsSound slug (some fallback) m t p r l f k = deleted-IsProper slug fallback m p l f

  delete-IsSound : (slug : Text) (d : LayoutDir A) → IsSound d → IsSound (delete_layout slug d).1
  unfolding delete_layout
  delete-IsSound slug d h =
      let (p, k) = read_meta-IsSound d h in
      let m = (read_meta d).0 in
      elim (Bool-cases (is_registered slug m.display_name_by_slug)) [
        | inr e ↦ rw e k
        | inl e ↦ rw e (elim (Bool-cases (leb (length m.display_name_by_slug) 1)) [
          | inl l ↦ rw l k
          | inr l ↦ rw l (deleted_to-IsSound slug _ m (read_meta d).1 p e l refl k)
        ])
      ]

  serve-IsSound :
      (lower : Text → Text) (request : Request A) (d : LayoutDir A)
      → IsSound d
      → IsSound (serve lower request d)
  unfolding serve register_layout
  serve-IsSound lower reads d h = (read_meta-IsSound d h).1
  serve-IsSound lower (sets_active slug) d h = set_active-IsSound slug d h
  serve-IsSound lower (writes slug content) d h = write-IsSound slug content d h
  serve-IsSound lower (registers name) d h =
      register_slug-IsSound (slugify_layout_name lower name) name d h
  serve-IsSound lower (deletes slug) d h = delete-IsSound slug d h

  serve_all-IsSound :
      (lower : Text → Text) (requests : List (Request A)) (d : LayoutDir A)
      → IsSound d
      → IsSound (serve_all lower requests d)
  unfolding serve_all
  serve_all-IsSound lower [] d h = h
  serve_all-IsSound lower (r ∷ requests) d h =
      serve_all-IsSound lower requests (serve lower r d) (serve-IsSound lower r d h)

  -- Whatever requests were served since the registry did not exist, the slug that is last active is
  -- one of a layout that is registered: there is always a layout to show.
  pub get_last_active_slug_registered :
      (lower : Text → Text) (requests : List (Request A)) (d : LayoutDir A)
      → d.meta ≡ none
      → let t = serve_all lower requests d in
        (slug : Text) × ((get_last_active_slug t).0 ≡ gives slug)
        × (is_registered slug (read_meta t).0.display_name_by_slug ≡ true)
  unfolding get_last_active_slug
  get_last_active_slug_registered lower requests d e =
      let t = serve_all lower requests d in
      let sound = serve_all-IsSound lower requests d (subst IsSoundMeta (sym e) tt) in
      last_or_first_registered (read_meta t).0 (read_meta t).0.last_active_slug refl
        (read_meta-IsSound t sound).0
