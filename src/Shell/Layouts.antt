-- ===== src/Shell/Layouts.antt =====
-- workspace_layouts.py: the named layouts of a workspace. The registry is `none` where its file is
-- missing or holds something else than a registry, and a content `none` where its file holds no object;
-- what a content is does not matter. A registry that is written as JSON is read back. Each function
-- holds `_layouts_lock`, so that it runs alone.
use plain_text_gtd.Prelude.{
  Bool, true, false, not, List, [], ◌∷◌, Option, none, some, Assoc, lookup, assign, remove, text_eq,
  option_eq, map, length, leb, ◌==◌, if◌then◌else◌,
}
use plain_text_gtd.Text.{Text, lit}
use plain_text_gtd.Shell.Slugs.{slugify_layout_name}

pub data LayoutError : Type 0 where
  layout_name : LayoutError
  layout_conflict : Text → LayoutError
  layout_not_found : LayoutError
  last_layout_deletion : LayoutError
  stop_iteration : LayoutError

pub data Answer {ℓ} (A : Type ℓ) : Type ℓ where
  gives : A → Answer A
  raises : LayoutError → Answer A

pub record Meta : Type 0 where
  pub display_name_by_slug : Assoc Text Text
  pub last_active_slug : Option Text

-- What lies under `layout_dir`.
pub record LayoutDir {ℓ} (A : Type ℓ) : Type ℓ where
  pub meta : Option Meta
  pub contents : Assoc Text (Option A)
  pub legacy : Option (Option A)
  pub migrated : Option (Option A)

-- `LayoutInfo`
pub record LayoutInfo : Type 0 where
  pub slug : Text
  pub display_name : Text
  pub has_content : Bool

abbrev pub desktop : Text
desktop = lit "desktop"

abbrev pub mobile : Text
mobile = lit "mobile"

-- `_default_meta`
abbrev pub default_meta : Meta
default_meta = record {
  display_name_by_slug = (desktop, desktop) ∷ (mobile, mobile) ∷ [];
  last_active_slug = some desktop;
}

abbrev pub is_some {ℓ} : {A : Type ℓ} → Option A → Bool
is_some none = false
is_some (some a) = true

-- `slug in meta["display_name_by_slug"]`
unfoldable pub is_registered : Text → Assoc Text Text → Bool
unfolding lookup text_eq
is_registered slug names = is_some (lookup slug names)

-- `next(iter(names))`
abbrev pub first_slug : Assoc Text Text → Option Text
first_slug [] = none
first_slug (e ∷ names) = some e.0

abbrev first_or_stop : Option Text → Answer Text
first_or_stop none = raises stop_iteration
first_or_stop (some slug) = gives slug

abbrev pub last_or_first : Option Text → Assoc Text Text → Answer Text
last_or_first none names = first_or_stop (first_slug names)
last_or_first (some slug) names =
    if is_registered slug names then gives slug else first_or_stop (first_slug names)

abbrev given : Option Text → Answer Text
given none = raises layout_not_found
given (some name) = gives name

module _ {ℓ} {A : Type ℓ} where
  -- `_write_meta_unlocked`
  abbrev pub write_meta : Meta → LayoutDir A → LayoutDir A
  write_meta m d = record d { meta = some m }

  abbrev move_legacy : Option (Option A) → LayoutDir A → LayoutDir A
  move_legacy none d = d
  move_legacy (some content) d = record d {
    contents =
        if is_some (lookup ⦃e = text_eq⦄ desktop d.contents)
        then d.contents
        else assign ⦃e = text_eq⦄ desktop content d.contents;
    legacy = none;
    migrated = some content;
  }

  -- `_migrate_legacy_layout_unlocked`
  unfoldable pub migrate_legacy_layout : LayoutDir A → LayoutDir A
  unfolding lookup assign text_eq
  migrate_legacy_layout d = move_legacy d.legacy d

  abbrev pub meta_or_default : Option Meta → LayoutDir A → Meta × LayoutDir A
  meta_or_default (some m) d = (m, d)
  meta_or_default none d = (default_meta, write_meta default_meta (migrate_legacy_layout d))

  -- `_read_meta_unlocked`
  unfoldable pub read_meta : LayoutDir A → Meta × LayoutDir A
  unfolding migrate_legacy_layout
  read_meta d = meta_or_default d.meta d

  -- `list_layouts`
  unfoldable pub list_layouts : LayoutDir A → List LayoutInfo × LayoutDir A
  unfolding read_meta lookup text_eq
  list_layouts d =
      let (m, t) = read_meta d in
      (
        map
            (λ e. record {
              slug = e.0;
              display_name = e.1;
              has_content = is_some (lookup e.0 t.contents);
            })
            m.display_name_by_slug,
        t,
      )

  -- `get_last_active_slug`
  unfoldable pub get_last_active_slug : LayoutDir A → Answer Text × LayoutDir A
  unfolding read_meta is_registered
  get_last_active_slug d =
      let (m, t) = read_meta d in (last_or_first m.last_active_slug m.display_name_by_slug, t)

  -- `set_last_active_slug`
  unfoldable pub set_last_active_slug : Text → LayoutDir A → LayoutDir A
  unfolding read_meta is_registered text_eq option_eq
  set_last_active_slug slug d =
      let (m, t) = read_meta d in
      if not (is_registered slug m.display_name_by_slug)
      then t
      else if m.last_active_slug == some slug
      then t
      else write_meta (record m { last_active_slug = some slug }) t

  abbrev pub found_slug : Option Text → LayoutDir A → Answer Text × LayoutDir A
  found_slug none d = (raises layout_name, d)
  found_slug (some slug) d =
      let (m, t) = read_meta d in
      if is_registered slug m.display_name_by_slug
      then (gives slug, t)
      else (raises layout_not_found, t)

  -- `resolve_layout_slug`
  unfoldable pub resolve_layout_slug :
      (Text → Text) → Text → LayoutDir A → Answer Text × LayoutDir A
  unfolding slugify_layout_name read_meta is_registered
  resolve_layout_slug lower name d = found_slug (slugify_layout_name lower name) d

  -- `get_layout_display_name`
  unfoldable pub get_layout_display_name : Text → LayoutDir A → Answer Text × LayoutDir A
  unfolding read_meta lookup text_eq
  get_layout_display_name slug d =
      let (m, t) = read_meta d in (given (lookup slug m.display_name_by_slug), t)

  abbrev content_of : Option (Option A) → Option A
  content_of none = none
  content_of (some content) = content

  -- `read_layout_content`
  unfoldable pub read_layout_content : Text → LayoutDir A → Answer (Option A) × LayoutDir A
  unfolding read_meta is_registered lookup text_eq
  read_layout_content slug d =
      let (m, t) = read_meta d in
      if is_registered slug m.display_name_by_slug
      then (gives (content_of (lookup slug t.contents)), t)
      else (raises layout_not_found, t)

  -- `write_layout_content`
  unfoldable pub write_layout_content : Text → A → LayoutDir A → Answer (Unit {0}) × LayoutDir A
  unfolding read_meta is_registered assign text_eq
  write_layout_content slug content d =
      let (m, t) = read_meta d in
      if is_registered slug m.display_name_by_slug
      then (
        gives tt,
        write_meta (record m { last_active_slug = some slug })
            (record t { contents = assign slug (some content) t.contents }),
      )
      else (raises layout_not_found, t)

  abbrev pub register_as :
      Text → Text → Option Text → Meta → LayoutDir A → Answer Text × LayoutDir A
  register_as slug name none m t = (
    gives slug,
    write_meta
        (record m { display_name_by_slug = assign ⦃e = text_eq⦄ slug name m.display_name_by_slug })
        t,
  )
  register_as slug name (some existing) m t =
      if ◌==◌ ⦃e = text_eq⦄ existing name
      then (gives slug, t)
      else (raises (layout_conflict existing), t)

  abbrev pub register_slug : Option Text → Text → LayoutDir A → Answer Text × LayoutDir A
  register_slug none name d = (raises layout_name, d)
  register_slug (some slug) name d =
      let (m, t) = read_meta d in
      register_as slug name (lookup ⦃e = text_eq⦄ slug m.display_name_by_slug) m t

  -- `register_layout`
  unfoldable pub register_layout : (Text → Text) → Text → LayoutDir A → Answer Text × LayoutDir A
  unfolding slugify_layout_name read_meta lookup assign text_eq
  register_layout lower name d = register_slug (slugify_layout_name lower name) name d

  abbrev pub deleted_to : Text → Option Text → Meta → LayoutDir A → Answer Text × LayoutDir A
  deleted_to slug none m t = (raises stop_iteration, t)
  deleted_to slug (some fallback) m t = (
    gives fallback,
    write_meta
        (record m {
          last_active_slug =
              if ◌==◌ ⦃e = option_eq ⦃e = text_eq⦄⦄ m.last_active_slug (some slug)
              then some fallback
              else m.last_active_slug;
        })
        (record t { contents = remove ⦃e = text_eq⦄ slug t.contents }),
  )

  -- `delete_layout`
  unfoldable pub delete_layout : Text → LayoutDir A → Answer Text × LayoutDir A
  unfolding read_meta is_registered remove text_eq option_eq
  delete_layout slug d =
      let (m, t) = read_meta d in
      let names = remove slug m.display_name_by_slug in
      if not (is_registered slug m.display_name_by_slug)
      then (raises layout_not_found, t)
      else if leb (length m.display_name_by_slug) 1
      then (raises last_layout_deletion, t)
      else deleted_to slug (first_slug names) (record m { display_name_by_slug = names }) t
