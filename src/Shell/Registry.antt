-- ===== src/Shell/Registry.antt =====
-- The registry of layouts: what every operation keeps, and what a deletion leaves.
use plain_text_gtd.Prelude.{
  ◌+◌, ◌≤◌, Bool, true, false, [], ◌∷◌, Option, none, some, Assoc, lookup, assign, remove,
  lookup-assign, lookup-remove, text_eq, option_eq, length, leb, ◌==◌, if◌then◌else◌, ◌≡◌, ◌≢◌,
  refl, ap, ◌∙◌, arith, Bool-cases, inl, inr, eq→≡, subst,
}
use plain_text_gtd.Text.{Text}
use plain_text_gtd.Shell.Layouts.{
  Meta, gives, is_registered, first_slug, default_meta, desktop, last_or_first,
}

abbrev pub HasDistinctSlugs : Assoc Text Text → Type 0
HasDistinctSlugs [] = Unit
HasDistinctSlugs (e ∷ names) = (is_registered e.0 names ≡ false) × HasDistinctSlugs names

-- A registry has a layout, each slug once, and the last active slug is one of them.
pub record IsProper (m : Meta) : Type 0 where
  pub inhabited : m.display_name_by_slug ≢ []
  pub distinct : HasDistinctSlugs m.display_name_by_slug
  pub active :
      (l : Text) → m.last_active_slug ≡ some l → is_registered l m.display_name_by_slug ≡ true

pub registered_assign :
    (l slug name : Text) (names : Assoc Text Text)
    → is_registered l (assign slug name names) ≡ (if l == slug then true else is_registered l names)
unfolding is_registered
registered_assign l slug name names = elim (Bool-cases (l == slug)) [
  | inl e ↦ rw (lookup-assign slug l name names, e) refl
  | inr e ↦ rw (lookup-assign slug l name names, e) refl
]

pub registered_remove :
    (l slug : Text) (names : Assoc Text Text)
    → is_registered l (remove slug names) ≡ (if l == slug then false else is_registered l names)
unfolding is_registered
registered_remove l slug names = elim (Bool-cases (l == slug)) [
  | inl e ↦ rw (lookup-remove slug l names, e) refl
  | inr e ↦ rw (lookup-remove slug l names, e) refl
]

pub assign-HasDistinctSlugs :
    (slug name : Text) (names : Assoc Text Text)
    → HasDistinctSlugs names
    → HasDistinctSlugs (assign slug name names)
unfolding assign is_registered lookup
assign-HasDistinctSlugs slug name [] h = (refl, tt)
assign-HasDistinctSlugs slug name (e ∷ names) h = elim (Bool-cases (slug == e.0)) [
  | inl q ↦ rw q h
  | inr q ↦ rw q (
    registered_assign e.0 slug name names ∙ ground arith,
    assign-HasDistinctSlugs slug name names h.1,
  )
]

pub remove-HasDistinctSlugs :
    (slug : Text) (names : Assoc Text Text)
    → HasDistinctSlugs names
    → HasDistinctSlugs (remove slug names)
unfolding remove
remove-HasDistinctSlugs slug [] h = tt
remove-HasDistinctSlugs slug (e ∷ names) h = elim (Bool-cases (slug == e.0)) [
  | inl q ↦ rw q (remove-HasDistinctSlugs slug names h.1)
  | inr q ↦
      rw q (registered_remove e.0 slug names ∙ ground arith, remove-HasDistinctSlugs slug names h.1)
]

remove_absent :
    (slug : Text) (names : Assoc Text Text)
    → is_registered slug names ≡ false
    → remove slug names ≡ names
unfolding remove is_registered lookup
remove_absent slug [] h = refl
remove_absent slug (e ∷ names) h = ground (arith, remove_absent slug names)

pub length-remove :
    (slug : Text) (names : Assoc Text Text)
    → HasDistinctSlugs names
    → length names ≤ length (remove slug names) + 1
unfolding remove
length-remove slug [] h = omega arith
length-remove slug (e ∷ names) h = elim (Bool-cases (slug == e.0)) [
  | inl q ↦ rw q (
      let a = remove_absent slug names (ap (λ s. is_registered s names) (eq→≡ slug e.0 q) ∙ h.0) in
      rw a (omega arith))
  | inr q ↦ rw q (omega (arith, length-remove slug names h.1))
]

pub first_slug-registered :
    (names : Assoc Text Text) (f : Text) → first_slug names ≡ some f → is_registered f names ≡ true
unfolding is_registered lookup
first_slug-registered [] f h = cc
first_slug-registered (e ∷ names) f h = ground arith

or_desktop : Option Text → Text
or_desktop none = desktop
or_desktop (some l) = l

pub default-IsProper : IsProper default_meta
unfolding is_registered lookup text_eq or_desktop
default-IsProper = record {
  inhabited = λ e. cc;
  distinct = (refl, (refl, tt));
  active = λ l e. first l e;
}
  where
    first :
        (l : Text)
        → some desktop ≡ some l
        → is_registered l default_meta.display_name_by_slug ≡ true
    first l e =
        subst (λ o. is_registered (or_desktop o) default_meta.display_name_by_slug ≡ true) e refl

pub assign_inhabited : (slug name : Text) (names : Assoc Text Text) → assign slug name names ≢ []
unfolding assign
assign_inhabited slug name [] e = cc
assign_inhabited slug name (x ∷ names) e = ground arith

pub activated-IsProper :
    (slug : Text) (m : Meta)
    → IsProper m
    → is_registered slug m.display_name_by_slug ≡ true
    → IsProper (record m { last_active_slug = some slug })
activated-IsProper slug m p r = record {
  inhabited = p.inhabited;
  distinct = p.distinct;
  active = λ l e. ground arith;
}

pub registered-IsProper :
    (slug name : Text) (m : Meta)
    → IsProper m
    → IsProper (record m { display_name_by_slug = assign slug name m.display_name_by_slug })
registered-IsProper slug name m p = record {
  inhabited = assign_inhabited slug name m.display_name_by_slug;
  distinct = assign-HasDistinctSlugs slug name m.display_name_by_slug p.distinct;
  active = λ l e.
      registered_assign l slug name m.display_name_by_slug ∙ either (l == slug) (p.active l e);
}
  where
    either : {b : Bool} (c : Bool) → b ≡ true → (if c then true else b) ≡ true
    either true h = refl
    either false h = h

-- A registry that was not written yet is as good as the default.
abbrev pub IsSoundMeta : Option Meta → Type 0
IsSoundMeta none = Unit
IsSoundMeta (some m) = IsProper m

-- The registry without a slug, where another is left.
pub deleted-IsProper :
    (slug fallback : Text) (m : Meta)
    → IsProper m
    → leb (length m.display_name_by_slug) 1 ≡ false
    → first_slug (remove slug m.display_name_by_slug) ≡ some fallback
    → IsProper (record m {
      display_name_by_slug = remove slug m.display_name_by_slug;
      last_active_slug =
          if ◌==◌ ⦃e = option_eq ⦃e = text_eq⦄⦄ m.last_active_slug (some slug)
          then some fallback
          else m.last_active_slug;
    })
unfolding or_desktop
deleted-IsProper slug fallback m p l f = record {
  inhabited = λ e. nonempty (remove slug m.display_name_by_slug) f e;
  distinct = remove-HasDistinctSlugs slug m.display_name_by_slug p.distinct;
  active = λ a e.
      elim (Bool-cases (◌==◌ ⦃e = option_eq ⦃e = text_eq⦄⦄ m.last_active_slug (some slug))) [
        | inl q ↦
            subst (λ o. is_registered (or_desktop o) (remove slug m.display_name_by_slug) ≡ true)
              (rw q at e) (first_slug-registered (remove slug m.display_name_by_slug) fallback f)
        | inr q ↦ kept a (rw q at e) q
      ];
}
  where
    kept :
        (a : Text)
        → m.last_active_slug ≡ some a
        → ◌==◌ ⦃e = option_eq ⦃e = text_eq⦄⦄ m.last_active_slug (some slug) ≡ false
        → is_registered a (remove slug m.display_name_by_slug) ≡ true
    kept a e q =
        let r = registered_remove a slug m.display_name_by_slug in
        let b = p.active a e in ground arith

    nonempty : (names : Assoc Text Text) → first_slug names ≡ some fallback → names ≢ []
    nonempty [] e q = cc
    nonempty (x ∷ names) e q = cc

pub last_or_first_registered :
    (m : Meta) (o : Option Text)
    → m.last_active_slug ≡ o
    → IsProper m
    → (slug : Text) × (last_or_first o m.display_name_by_slug ≡ gives slug)
      × (is_registered slug m.display_name_by_slug ≡ true)
last_or_first_registered m none e p = first_of m.display_name_by_slug p.inhabited
  where
    first_of :
        (names : Assoc Text Text)
        → names ≢ []
        → (slug : Text) × (last_or_first none names ≡ gives slug)
          × (is_registered slug names ≡ true)
    first_of [] n = absurd (n refl)
    first_of (x ∷ names) n = (x.0, refl, first_slug-registered (x ∷ names) x.0 refl)
last_or_first_registered m (some slug) e p = let r = p.active slug e in (slug, rw r refl, r)
