-- ===== src/Shell/Slugs.antt =====
-- workspace_layouts.py: the slug of a layout's name. `str.lower` is an argument.
use plain_text_gtd.Prelude.{
  ℕ, Bool, true, false, [], ◌∷◌, Option, none, some, ◌≡◌, refl, sym, ◌==◌, nat_eq, if◌then◌else◌,
  Bool-cases, inl, inr, arith, ◌⊎◌, subst,
}
use plain_text_gtd.Text.{Text, strip, lstrip, rstrip, is_empty}
use plain_text_gtd.Text.Dashed.{dash, is_small_alnum, is_dashed, is_dashed_from}

abbrev is_dash : ℕ → Bool
is_dash c = c == dash

-- `re.sub(r"[^a-z0-9]+", "-", lowered)`, with whether the last character was replaced
unfoldable pub collapse : Bool → Text → Text
unfolding is_small_alnum
collapse in_run [] = []
collapse in_run (c ∷ s) =
    let inside = collapse false s in
    let behind = collapse true s in
    if is_small_alnum c then c ∷ inside else if in_run then behind else dash ∷ behind

-- `s.strip("-")`
unfoldable pub strip_dashes : Text → Text
unfolding lstrip rstrip nat_eq
strip_dashes s = rstrip is_dash (lstrip is_dash s)

abbrev some_unless_empty : Text → Option Text
some_unless_empty [] = none
some_unless_empty (c ∷ s) = some (c ∷ s)

-- `slugify_layout_name`; `none` where it raises
unfoldable pub slugify_layout_name : (Text → Text) → Text → Option Text
unfolding strip collapse strip_dashes
slugify_layout_name lower display_name =
    some_unless_empty (strip_dashes (collapse false (lower (strip display_name))))

alnum_not_dash : (c : ℕ) → is_small_alnum c ≡ true → is_dash c ≡ false
unfolding is_small_alnum
alnum_not_dash c h = ground arith

dash_no_alnum : is_small_alnum dash ≡ false
unfolding is_small_alnum
dash_no_alnum = refl

is_dash-dash : is_dash dash ≡ true
unfolding nat_eq
is_dash-dash = refl

lstrip-collapse : (in_run : Bool) (s : Text) → lstrip is_dash (collapse in_run s) ≡ collapse true s
unfolding lstrip collapse
lstrip-collapse in_run [] = refl
lstrip-collapse in_run (c ∷ s) = elim (Bool-cases (is_small_alnum c)) [
  | inl e ↦ rw (e, alnum_not_dash c e) refl
  | inr e ↦ rw e (last in_run (lstrip-collapse true s))
]
  where
    last :
        (b : Bool)
        → lstrip is_dash (collapse true s) ≡ collapse true s
        → lstrip is_dash (if b then collapse true s else dash ∷ collapse true s) ≡ collapse true s
    last true h = h
    last false h = rw is_dash-dash h

-- What is left of a text behind a dash, and inside a word.
rstrip-collapse_dashed :
    (s : Text)
    → ((rstrip is_dash (collapse true s) ≡ [])
        ⊎ (is_dashed_from true (rstrip is_dash (collapse true s)) ≡ true))
      × (is_dashed_from false (rstrip is_dash (collapse false s)) ≡ true)
unfolding rstrip collapse is_dashed_from
rstrip-collapse_dashed [] = (inl refl, refl)
rstrip-collapse_dashed (c ∷ s) =
    let (t, f) = rstrip-collapse_dashed s in
    elim (Bool-cases (is_small_alnum c)) [
      | inl e ↦ rw (e, alnum_not_dash c e, e) (inr f, f)
      | inr e ↦ rw (e, is_dash-dash) (t, behind (rstrip is_dash (collapse true s)) t)
    ]
  where
    behind :
        (r : Text)
        → (r ≡ []) ⊎ (is_dashed_from true r ≡ true)
        → is_dashed_from false (if is_empty r then [] else dash ∷ r) ≡ true
    behind [] h = refl
    behind (d ∷ r) (inl h) = cc
    behind (d ∷ r) (inr h) = rw (dash_no_alnum, is_dash-dash) h

-- A slug is made of words of small letters and digits that single dashes join: it is no path.
pub slugify_layout_name-is_dashed :
    (lower : Text → Text) (display_name slug : Text)
    → slugify_layout_name lower display_name ≡ some slug
    → is_dashed slug ≡ true
unfolding slugify_layout_name strip_dashes is_dashed
slugify_layout_name-is_dashed lower display_name slug h =
    kept (strip_dashes (collapse false lowered)) slug h (
      subst (λ t. (rstrip is_dash t ≡ []) ⊎ (is_dashed_from true (rstrip is_dash t) ≡ true))
        (sym (lstrip-collapse false lowered)) (rstrip-collapse_dashed lowered).0)
  where
    lowered : Text
    lowered = lower (strip display_name)

    kept :
        (t u : Text)
        → some_unless_empty t ≡ some u
        → (t ≡ []) ⊎ (is_dashed_from true t ≡ true)
        → is_dashed_from true u ≡ true
    kept [] u e q = cc
    kept (c ∷ t) u e (inl q) = cc
    kept (c ∷ t) u e (inr q) = ground arith
