-- ===== src/Text/Dashed.antt =====
-- Words of small letters and digits, joined by single dashes: what `^[a-z0-9]+(?:-[a-z0-9]+)*$` accepts
-- as a whole, in names of browsers, and what the slug of a layout is.
use plain_text_gtd.Prelude.{
  ℕ, Bool, true, false, not, ◌&&◌, ◌||◌, List, [], ◌∷◌, ◌≡◌, ◌≢◌, refl, ap, ◌∙◌, leb, ◌==◌, nat_eq,
  All, Bool-cases, inl, inr, arith, if◌then◌else◌,
}
use plain_text_gtd.Text.{Text, join}

abbrev pub dash : ℕ
dash = 45

-- `[a-z0-9]`
unfoldable pub is_small_alnum : ℕ → Bool
is_small_alnum c = (leb 97 c && leb c 122) || (leb 48 c && leb c 57)

-- The match from a point where a word begins, or inside one.
unfoldable pub is_dashed_from : Bool → Text → Bool
unfolding is_small_alnum nat_eq
is_dashed_from at_start [] = not at_start
is_dashed_from at_start (c ∷ s) =
    let inside = is_dashed_from false s in
    let behind = is_dashed_from true s in
    if is_small_alnum c then inside else ((c == dash) && (not at_start && behind))

unfoldable pub is_dashed : Text → Bool
unfolding is_dashed_from
is_dashed s = is_dashed_from true s

abbrev pub IsWord : Text → Type 0
IsWord word = (word ≢ []) × All (λ c. is_small_alnum c ≡ true) word

-- A text made of a word and others, which a dash joins.
abbrev pub IsJoined : Text → Type 0
IsJoined s =
    (first : Text) × (words : List Text) × IsWord first
    × All IsWord words
    × (join (dash ∷ []) (first ∷ words) ≡ s)

-- The words, where a part of the first has been read.
abbrev IsRest : Text → Type 0
IsRest s =
    (first : Text) × (words : List Text) × All (λ c. is_small_alnum c ≡ true) first
    × All IsWord words
    × (join (dash ∷ []) (first ∷ words) ≡ s)

join-cons :
    (c : ℕ) (first : Text) (words : List Text)
    → join (dash ∷ []) ((c ∷ first) ∷ words) ≡ c ∷ join (dash ∷ []) (first ∷ words)
unfolding join
join-cons c first [] = refl
join-cons c first (w ∷ words) = refl

longer-IsRest : (c : ℕ) (s : Text) → is_small_alnum c ≡ true → IsRest s → IsRest (c ∷ s)
longer-IsRest c s e (f, ws, a, b, j) = (c ∷ f, ws, (e, a), b, join-cons c f ws ∙ ap (λ t. c ∷ t) j)

whole : (c : ℕ) (s : Text) → is_small_alnum c ≡ true → IsRest s → IsJoined (c ∷ s)
whole c s e (f, ws, a, b, j) =
    (c ∷ f, ws, (λ q. cc, (e, a)), b, join-cons c f ws ∙ ap (λ t. c ∷ t) j)

behind_dash : (c : ℕ) (s : Text) → c ≡ dash → IsJoined s → IsRest (c ∷ s)
unfolding join
behind_dash c s e (f, ws, a, b, j) = ([], f ∷ ws, tt, (a, b), rw e (ap (λ t. dash ∷ t) j))

is_dashed_from-parts :
    (s : Text)
    → (is_dashed_from false s ≡ true → IsRest s) × (is_dashed_from true s ≡ true → IsJoined s)
unfolding is_dashed_from join
is_dashed_from-parts [] = (λ h. ([], [], tt, tt, refl), λ h. cc)
is_dashed_from-parts (c ∷ s) = elim (Bool-cases (is_small_alnum c)) [
  | inl e ↦ (
    λ h. longer-IsRest c s e ((is_dashed_from-parts s).0 (rw e at h)),
    λ h. whole c s e ((is_dashed_from-parts s).0 (rw e at h)),
  )
  | inr e ↦ (
    λ h. behind_dash c s (ground arith) ((is_dashed_from-parts s).1 (ground arith)),
    λ h. ground arith,
  )
]

-- A text that the pattern accepts is made of words that are not empty, of small letters and digits
-- alone, and that single dashes join.
pub is_dashed-IsJoined : (s : Text) → is_dashed s ≡ true → IsJoined s
unfolding is_dashed
is_dashed-IsJoined s h = (is_dashed_from-parts s).1 h
