-- ===== src/Storage/Ids.antt =====
-- What `path_for_id` lets through, and the ids that `new_item_id` makes.
use mathlib.Core.Bool.{false≢true}
use plain_text_gtd.Prelude.{
  ℕ, zero, suc, ◌+◌, ◌/◌, ◌%◌, ◌≤◌, ◌≡◌, ◌≢◌, refl, Bool, true, false, ◌&&◌, ◌||◌, leb, [], ◌∷◌,
  ◌++◌, arith, nat_eq, text_eq, contains, inl, inr, Bool-cases, All, ap, ◌∙◌, drop, length,
}
use plain_text_gtd.Text.{Text, lit, starts_with}
use plain_text_gtd.Frontmatter.{Frontmatter}
use plain_text_gtd.World.{World, ok}
use plain_text_gtd.Storage.Files.{id_char, id_tail, is_item_id, hex_digit, token_hex, new_item_id}

hex_digit-id_char : (n : ℕ) → n ≤ 15 → id_char (hex_digit n) ≡ true
unfolding id_char hex_digit
hex_digit-id_char n h = ground arith

id_tail-cons : (b : Bool) (c : ℕ) (s : Text) → id_char c ≡ true → id_tail b (c ∷ s) ≡ id_tail true s
unfolding id_tail
id_tail-cons b c s h = rw h

id_tail-token_hex : (n : ℕ) → id_tail false (token_hex n) ≡ true
unfolding token_hex
id_tail-token_hex n =
    rw
      (
        id_tail-cons false _ _ (hex_digit-id_char (n / 1048576 % 16) (omega arith)),
        id_tail-cons true _ _ (hex_digit-id_char (n / 65536 % 16) (omega arith)),
        id_tail-cons true _ _ (hex_digit-id_char (n / 4096 % 16) (omega arith)),
        id_tail-cons true _ _ (hex_digit-id_char (n / 256 % 16) (omega arith)),
        id_tail-cons true _ _ (hex_digit-id_char (n / 16 % 16) (omega arith)),
        id_tail-cons true _ _ (hex_digit-id_char (n % 16) (omega arith)),
      )
      (unfold id_tail in refl)

is_item_id_prefixed : (s : Text) → is_item_id (lit "gtd-" ++ s) ≡ id_tail false s
is_item_id_prefixed s = unfold is_item_id in refl

pub token_hex-IsItemId : (n : ℕ) → is_item_id (lit "gtd-" ++ token_hex n) ≡ true
token_hex-IsItemId n = is_item_id_prefixed (token_hex n) ∙ id_tail-token_hex n

pub new_item_id_lem :
    {fm : Frontmatter} (w : World fm)
    → new_item_id w
      ≡ (ok (lit "gtd-" ++ token_hex (w.random w.draws)), record w { draws = w.draws + 1 })
new_item_id_lem w = unfold new_item_id in refl

-- A new id is drawn once from the random source, and it is an id that a path can be made of.
pub new_item_id-IsItemId :
    {fm : Frontmatter} (w : World fm)
    → (id : Text) × (new_item_id w ≡ (ok id, record w { draws = w.draws + 1 }))
      × (is_item_id id ≡ true)
new_item_id-IsItemId w = (
  lit "gtd-" ++ token_hex (w.random w.draws),
  new_item_id_lem w,
  token_hex-IsItemId (w.random w.draws),
)

prefix_append :
    (s prefix : Text) → starts_with s prefix ≡ true → s ≡ prefix ++ drop (length prefix) s
unfolding starts_with
prefix_append s [] h = refl
prefix_append [] (c ∷ prefix) h = absurd (false≢true h)
prefix_append (d ∷ s) (c ∷ prefix) h = ground (arith, prefix_append s prefix)

module _ (c : ℕ) (other : id_char c ≡ false) (no_feed : c ≢ 10) where
  not-contains-id_tail : (b : Bool) (s : Text) → id_tail b s ≡ true → contains s c ≡ false
  unfolding id_tail
  not-contains-id_tail b [] h = refl
  not-contains-id_tail b (x ∷ s) h = elim (Bool-cases (id_char x)) [
    | inl e ↦ ground (arith, not-contains-id_tail true s)
    | inr e ↦ ground arith
  ]

both_true : (a b : Bool) → (a && b) ≡ true → (a ≡ true) × (b ≡ true)
both_true true true e = (refl, refl)
both_true true false e = absurd (false≢true e)
both_true false b e = absurd (false≢true e)

is_item_id_parts :
    (s : Text)
    → is_item_id s ≡ true
    → (starts_with s (lit "gtd-") ≡ true) × (id_tail false (drop 4 s) ≡ true)
is_item_id_parts s h =
    both_true (starts_with s (lit "gtd-")) (id_tail false (drop 4 s)) (unfold is_item_id in h)

not-contains-prefix :
    (c : ℕ) (s : Text)
    → id_char c ≡ false
    → c ≢ 45
    → contains s c ≡ false
    → contains (lit "gtd-" ++ s) c ≡ false
unfolding id_char
not-contains-prefix c s other no_dash h = ground arith

letters : (c : ℕ) → ((leb 97 c && leb c 122) || (leb 48 c && leb c 57)) ≡ false → id_char c ≡ false
unfolding id_char
letters c e = e

-- An accepted id holds no character but the letters from a to z, the digits from 0 to 9, dashes and a
-- line feed, so that the path made of it has no separator, no dot and no other way out of the
-- directory.
pub is_item_id_safe :
    (s : Text) (c : ℕ)
    → is_item_id s ≡ true
    → ((leb 97 c && leb c 122) || (leb 48 c && leb c 57)) ≡ false
    → c ≢ 45
    → c ≢ 10
    → contains s c ≡ false
is_item_id_safe s c valid not_letter no_dash no_feed =
    let other = letters c not_letter in
    let (prefixed, tail) = is_item_id_parts s valid in
    ap (λ t. contains t c) (prefix_append s (lit "gtd-") prefixed)
    ∙ not-contains-prefix c (drop 4 s) other no_dash
        (not-contains-id_tail c other no_feed false (drop 4 s) tail)

All-drop : (n : ℕ) (s : Text) → All (λ c. c ≢ 10) s → All (λ c. c ≢ 10) (drop n s)
All-drop zero s h = h
All-drop (suc n) [] h = tt
All-drop (suc n) (x ∷ s) h = All-drop n s h.1

id_tail_feed :
    (b : Bool) (s : Text)
    → id_tail b s ≡ true
    → All (λ c. c ≢ 10) s
    → id_tail b (s ++ (10 ∷ [])) ≡ true
unfolding id_tail id_char
id_tail_feed b [] h clean = rw h (ground arith)
id_tail_feed b (x ∷ s) h clean = elim (Bool-cases (id_char x)) [
  | inl e ↦ rw e (id_tail_feed true s (rw e at h) clean.1)
  | inr e ↦ absurd (clean.0 (ground arith))
]

-- An id that the pattern means to accept is accepted with a line feed behind it too.
pub is_item_id_feed :
    (s : Text) → is_item_id s ≡ true → All (λ c. c ≢ 10) s → is_item_id (s ++ (10 ∷ [])) ≡ true
is_item_id_feed s valid clean =
    let (prefixed, tail) = is_item_id_parts s valid in
    let spelled = prefix_append s (lit "gtd-") prefixed in
    ap (λ t. is_item_id (t ++ (10 ∷ []))) spelled
    ∙ is_item_id_prefixed (drop 4 s ++ (10 ∷ []))
    ∙ id_tail_feed false (drop 4 s) tail (All-drop 4 s clean)
