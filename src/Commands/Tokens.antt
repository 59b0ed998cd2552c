-- ===== src/Commands/Tokens.antt =====
-- parser.py: the loop of `parse_command`, and `flag_values`.
use plain_text_gtd.Prelude.{
  ℕ, ◌≡◌, ◌≢◌, refl, sym, ap, ◌∙◌, Bool, true, false, not, List, [], ◌∷◌, ◌++◌, arith, select,
  length, length-append, drop, ≡→eq, inl, inr, Bool-cases, if◌then◌else◌, Option, none, some, ◌==◌,
  text_eq,
}
use mathlib.Core.List.{append_assoc}
use plain_text_gtd.Text.{Text, lit, starts_with}
use plain_text_gtd.Commands.Segments.{
  CommandSegment, is_punct, is_redirect, is_control, segments_from, classify_segment, flag_values,
  segment_of,
}

-- The words of all the segments, in order.
abbrev pub all_words : List CommandSegment → List Text
all_words [] = []
all_words (segment ∷ segments) = segment.words ++ all_words segments

module _ (is_word : ℕ → Bool) where
  segment_of-words :
      (words : List Text) (b : Bool) (o : Option (Text × List Text))
      → (segment_of is_word words b o).words ≡ words
  segment_of-words words b none = refl
  segment_of-words words b (some x) = refl

  classify_segment-words :
      (words : List Text) (b : Bool) → (classify_segment is_word words b).words ≡ words
  unfolding classify_segment
  classify_segment-words words b = segment_of-words words b _

redirect_is_punct : (tok : Text) → is_redirect tok ≡ true → is_punct tok ≡ true
unfolding is_redirect
redirect_is_punct tok e = ground arith

redirect_no_control : (tok : Text) → is_redirect tok ≡ true → is_control tok ≡ false
unfolding is_control
redirect_no_control tok r = ground arith

punct_control : (tok : Text) → is_redirect tok ≡ false → is_punct tok ≡ true → is_control tok ≡ true
unfolding is_control
punct_control tok r p = ground arith

word_no_control : (tok : Text) → is_punct tok ≡ false → is_control tok ≡ false
unfolding is_control
word_no_control tok p = ground arith

module _ (is_word : ℕ → Bool) where
  -- Splitting a command line into its commands loses no word and changes none: the words of the
  -- commands, in order, are the tokens that are no operators, and before them the words at hand.
  pub segments_from-words :
      (words : List Text) (has_redirect : Bool) (tokens : List Text)
      → all_words (segments_from is_word words has_redirect tokens)
        ≡ words ++ select (λ tok. not (is_punct tok)) tokens
  unfolding segments_from
  segments_from-words words b [] = ap (λ l. l ++ []) (classify_segment-words is_word words b)
  segments_from-words words b (tok ∷ tokens) = elim (Bool-cases (is_redirect tok)) [
    | inl r ↦
        rw (redirect_no_control tok r, r, redirect_is_punct tok r)
          (segments_from-words words true tokens)
    | inr r ↦ elim (Bool-cases (is_punct tok)) [
      | inl p ↦
          rw (punct_control tok r p, p, classify_segment-words)
            (ap (λ l. words ++ l) (segments_from-words [] false tokens))
      | inr p ↦
          rw (word_no_control tok p, r, p)
            (segments_from-words (words ++ (tok ∷ [])) b tokens
              ∙ append_assoc words (tok ∷ []) (select (λ t. not (is_punct t)) tokens))
    ]
  ]

flag_values-cons :
    (tok flag : Text) (args : List Text)
    → (tok == flag) ≡ false
    → flag_values (tok ∷ args) flag ≡ (
        if starts_with tok (flag ++ lit "=")
        then drop (length (flag ++ lit "=")) tok ∷ flag_values args flag
        else flag_values args flag)
unfolding flag_values
flag_values-cons tok flag [] e = rw e refl
flag_values-cons tok flag (next ∷ args) e = rw e refl

starts_with-append : (p s : Text) → starts_with (p ++ s) p ≡ true
unfolding starts_with
starts_with-append [] s = refl
starts_with-append (c ∷ p) s = ground (arith, starts_with-append p s)

drop-append : (p s : Text) → drop (length p) (p ++ s) ≡ s
drop-append [] s = refl
drop-append (c ∷ p) s = drop-append p s

not_itself : (flag : Text) (c : ℕ) (s : Text) → flag ++ (c ∷ s) ≢ flag
not_itself flag c s e =
    let same : length (flag ++ (c ∷ s)) ≡ length flag = ap length e in
    absurd (omega (arith, same, length-append flag (c ∷ s)))

differs : (a b : Text) → a ≢ b → (a == b) ≡ false
differs a b h = ground arith

-- Both spellings of a flag give its value, `--step title` and `--step=title`, and a token that is
-- neither is passed over.
pub flag_values_spellings :
    (flag value other : Text) (args : List Text)
    → other ≢ flag
    → starts_with other (flag ++ lit "=") ≡ false
    → (flag_values (flag ∷ value ∷ args) flag ≡ value ∷ flag_values args flag)
      × (flag_values (((flag ++ lit "=") ++ value) ∷ args) flag ≡ value ∷ flag_values args flag)
      × (flag_values (other ∷ args) flag ≡ flag_values args flag)
flag_values_spellings flag value other args different plain = (
  unfold flag_values in rw (≡→eq flag flag refl),
  flag_values-cons ((flag ++ lit "=") ++ value) flag args
        (differs _ _ (λ e. not_itself flag 61 value (sym (append_assoc flag (lit "=") value) ∙ e)))
      ∙ rw (starts_with-append (flag ++ lit "=") value, drop-append (flag ++ lit "=") value),
  flag_values-cons other flag args (differs other flag different) ∙ rw plain,
)
