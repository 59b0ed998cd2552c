-- ===== src/Commands/Idempotent.antt =====
-- parser.py: `_newlines_to_semicolons`, run on its own result.
use plain_text_gtd.Prelude.{
  ℕ, ◌≡◌, refl, ap, ◌∙◌, true, false, not, ◌&&◌, ◌||◌, [], ◌∷◌, Option, none, some, arith, ◌==◌,
  nat_eq, inl, inr, eq→≡, Bool-cases, if◌then◌else◌,
}
use plain_text_gtd.Text.{Text}
use plain_text_gtd.Commands.Newlines.{
  Scan, starts_word, after_quoted, scan_step, scan, newlines_to_semicolons,
}

-- The states that the loop can be in, but for the character before.
pub data Mode : Type 0 where
  commented plain : Mode
  escaping : Option ℕ → Mode
  quoting : ℕ → Mode

-- The first pass is in the mode, the second has no comments.
abbrev pub first_pass : Mode → Option ℕ → Scan
first_pass commented prev = record { quote = none; escaped = false; in_comment = true; prev = prev }
first_pass plain prev = record { quote = none; escaped = false; in_comment = false; prev = prev }
first_pass (escaping q) prev = record { quote = q; escaped = true; in_comment = false; prev = prev }
first_pass (quoting q) prev = record {
  quote = some q;
  escaped = false;
  in_comment = false;
  prev = prev;
}

abbrev without_comment : Mode → Mode
without_comment commented = plain
without_comment m = m

abbrev second_pass : Mode → Option ℕ → Scan
second_pass m prev = first_pass (without_comment m) prev

-- The mode that a quotation or its absence gives.
abbrev mode_of : Option ℕ → Mode
mode_of none = plain
mode_of (some q) = quoting q

abbrev Settles : Scan → Scan → Text → Type 0
Settles s s' t = scan s' (scan s t) ≡ scan s t

keeps :
    (s s' s1 s1' : Scan) (ch out : ℕ) (t : Text)
    → scan_step s ch ≡ (out ∷ [], s1)
    → scan_step s' out ≡ (out ∷ [], s1')
    → Settles s1 s1' t
    → Settles s s' (ch ∷ t)
unfolding scan
keeps s s' s1 s1' ch out t e e' h = rw (e, scan, e') (ap (λ l. out ∷ l) h)

drops :
    (s s' s1 : Scan) (ch : ℕ) (t : Text)
    → scan_step s ch ≡ ([], s1)
    → Settles s1 s' t
    → Settles s s' (ch ∷ t)
unfolding scan
drops s s' s1 ch t e h = rw e h

step_escaped :
    (q : Option ℕ) (prev : Option ℕ) (ch : ℕ)
    → scan_step (first_pass (escaping q) prev) ch ≡ (ch ∷ [], first_pass (mode_of q) (some ch))
unfolding scan_step
step_escaped none prev ch = refl
step_escaped (some q) prev ch = refl

pub step_comment :
    (prev : Option ℕ) (ch : ℕ)
    → scan_step (first_pass commented prev) ch ≡ (
        if ch == 10 then (59 ∷ [], first_pass plain (some 10)) else ([], first_pass commented prev))
unfolding scan_step
step_comment prev ch = refl

pub step_plain :
    (prev : Option ℕ) (ch : ℕ)
    → scan_step (first_pass plain prev) ch ≡ (
        if ch == 92
        then (ch ∷ [], first_pass (escaping none) (some ch))
        else if ch == 39 || ch == 34
        then (ch ∷ [], first_pass (quoting ch) (some ch))
        else if ch == 35 && starts_word prev
        then ([], first_pass commented prev)
        else ((if ch == 10 then 59 else ch) ∷ [], first_pass plain (some ch)))
unfolding scan_step
step_plain prev ch = refl

step_quoted :
    (q : ℕ) (prev : Option ℕ) (ch : ℕ)
    → scan_step (first_pass (quoting q) prev) ch ≡ (
        if not (q == 39) && ch == 92
        then (ch ∷ [], first_pass (escaping (some q)) (some ch))
        else (ch ∷ [], first_pass (mode_of (after_quoted q ch)) (some ch)))
unfolding scan_step after_quoted
step_quoted q prev ch = ground arith

semicolon_step :
    (prev : Option ℕ) → scan_step (first_pass plain prev) 59 ≡ (59 ∷ [], first_pass plain (some 59))
unfolding scan_step nat_eq
semicolon_step prev = refl

pub separators_alike : starts_word (some 10) ≡ starts_word (some 59)
unfolding starts_word nat_eq
separators_alike = refl

-- What the loop does with a character outside of quotations, by the case.
pub step_feed :
    (prev : Option ℕ) (ch : ℕ)
    → (ch == 10) ≡ true
    → scan_step (first_pass plain prev) ch ≡ (59 ∷ [], first_pass plain (some ch))
step_feed prev ch e = step_plain prev ch ∙ ground arith

pub step_other :
    (prev : Option ℕ) (ch : ℕ)
    → (ch == 92) ≡ false
    → (ch == 39 || ch == 34) ≡ false
    → (ch == 35 && starts_word prev) ≡ false
    → (ch == 10) ≡ false
    → scan_step (first_pass plain prev) ch ≡ (ch ∷ [], first_pass plain (some ch))
step_other prev ch a b c d = step_plain prev ch ∙ rw (a, b, c, d)

feed_alike : (ch : ℕ) → (ch == 10) ≡ true → starts_word (some ch) ≡ starts_word (some 59)
feed_alike ch e = ap (λ c. starts_word (some c)) (eq→≡ ch 10 e) ∙ separators_alike

-- The second pass repeats the first, in the same mode but for comments, with a character before that
-- begins a word as that of the first pass does.
settles :
    (t : Text) (m : Mode) (prev prev' : Option ℕ)
    → starts_word prev ≡ starts_word prev'
    → Settles (first_pass m prev) (second_pass m prev') t
unfolding after_quoted
settles [] m prev prev' same = unfold scan in refl
settles (ch ∷ t) commented prev prev' same = elim (Bool-cases (ch == 10)) [
  | inl e ↦
      keeps _ _ (first_pass plain (some 10)) (first_pass plain (some 59)) ch 59 t
        (step_comment prev ch ∙ rw e) (semicolon_step prev')
        (settles t plain (some 10) (some 59) separators_alike)
  | inr e ↦
      drops _ _ (first_pass commented prev) ch t (step_comment prev ch ∙ rw e)
        (settles t commented prev prev' same)
]
settles (ch ∷ t) (escaping none) prev prev' same =
    keeps _ _ _ _ ch ch t (step_escaped none prev ch) (step_escaped none prev' ch)
      (settles t plain (some ch) (some ch) refl)
settles (ch ∷ t) (escaping (some q)) prev prev' same =
    keeps _ _ _ _ ch ch t (step_escaped (some q) prev ch) (step_escaped (some q) prev' ch)
      (settles t (quoting q) (some ch) (some ch) refl)
settles (ch ∷ t) (quoting q) prev prev' same = elim (Bool-cases (not (q == 39) && ch == 92)) [
  | inl e ↦
      keeps _ _ (first_pass (escaping (some q)) (some ch))
        (first_pass (escaping (some q)) (some ch)) ch ch t (step_quoted q prev ch ∙ rw e)
        (step_quoted q prev' ch ∙ rw e) (settles t (escaping (some q)) (some ch) (some ch) refl)
  | inr e ↦ elim (Bool-cases (ch == q)) [
    | inl f ↦
        keeps _ _ (first_pass plain (some ch)) (first_pass plain (some ch)) ch ch t
          (step_quoted q prev ch ∙ rw (e, f)) (step_quoted q prev' ch ∙ rw (e, f))
          (settles t plain (some ch) (some ch) refl)
    | inr f ↦
        keeps _ _ (first_pass (quoting q) (some ch)) (first_pass (quoting q) (some ch)) ch ch t
          (step_quoted q prev ch ∙ rw (e, f)) (step_quoted q prev' ch ∙ rw (e, f))
          (settles t (quoting q) (some ch) (some ch) refl)
  ]
]
settles (ch ∷ t) plain prev prev' same = elim (Bool-cases (ch == 92)) [
  | inl a ↦
      keeps _ _ (first_pass (escaping none) (some ch)) (first_pass (escaping none) (some ch)) ch ch
        t (step_plain prev ch ∙ rw a) (step_plain prev' ch ∙ rw a)
        (settles t (escaping none) (some ch) (some ch) refl)
  | inr a ↦ elim (Bool-cases (ch == 39 || ch == 34)) [
    | inl b ↦
        keeps _ _ (first_pass (quoting ch) (some ch)) (first_pass (quoting ch) (some ch)) ch ch t
          (step_plain prev ch ∙ rw (a, b)) (step_plain prev' ch ∙ rw (a, b))
          (settles t (quoting ch) (some ch) (some ch) refl)
    | inr b ↦ elim (Bool-cases (ch == 35 && starts_word prev)) [
      | inl c ↦
          drops _ _ (first_pass commented prev) ch t (step_plain prev ch ∙ rw (a, b, c))
            (settles t commented prev prev' same)
      | inr c ↦ elim (Bool-cases (ch == 10)) [
        | inl d ↦
            keeps _ _ (first_pass plain (some ch)) (first_pass plain (some 59)) ch 59 t
              (step_feed prev ch d) (semicolon_step prev')
              (settles t plain (some ch) (some 59) (feed_alike ch d))
        | inr d ↦
            keeps _ _ (first_pass plain (some ch)) (first_pass plain (some ch)) ch ch t
              (step_other prev ch a b c d) (step_other prev' ch a b (rw (← same) c) d)
              (settles t plain (some ch) (some ch) refl)
      ]
    ]
  ]
]

-- Preparing a command line for the lexer a second time leaves it as the first time made it.
pub newlines_to_semicolons_idem :
    (command : Text)
    → newlines_to_semicolons (newlines_to_semicolons command) ≡ newlines_to_semicolons command
unfolding newlines_to_semicolons
newlines_to_semicolons_idem command = settles command plain none none refl
