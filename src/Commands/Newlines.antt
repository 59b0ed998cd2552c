-- ===== src/Commands/Newlines.antt =====
-- parser.py: `_newlines_to_semicolons`.
use plain_text_gtd.Prelude.{
  ℕ, Bool, true, false, not, ◌&&◌, ◌||◌, List, [], ◌∷◌, ◌++◌, Option, none, some, ◌==◌, nat_eq,
  option_eq, contains, if◌then◌else◌,
}
use plain_text_gtd.Text.{Text, lit}

-- `_PUNCT`
abbrev pub punctuation : List ℕ
punctuation = lit "();<>|&"

-- `word_boundary`
abbrev pub word_boundary : List ℕ
word_boundary = 32 ∷ 9 ∷ 10 ∷ punctuation

-- `prev is None or prev in word_boundary`
unfoldable pub starts_word : Option ℕ → Bool
starts_word none = true
starts_word (some c) = contains word_boundary c

-- The variables of the loop.
pub record Scan : Type 0 where
  pub quote : Option ℕ
  pub escaped : Bool
  pub in_comment : Bool
  pub prev : Option ℕ

abbrev pub start : Scan
start = record { quote = none; escaped = false; in_comment = false; prev = none }

-- `quote = None` at the character that ends the quotation
unfoldable pub after_quoted : ℕ → ℕ → Option ℕ
after_quoted q ch = if ch == q then none else some q

-- What the loop's body appends for a character, and the variables after it.
abbrev pub plain_step : Scan → ℕ → Text × Scan
plain_step s ch =
    if ch == 39 || ch == 34
    then (ch ∷ [], record s { quote = some ch; prev = some ch })
    else if ch == 35 && starts_word s.prev
    then ([], record s { in_comment = true })
    else ((if ch == 10 then 59 else ch) ∷ [], record s { prev = some ch })

abbrev pub quoted_step : Scan → ℕ → Option ℕ → Text × Scan
quoted_step s ch none = plain_step s ch
quoted_step s ch (some q) = (ch ∷ [], record s { quote = after_quoted q ch; prev = some ch })

abbrev pub is_single : Option ℕ → Bool
is_single none = false
is_single (some q) = q == 39

unfoldable pub scan_step : Scan → ℕ → Text × Scan
unfolding starts_word after_quoted nat_eq
scan_step s ch =
    if s.in_comment
    then if ch == 10 then (59 ∷ [], record s { in_comment = false; prev = some 10 }) else ([], s)
    else if s.escaped
    then (ch ∷ [], record s { escaped = false; prev = some ch })
    else if not (is_single s.quote) && ch == 92
    then (ch ∷ [], record s { escaped = true; prev = some ch })
    else quoted_step s ch s.quote

unfoldable pub scan : Scan → Text → Text
unfolding scan_step
scan s [] = []
scan s (ch ∷ text) = let step = scan_step s ch in step.0 ++ scan step.1 text

-- `_newlines_to_semicolons`
unfoldable pub newlines_to_semicolons : Text → Text
unfolding scan
newlines_to_semicolons = scan start
