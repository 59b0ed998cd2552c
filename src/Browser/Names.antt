-- ===== src/Browser/Names.antt =====
-- names.py: which names of browsers a user may choose. The test of `str.isdigit` for one character,
-- which reads the Unicode tables, is an argument.
use plain_text_gtd.Prelude.{
  ℕ, Bool, true, false, ◌&&◌, ◌||◌, not, [], ◌∷◌, ◌≡◌, ◌≤◌, ltb, length, if◌then◌else◌, arith,
}
use plain_text_gtd.Text.{Text, is_empty}
use plain_text_gtd.Text.Dashed.{is_dashed, IsJoined, is_dashed-IsJoined}

-- `_MAX_NAME_LEN`
abbrev pub max_name_len : ℕ
max_name_len = 40

unfoldable pub all_digits : (ℕ → Bool) → Text → Bool
all_digits is_digit [] = true
all_digits is_digit (c ∷ s) = is_digit c && all_digits is_digit s

-- `is_valid_browser_name`
unfoldable pub is_valid_browser_name : (ℕ → Bool) → Text → Bool
unfolding all_digits is_dashed
is_valid_browser_name is_digit name =
    if is_empty name || ltb max_name_len (length name)
    then false
    else if not (is_empty name) && all_digits is_digit name
    then false
    else is_dashed name

-- A name that the test accepts has one to forty characters, is made of words of small letters and
-- digits that single dashes join, and is not made of digits alone.
pub is_valid_browser_name_parts :
    (is_digit : ℕ → Bool) (name : Text)
    → is_valid_browser_name is_digit name ≡ true
    → (length name ≤ 40) × IsJoined name × (all_digits is_digit name ≡ false)
unfolding is_valid_browser_name
is_valid_browser_name_parts is_digit name h =
    (ground arith, is_dashed-IsJoined name (ground arith), ground arith)
