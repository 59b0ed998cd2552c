-- ===== src/Commands/Separated.antt =====
-- parser.py: `_newlines_to_semicolons` on lines without quotes and escapes.
use plain_text_gtd.Prelude.{
  ℕ, Bool, true, not, ◌&&◌, ◌||◌, [], ◌∷◌, Option, some, ◌==◌, nat_eq, if◌then◌else◌,
}
use plain_text_gtd.Text.{Text}
use plain_text_gtd.Commands.Newlines.{starts_word}

-- The line has no quote, no backslash and no line feed.
unfoldable pub is_unquoted : Text → Bool
unfolding nat_eq
is_unquoted [] = true
is_unquoted (c ∷ line) =
    not (c == 92) && (not (c == 39 || c == 34) && (not (c == 10) && is_unquoted line))

-- The line up to its comment: the first `#` that begins a word, where `prev` is the character before.
unfoldable pub before_comment : Option ℕ → Text → Text
unfolding starts_word nat_eq
before_comment prev [] = []
before_comment prev (c ∷ line) =
    let rest = before_comment (some c) line in if c == 35 && starts_word prev then [] else c ∷ rest
