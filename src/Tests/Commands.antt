-- ===== src/Tests/Commands.antt =====
-- Runs of the reading of command lines.
use plain_text_gtd.Prelude.{refl, List, [], ◌∷◌, ◌≡◌, text_eq, option_eq, nat_eq}
use plain_text_gtd.Text.{Text, lit, join}
use plain_text_gtd.DataTypes.{status_eq, int_eq}
use plain_text_gtd.Commands.Newlines.{newlines_to_semicolons}

-- A comment of its own, and a `#` inside a word.
abbrev two_lines : List Text
two_lines = lit "tk close a#b" ∷ lit "# done;x" ∷ lit "ls |#all" ∷ []

two_lines_prepared : newlines_to_semicolons (join (lit "\n") two_lines) ≡ lit "tk close a#b;;ls |"
unfolding newlines_to_semicolons join
two_lines_prepared = refl
