-- ===== src/Text/Lines.antt =====
-- `str.splitlines` and `str.split` with one separator.
use plain_text_gtd.Prelude.{
  ℕ, ◌≡◌, refl, Bool, true, false, ◌&&◌, ◌||◌, List, [], ◌∷◌, ◌++◌, arith, leb, ◌==◌, nat_eq,
  contains, if◌then◌else◌,
}
use plain_text_gtd.Text.{Text, is_empty}

-- The characters that end a line; a carriage return and a line feed end one line together.
unfoldable pub is_break : ℕ → Bool
unfolding nat_eq
is_break c = (leb 10 c && leb c 13) || contains (28 ∷ 29 ∷ 30 ∷ 133 ∷ 8232 ∷ 8233 ∷ []) c

pub data LineStep : Type 0 where
  joined ended kept : LineStep

line_step : Bool → ℕ → LineStep
unfolding is_break
line_step after_return c =
    if after_return && c == 10 then joined else if is_break c then ended else kept

-- The loop over the characters, with the line so far and whether a carriage return came last.
split_lines : Text → Bool → Text → List Text
split_lines line after_return [] = if is_empty line then [] else line ∷ []
split_lines line after_return (c ∷ s) = elim (line_step after_return c) [
  | joined ↦ split_lines [] false s
  | ended ↦ line ∷ split_lines [] (c == 13) s
  | kept ↦ split_lines (line ++ (c ∷ [])) false s
]

-- `s.splitlines()`
unfoldable pub splitlines : Text → List Text
unfolding split_lines line_step
splitlines s = split_lines [] false s

split_at : ℕ → Text → Text → List Text
split_at separator part [] = part ∷ []
split_at separator part (c ∷ s) = elim (c == separator) [
  | true ↦ part ∷ split_at separator [] s
  | false ↦ split_at separator (part ++ (c ∷ [])) s
]

-- `s.split(separator)`, of one character
unfoldable pub split : ℕ → Text → List Text
unfolding split_at nat_eq
split separator s = split_at separator [] s

-- Text that is read from a file has its line ends translated.
pub data NewlineStep : Type 0 where
  drop_feed feed same : NewlineStep

newline_step : Bool → ℕ → NewlineStep
unfolding nat_eq
newline_step after_return c =
    if after_return && c == 10 then drop_feed else if c == 13 then feed else same

translate : Bool → Text → Text
translate after_return [] = []
translate after_return (c ∷ s) = elim (newline_step after_return c) [
  | drop_feed ↦ translate false s
  | feed ↦ 10 ∷ translate true s
  | same ↦ c ∷ translate false s
]

unfoldable pub universal_newlines : Text → Text
unfolding translate newline_step
universal_newlines s = translate false s

translate_idem :
    (after_return : Bool) (s : Text)
    → translate false (translate after_return s) ≡ translate after_return s
unfolding translate newline_step
translate_idem after_return [] = refl
translate_idem after_return (c ∷ s) = ground (arith, translate_idem false s, translate_idem true s)

-- A text that has been read once is read back as it is.
pub universal_newlines_idem :
    (s : Text) → universal_newlines (universal_newlines s) ≡ universal_newlines s
unfolding universal_newlines
universal_newlines_idem s = translate_idem false s
