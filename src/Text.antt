-- ===== src/Text.antt =====
-- What the program uses of Python's `str`: a text is the list of its code points.
pub mod Strip
pub mod Lines
pub mod Dashed
pub mod Decimal
pub mod Json
pub mod Unused
use Prim.Native.Char.{code}
use plain_text_gtd.Prelude.{
  ℕ, ◌-◌, String, Bool, true, false, ◌&&◌, ◌||◌, List, [], ◌∷◌, ◌++◌, leb, ◌==◌, nat_eq, text_eq,
  length, take, drop, contains, if◌then◌else◌,
}

abbrev pub Text : Type 0
Text = List ℕ

-- The code points of a literal.
abbrev pub lit : String → Text
lit String.[] = []
lit (String.◌∷◌ c s) = code c ∷ lit s

-- The characters that `str.strip` removes and that `\s` matches.
abbrev white_space : List ℕ
white_space = 32 ∷ 133 ∷ 160 ∷ 5760 ∷ 8232 ∷ 8233 ∷ 8239 ∷ 8287 ∷ 12288 ∷ []

unfoldable pub is_space : ℕ → Bool
unfolding nat_eq
is_space c =
    (leb 9 c && leb c 13)
    || (leb 28 c && leb c 31)
    || (leb 8192 c && leb c 8202)
    || contains white_space c

unfoldable pub is_newline : ℕ → Bool
unfolding nat_eq
is_newline c = c == 10

abbrev pub is_empty : Text → Bool
is_empty [] = true
is_empty (_ ∷ _) = false

-- A leading part whose characters pass the test goes.
unfoldable pub lstrip : (ℕ → Bool) → Text → Text
lstrip p [] = []
lstrip p (c ∷ s) = if p c then lstrip p s else c ∷ s

-- A trailing part whose characters pass the test goes.
unfoldable pub rstrip : (ℕ → Bool) → Text → Text
rstrip p [] = []
rstrip p (c ∷ s) = let rest = rstrip p s in if p c && is_empty rest then [] else c ∷ rest

-- `s.strip()`
unfoldable pub strip : Text → Text
unfolding lstrip rstrip is_space
strip s = rstrip is_space (lstrip is_space s)

-- `s.startswith(prefix)`
unfoldable pub starts_with : Text → Text → Bool
unfolding nat_eq
starts_with s [] = true
starts_with [] (_ ∷ _) = false
starts_with (c ∷ s) (d ∷ prefix) = (c == d) && starts_with s prefix

-- `s.endswith(suffix)`
unfoldable pub ends_with : Text → Text → Bool
unfolding text_eq
ends_with s suffix = leb (length suffix) (length s) && drop (length s - length suffix) s == suffix

-- `needle in s`
unfoldable pub has_infix : Text → Text → Bool
unfolding starts_with
has_infix needle [] = is_empty needle
has_infix needle (c ∷ s) = starts_with (c ∷ s) needle || has_infix needle s

-- `separator.join(parts)`
unfoldable pub join : Text → List Text → Text
join separator [] = []
join separator (t ∷ []) = t
join separator (t ∷ u ∷ rest) = t ++ (separator ++ join separator (u ∷ rest))
