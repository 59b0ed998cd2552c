-- ===== src/Routes/Titles.antt =====
-- The titles that a captured block is split into.
use plain_text_gtd.Prelude.{
  ◌≤◌, ◌≡◌, false, List, [], ◌∷◌, arith, All, length, inl, inr, Bool-cases,
}
use plain_text_gtd.Text.{Text, strip, is_empty}
use plain_text_gtd.Text.Strip.{strip_idem}
use plain_text_gtd.Text.Lines.{splitlines}
use plain_text_gtd.Host.{Host}
use plain_text_gtd.Routes.Capture.{without_bullet, titles_of, split_capture_block}

-- A title without space at its ends, with at least one character.
pub record IsTitle (t : Text) : Type 0 where
  pub trimmed : strip t ≡ t
  pub something : is_empty t ≡ false

module _ (h : Host) where
  titles_of_titles : (lines : List Text) → All IsTitle (titles_of h lines)
  unfolding titles_of
  titles_of_titles [] = tt
  titles_of_titles (line ∷ lines) = elim (Bool-cases (is_empty (strip (without_bullet h line)))) [
    | inl e ↦ rw e (titles_of_titles lines)
    | inr e ↦ rw e (
      record { trimmed = strip_idem (without_bullet h line); something = e },
      titles_of_titles lines,
    )
  ]

  length-titles_of : (lines : List Text) → length (titles_of h lines) ≤ length lines
  unfolding titles_of
  length-titles_of [] = omega arith
  length-titles_of (line ∷ lines) = ground (arith, length-titles_of lines)

  -- A captured block gives at most one title for each of its lines, and every title has some
  -- character and no space at its ends.
  pub split_capture_block_titles :
      (block : Text)
      → All IsTitle (split_capture_block h block)
        × (length (split_capture_block h block) ≤ length (splitlines block))
  unfolding split_capture_block
  split_capture_block_titles block =
      (titles_of_titles (splitlines block), length-titles_of (splitlines block))
