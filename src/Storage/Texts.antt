-- ===== src/Storage/Texts.antt =====
-- Writing, reading and seeding the four texts.
use mathlib.Core.Option.{none-ne-some}
use plain_text_gtd.Prelude.{inl, inr, Option-cases, ◌≡◌, refl, Option, none, some, sym, ap, ◌∙◌}
use plain_text_gtd.Text.{Text}
use plain_text_gtd.Text.Lines.{universal_newlines}
use plain_text_gtd.Frontmatter.{Frontmatter}
use plain_text_gtd.World.{M, World, Disk, ok, then_ok}
use plain_text_gtd.Storage.Documents.{
  Document, instructions, weekly_review, projects_and_goals, intentions, contents, put_text,
  read_instructions, write_instructions, read_weekly_review_prompt, write_weekly_review_prompt,
  read_projects_and_goals, write_projects_and_goals, read_intentions, write_intentions,
  seed_defaults, seed_file, make_root,
}

module _ {fm : Frontmatter} where
  -- The reader and the writer of each text.
  unfoldable pub reader : Document → M fm Text
  reader instructions = read_instructions
  reader weekly_review = read_weekly_review_prompt
  reader projects_and_goals = read_projects_and_goals
  reader intentions = read_intentions

  unfoldable pub writer : Document → Text → M fm (Unit {0})
  writer instructions = write_instructions
  writer weekly_review = write_weekly_review_prompt
  writer projects_and_goals = write_projects_and_goals
  writer intentions = write_intentions

  -- A text that is written is read back with its line ends made line feeds, and reading changes
  -- nothing.
  pub reader-writer :
      (x : Document) (t : Text) (w : World fm)
      → reader x (writer x t w).1 ≡ (ok (universal_newlines t), (writer x t w).1)
  unfolding reader writer read_instructions write_instructions read_weekly_review_prompt
      write_weekly_review_prompt read_projects_and_goals write_projects_and_goals read_intentions
      write_intentions
  reader-writer instructions t w = refl
  reader-writer weekly_review t w = refl
  reader-writer projects_and_goals t w = refl
  reader-writer intentions t w = refl

  -- A text that exists is not the one that is put where none was.
  contents-put_text :
      (x y : Document) (s t : Text) (d : Disk fm)
      → contents x d ≡ some t
      → contents y d ≡ none
      → contents x (put_text y s d) ≡ some t
  contents-put_text instructions instructions s t d e n = absurd (none-ne-some _ (sym n ∙ e))
  contents-put_text instructions weekly_review s t d e n = e
  contents-put_text instructions projects_and_goals s t d e n = e
  contents-put_text instructions intentions s t d e n = e
  contents-put_text weekly_review instructions s t d e n = e
  contents-put_text weekly_review weekly_review s t d e n = absurd (none-ne-some _ (sym n ∙ e))
  contents-put_text weekly_review projects_and_goals s t d e n = e
  contents-put_text weekly_review intentions s t d e n = e
  contents-put_text projects_and_goals instructions s t d e n = e
  contents-put_text projects_and_goals weekly_review s t d e n = e
  contents-put_text projects_and_goals projects_and_goals s t d e n =
      absurd (none-ne-some _ (sym n ∙ e))
  contents-put_text projects_and_goals intentions s t d e n = e
  contents-put_text intentions instructions s t d e n = e
  contents-put_text intentions weekly_review s t d e n = e
  contents-put_text intentions projects_and_goals s t d e n = e
  contents-put_text intentions intentions s t d e n = absurd (none-ne-some _ (sym n ∙ e))

  seed_file_keeps :
      (x y : Document) (default : Option Text) (t : Text) (w : World fm)
      → contents x w.disk ≡ some t
      → contents x (seed_file y default w).1.disk ≡ some t
  unfolding seed_file
  seed_file_keeps x y none t w e = elim (Option-cases (contents y w.disk)) [
    | inl n ↦ rw (n, seed_file) e
    | inr (s, there) ↦ rw (there, seed_file) e
  ]
  seed_file_keeps x y (some default) t w e = elim (Option-cases (contents y w.disk)) [
    | inl n ↦ rw (n, seed_file) (contents-put_text x y (universal_newlines default) t w.disk e n)
    | inr (s, there) ↦ rw (there, seed_file) e
  ]

  seed_file_ok :
      (y : Document) (default : Option Text) (w : World fm)
      → seed_file y default w ≡ (ok tt, (seed_file y default w).1)
  unfolding seed_file
  seed_file_ok y none w = elim (Option-cases (contents y w.disk)) [
    | inl n ↦ rw (n, seed_file)
    | inr (s, there) ↦ rw (there, seed_file)
  ]
  seed_file_ok y (some default) w = elim (Option-cases (contents y w.disk)) [
    | inl n ↦ rw (n, seed_file)
    | inr (s, there) ↦ rw (there, seed_file)
  ]

  contents-items :
      (x : Document) (w : World fm) → contents x (make_root w).1.disk ≡ contents x w.disk
  unfolding make_root
  contents-items instructions w = refl
  contents-items weekly_review w = refl
  contents-items projects_and_goals w = refl
  contents-items intentions w = refl

  -- Seeding changes no text that exists, whatever the packaged defaults are, and it does not raise.
  pub seed_defaults_keeps :
      (x : Document) (default_instructions default_review : Option Text) (t : Text) (w : World fm)
      → contents x w.disk ≡ some t
      → ((seed_defaults default_instructions default_review w).0 ≡ ok tt)
        × (contents x (seed_defaults default_instructions default_review w).1.disk ≡ some t)
  unfolding seed_defaults
  seed_defaults_keeps x i r t w e =
      let w1 = (make_root w).1 in
      let w2 = (seed_file instructions i w1).1 in
      let run : seed_defaults i r w ≡ (ok tt, (seed_file weekly_review r w2).1) =
        then_ok make_root _ (unfold make_root in refl) (
          then_ok (seed_file instructions i) _ (seed_file_ok instructions i w1)
            (seed_file_ok weekly_review r w2)) in
      (
        ap (λ q. q.0) run,
        ap (λ q. contents x q.1.disk) run
            ∙ seed_file_keeps x weekly_review r t w2
                (seed_file_keeps x instructions i t w1 (contents-items x w ∙ e)),
      )
