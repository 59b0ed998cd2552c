-- ===== src/Storage/Documents.antt =====
-- storage.py: the four texts beside the items, and the seeding of two of them.
use plain_text_gtd.Prelude.{[], Option, none, some}
use plain_text_gtd.Text.{Text}
use plain_text_gtd.Text.Lines.{universal_newlines}
use plain_text_gtd.Frontmatter.{Frontmatter}
use plain_text_gtd.World.{M, Disk, ok, ◌>>◌}

-- Which text: each has a path, a reader and a writer of its own, alike but for the path.
pub data Document : Type 0 where
  instructions weekly_review projects_and_goals intentions : Document

-- `path.read_text(…)` after the test that the file exists
abbrev pub read_text : Option Text → Text
read_text none = []
read_text (some t) = universal_newlines t

module _ {fm : Frontmatter} where
  -- the file's contents, `none` where it does not exist
  abbrev pub contents : Document → Disk fm → Option Text
  contents instructions d = d.instructions
  contents weekly_review d = d.weekly_review
  contents projects_and_goals d = d.projects_and_goals
  contents intentions d = d.intentions

  -- `path.write_text(…)`
  abbrev pub put_text : Document → Text → Disk fm → Disk fm
  put_text instructions t d = record d { instructions = some t }
  put_text weekly_review t d = record d { weekly_review = some t }
  put_text projects_and_goals t d = record d { projects_and_goals = some t }
  put_text intentions t d = record d { intentions = some t }

  unfoldable pub read_document : Document → M fm Text
  read_document x w = (ok (read_text (contents x w.disk)), w)

  unfoldable pub write_document : Document → Text → M fm (Unit {0})
  write_document x t w = (ok tt, record w { disk = put_text x t w.disk })

  unfoldable pub read_instructions : M fm Text
  unfolding read_document
  read_instructions = read_document instructions

  unfoldable pub write_instructions : Text → M fm (Unit {0})
  unfolding write_document
  write_instructions = write_document instructions

  unfoldable pub read_weekly_review_prompt : M fm Text
  unfolding read_document
  read_weekly_review_prompt = read_document weekly_review

  unfoldable pub write_weekly_review_prompt : Text → M fm (Unit {0})
  unfolding write_document
  write_weekly_review_prompt = write_document weekly_review

  unfoldable pub read_projects_and_goals : M fm Text
  unfolding read_document
  read_projects_and_goals = read_document projects_and_goals

  unfoldable pub write_projects_and_goals : Text → M fm (Unit {0})
  unfolding write_document
  write_projects_and_goals = write_document projects_and_goals

  unfoldable pub read_intentions : M fm Text
  unfolding read_document
  read_intentions = read_document intentions

  unfoldable pub write_intentions : Text → M fm (Unit {0})
  unfolding write_document
  write_intentions = write_document intentions

  -- `_seed_file`, with the packaged default if there is one
  unfoldable pub seed_file : Document → Option Text → M fm (Unit {0})
  seed_file x default w = elim (contents x w.disk) [
    | some t ↦ (ok tt, w)
    | none ↦ elim default [
      | none ↦ (ok tt, w)
      | some t ↦ (ok tt, record w { disk = put_text x (universal_newlines t) w.disk })
    ]
  ]

  unfoldable pub make_root : M fm (Unit {0})
  make_root w = (
    ok tt,
    record w {
      disk = record w.disk { items = some (elim w.disk.items [ none ↦ [] | some d ↦ d ]) };
    },
  )

  -- `seed_defaults`, over the packaged defaults of the two files
  unfoldable pub seed_defaults : Option Text → Option Text → M fm (Unit {0})
  unfolding make_root seed_file
  seed_defaults default_instructions default_review = do
    make_root
    seed_file instructions default_instructions
    seed_file weekly_review default_review
