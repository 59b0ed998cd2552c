-- ===== src/Exports.antt =====
-- runner.py: the plain texts that are pasted into a chat: `_handoff_block`, `api_plan`, `api_triage`,
-- `api_triage_inbox` and `api_weekly_review`.
use plain_text_gtd.Prelude.{
  List, [], ◌∷◌, ◌++◌, map, Option, none, some, ◌==◌, length, sort, key_le, ascending, select,
  if◌then◌else◌,
}
use plain_text_gtd.Text.{Text, lit, join}
use plain_text_gtd.Text.Decimal.{decimal_text}
use plain_text_gtd.Text.Lines.{splitlines}
use plain_text_gtd.Dates.{Date}
use plain_text_gtd.Dates.Iso.{date_iso}
use plain_text_gtd.DataTypes.{Item, status_eq, status_value, done, inbox}
use plain_text_gtd.Host.{Host}
use plain_text_gtd.Frontmatter.{Frontmatter}
use plain_text_gtd.World.{M, pure, ◌>>=◌}
use plain_text_gtd.Storage.Files.{read_item, children_of, all_items}
use plain_text_gtd.Storage.Documents.{read_weekly_review_prompt}
use plain_text_gtd.Views.Keys.{non_empty}

abbrev line_feed : Text
line_feed = 10 ∷ []

-- A line of the block, where there is something to say.
abbrev pub line_if : Option Text → Text → List Text
line_if none label = []
line_if (some t) label = (label ++ t) ∷ []

abbrev pub iso_of : Option Date → Option Text
iso_of none = none
iso_of (some d) = some (date_iso d)

abbrev pub joined : List Text → Option Text
joined [] = none
joined (t ∷ ts) = some (join (lit ", ") (t ∷ ts))

abbrev section_if : Text → Text → List Text
section_if heading [] = []
section_if heading (c ∷ s) = [] ∷ heading ∷ [] ∷ (c ∷ s) ∷ []

-- `_handoff_block`, as its lines
unfoldable pub handoff_lines : Item → List Text
handoff_lines item =
    (lit "# GTD item " ++ (item.id ++ (lit ": " ++ item.title)))
    ∷ []
    ∷ (lit "- Status: " ++ status_value item.status)
    ∷ (line_if (iso_of item.due_date) (lit "- Due: ")
        ++ (line_if (iso_of item.start_date) (lit "- Start: ")
            ++ (line_if (non_empty item.waiting_for) (lit "- Waiting on: ")
                ++ (line_if (non_empty item.parent) (lit "- Parent project: ")
                    ++ (line_if (joined item.tags) (lit "- Tags: ")
                        ++ (line_if (joined item.contexts) (lit "- Contexts: ")
                            ++ (section_if (lit "## Notes") item.body ++ ([] ∷ []))))))))

-- `_handoff_block`
unfoldable pub handoff_block : Item → Text
unfolding handoff_lines join
handoff_block item = join line_feed (handoff_lines item)

mark_of : Item → Text
unfolding status_eq
mark_of child = if child.status == done then lit "x" else lit " "

quoted : Text → Text
quoted t = lit "`" ++ (t ++ lit "`")

indented : List Text → Text
unfolding join
indented lines = join line_feed (map (λ line. lit "    " ++ line) lines)

abbrev note_lines : Text → List Text
note_lines [] = []
note_lines (c ∷ s) = indented (splitlines (c ∷ s)) ∷ []

-- The lines of one sub-action of the plan.
unfoldable pub child_lines : Item → List Text
unfolding mark_of quoted indented splitlines join
child_lines child =
    let extras =
      quoted child.id
      ∷ (lit "status: " ++ status_value child.status)
      ∷ (line_if (iso_of child.due_date) (lit "due ")
          ++ line_if (non_empty child.waiting_for) (lit "waiting on ")) in
    (lit "- ["
      ++ (mark_of child
          ++ (lit "] " ++ (child.title ++ (lit "  (" ++ (join (lit ", ") extras ++ lit ")"))))))
    ∷ note_lines child.body

all_child_lines : List Item → List Text
unfolding child_lines
all_child_lines [] = []
all_child_lines (c ∷ children) = child_lines c ++ all_child_lines children

abbrev children_or_none : List Item → List Text
children_or_none [] = lit "_No sub-actions yet._" ∷ []
children_or_none (c ∷ children) = all_child_lines (c ∷ children)

abbrev plan_question : Text
plan_question =
    lit
      "Help me plan this project. What's the next physical action? What's the desired outcome? What am I forgetting?"

-- The text of `api_plan`, from the project and its children in their order.
unfoldable pub plan_block : Item → List Item → Text
unfolding all_child_lines decimal_text join
plan_block project children = join line_feed (
    (lit "# Plan project " ++ (project.id ++ (lit ": " ++ project.title)))
    ∷ []
    ∷ (line_if (iso_of project.due_date) (lit "- Due: ")
        ++ (line_if (joined project.tags) (lit "- Tags: ")
            ++ (section_if (lit "## Project notes") project.body
                ++ ([]
                    ∷ (lit "## Sub-actions (" ++ (decimal_text (length children) ++ lit ")"))
                    ∷ []
                    ∷ (children_or_none children
                        ++ ([] ∷ lit "---" ∷ [] ∷ plan_question ∷ [] ∷ [])))))))

module _ {fm : Frontmatter} (h : Host) where
  -- `api_handoff`
  unfoldable pub api_handoff : Text → M fm Text
  unfolding handoff_block
  api_handoff item_id = do item ← read_item h item_id; pure (handoff_block item)

  -- `api_plan`
  unfoldable pub api_plan : Text → M fm Text
  unfolding plan_block
  api_plan item_id = do
    project ← read_item h item_id
    children ← children_of h project.id
    pure (plan_block project (sort (key_le (ascending (λ c. c.created_at) ∷ [])) children))

  -- `api_triage`
  unfoldable pub api_triage : Text → M fm Text
  api_triage item_id = do
    item ← read_item h item_id
    pure (
        lit "Triage "
        ++ (item.id
            ++ (lit ": "
                ++ (item.title
                    ++ (line_feed
                        ++ (line_feed
                            ++ (lit "(Read data/.apps/gtd/items/"
                                ++ (item.id
                                    ++ (lit
                                          ".md for full context, then walk me through it per data/.apps/gtd/instructions.md.)"
                                        ++ line_feed)))))))))

abbrev prompt_or : Text → Text
prompt_or [] =
    lit "Weekly review prompt not configured. Edit data/.apps/gtd/weekly_review_prompt.md."
    ++ line_feed
prompt_or (c ∷ s) = c ∷ s

module _ {fm : Frontmatter} where
  -- `api_weekly_review`
  unfoldable pub api_weekly_review : M fm Text
  api_weekly_review = do prompt ← read_weekly_review_prompt; pure (prompt_or prompt)

-- The fixed text before the list of `api_triage_inbox`.
abbrev inbox_request : List Text
inbox_request =
    lit "Help me do a first-pass triage of my GTD inbox."
    ∷ []
    ∷ lit "Read data/.apps/gtd/instructions.md first so you have the latest rules."
    ∷ []
    ∷ lit "For each item:"
    ∷ []
    ∷ lit "1. Read its file under data/.apps/gtd/items/<id>.md for full context."
    ∷ lit
        "2. Propose a classification (next, waiting, someday, read-review, reference, or trashed; mark is_project: true if it has children)."
    ∷ lit "3. Suggest a clearer, more executable phrasing of the title if the current one is vague."
    ∷ lit
        "4. Ask me anything you need to decide. For vague items (like \"figure out the company\") do not classify without my answers — flag them and we'll think through them together."
    ∷ []
    ∷ lit
        "After we agree on each item, update its file in place: set the new status, rename the title if we improved it, and append a dated note to the body capturing what we decided."
    ∷ []
    ∷ []

inbox_lines : List Item → List Text
inbox_lines [] = []
inbox_lines (item ∷ items) =
    (lit "- `" ++ (item.id ++ (lit "` — " ++ item.title))) ∷ inbox_lines items

abbrev lines_or_empty : List Item → List Text
lines_or_empty [] = lit "_Empty._" ∷ []
lines_or_empty (item ∷ items) = inbox_lines (item ∷ items)

unfoldable pub inbox_block : List Item → Text
unfolding inbox_lines decimal_text join
inbox_block items = join line_feed (
    inbox_request
    ++ ((lit "## Inbox right now (" ++ (decimal_text (length items) ++ lit " items)"))
          ∷ []
          ∷ lines_or_empty items
        ++ ([]
            ∷ lit "Do all items together — give me your proposals for all of them in one message."
            ∷ []
            ∷ [])))

module _ {fm : Frontmatter} (h : Host) where
  -- `api_triage_inbox`
  unfoldable pub api_triage_inbox : M fm Text
  unfolding inbox_block
  api_triage_inbox = do
    items ← all_items h
    pure (inbox_block (select (λ it. it.status == inbox) items))
