-- ===== src/Routes/Pages.antt =====
-- runner.py: the routes of the three texts, the start page, and the filters that name weekdays.
use plain_text_gtd.Prelude.{
  ◌-◌, List, [], ◌∷◌, Option, some, ◌==◌, text_eq, option_eq, leb, drop, if◌then◌else◌,
}
use plain_text_gtd.Text.{Text, lit}
use plain_text_gtd.DataTypes.{ℤ, pos, negsuc}
use plain_text_gtd.Frontmatter.{Frontmatter}
use plain_text_gtd.World.{M, pure, ◌>>◌}
use plain_text_gtd.Storage.Documents.{
  write_instructions, write_weekly_review_prompt, write_projects_and_goals, read_instructions,
  read_weekly_review_prompt, read_projects_and_goals,
}
use plain_text_gtd.Routes.Requests.{
  Reply, redirect, html, page, today_page, instructions_page, weekly_review_page,
  projects_and_goals_page,
}

module _ {fm : Frontmatter} where
  -- `root`
  unfoldable pub root : M fm Reply
  root = pure (redirect (page today_page))

  -- `save_instructions_route`
  unfoldable pub save_instructions_route : Text → M fm Reply
  save_instructions_route body = do
    write_instructions body
    pure (redirect (page instructions_page))

  -- `save_weekly_review`
  unfoldable pub save_weekly_review : Text → M fm Reply
  save_weekly_review body = do
    write_weekly_review_prompt body
    pure (redirect (page weekly_review_page))

  -- `save_projects_and_goals`, over the header `HX-Request`; a fragment is told by its text
  unfoldable pub save_projects_and_goals : Option Text → Text → M fm Reply
  unfolding option_eq text_eq
  save_projects_and_goals hx_request body = do
    write_projects_and_goals body
    if hx_request == some (lit "true")
        then pure (html body)
        else pure (redirect (page projects_and_goals_page))

-- `l[d]`, with the indices from the end that Python has, and `?` for an IndexError
head_or : Text → List Text → Text
head_or default [] = default
head_or default (t ∷ ts) = t

unfoldable pub named : List Text → ℤ → Text
unfolding head_or
named names (pos n) = head_or (lit "?") (drop n names)
named names (negsuc n) = if leb n 6 then head_or (lit "?") (drop (6 - n) names) else lit "?"

-- `_weekday_short` of a number
unfoldable pub weekday_short : ℤ → Text
unfolding named
weekday_short = named (lit "M" ∷ lit "T" ∷ lit "W" ∷ lit "T" ∷ lit "F" ∷ lit "S" ∷ lit "S" ∷ [])

-- `_weekday_label` of a number
unfoldable pub weekday_label : ℤ → Text
unfolding named
weekday_label =
    named (lit "Mon" ∷ lit "Tue" ∷ lit "Wed" ∷ lit "Thu" ∷ lit "Fri" ∷ lit "Sat" ∷ lit "Sun" ∷ [])

module _ {fm : Frontmatter} where
  -- The texts that the pages of the three texts show.
  unfoldable pub view_instructions : M fm Text
  view_instructions = read_instructions

  unfoldable pub view_weekly_review : M fm Text
  view_weekly_review = read_weekly_review_prompt

  unfoldable pub view_projects_and_goals : M fm Text
  view_projects_and_goals = read_projects_and_goals

  unfoldable pub edit_projects_and_goals : M fm Text
  edit_projects_and_goals = read_projects_and_goals
