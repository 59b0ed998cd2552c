-- ===== src/Tests/Services.antt =====
-- Runs of the watcher of apps and of the ledger of what was shed.
use plain_text_gtd.Prelude.{
  ℕ, true, false, List, [], ◌∷◌, ◌++◌, some, none, ◌≡◌, refl, All, lookup, text_eq, nat_eq,
  compare_text, Option, not, ◌&&◌, contains, latest,
}
use plain_text_gtd.Text.{Text, lit}
use plain_text_gtd.Text.Json.{JsonDict, json_text}
use plain_text_gtd.AppWatcher.{App, toml_text, new_watcher}
use plain_text_gtd.AppWatcher.Follows.{HaveTextNames, watched, url_of, last_loaded, watched_follows}
use plain_text_gtd.Backup.{
  wait_for_no_inflight_backup, wait_for_next_completion, exit_code, exit_code_for_completion,
}
use plain_text_gtd.Backup.Config.{parse_lines, parse_restic_env_file, missing_required_restic_keys}
use plain_text_gtd.Backup.Quoted.{is_key, quoted, lookup-parse_lines-quoted}
use plain_text_gtd.Backup.Inflight.{
  is_started, is_finished, is_ended_later, wait_for_no_inflight_backup_pending,
}
use plain_text_gtd.Bands.Ledger.{shed_record, shed_notice_hook, latest_delivered_timestamp, at_most}
use plain_text_gtd.Bands.Notices.{shed_notice_hook_once, shed_notice_hook_told}

abbrev app_at : Text → Text → App
app_at name url = record { name = some (toml_text name); url = some (toml_text url) }

-- The blog moves, and the notes go.
abbrev three_rounds : List (ℕ × List App)
three_rounds =
    (7, app_at (lit "blog") (lit "http://a") ∷ app_at (lit "notes") (lit "http://b") ∷ [])
    ∷ (7, [])
    ∷ (9, app_at (lit "blog") (lit "http://c") ∷ [])
    ∷ []

three_rounds-HaveTextNames : All HaveTextNames three_rounds
three_rounds-HaveTextNames = ((refl, (refl, tt)), (tt, ((refl, tt), tt)))

watched_follows_example :
    lookup ⦃e = text_eq⦄ (lit "blog") (watched three_rounds new_watcher [])
    ≡ url_of (lit "blog") (last_loaded three_rounds 0 [])
watched_follows_example = watched_follows three_rounds (lit "blog") three_rounds-HaveTextNames

blog_moved : url_of (lit "blog") (last_loaded three_rounds 0 []) ≡ some (lit "http://c")
unfolding url_of last_loaded text_eq nat_eq
blog_moved = refl

abbrev one_shed : List JsonDict
one_shed =
    shed_record (lit "2026-01-02T00:00:00.000000Z") 41 (lit "claude") (some (lit "ada"))
      (some false)
    ∷ []

shed_notice_hook_once_example :
    let (told, after) = shed_notice_hook (lit "2026-01-03T00:00:00.000000Z") (lit "ada") one_shed in
    shed_notice_hook (lit "2026-01-04T00:00:00.000000Z") (lit "ada") after ≡ (false, after)
shed_notice_hook_once_example =
    shed_notice_hook_once (lit "2026-01-03T00:00:00.000000Z") (lit "2026-01-04T00:00:00.000000Z")
      (lit "ada") one_shed

nothing_delivered :
    at_most (lit "2026-01-05T00:00:00.000000Z") (latest_delivered_timestamp one_shed (lit "ada"))
    ≡ false
unfolding at_most latest_delivered_timestamp shed_record text_eq compare_text
nothing_delivered = refl

shed_notice_hook_told_example :
    (shed_notice_hook (lit "2026-01-06T00:00:00.000000Z") (lit "ada") (
      one_shed
      ++ (shed_record (lit "2026-01-05T00:00:00.000000Z") 42 (lit "claude") (some (lit "ada")) none
          ∷ []))).0
    ≡ true
shed_notice_hook_told_example =
    shed_notice_hook_told (lit "2026-01-06T00:00:00.000000Z") (lit "2026-01-05T00:00:00.000000Z")
      (lit "claude") (lit "ada") 42 none one_shed refl refl nothing_delivered

abbrev tick_event : Text → Text → JsonDict
tick_event kind id =
    (lit "source", json_text (lit "backup"))
    ∷ (lit "type", json_text kind)
    ∷ (lit "tick_id", json_text id)
    ∷ []

-- Two ticks have started, and the first has ended; one line is no dict.
abbrev one_inflight : List (Option JsonDict)
one_inflight =
    some (tick_event (lit "BACKUP_STARTED") (lit "t1"))
    ∷ none
    ∷ some (tick_event (lit "RESTIC_BACKUP_FAILED") (lit "t1"))
    ∷ some (tick_event (lit "BACKUP_STARTED") (lit "t2"))
    ∷ []

abbrev ended_at_second : List (List JsonDict)
ended_at_second = [] ∷ (tick_event (lit "TICK_ERROR") (lit "t2") ∷ []) ∷ []

wait_for_no_inflight_backup_pending_example :
    contains ⦃e = text_eq⦄ (wait_for_no_inflight_backup one_inflight ended_at_second) (lit "t2") ≡ (
      (is_started (lit "t2") (latest 200 one_inflight)
        && not (is_finished (lit "t2") (latest 200 one_inflight)))
      && not (is_ended_later (lit "t2") ended_at_second))
wait_for_no_inflight_backup_pending_example =
    wait_for_no_inflight_backup_pending (lit "t2") one_inflight ended_at_second

t2_waited_for : wait_for_no_inflight_backup one_inflight ([] ∷ []) ≡ lit "t2" ∷ []
unfolding wait_for_no_inflight_backup
t2_waited_for = refl

t2_ended : wait_for_no_inflight_backup one_inflight ended_at_second ≡ []
unfolding wait_for_no_inflight_backup
t2_ended = refl

failed_exit : exit_code (wait_for_next_completion ended_at_second) ≡ 1
unfolding wait_for_next_completion exit_code_for_completion
failed_exit = refl

-- A comment, and a value that the last line replaces.
abbrev first_lines : List Text
first_lines = lit "# where to" ∷ lit "export RESTIC_REPOSITORY = 'old'" ∷ []

repository-IsKey : is_key (lit "RESTIC_REPOSITORY") ≡ true
unfolding is_key
repository-IsKey = refl

lookup-parse_lines-quoted_example :
    lookup ⦃e = text_eq⦄ (lit "RESTIC_REPOSITORY") (
      parse_lines
        (first_lines ++ ((lit "RESTIC_REPOSITORY" ++ (61 ∷ quoted (lit " s3:a=b \"c"))) ∷ []))
        [])
    ≡ some (lit " s3:a=b \"c")
lookup-parse_lines-quoted_example =
    lookup-parse_lines-quoted first_lines (lit "RESTIC_REPOSITORY") (lit " s3:a=b \"c")
      repository-IsKey

password_missing :
    missing_required_restic_keys (parse_restic_env_file (lit "export RESTIC_REPOSITORY = 'old'"))
    ≡ lit "RESTIC_PASSWORD" ∷ []
unfolding missing_required_restic_keys parse_restic_env_file
password_missing = refl
