-- ===== src/Activity/Shown.antt =====
-- What is shown of an agent.
use plain_text_gtd.Prelude.{Bool, true, false, List, Option, ◌≡◌, ◌↔◌, arith}
use plain_text_gtd.Text.{Text}
use plain_text_gtd.Activity.{
  tool_running, Event, has_unmatched_tool_use, is_transcript_tail_stale, derive_activity_state,
}
use plain_text_gtd.Activity.Matching.{is_called, is_answered, has_unmatched_tool_use_called}

tool_running_iff :
    {Instant : Type 0} (is_before : Instant → Instant → Bool) (running pending : Bool)
    (tail : Option Text) (at started : Option Instant)
    → (derive_activity_state is_before running pending tail at started ≡ tool_running) ↔ (
        (running ≡ true)
        × (is_transcript_tail_stale is_before at started ≡ false)
        × (pending ≡ true))
unfolding derive_activity_state
tool_running_iff is_before running pending tail at started =
    (λ h. (ground arith, ground arith, ground arith), λ (r, s, p). ground arith)

-- An agent is shown as running a tool exactly where it runs, its transcript does not pass the test of
-- being older than its process, and there is an id under which some message of the assistant calls a
-- tool and which no result has. The type of the last event plays no part in it.
pub derive_activity_state_tool :
    {Instant : Type 0} (is_before : Instant → Instant → Bool) (running : Bool) (events : List Event)
    (tail : Option Text) (at started : Option Instant)
    → (derive_activity_state is_before running (has_unmatched_tool_use events) tail at started
        ≡ tool_running)
      ↔ ((running ≡ true)
          × (is_transcript_tail_stale is_before at started ≡ false)
          × ((id : Text) × (is_called id events ≡ true) × (is_answered id events ≡ false)))
derive_activity_state_tool is_before running events tail at started =
    let shown =
      tool_running_iff is_before running (has_unmatched_tool_use events) tail at started in
    let unmatched = has_unmatched_tool_use_called events in
    (
      λ h. let (r, s, p) = shown.0 h in (r, s, unmatched.0 p),
      λ (r, s, c). shown.1 (r, s, unmatched.1 c),
    )
