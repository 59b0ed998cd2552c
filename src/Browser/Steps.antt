-- ===== src/Browser/Steps.antt =====
-- session.py: any sequence of the sections that run under `_control_lock`. Between two sections of one
-- operation others may run, so that each section is a step of its own.
use plain_text_gtd.Prelude.{ℕ, Bool, true, false, Option, some, ◌≡◌}
use plain_text_gtd.Text.{Text}
use plain_text_gtd.Browser.{LiveBrowser, agent, new_browser}
use plain_text_gtd.Browser.Control.{state_is}
use plain_text_gtd.Browser.Acquire.{
  acquire_locked, give_up, release, handoff, release_idle, sweep_unclaimed_grant, begin_run,
  end_run, check_lease, take_control, return_to_agents, on_disconnected, announce_crash, close,
  come_up,
}

-- What agents do, and the sweeps: all but to reclaim a browser from a human.
pub data AgentStep : LiveBrowser → LiveBrowser → Type 0 where
  asks :
      (agent_id : Text) (agent_name : Option Text) (wait enqueue : Bool) {s : LiveBrowser}
      → AgentStep s (acquire_locked agent_id agent_name false wait enqueue s).1
  gives_up :
      (handle : ℕ) (agent_id : Text) {s : LiveBrowser} → AgentStep s (give_up handle agent_id s)
  releases : (agent_id : Text) {s : LiveBrowser} → AgentStep s (release agent_id s).1
  hands_off :
      (agent_id : Text) (agent_name : Option Text) (reason : Text) {s : LiveBrowser}
      → AgentStep s (handoff agent_id agent_name reason s).1
  idles : (owner : Option Text) {s : LiveBrowser} → AgentStep s (release_idle owner s).1
  revokes : {s : LiveBrowser} → AgentStep s (sweep_unclaimed_grant s).1
  begins :
      (agent_id : Text) (task : ℕ) {s : LiveBrowser} → AgentStep s (begin_run agent_id task s).1
  ends : (task : ℕ) {s : LiveBrowser} → AgentStep s (end_run task s)
  touches :
      (agent_id : Text) (agent_name : Option Text) (enqueue : Bool) {s : LiveBrowser}
      → state_is agent (some agent_id) false s ≡ true
      → AgentStep s (check_lease agent_id agent_name enqueue s).1

-- All steps; `late` says whether one may lose a browser between the two sections of `run_action`.
pub data Step (late : Bool) : LiveBrowser → LiveBrowser → Type 0 where
  acts : {s t : LiveBrowser} → AgentStep s t → Step late s t
  loses :
      (agent_id : Text) (agent_name : Option Text) (enqueue : Bool) {s : LiveBrowser}
      → late ≡ true
      → Step late s (check_lease agent_id agent_name enqueue s).1
  reclaims :
      (agent_id : Text) (agent_name : Option Text) (wait enqueue : Bool) {s : LiveBrowser}
      → Step late s (acquire_locked agent_id agent_name true wait enqueue s).1
  takes : {s : LiveBrowser} → Step late s (take_control s).1
  returns : {s : LiveBrowser} → Step late s (return_to_agents s).1
  disconnects : {s : LiveBrowser} → Step late s (on_disconnected s)
  announces : {s : LiveBrowser} → Step late s (announce_crash s)
  closes : {s : LiveBrowser} → Step late s (close s)
  rises : {s : LiveBrowser} → Step late s (come_up s)

pub data Reach (late : Bool) (clock : ℕ → ℕ) : LiveBrowser → Type 0 where
  fresh : Reach late clock (new_browser clock)
  next : {s t : LiveBrowser} → Reach late clock s → Step late s t → Reach late clock t

-- Some steps of agents, one after the other, with the second sections of `run_action` that find the
-- browser lost.
pub data AgentSteps (s : LiveBrowser) : LiveBrowser → Type 0 where
  none_yet : AgentSteps s s
  then_one : {t u : LiveBrowser} → AgentSteps s t → AgentStep t u → AgentSteps s u
  then_lost :
      (agent_id : Text) (agent_name : Option Text) (enqueue : Bool) {t : LiveBrowser}
      → AgentSteps s t
      → AgentSteps s (check_lease agent_id agent_name enqueue t).1
