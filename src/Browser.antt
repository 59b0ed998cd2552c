-- ===== src/Browser.antt =====
-- system/apps/browser/src/browser/session.py, `LiveBrowser`: who controls one browser of the fleet, a
-- human or an agent, and who waits for it. This file has the state; `Browser/Control` the writing of
-- control and the queues, `Browser/Acquire` what agents and humans do, `Browser/Steps` any sequence of
-- these; the others hold proofs. An operation of the model is what runs under one hold of
-- `_control_lock`; `Browser/Steps` interleaves them in any order.
--
-- An instant is a number of microseconds of `time.monotonic`; `clock` gives the successive
-- readings, without those of a sweep that does nothing.
-- A waiter's `asyncio.Event` is an entry of `outcomes`, which is there once the event is set and then
-- holds `granted`; a waiter is known by a number, where the code compares objects. `sent` is what was
-- broadcast and which agents were messaged, the latest first; `cancelled` the tasks told to stop.
use plain_text_gtd.Prelude.{
  ℕ, ◌+◌, Bool, true, false, not, List, [], ◌∷◌, Option, none, some, Assoc,
}
use plain_text_gtd.Text.{Text}
pub mod Control
pub mod Acquire
pub mod Steps
pub mod Consistent
pub mod Kept
pub mod Reached
pub mod Settled
pub mod Answered
pub mod Heard
pub mod Resumed
pub mod Minded
pub mod Free
pub mod Pin
pub mod Handover
pub mod Return
pub mod Names
pub mod Fleet
pub mod Created
pub mod Cast
pub mod Viewers

-- `ControlOwner`
pub data ControlOwner : Type 0 where
  human agent : ControlOwner

-- `Lifecycle`
pub data Lifecycle : Type 0 where
  init running crashed : Lifecycle

-- `_AcquireWaiter`
pub record Waiter : Type 0 where
  pub handle : ℕ
  pub agent_id : Text
  pub agent_name : Option Text

-- What `_control_message` holds; `idle` has the two numbers of seconds where they are sent.
pub record ControlMessage : Type 0 where
  pub lifecycle : Lifecycle
  pub owner : ControlOwner
  pub owner_agent_id : Option Text
  pub owner_name : Option Text
  pub human_pinned : Bool
  pub waiting : List Text
  pub idle : Option (ℕ × ℕ)

-- Why a browser is gone: `reason` of `_abandon_queues_locked`.
pub data Reason : Type 0 where
  by_crash by_close : Reason

pub data Notice : Type 0 where
  control_sent : ControlMessage → Notice
  handoff_sent : Text → Text → Notice
  crash_sent : Notice
  woken : Text → Option Text → Notice
  told_gone : Text → Option Text → Reason → Notice

-- `LiveBrowser`
pub record LiveBrowser : Type 0 where
  pub controller : ControlOwner
  pub owner_agent_id : Option Text
  pub owner_agent_name : Option Text
  pub human_pinned : Bool
  pub input_enabled : Bool
  pub lifecycle : Lifecycle
  pub closed : Bool
  pub wait_queue : List Waiter
  pub resume_queue : List (Text × Option Text)
  pub outcomes : Assoc ℕ Bool
  pub next_handle : ℕ
  pub agent_task : Option ℕ
  pub cancelled : List ℕ
  pub lease_touched_at : ℕ
  pub granted_at : ℕ
  pub render : ℕ × ℕ
  pub agent_render : ℕ × ℕ
  pub clock : ℕ → ℕ
  pub ticks : ℕ
  pub sent : List Notice

-- `LiveBrowser(browser_id=name)`
abbrev pub new_browser : (ℕ → ℕ) → LiveBrowser
new_browser clock = record {
  controller = human;
  owner_agent_id = none;
  owner_agent_name = none;
  human_pinned = false;
  input_enabled = true;
  lifecycle = init;
  closed = false;
  wait_queue = [];
  resume_queue = [];
  outcomes = [];
  next_handle = 0;
  agent_task = none;
  cancelled = [];
  lease_touched_at = 0;
  granted_at = 0;
  render = (1280, 800);
  agent_render = (1280, 800);
  clock = clock;
  ticks = 0;
  sent = [];
}

-- `time.monotonic()`
abbrev pub now : LiveBrowser → ℕ
now s = s.clock s.ticks

abbrev pub is_human : ControlOwner → Bool
is_human human = true
is_human agent = false

abbrev pub is_agent : ControlOwner → Bool
is_agent human = false
is_agent agent = true

-- `_is_running`
abbrev pub is_running : LiveBrowser → Bool
is_running s = elim s.lifecycle [ running ↦ true | _ ↦ false ]

-- `_crashed`
abbrev pub is_crashed : LiveBrowser → Bool
is_crashed s = elim s.lifecycle [ crashed ↦ true | _ ↦ false ]

-- `_human_pin_active`
abbrev pub human_pin_active : LiveBrowser → Bool
human_pin_active s = elim s.controller [ human ↦ s.human_pinned | agent ↦ false ]
