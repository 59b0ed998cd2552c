-- ===== src/Browser/Control.antt =====
-- session.py: the one writer of control, the queues of those who wait, and the transition.
use plain_text_gtd.Prelude.{
  ℕ, ◌+◌, ◌-◌, ◌/◌, Bool, true, false, not, ◌&&◌, ◌||◌, List, [], ◌∷◌, ◌++◌, map, Option, none,
  some, Assoc, ◌==◌, nat_eq, text_eq, option_eq, if◌then◌else◌, select,
}
use plain_text_gtd.Text.{Text}
use plain_text_gtd.Browser.{
  LiveBrowser, ControlOwner, human, agent, ControlMessage, Waiter, Notice, Reason, control_sent,
  woken, told_gone, now, is_human, is_agent,
}

-- `_LEASE_IDLE_TTL`, as it is without the environment variable.
abbrev pub lease_idle_ttl : ℕ
lease_idle_ttl = 90000000

abbrev name_or : Text → Option Text → Text
name_or agent_id none = agent_id
name_or agent_id (some []) = agent_id
name_or agent_id (some (c ∷ name)) = c ∷ name

-- `_waiting_names`
unfoldable pub waiting_names : LiveBrowser → List Text
waiting_names s =
    map (λ e. name_or e.0 e.1) s.resume_queue
    ++ map (λ w. name_or w.agent_id w.agent_name) s.wait_queue

-- `self.controller == "agent" and self._agent_task is None and self._lease_touched_at`
unfoldable pub shows_idle : LiveBrowser → Bool
unfolding nat_eq
shows_idle s =
    is_agent s.controller
    && (elim s.agent_task [ none ↦ true | some task ↦ false ] && not (s.lease_touched_at == 0))

-- The two numbers of seconds; the difference stops at 0, as the code's `max(0, …)` does.
unfoldable pub idle_seconds : LiveBrowser → Option (ℕ × ℕ)
unfolding shows_idle
idle_seconds s =
    let idle = now s - s.lease_touched_at in
    if shows_idle s then some (idle / 1000000, (lease_idle_ttl - idle) / 1000000) else none

-- `_control_message`
unfoldable pub control_message : LiveBrowser → ControlMessage
unfolding waiting_names idle_seconds
control_message s = record {
  lifecycle = s.lifecycle;
  owner = s.controller;
  owner_agent_id = s.owner_agent_id;
  owner_name = s.owner_agent_name;
  human_pinned = s.human_pinned;
  waiting = waiting_names s;
  idle = idle_seconds s;
}

-- `self._broadcast(self._control_message())`, with the reading of the clock that the message takes
unfoldable pub broadcast_control : LiveBrowser → LiveBrowser
unfolding control_message shows_idle
broadcast_control s = record s {
  sent = control_sent (control_message s) ∷ s.sent;
  ticks = if shows_idle s then s.ticks + 1 else s.ticks;
}

-- The fields that an agent's control sets besides those of the controller.
unfoldable pub touch_lease : ControlOwner → LiveBrowser → LiveBrowser
touch_lease human s = record s { input_enabled = true }
touch_lease agent s = record s {
  input_enabled = false;
  lease_touched_at = now s;
  agent_render = s.render;
  ticks = s.ticks + 1;
}

-- `_write_control_locked`
unfoldable pub write_control :
    ControlOwner → Option Text → Option Text → Bool → LiveBrowser → LiveBrowser
unfolding touch_lease broadcast_control
write_control to agent_id agent_name pinned s = broadcast_control (
    touch_lease to (record s {
      controller = to;
      owner_agent_id = agent_id;
      owner_agent_name = agent_name;
      human_pinned = pinned;
    }))

-- `any(aid == agent_id for …)`
unfoldable pub is_queued : Text → List (Text × Option Text) → Bool
unfolding text_eq
is_queued agent_id [] = false
is_queued agent_id (e ∷ queue) = e.0 == agent_id || is_queued agent_id queue

-- The entries of the other agents.
unfoldable pub others : Text → List (Text × Option Text) → List (Text × Option Text)
unfolding text_eq
others agent_id = select (λ e. not (e.0 == agent_id))

-- `_enqueue_resume_locked`
unfoldable pub enqueue_resume : Text → Option Text → LiveBrowser → LiveBrowser
unfolding is_queued
enqueue_resume agent_id agent_name s =
    if is_queued agent_id s.resume_queue
    then s
    else record s { resume_queue = s.resume_queue ++ ((agent_id, agent_name) ∷ []) }

-- `_enqueue_resume_front_locked`
unfoldable pub enqueue_resume_front : Text → Option Text → LiveBrowser → LiveBrowser
unfolding others
enqueue_resume_front agent_id agent_name s = record s {
  resume_queue = (agent_id, agent_name) ∷ others agent_id s.resume_queue;
}

-- `_dequeue_resume_locked`
unfoldable pub dequeue_resume : Text → LiveBrowser → LiveBrowser
unfolding others
dequeue_resume agent_id s = record s { resume_queue = others agent_id s.resume_queue }

-- Every waiter of the list learns that it is not granted.
unfoldable pub evicted : List Waiter → Assoc ℕ Bool → Assoc ℕ Bool
evicted [] outcomes = outcomes
evicted (w ∷ waiters) outcomes = evicted waiters ((w.handle, false) ∷ outcomes)

unfoldable pub evict_waiters : LiveBrowser → LiveBrowser
unfolding evicted
evict_waiters s = record s { wait_queue = []; outcomes = evicted s.wait_queue s.outcomes }

-- The messages to those in the resume queue of a browser that is gone.
unfoldable pub told : Reason → List (Text × Option Text) → List Notice → List Notice
told reason [] sent = sent
told reason (e ∷ queue) sent = told reason queue (told_gone e.0 e.1 reason ∷ sent)

-- `_abandon_queues_locked`
unfoldable pub abandon_queues : Reason → LiveBrowser → LiveBrowser
unfolding evict_waiters told
abandon_queues reason s = record (evict_waiters s) {
  resume_queue = [];
  sent = told reason s.resume_queue s.sent;
}

-- A free browser goes to the first who waits.
unfoldable pub hand_to_first : List Waiter → List (Text × Option Text) → LiveBrowser → LiveBrowser
unfolding write_control dequeue_resume
hand_to_first (w ∷ waiters) resume s =
    let t =
      write_control agent (some w.agent_id) w.agent_name false
        (dequeue_resume w.agent_id (record s { wait_queue = waiters })) in
    record t { outcomes = (w.handle, true) ∷ t.outcomes }
hand_to_first [] ((agent_id, agent_name) ∷ resume) s =
    let t =
      write_control agent (some agent_id) agent_name false (record s { resume_queue = resume }) in
    record t { granted_at = now t; ticks = t.ticks + 1; sent = woken agent_id agent_name ∷ t.sent }
hand_to_first [] [] s = s

-- `_settle_queue_locked`
unfoldable pub settle_queue : LiveBrowser → LiveBrowser
unfolding evict_waiters hand_to_first
settle_queue s =
    if is_human s.controller && s.human_pinned
    then evict_waiters s
    else if not (is_human s.controller)
    then s
    else hand_to_first s.wait_queue s.resume_queue s

-- `self._state_tuple() == (controller, owner, pinned)`
unfoldable pub state_is : ControlOwner → Option Text → Bool → LiveBrowser → Bool
unfolding text_eq option_eq
state_is human owner pinned s =
    is_human s.controller
    && (s.owner_agent_id == owner && (if pinned then s.human_pinned else not s.human_pinned))
state_is agent owner pinned s =
    is_agent s.controller
    && (s.owner_agent_id == owner && (if pinned then s.human_pinned else not s.human_pinned))

-- `if self.controller == "agent" and self.owner_agent_id is not None` of a preemption
unfoldable pub queue_displaced : ControlOwner → Option Text → LiveBrowser → LiveBrowser
unfolding enqueue_resume_front
queue_displaced agent (some owner) s = enqueue_resume_front owner s.owner_agent_name s
queue_displaced agent none s = s
queue_displaced human owner s = s

-- The run of the displaced agent is told to stop; a task that is kept has not ended.
unfoldable pub cancel_task : Option ℕ → LiveBrowser → LiveBrowser
cancel_task none s = s
cancel_task (some task) s = record s { cancelled = task ∷ s.cancelled }

-- `_transition` with `preempt` and without `expect`, to a human
unfoldable pub preempt : Bool → LiveBrowser → LiveBrowser
unfolding queue_displaced write_control settle_queue cancel_task
preempt pinned s = cancel_task s.agent_task (
    settle_queue
      (write_control human none none pinned (queue_displaced s.controller s.owner_agent_id s)))

-- `_transition` with `expect` and without `preempt`, to a human
unfoldable pub transition :
    ControlOwner → Option Text → Bool → Bool → LiveBrowser → Bool × LiveBrowser
unfolding state_is write_control settle_queue
transition controller owner was_pinned pinned s =
    if state_is controller owner was_pinned s
    then (true, settle_queue (write_control human none none pinned s))
    else (false, s)
