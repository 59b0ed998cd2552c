-- ===== src/Browser/Acquire.antt =====
-- session.py: how agents take and give back a browser, how humans do, and the sweeps.
use plain_text_gtd.Prelude.{
  ℕ, ◌+◌, ◌-◌, Bool, true, false, not, ◌&&◌, ◌||◌, List, [], ◌∷◌, ◌++◌, Option, none, some, lookup,
  ◌==◌, nat_eq, text_eq, option_eq, if◌then◌else◌, ltb,
}
use plain_text_gtd.Text.{Text}
use plain_text_gtd.Browser.{
  LiveBrowser, human, agent, running, crashed, Waiter, handoff_sent, crash_sent, by_crash, by_close,
  now, is_human, is_agent, is_running, is_crashed, human_pin_active,
}
use plain_text_gtd.Browser.Control.{
  write_control, broadcast_control, enqueue_resume, enqueue_resume_front, dequeue_resume,
  settle_queue, abandon_queues, preempt, transition, state_is, lease_idle_ttl,
}

-- What `acquire` and `run_action` answer.
pub data Status : Type 0 where
  acquired busy_human busy_agent timed_out starting gone_crashed gone_closed lost_control : Status

-- What the part of `acquire` under the lock comes to: an answer, or a place in the wait queue.
pub data Acquired : Type 0 where
  answered : Status → Acquired
  parked : ℕ → Acquired

-- `self.controller == "agent" and self.owner_agent_id == agent_id`
unfoldable pub owns : Text → LiveBrowser → Bool
unfolding text_eq option_eq
owns agent_id s = is_agent s.controller && s.owner_agent_id == some agent_id

unfoldable pub enqueue_on : Bool → Text → Option Text → LiveBrowser → LiveBrowser
unfolding enqueue_resume broadcast_control
enqueue_on enqueue_on_busy agent_id agent_name s =
    if enqueue_on_busy then broadcast_control (enqueue_resume agent_id agent_name s) else s

-- The part of `acquire` under the lock.
unfoldable pub acquire_locked :
    Text → Option Text → Bool → Bool → Bool → LiveBrowser → Acquired × LiveBrowser
unfolding owns enqueue_on dequeue_resume write_control
acquire_locked agent_id agent_name reclaim wait enqueue_on_busy s =
    if owns agent_id s
    then (answered acquired, dequeue_resume agent_id (record s { owner_agent_name = agent_name }))
    else if not reclaim && human_pin_active s
    then (answered busy_human, enqueue_on enqueue_on_busy agent_id agent_name s)
    else if is_human s.controller
    then (
      answered acquired,
      write_control agent (some agent_id) agent_name false (dequeue_resume agent_id s),
    )
    else if not wait
    then (answered busy_agent, enqueue_on enqueue_on_busy agent_id agent_name s)
    else (
      parked s.next_handle,
      record s {
        wait_queue =
            s.wait_queue
            ++ (record { handle = s.next_handle; agent_id = agent_id; agent_name = agent_name }
                ∷ []);
        next_handle = s.next_handle + 1;
      },
    )

-- `acquire` up to the point where it waits
unfoldable pub acquire :
    Text → Option Text → Bool → Bool → Bool → LiveBrowser → Acquired × LiveBrowser
unfolding acquire_locked
acquire agent_id agent_name reclaim wait enqueue_on_busy s =
    if is_crashed s
    then (answered gone_crashed, s)
    else if not (is_running s)
    then (answered starting, s)
    else acquire_locked agent_id agent_name reclaim wait enqueue_on_busy s

unfoldable pub is_waiting : ℕ → List Waiter → Bool
unfolding nat_eq
is_waiting handle [] = false
is_waiting handle (w ∷ waiters) = w.handle == handle || is_waiting handle waiters

-- `self._wait_queue.remove(waiter)`
unfoldable pub without : ℕ → List Waiter → List Waiter
unfolding nat_eq
without handle [] = []
without handle (w ∷ waiters) =
    let rest = without handle waiters in if w.handle == handle then waiters else w ∷ rest

-- `waiter.granted`
unfoldable pub is_granted : ℕ → LiveBrowser → Bool
unfolding lookup nat_eq
is_granted handle s = elim (lookup handle s.outcomes) [ some granted ↦ granted | none ↦ false ]

-- What `acquire` does where the time is over or the request is gone.
unfoldable pub give_up : ℕ → Text → LiveBrowser → LiveBrowser
unfolding is_waiting without is_granted owns write_control settle_queue
give_up handle agent_id s =
    if is_waiting handle s.wait_queue
    then record s { wait_queue = without handle s.wait_queue }
    else if is_granted handle s && owns agent_id s
    then settle_queue (write_control human none none false s)
    else s

-- What `acquire` answers once the event of its waiter is set.
unfoldable pub after_wait : ℕ → LiveBrowser → Status
unfolding is_granted
after_wait handle s =
    if is_crashed s
    then gone_crashed
    else if s.closed
    then gone_closed
    else if is_granted handle s
    then acquired
    else busy_human

-- `release`
unfoldable pub release : Text → LiveBrowser → Bool × LiveBrowser
unfolding transition
release agent_id s = transition agent (some agent_id) false false s

-- `take_control`
unfoldable pub take_control : LiveBrowser → Bool × LiveBrowser
unfolding preempt
take_control s = if not (is_running s) then (false, s) else (true, preempt true s)

abbrev name_shown : Text → Option Text → Text
name_shown agent_id none = agent_id
name_shown agent_id (some []) = agent_id
name_shown agent_id (some (c ∷ name)) = c ∷ name

-- `handoff`
unfoldable pub handoff : Text → Option Text → Text → LiveBrowser → Bool × LiveBrowser
unfolding owns enqueue_resume_front write_control settle_queue
handoff agent_id agent_name reason s =
    if not (owns agent_id s)
    then (false, s)
    else (let t =
          settle_queue
            (write_control human none none true (enqueue_resume_front agent_id agent_name s)) in
        (true, record t { sent = handoff_sent (name_shown agent_id agent_name) reason ∷ t.sent }))

-- `return_to_agents`
unfoldable pub return_to_agents : LiveBrowser → Bool × LiveBrowser
unfolding transition
return_to_agents s = transition human none true false s

abbrev is_none : Option ℕ → Bool
is_none none = true
is_none (some task) = false

-- `_sweep_idle_lease`: the part that reads, and the transition for the owner that it read
unfoldable pub is_lease_idle : LiveBrowser → Bool
is_lease_idle s =
    is_agent s.controller
    && (is_none s.agent_task && ltb lease_idle_ttl (now s - s.lease_touched_at))

unfoldable pub release_idle : Option Text → LiveBrowser → Bool × LiveBrowser
unfolding transition
release_idle owner s = transition agent owner false false s

unfoldable pub sweep_idle_lease : LiveBrowser → Bool × LiveBrowser
unfolding is_lease_idle release_idle
sweep_idle_lease s =
    if is_lease_idle s
    then release_idle s.owner_agent_id (record s { ticks = s.ticks + 1 })
    else (false, s)

-- `_CLAIM_WINDOW`, as it is without the environment variable.
abbrev pub claim_window : ℕ
claim_window = 12000000

unfoldable pub is_unclaimed : LiveBrowser → Bool
unfolding nat_eq
is_unclaimed s =
    is_agent s.controller
    && (not (s.granted_at == 0)
        && (is_none s.agent_task
            && (ltb s.lease_touched_at s.granted_at && ltb claim_window (now s - s.granted_at))))

-- `_sweep_unclaimed_grant`
unfoldable pub sweep_unclaimed_grant : LiveBrowser → Bool × LiveBrowser
unfolding is_unclaimed write_control settle_queue
sweep_unclaimed_grant s =
    if is_unclaimed s
    then (
      true,
      settle_queue
          (write_control human none none false (record s { granted_at = 0; ticks = s.ticks + 1 })),
    )
    else (false, s)

-- The registration of `run_agent`, and its `finally`
unfoldable pub begin_run : Text → ℕ → LiveBrowser → Bool × LiveBrowser
unfolding state_is
begin_run agent_id task s =
    if state_is agent (some agent_id) false s
    then (true, record s { agent_task = some task })
    else (false, s)

unfoldable pub end_run : ℕ → LiveBrowser → LiveBrowser
unfolding nat_eq option_eq
end_run task s = if s.agent_task == some task then record s { agent_task = none } else s

-- The second check of `run_action`: where the browser is lost, its `status` and `enqueued`
unfoldable pub check_lease :
    Text → Option Text → Bool → LiveBrowser → Option (Status × Bool) × LiveBrowser
unfolding state_is enqueue_on
check_lease agent_id agent_name enqueue_on_busy s =
    if not (state_is agent (some agent_id) false s)
    then (some (lost_control, enqueue_on_busy), enqueue_on enqueue_on_busy agent_id agent_name s)
    else (none, record s { lease_touched_at = now s; granted_at = 0; ticks = s.ticks + 1 })

abbrev is_busy : Status → Bool
is_busy busy_human = true
is_busy busy_agent = true
is_busy _ = false

-- `run_action` up to the action, where nothing comes between its two sections: its `status` and
-- `enqueued` where it does not get that far. An answer that has no `enqueued` counts as false.
unfoldable pub before_action :
    Text → Option Text → Bool → LiveBrowser → Option (Status × Bool) × LiveBrowser
unfolding acquire check_lease
before_action agent_id agent_name enqueue_on_busy s =
    let (a, t) = acquire agent_id agent_name false false enqueue_on_busy s in
    elim a [
      | answered acquired ↦ check_lease agent_id agent_name enqueue_on_busy t
      | answered status ↦ (some (status, enqueue_on_busy && is_busy status), t)
      | parked handle ↦ (none, t)
    ]

-- `_on_disconnected`
unfoldable pub on_disconnected : LiveBrowser → LiveBrowser
on_disconnected s = if s.closed || is_crashed s then s else record s { lifecycle = crashed }

-- `_announce_crash`
unfoldable pub announce_crash : LiveBrowser → LiveBrowser
unfolding abandon_queues
announce_crash s = abandon_queues by_crash (record s { sent = crash_sent ∷ s.sent })

-- `close`, as far as control goes
unfoldable pub close : LiveBrowser → LiveBrowser
unfolding abandon_queues
close s = abandon_queues by_close (record s { closed = true })

-- The end of `start`
unfoldable pub come_up : LiveBrowser → LiveBrowser
unfolding broadcast_control
come_up s =
    if s.closed || is_crashed s then s else broadcast_control (record s { lifecycle = running })
