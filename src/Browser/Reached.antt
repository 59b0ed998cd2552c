-- ===== src/Browser/Reached.antt =====
-- The control of a browser is consistent after any sequence of steps.
use plain_text_gtd.Prelude.{
  ℕ, Bool, true, false, ◌||◌, Option, none, some, refl, text_eq, option_eq, nat_eq, Bool-cases, inl,
  inr,
}
use plain_text_gtd.Text.{Text}
use plain_text_gtd.Browser.{LiveBrowser, ControlOwner, human, agent, Reason, is_running, is_crashed}
use plain_text_gtd.Browser.Control.{
  is_queued, broadcast_control, evict_waiters, abandon_queues, preempt, queue_displaced,
  cancel_task, transition,
}
use plain_text_gtd.Browser.Acquire.{
  take_control, return_to_agents, on_disconnected, announce_crash, close, come_up,
}
use plain_text_gtd.Browser.Steps.{
  Step, acts, loses, reclaims, takes, returns, disconnects, announces, closes, rises, Reach, fresh,
  next,
}
use plain_text_gtd.Browser.Consistent.{AreDistinct, IsConsistent}
use plain_text_gtd.Browser.Kept.{
  alike, settled-IsConsistent, transition-IsConsistent, acquire_locked-IsConsistent,
  check_lease-IsConsistent, front-distinct, AgentStep-IsConsistent,
}

displaced-distinct :
    (controller : ControlOwner) (owner : Option Text) (s : LiveBrowser)
    → AreDistinct s.resume_queue
    → AreDistinct (queue_displaced controller owner s).resume_queue
unfolding queue_displaced
displaced-distinct agent (some owner) s d = front-distinct owner s.owner_agent_name s d
displaced-distinct agent none s d = d
displaced-distinct human owner s d = d

cancel_task-IsConsistent :
    (task : Option ℕ) (s : LiveBrowser) → IsConsistent s → IsConsistent (cancel_task task s)
unfolding cancel_task
cancel_task-IsConsistent none s h = h
cancel_task-IsConsistent (some task) s h = alike h refl refl refl refl refl refl

take_control-IsConsistent : (s : LiveBrowser) → IsConsistent s → IsConsistent (take_control s).1
unfolding take_control preempt
take_control-IsConsistent s h = elim (Bool-cases (is_running s)) [
  | inr e ↦ rw e h
  | inl e ↦ rw e (
      cancel_task-IsConsistent s.agent_task _ (
        settled-IsConsistent true (queue_displaced s.controller s.owner_agent_id s)
          (displaced-distinct s.controller s.owner_agent_id s h.distinct)))
]

-- A browser that is gone has empty queues.
abandoned-IsConsistent :
    (reason : Reason) (s : LiveBrowser) → IsConsistent s → IsConsistent (abandon_queues reason s)
unfolding abandon_queues evict_waiters is_queued
abandoned-IsConsistent reason s h = record {
  unpinned = h.unpinned;
  named = h.named;
  unqueued = λ a q. refl;
  unowned = h.unowned;
  unparked = λ c. refl;
  gate = h.gate;
  distinct = tt;
}

on_disconnected-IsConsistent : (s : LiveBrowser) → IsConsistent s → IsConsistent (on_disconnected s)
unfolding on_disconnected
on_disconnected-IsConsistent s h = elim (Bool-cases (s.closed || is_crashed s)) [
  | inl e ↦ rw e h
  | inr e ↦ rw e (alike h refl refl refl refl refl refl)
]

come_up-IsConsistent : (s : LiveBrowser) → IsConsistent s → IsConsistent (come_up s)
unfolding come_up broadcast_control
come_up-IsConsistent s h = elim (Bool-cases (s.closed || is_crashed s)) [
  | inl e ↦ rw e h
  | inr e ↦ rw e (alike h refl refl refl refl refl refl)
]

-- Each step keeps the control of a browser consistent.
pub Step-IsConsistent :
    {late : Bool} {s t : LiveBrowser} → Step late s t → IsConsistent s → IsConsistent t
unfolding return_to_agents transition announce_crash abandon_queues close
Step-IsConsistent (acts step) h = AgentStep-IsConsistent step h
Step-IsConsistent (loses id name enqueue e) h = check_lease-IsConsistent id name enqueue _ h
Step-IsConsistent (reclaims id name wait enqueue) h =
    acquire_locked-IsConsistent id name true wait enqueue _ h
Step-IsConsistent takes h = take_control-IsConsistent _ h
Step-IsConsistent returns h = transition-IsConsistent human none true false _ h
Step-IsConsistent disconnects h = on_disconnected-IsConsistent _ h
Step-IsConsistent announces h = abandoned-IsConsistent _ _ (alike h refl refl refl refl refl refl)
Step-IsConsistent closes h = abandoned-IsConsistent _ _ (alike h refl refl refl refl refl refl)
Step-IsConsistent rises h = come_up-IsConsistent _ h

-- After any sequence of steps from a new browser, an agent in control is known, is not locked out by a
-- human and is not among those to be resumed; a human in control has it for no agent, and no request
-- is parked behind a human; input passes exactly while a human is in control; and no agent is
-- twice among those to be resumed.
pub Reach-IsConsistent :
    {late : Bool} (clock : ℕ → ℕ) (s : LiveBrowser) → Reach late clock s → IsConsistent s
unfolding is_queued
Reach-IsConsistent clock s fresh = record {
  unpinned = λ e. refl;
  named = λ e. cc;
  unqueued = λ a q. refl;
  unowned = λ e. refl;
  unparked = λ e. refl;
  gate = refl;
  distinct = tt;
}
Reach-IsConsistent clock s (next r step) = Step-IsConsistent step (Reach-IsConsistent clock _ r)
