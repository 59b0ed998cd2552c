-- ===== src/Browser/Free.antt =====
-- Nobody waits for a browser that is free, but where an agent loses it between two sections.
use plain_text_gtd.Prelude.{
  ℕ, Bool, true, false, ◌||◌, [], Option, none, some, ◌≡◌, refl, if◌then◌else◌, text_eq, nat_eq,
  ltb, Bool-cases, inl, inr,
}
use plain_text_gtd.Text.{Text}
use plain_text_gtd.Browser.{LiveBrowser, human, is_running, is_crashed}
use plain_text_gtd.Browser.Control.{
  broadcast_control, abandon_queues, preempt, queue_displaced, cancel_task, transition,
}
use plain_text_gtd.Browser.Acquire.{
  take_control, return_to_agents, on_disconnected, announce_crash, close, come_up, is_waiting,
}
use plain_text_gtd.Browser.Steps.{
  Step, acts, loses, reclaims, takes, returns, disconnects, announces, closes, rises, Reach, fresh,
  next,
}
use plain_text_gtd.Browser.Consistent.{IsConsistent}
use plain_text_gtd.Browser.Reached.{Reach-IsConsistent}
use plain_text_gtd.Browser.Answered.{is_set}
use plain_text_gtd.Browser.Heard.{HasGivenUp, Reach-IsHeard}
use plain_text_gtd.Browser.Settled.{
  IsSettled, transition-IsSettled, settle_queue-IsSettled, acquire_locked-IsSettled,
  AgentStep-IsSettled,
}

cancelled-IsSettled :
    (task : Option ℕ) (s : LiveBrowser) → IsSettled s → IsSettled (cancel_task task s)
unfolding cancel_task
cancelled-IsSettled none s h = h
cancelled-IsSettled (some task) s h = h

take_control-IsSettled : (s : LiveBrowser) → IsSettled s → IsSettled (take_control s).1
unfolding take_control preempt
take_control-IsSettled s h = elim (Bool-cases (is_running s)) [
  | inr e ↦ rw e h
  | inl e ↦ rw e (
      cancelled-IsSettled s.agent_task _
        (settle_queue-IsSettled true (queue_displaced s.controller s.owner_agent_id s)))
]

same-IsSettled :
    (b : Bool) (s t : LiveBrowser) → IsSettled s → IsSettled t → IsSettled (if b then s else t)
same-IsSettled true s t h k = h
same-IsSettled false s t h k = k

Step-IsSettled : {s t : LiveBrowser} → Step false s t → IsConsistent s → IsSettled s → IsSettled t
unfolding return_to_agents transition announce_crash abandon_queues close on_disconnected come_up
    broadcast_control
Step-IsSettled (acts step) k h = AgentStep-IsSettled step k h
Step-IsSettled (loses id name enqueue e) k h = cc
Step-IsSettled (reclaims id name wait enqueue) k h =
    acquire_locked-IsSettled id name true wait enqueue _ k h
Step-IsSettled takes k h = take_control-IsSettled _ h
Step-IsSettled returns k h = transition-IsSettled human none true false _ h
Step-IsSettled {s} disconnects k h = same-IsSettled (s.closed || is_crashed s) s _ h h
Step-IsSettled announces k h = λ c p. refl
Step-IsSettled closes k h = λ c p. refl
Step-IsSettled {s} rises k h = same-IsSettled (s.closed || is_crashed s) s _ h h

-- After any sequence of steps from a new browser in which no agent loses the browser between the two
-- sections of `run_action`, a browser that is free, held by a human who did not take it, has nobody in
-- either of its queues; and every request that was parked and did not give up has its answer.
pub free_with_nobody_waiting :
    (clock : ℕ → ℕ) (s : LiveBrowser) (reached : Reach false clock s)
    → s.controller ≡ human
    → s.human_pinned ≡ false
    → (s.wait_queue ≡ [])
      × (s.resume_queue ≡ [])
      × ((h : ℕ) → ltb h s.next_handle ≡ true → ¬ HasGivenUp h reached → is_set h s.outcomes ≡ true)
unfolding is_waiting
free_with_nobody_waiting clock s r c p =
    let unparked = (Reach-IsConsistent clock s r).unparked c in
    (
      unparked,
      settled clock s r c p,
      λ h l n. let heard = Reach-IsHeard h r n l in rw unparked at heard,
    )
  where
    settled : (clock : ℕ → ℕ) (s : LiveBrowser) → Reach false clock s → IsSettled s
    settled clock s fresh = λ c p. refl
    settled clock s (next r step) =
        Step-IsSettled step (Reach-IsConsistent clock _ r) (settled clock _ r)
