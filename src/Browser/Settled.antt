-- ===== src/Browser/Settled.antt =====
-- Who waits while a browser is free.
use plain_text_gtd.Prelude.{
  ℕ, ◌+◌, Bool, true, false, not, ◌&&◌, List, [], ◌∷◌, Option, none, some, ◌≡◌, refl, ◌==◌, text_eq,
  option_eq, nat_eq, arith, Bool-cases, inl, inr,
}
use plain_text_gtd.Text.{Text}
use plain_text_gtd.Browser.{
  LiveBrowser, ControlOwner, human, agent, Waiter, is_human, human_pin_active,
}
use plain_text_gtd.Browser.Control.{
  is_queued, enqueue_resume, enqueue_resume_front, dequeue_resume, write_control, touch_lease,
  broadcast_control, settle_queue, evict_waiters, hand_to_first, transition, state_is,
}
use plain_text_gtd.Browser.Acquire.{
  owns, enqueue_on, acquire_locked, give_up, release, handoff, release_idle, sweep_unclaimed_grant,
  begin_run, end_run, check_lease, is_waiting, is_granted, is_unclaimed,
}
use plain_text_gtd.Browser.Steps.{
  AgentStep, asks, gives_up, releases, hands_off, idles, revokes, begins, ends, touches,
}
use plain_text_gtd.Browser.Consistent.{IsConsistent}

-- Nobody waits to be resumed while the browser is free.
abbrev pub IsSettled : LiveBrowser → Type 0
IsSettled s = s.controller ≡ human → s.human_pinned ≡ false → s.resume_queue ≡ []

hand_to_first-IsSettled :
    (waiters : List Waiter) (resume : List (Text × Option Text)) (s : LiveBrowser)
    → s.resume_queue ≡ resume
    → IsSettled (hand_to_first waiters resume s)
unfolding hand_to_first dequeue_resume write_control touch_lease broadcast_control
hand_to_first-IsSettled (w ∷ waiters) resume s q c p = cc
hand_to_first-IsSettled [] (r ∷ resume) s q c p = cc
hand_to_first-IsSettled [] [] s q c p = q

pub settle_queue-IsSettled :
    (pinned : Bool) (s : LiveBrowser)
    → IsSettled (settle_queue (write_control human none none pinned s))
unfolding settle_queue evict_waiters write_control touch_lease broadcast_control
settle_queue-IsSettled true s c p = cc
settle_queue-IsSettled false s c p = hand_to_first-IsSettled s.wait_queue s.resume_queue _ refl c p

pub transition-IsSettled :
    (controller : ControlOwner) (owner : Option Text) (was pinned : Bool) (s : LiveBrowser)
    → IsSettled s
    → IsSettled (transition controller owner was pinned s).1
unfolding transition
transition-IsSettled controller owner was pinned s h =
    elim (Bool-cases (state_is controller owner was s)) [
      | inl e ↦ rw e (settle_queue-IsSettled pinned s)
      | inr e ↦ rw e h
    ]

enqueue_on_same :
    (enqueue : Bool) (id : Text) (name : Option Text) (s : LiveBrowser)
    → ((enqueue_on enqueue id name s).controller ≡ s.controller)
      × ((enqueue_on enqueue id name s).human_pinned ≡ s.human_pinned)
unfolding enqueue_on enqueue_resume broadcast_control
enqueue_on_same true id name s = elim (Bool-cases (is_queued id s.resume_queue)) [
  | inl e ↦ rw e (refl, refl)
  | inr e ↦ rw e (refl, refl)
]
enqueue_on_same false id name s = (refl, refl)

-- Where the browser is not free, it stays so, and nothing is claimed of its queue.
enqueue_on-IsSettled :
    (enqueue : Bool) (id : Text) (name : Option Text) (s : LiveBrowser)
    → (is_human s.controller && not s.human_pinned) ≡ false
    → IsSettled (enqueue_on enqueue id name s)
enqueue_on-IsSettled enqueue id name s busy c p =
    let same = enqueue_on_same enqueue id name s in ground arith

agent-IsSettled :
    (id : Text) (name : Option Text) (s : LiveBrowser)
    → IsSettled (write_control agent (some id) name false (dequeue_resume id s))
unfolding write_control touch_lease broadcast_control
agent-IsSettled id name s c p = cc

pub acquire_locked-IsSettled :
    (id : Text) (name : Option Text) (reclaim wait enqueue : Bool) (s : LiveBrowser)
    → IsConsistent s
    → IsSettled s
    → IsSettled (acquire_locked id name reclaim wait enqueue s).1
unfolding acquire_locked owns dequeue_resume
acquire_locked-IsSettled id name reclaim wait enqueue s k h = elim (Bool-cases (owns id s)) [
  | inl o ↦ rw o (λ c p. ground arith)
  | inr o ↦ rw o (elim (Bool-cases (not reclaim && human_pin_active s)) [
    | inl p ↦ rw p (enqueue_on-IsSettled enqueue id name s (ground arith))
    | inr p ↦ rw p (elim (Bool-cases (is_human s.controller)) [
      | inl c ↦ rw c (agent-IsSettled id name s)
      | inr c ↦ rw c (elim (Bool-cases wait) [
        | inr w ↦ rw w (enqueue_on-IsSettled enqueue id name s (ground arith))
        | inl w ↦ rw w h
      ])
    ])
  ])
]

give_up-IsSettled :
    (handle : ℕ) (id : Text) (s : LiveBrowser) → IsSettled s → IsSettled (give_up handle id s)
unfolding give_up
give_up-IsSettled handle id s h = elim (Bool-cases (is_waiting handle s.wait_queue)) [
  | inl e ↦ rw e h
  | inr e ↦ rw e (elim (Bool-cases (is_granted handle s && owns id s)) [
    | inl g ↦ rw g (settle_queue-IsSettled false s)
    | inr g ↦ rw g h
  ])
]

handoff-IsSettled :
    (id : Text) (name : Option Text) (reason : Text) (s : LiveBrowser)
    → IsSettled s
    → IsSettled (handoff id name reason s).1
unfolding handoff
handoff-IsSettled id name reason s h = elim (Bool-cases (owns id s)) [
  | inr e ↦ rw e h
  | inl e ↦ rw e (settle_queue-IsSettled true (enqueue_resume_front id name s))
]

revoked-IsSettled : (s : LiveBrowser) → IsSettled s → IsSettled (sweep_unclaimed_grant s).1
unfolding sweep_unclaimed_grant
revoked-IsSettled s h = elim (Bool-cases (is_unclaimed s)) [
  | inl e ↦ rw e (settle_queue-IsSettled false (record s { granted_at = 0; ticks = s.ticks + 1 }))
  | inr e ↦ rw e h
]

begin_run-IsSettled :
    (id : Text) (task : ℕ) (s : LiveBrowser) → IsSettled s → IsSettled (begin_run id task s).1
unfolding begin_run
begin_run-IsSettled id task s h = elim (Bool-cases (state_is agent (some id) false s)) [
  | inl e ↦ rw e h
  | inr e ↦ rw e h
]

end_run-IsSettled : (task : ℕ) (s : LiveBrowser) → IsSettled s → IsSettled (end_run task s)
unfolding end_run nat_eq
end_run-IsSettled task s h = elim (Bool-cases (s.agent_task == some task)) [
  | inl e ↦ rw e h
  | inr e ↦ rw e h
]

pub AgentStep-IsSettled :
    {s t : LiveBrowser} → AgentStep s t → IsConsistent s → IsSettled s → IsSettled t
unfolding release transition release_idle check_lease
AgentStep-IsSettled (asks id name wait enqueue) k h =
    acquire_locked-IsSettled id name false wait enqueue _ k h
AgentStep-IsSettled (gives_up handle id) k h = give_up-IsSettled handle id _ h
AgentStep-IsSettled (releases id) k h = transition-IsSettled agent (some id) false false _ h
AgentStep-IsSettled (hands_off id name reason) k h = handoff-IsSettled id name reason _ h
AgentStep-IsSettled (idles owner) k h = transition-IsSettled agent owner false false _ h
AgentStep-IsSettled revokes k h = revoked-IsSettled _ h
AgentStep-IsSettled (begins id task) k h = begin_run-IsSettled id task _ h
AgentStep-IsSettled (ends task) k h = end_run-IsSettled task _ h
AgentStep-IsSettled (touches id name enqueue e) k h = rw e h
