-- ===== src/Browser/Kept.antt =====
-- Every step of agents and sweeps keeps the control of a browser consistent.
use plain_text_gtd.Prelude.{
  ℕ, ◌+◌, Bool, true, false, not, ◌&&◌, List, [], ◌∷◌, Option, none, some, ◌≡◌, ◌≢◌, refl, ◌==◌,
  text_eq, option_eq, nat_eq, arith, Bool-cases, inl, inr, ◌∙◌, ap,
}
use plain_text_gtd.Text.{Text}
use plain_text_gtd.Browser.{
  LiveBrowser, ControlOwner, human, agent, Waiter, is_human, human_pin_active,
}
use plain_text_gtd.Browser.Control.{
  is_queued, enqueue_resume, enqueue_resume_front, dequeue_resume, write_control, touch_lease,
  broadcast_control, settle_queue, evict_waiters, hand_to_first, transition, state_is,
}
use plain_text_gtd.Browser.Acquire.{
  owns, enqueue_on, acquire_locked, give_up, release, handoff, release_idle, sweep_unclaimed_grant,
  begin_run, end_run, check_lease, is_waiting, without, is_granted, is_unclaimed,
}
use plain_text_gtd.Browser.Steps.{
  AgentStep, asks, gives_up, releases, hands_off, idles, revokes, begins, ends, touches,
}
use plain_text_gtd.Browser.Consistent.{
  AreDistinct, IsConsistent, is_queued-others, is_queued-others_keeps, others-distinct,
  is_queued-append, append-distinct, write_agent-IsConsistent,
}

-- A browser that nobody holds, given to the first of the two queues.
hand_to_first-IsConsistent :
    (waiters : List Waiter) (resume : List (Text × Option Text)) (s : LiveBrowser)
    → s.wait_queue ≡ waiters
    → s.resume_queue ≡ resume
    → s.controller ≡ human
    → s.owner_agent_id ≡ none
    → s.input_enabled ≡ true
    → AreDistinct s.resume_queue
    → IsConsistent (hand_to_first waiters resume s)
unfolding hand_to_first dequeue_resume write_control touch_lease broadcast_control
hand_to_first-IsConsistent (w ∷ waiters) resume s e q c o i d =
    ground
      (arith, is_queued-others w.agent_id s.resume_queue, others-distinct w.agent_id s.resume_queue)
hand_to_first-IsConsistent [] (r ∷ resume) s e q c o i d = ground arith
hand_to_first-IsConsistent [] [] s e q c o i d = ground arith

-- Control goes to a human, and the queues are settled.
pub settled-IsConsistent :
    (pinned : Bool) (s : LiveBrowser)
    → AreDistinct s.resume_queue
    → IsConsistent (settle_queue (write_control human none none pinned s))
unfolding settle_queue evict_waiters write_control touch_lease broadcast_control
settled-IsConsistent true s d = ground arith
settled-IsConsistent false s d =
    hand_to_first-IsConsistent s.wait_queue s.resume_queue _ refl refl refl refl refl d

-- What holds is about seven fields alone.
pub alike :
    {s t : LiveBrowser}
    → IsConsistent s
    → t.controller ≡ s.controller
    → t.owner_agent_id ≡ s.owner_agent_id
    → t.human_pinned ≡ s.human_pinned
    → t.input_enabled ≡ s.input_enabled
    → t.wait_queue ≡ s.wait_queue
    → t.resume_queue ≡ s.resume_queue
    → IsConsistent t
alike h c o p i w q = record {
  unpinned = rw (c, p) h.unpinned;
  named = rw (c, o) h.named;
  unqueued = rw (o, q) h.unqueued;
  unowned = rw (c, o) h.unowned;
  unparked = rw (c, w) h.unparked;
  gate = rw (c, i) h.gate;
  distinct = rw q h.distinct;
}

enqueue_resume-IsConsistent :
    (id : Text) (name : Option Text) (s : LiveBrowser)
    → IsConsistent s
    → s.owner_agent_id ≢ some id
    → IsConsistent (enqueue_resume id name s)
unfolding enqueue_resume
enqueue_resume-IsConsistent id name s h n = elim (Bool-cases (is_queued id s.resume_queue)) [
  | inl e ↦ rw e h
  | inr e ↦ rw e (record {
    unpinned = h.unpinned;
    named = h.named;
    unqueued = λ a q. ground (arith, is_queued-append a s.resume_queue (id, name), h.unqueued a);
    unowned = h.unowned;
    unparked = h.unparked;
    gate = h.gate;
    distinct = append-distinct s.resume_queue (id, name) e h.distinct;
  })
]

enqueue_on-IsConsistent :
    (enqueue : Bool) (id : Text) (name : Option Text) (s : LiveBrowser)
    → IsConsistent s
    → s.owner_agent_id ≢ some id
    → IsConsistent (enqueue_on enqueue id name s)
unfolding enqueue_on broadcast_control
enqueue_on-IsConsistent true id name s h n =
    let k = enqueue_resume-IsConsistent id name s h n in alike k refl refl refl refl refl refl
enqueue_on-IsConsistent false id name s h n = h

-- The two queues of a browser that the agent already holds.
reacquire-IsConsistent :
    (id : Text) (name : Option Text) (s : LiveBrowser)
    → IsConsistent s
    → IsConsistent (dequeue_resume id (record s { owner_agent_name = name }))
unfolding dequeue_resume
reacquire-IsConsistent id name s h = record {
  unpinned = h.unpinned;
  named = h.named;
  unqueued = λ a q. is_queued-others_keeps a id s.resume_queue (h.unqueued a q);
  unowned = h.unowned;
  unparked = h.unparked;
  gate = h.gate;
  distinct = others-distinct id s.resume_queue h.distinct;
}

take-IsConsistent :
    (id : Text) (name : Option Text) (s : LiveBrowser)
    → IsConsistent s
    → IsConsistent (write_control agent (some id) name false (dequeue_resume id s))
unfolding dequeue_resume
take-IsConsistent id name s h =
    write_agent-IsConsistent id name _ (is_queued-others id s.resume_queue)
      (others-distinct id s.resume_queue h.distinct)

other_owner :
    (id : Text) (s : LiveBrowser) → IsConsistent s → owns id s ≡ false → s.owner_agent_id ≢ some id
unfolding owns
other_owner id s h e o = ground arith

pub acquire_locked-IsConsistent :
    (id : Text) (name : Option Text) (reclaim wait enqueue : Bool) (s : LiveBrowser)
    → IsConsistent s
    → IsConsistent (acquire_locked id name reclaim wait enqueue s).1
unfolding acquire_locked
acquire_locked-IsConsistent id name reclaim wait enqueue s h = elim (Bool-cases (owns id s)) [
  | inl o ↦ rw o (reacquire-IsConsistent id name s h)
  | inr o ↦ rw o (
      let queued = enqueue_on-IsConsistent enqueue id name s h (other_owner id s h o) in
      elim (Bool-cases (not reclaim && human_pin_active s)) [
        | inl p ↦ rw p queued
        | inr p ↦ rw p (elim (Bool-cases (is_human s.controller)) [
          | inl c ↦ rw c (take-IsConsistent id name s h)
          | inr c ↦ rw c (elim (Bool-cases wait) [
            | inr w ↦ rw w queued
            | inl w ↦ rw w (record {
              unpinned = h.unpinned;
              named = h.named;
              unqueued = h.unqueued;
              unowned = h.unowned;
              unparked = λ e. ground arith;
              gate = h.gate;
              distinct = h.distinct;
            })
          ])
        ])
      ])
]

pub transition-IsConsistent :
    (controller : ControlOwner) (owner : Option Text) (was pinned : Bool) (s : LiveBrowser)
    → IsConsistent s
    → IsConsistent (transition controller owner was pinned s).1
unfolding transition
transition-IsConsistent controller owner was pinned s h =
    elim (Bool-cases (state_is controller owner was s)) [
      | inl e ↦ rw e (settled-IsConsistent pinned s h.distinct)
      | inr e ↦ rw e h
    ]

without_nil : (handle : ℕ) → without handle [] ≡ []
unfolding without
without_nil handle = refl

give_up-IsConsistent :
    (handle : ℕ) (id : Text) (s : LiveBrowser) → IsConsistent s → IsConsistent (give_up handle id s)
unfolding give_up
give_up-IsConsistent handle id s h = elim (Bool-cases (is_waiting handle s.wait_queue)) [
  | inl e ↦ rw e (record {
    unpinned = h.unpinned;
    named = h.named;
    unqueued = h.unqueued;
    unowned = h.unowned;
    unparked = λ c. ap (without handle) (h.unparked c) ∙ without_nil handle;
    gate = h.gate;
    distinct = h.distinct;
  })
  | inr e ↦ rw e (elim (Bool-cases (is_granted handle s && owns id s)) [
    | inl g ↦ rw g (settled-IsConsistent false s h.distinct)
    | inr g ↦ rw g h
  ])
]

pub front-distinct :
    (id : Text) (name : Option Text) (s : LiveBrowser)
    → AreDistinct s.resume_queue
    → AreDistinct (enqueue_resume_front id name s).resume_queue
unfolding enqueue_resume_front
front-distinct id name s d =
    (is_queued-others id s.resume_queue, others-distinct id s.resume_queue d)

handoff-IsConsistent :
    (id : Text) (name : Option Text) (reason : Text) (s : LiveBrowser)
    → IsConsistent s
    → IsConsistent (handoff id name reason s).1
unfolding handoff
handoff-IsConsistent id name reason s h = elim (Bool-cases (owns id s)) [
  | inr e ↦ rw e h
  | inl e ↦ rw e (
      let k =
        settled-IsConsistent true (enqueue_resume_front id name s)
          (front-distinct id name s h.distinct) in
      alike k refl refl refl refl refl refl)
]

sweep_unclaimed_grant-IsConsistent :
    (s : LiveBrowser) → IsConsistent s → IsConsistent (sweep_unclaimed_grant s).1
unfolding sweep_unclaimed_grant
sweep_unclaimed_grant-IsConsistent s h = elim (Bool-cases (is_unclaimed s)) [
  | inl e ↦
      rw e
        (settled-IsConsistent false (record s { granted_at = 0; ticks = s.ticks + 1 }) h.distinct)
  | inr e ↦ rw e h
]

begin_run-IsConsistent :
    (id : Text) (task : ℕ) (s : LiveBrowser) → IsConsistent s → IsConsistent (begin_run id task s).1
unfolding begin_run
begin_run-IsConsistent id task s h = elim (Bool-cases (state_is agent (some id) false s)) [
  | inl e ↦ rw e (alike h refl refl refl refl refl refl)
  | inr e ↦ rw e h
]

end_run-IsConsistent : (task : ℕ) (s : LiveBrowser) → IsConsistent s → IsConsistent (end_run task s)
unfolding end_run nat_eq
end_run-IsConsistent task s h = elim (Bool-cases (s.agent_task == some task)) [
  | inl e ↦ rw e (alike h refl refl refl refl refl refl)
  | inr e ↦ rw e h
]

not_holder :
    (id : Text) (s : LiveBrowser)
    → IsConsistent s
    → state_is agent (some id) false s ≡ false
    → s.owner_agent_id ≢ some id
unfolding state_is
not_holder id s h e o = ground arith

pub check_lease-IsConsistent :
    (id : Text) (name : Option Text) (enqueue : Bool) (s : LiveBrowser)
    → IsConsistent s
    → IsConsistent (check_lease id name enqueue s).1
unfolding check_lease
check_lease-IsConsistent id name enqueue s h =
    elim (Bool-cases (state_is agent (some id) false s)) [
      | inl e ↦ rw e (alike h refl refl refl refl refl refl)
      | inr e ↦ rw e (enqueue_on-IsConsistent enqueue id name s h (not_holder id s h e))
    ]

pub AgentStep-IsConsistent : {s t : LiveBrowser} → AgentStep s t → IsConsistent s → IsConsistent t
unfolding release transition release_idle
AgentStep-IsConsistent (asks id name wait enqueue) h =
    acquire_locked-IsConsistent id name false wait enqueue _ h
AgentStep-IsConsistent (gives_up handle id) h = give_up-IsConsistent handle id _ h
AgentStep-IsConsistent (releases id) h = transition-IsConsistent agent (some id) false false _ h
AgentStep-IsConsistent (hands_off id name reason) h = handoff-IsConsistent id name reason _ h
AgentStep-IsConsistent (idles owner) h = transition-IsConsistent agent owner false false _ h
AgentStep-IsConsistent revokes h = sweep_unclaimed_grant-IsConsistent _ h
AgentStep-IsConsistent (begins id task) h = begin_run-IsConsistent id task _ h
AgentStep-IsConsistent (ends task) h = end_run-IsConsistent task _ h
AgentStep-IsConsistent (touches id name enqueue e) h = check_lease-IsConsistent id name enqueue _ h
