-- ===== src/Browser/Resumed.antt =====
-- An agent leaves the queue of those to be resumed only for a reason.
use plain_text_gtd.Prelude.{
  ℕ, ◌+◌, Bool, true, false, not, ◌&&◌, ◌||◌, List, [], ◌∷◌, Option, none, some, ◌≡◌, refl, ◌==◌,
  text_eq, option_eq, nat_eq, if◌then◌else◌, arith, Bool-cases, inl, inr,
}
use plain_text_gtd.Text.{Text}
use plain_text_gtd.Browser.{
  LiveBrowser, ControlOwner, human, agent, Waiter, Reason, Notice, control_sent, handoff_sent,
  crash_sent, woken, told_gone, is_human, human_pin_active, is_running,
}
use plain_text_gtd.Browser.Control.{
  is_queued, others, enqueue_resume, enqueue_resume_front, dequeue_resume, write_control,
  touch_lease, evict_waiters, broadcast_control, settle_queue, hand_to_first, transition, state_is,
  preempt, queue_displaced, cancel_task, abandon_queues, told,
}
use plain_text_gtd.Browser.Acquire.{
  owns, enqueue_on, acquire_locked, give_up, handoff, sweep_unclaimed_grant, begin_run, check_lease,
  is_waiting, is_granted, is_unclaimed, take_control,
}
use plain_text_gtd.Browser.Consistent.{is_queued-append}

-- Some message tells the agent that the browser is gone.
abbrev pub is_told : Text → List Notice → Bool
is_told id [] = false
is_told id (told_gone a name reason ∷ sent) = ◌==◌ ⦃e = text_eq⦄ a id || is_told id sent
is_told id (control_sent m ∷ sent) = is_told id sent
is_told id (handoff_sent name reason ∷ sent) = is_told id sent
is_told id (crash_sent ∷ sent) = is_told id sent
is_told id (woken a name ∷ sent) = is_told id sent

abbrev is_owner : Text → Option Text → Bool
is_owner id none = false
is_owner id (some a) = ◌==◌ ⦃e = text_eq⦄ a id

-- The agent is in the queue, or is the owner, or was told that the browser is gone.
abbrev pub IsMinded : Text → LiveBrowser → Type 0
IsMinded id t =
    (is_queued id t.resume_queue || (is_owner id t.owner_agent_id || is_told id t.sent)) ≡ true

queued-IsMinded : (id : Text) (t : LiveBrowser) → is_queued id t.resume_queue ≡ true → IsMinded id t
queued-IsMinded id t q = rw q refl

told-told :
    (id : Text) (reason : Reason) (queue : List (Text × Option Text)) (sent : List Notice)
    → is_told id (told reason queue sent) ≡ (is_queued id queue || is_told id sent)
unfolding told is_queued
told-told id reason [] sent = refl
told-told id reason (e ∷ queue) sent =
    ground (arith, told-told id reason queue (told_gone e.0 e.1 reason ∷ sent))

queued-others :
    (id a : Text) (queue : List (Text × Option Text))
    → is_queued id (others a queue) ≡ (is_queued id queue && not (◌==◌ ⦃e = text_eq⦄ a id))
unfolding is_queued others text_eq
queued-others id a [] = refl
queued-others id a (e ∷ queue) = ground (arith, queued-others id a queue)

dequeued-IsMinded :
    (id a : Text) (queue : List (Text × Option Text)) (rest : Bool)
    → is_queued id queue ≡ true
    → (is_queued id (others a queue) || (◌==◌ ⦃e = text_eq⦄ a id || rest)) ≡ true
dequeued-IsMinded id a queue rest q =
    rw (queued-others id a queue, q) (split (◌==◌ ⦃e = text_eq⦄ a id))
  where
    split : (b : Bool) → (not b || (b || rest)) ≡ true
    split b = ground arith

hand_to_first-IsMinded :
    (id : Text) (waiters : List Waiter) (resume : List (Text × Option Text)) (s : LiveBrowser)
    → s.resume_queue ≡ resume
    → is_queued id resume ≡ true
    → IsMinded id (hand_to_first waiters resume s)
unfolding hand_to_first dequeue_resume write_control touch_lease broadcast_control is_queued text_eq
hand_to_first-IsMinded id (w ∷ waiters) resume s e q =
    rw e (dequeued-IsMinded id w.agent_id resume _ q)
hand_to_first-IsMinded id [] (r ∷ resume) s e q = ground arith
hand_to_first-IsMinded id [] [] s e q = ground arith

settled-IsMinded :
    (id : Text) (pinned : Bool) (s : LiveBrowser)
    → is_queued id s.resume_queue ≡ true
    → IsMinded id (settle_queue (write_control human none none pinned s))
unfolding settle_queue write_control touch_lease broadcast_control evict_waiters
settled-IsMinded id true s q = rw q refl
settled-IsMinded id false s q =
    hand_to_first-IsMinded id s.wait_queue s.resume_queue (write_control human none none false s)
      refl q

enqueued-queued :
    (id : Text) (enqueue : Bool) (a : Text) (name : Option Text) (s : LiveBrowser)
    → is_queued id s.resume_queue ≡ true
    → is_queued id (enqueue_on enqueue a name s).resume_queue ≡ true
unfolding enqueue_on enqueue_resume broadcast_control
enqueued-queued id true a name s q = elim (Bool-cases (is_queued a s.resume_queue)) [
  | inl e ↦ rw e q
  | inr e ↦ rw (e, is_queued-append id s.resume_queue (a, name), q) refl
]
enqueued-queued id false a name s q = q

owner_of : (a : Text) (s : LiveBrowser) → owns a s ≡ true → s.owner_agent_id ≡ some a
unfolding owns
owner_of a s o = ground arith

pub acquire_locked-IsMinded :
    (id a : Text) (name : Option Text) (reclaim wait enqueue : Bool) (s : LiveBrowser)
    → is_queued id s.resume_queue ≡ true
    → IsMinded id (acquire_locked a name reclaim wait enqueue s).1
unfolding acquire_locked dequeue_resume write_control touch_lease broadcast_control
acquire_locked-IsMinded id a name reclaim wait enqueue s q =
    let enqueued =
      queued-IsMinded id (enqueue_on enqueue a name s) (enqueued-queued id enqueue a name s q) in
    elim (Bool-cases (owns a s)) [
      | inl o ↦ rw (o, owner_of a s o) (dequeued-IsMinded id a s.resume_queue _ q)
      | inr o ↦ rw o (elim (Bool-cases (not reclaim && human_pin_active s)) [
        | inl p ↦ rw p enqueued
        | inr p ↦ rw p (elim (Bool-cases (is_human s.controller)) [
          | inl c ↦ rw c (dequeued-IsMinded id a s.resume_queue _ q)
          | inr c ↦
              rw c (elim (Bool-cases wait) [ inr w ↦ rw w enqueued | inl w ↦ rw w (rw q refl) ])
        ])
      ])
    ]

pub give_up-IsMinded :
    (id : Text) (handle : ℕ) (a : Text) (s : LiveBrowser)
    → is_queued id s.resume_queue ≡ true
    → IsMinded id (give_up handle a s)
unfolding give_up
give_up-IsMinded id handle a s q = elim (Bool-cases (is_waiting handle s.wait_queue)) [
  | inl e ↦ rw e (rw q refl)
  | inr e ↦ rw e (elim (Bool-cases (is_granted handle s && owns a s)) [
    | inl g ↦ rw g (settled-IsMinded id false s q)
    | inr g ↦ rw g (rw q refl)
  ])
]

pub transition-IsMinded :
    (id : Text) (controller : ControlOwner) (owner : Option Text) (was pinned : Bool)
    (s : LiveBrowser)
    → is_queued id s.resume_queue ≡ true
    → IsMinded id (transition controller owner was pinned s).1
unfolding transition
transition-IsMinded id controller owner was pinned s q =
    elim (Bool-cases (state_is controller owner was s)) [
      | inl e ↦ rw e (settled-IsMinded id pinned s q)
      | inr e ↦ rw e (rw q refl)
    ]

front-queued :
    (id a : Text) (name : Option Text) (s : LiveBrowser)
    → is_queued id s.resume_queue ≡ true
    → is_queued id (enqueue_resume_front a name s).resume_queue ≡ true
unfolding enqueue_resume_front is_queued
front-queued id a name s q = rw (queued-others id a s.resume_queue, q) (ground arith)

pub handoff-IsMinded :
    (id a : Text) (name : Option Text) (reason : Text) (s : LiveBrowser)
    → is_queued id s.resume_queue ≡ true
    → IsMinded id (handoff a name reason s).1
unfolding handoff
handoff-IsMinded id a name reason s q = elim (Bool-cases (owns a s)) [
  | inr e ↦ rw e (rw q refl)
  | inl e ↦
      rw e (settled-IsMinded id true (enqueue_resume_front a name s) (front-queued id a name s q))
]

pub sweep-IsMinded :
    (id : Text) (s : LiveBrowser)
    → is_queued id s.resume_queue ≡ true
    → IsMinded id (sweep_unclaimed_grant s).1
unfolding sweep_unclaimed_grant
sweep-IsMinded id s q = elim (Bool-cases (is_unclaimed s)) [
  | inl e ↦ rw e (settled-IsMinded id false (record s { granted_at = 0; ticks = s.ticks + 1 }) q)
  | inr e ↦ rw e (rw q refl)
]

pub chosen-IsMinded :
    (id : Text) (b : Bool) (s t : LiveBrowser)
    → is_queued id s.resume_queue ≡ true
    → is_queued id t.resume_queue ≡ true
    → IsMinded id (if b then s else t)
chosen-IsMinded id true s t p q = rw p refl
chosen-IsMinded id false s t p q = rw q refl

pub begin_run-IsMinded :
    (id a : Text) (task : ℕ) (s : LiveBrowser)
    → is_queued id s.resume_queue ≡ true
    → IsMinded id (begin_run a task s).1
unfolding begin_run
begin_run-IsMinded id a task s q = elim (Bool-cases (state_is agent (some a) false s)) [
  | inl e ↦ rw e (rw q refl)
  | inr e ↦ rw e (rw q refl)
]

pub check_lease-IsMinded :
    (id a : Text) (name : Option Text) (enqueue : Bool) (s : LiveBrowser)
    → is_queued id s.resume_queue ≡ true
    → IsMinded id (check_lease a name enqueue s).1
unfolding check_lease
check_lease-IsMinded id a name enqueue s q = elim (Bool-cases (state_is agent (some a) false s)) [
  | inl e ↦ rw e (rw q refl)
  | inr e ↦
      rw e
        (queued-IsMinded id (enqueue_on enqueue a name s) (enqueued-queued id enqueue a name s q))
]

displaced-queued :
    (id : Text) (controller : ControlOwner) (owner : Option Text) (s : LiveBrowser)
    → is_queued id s.resume_queue ≡ true
    → is_queued id (queue_displaced controller owner s).resume_queue ≡ true
unfolding queue_displaced
displaced-queued id agent (some owner) s q = front-queued id owner s.owner_agent_name s q
displaced-queued id agent none s q = q
displaced-queued id human owner s q = q

cancelled-IsMinded :
    (id : Text) (task : Option ℕ) (s : LiveBrowser)
    → IsMinded id s
    → IsMinded id (cancel_task task s)
unfolding cancel_task
cancelled-IsMinded id none s k = k
cancelled-IsMinded id (some task) s k = k

pub take_control-IsMinded :
    (id : Text) (s : LiveBrowser)
    → is_queued id s.resume_queue ≡ true
    → IsMinded id (take_control s).1
unfolding take_control preempt
take_control-IsMinded id s q = elim (Bool-cases (is_running s)) [
  | inr e ↦ rw e (rw q refl)
  | inl e ↦ rw e (
      cancelled-IsMinded id s.agent_task _ (
        settled-IsMinded id true (queue_displaced s.controller s.owner_agent_id s)
          (displaced-queued id s.controller s.owner_agent_id s q)))
]

pub abandoned-IsMinded :
    (id : Text) (reason : Reason) (s : LiveBrowser)
    → is_queued id s.resume_queue ≡ true
    → IsMinded id (abandon_queues reason s)
unfolding abandon_queues evict_waiters is_queued
abandoned-IsMinded id reason s q =
    rw (told-told id reason s.resume_queue s.sent, q) (either (is_owner id s.owner_agent_id))
  where
    either : (b : Bool) → (b || true) ≡ true
    either b = ground arith
