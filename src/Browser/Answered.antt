-- ===== src/Browser/Answered.antt =====
-- A request that is parked is answered, unless it gives up: nobody is dropped from the wait queue.
use plain_text_gtd.Prelude.{
  ℕ, ◌+◌, Bool, true, false, not, ◌&&◌, ◌||◌, List, [], ◌∷◌, ◌++◌, Option, none, some, Assoc, ◌≡◌,
  refl, ◌==◌, nat_eq, ltb, if◌then◌else◌, arith, Bool-cases, inl, inr,
}
use plain_text_gtd.Text.{Text}
use plain_text_gtd.Browser.{
  LiveBrowser, ControlOwner, human, agent, Waiter, Reason, is_human, human_pin_active, is_running,
}
use plain_text_gtd.Browser.Control.{
  is_queued, enqueue_resume, enqueue_resume_front, dequeue_resume, write_control, touch_lease,
  evicted, broadcast_control, settle_queue, evict_waiters, hand_to_first, transition, state_is,
  preempt, queue_displaced, cancel_task, abandon_queues,
}
use plain_text_gtd.Browser.Acquire.{
  owns, enqueue_on, acquire_locked, give_up, handoff, sweep_unclaimed_grant, begin_run, end_run,
  check_lease, is_waiting, without, is_granted, is_unclaimed, take_control,
}

-- The event of the waiter is set.
abbrev pub is_set : ℕ → Assoc ℕ Bool → Bool
is_set h [] = false
is_set h (e ∷ outcomes) = ◌==◌ ⦃e = nat_eq⦄ e.0 h || is_set h outcomes

-- The waiter, where there was one, waits or has its answer.
abbrev pub IsHeard : ℕ → LiveBrowser → Type 0
IsHeard h s = ltb h s.next_handle ≡ true → (is_waiting h s.wait_queue || is_set h s.outcomes) ≡ true

same-IsHeard :
    (h : ℕ) (s t : LiveBrowser)
    → t.next_handle ≡ s.next_handle
    → t.wait_queue ≡ s.wait_queue
    → t.outcomes ≡ s.outcomes
    → IsHeard h s
    → IsHeard h t
same-IsHeard h s t n w o k = rw (n, w, o) k

is_set-evicted :
    (h : ℕ) (waiters : List Waiter) (outcomes : Assoc ℕ Bool)
    → is_set h (evicted waiters outcomes) ≡ (is_waiting h waiters || is_set h outcomes)
unfolding evicted is_waiting nat_eq
is_set-evicted h [] outcomes = refl
is_set-evicted h (w ∷ waiters) outcomes =
    ground (arith, is_set-evicted h waiters ((w.handle, false) ∷ outcomes))

evict_waiters-IsHeard : (h : ℕ) (s : LiveBrowser) → IsHeard h s → IsHeard h (evict_waiters s)
unfolding evict_waiters is_waiting
evict_waiters-IsHeard h s k l = rw (is_set-evicted h s.wait_queue s.outcomes) (k l)

hand_to_first-IsHeard :
    (h : ℕ) (waiters : List Waiter) (resume : List (Text × Option Text)) (s : LiveBrowser)
    → s.wait_queue ≡ waiters
    → IsHeard h s
    → IsHeard h (hand_to_first waiters resume s)
unfolding hand_to_first dequeue_resume write_control touch_lease broadcast_control is_waiting nat_eq
hand_to_first-IsHeard h (w ∷ waiters) resume s q k l = let m = rw q at k l in ground arith
hand_to_first-IsHeard h [] (e ∷ resume) s q k l = k l
hand_to_first-IsHeard h [] [] s q k l = k l

settled-IsHeard :
    (h : ℕ) (pinned : Bool) (s : LiveBrowser)
    → IsHeard h s
    → IsHeard h (settle_queue (write_control human none none pinned s))
unfolding settle_queue write_control touch_lease broadcast_control
settled-IsHeard h true s k = evict_waiters-IsHeard h (write_control human none none true s) k
settled-IsHeard h false s k =
    hand_to_first-IsHeard h s.wait_queue s.resume_queue (write_control human none none false s) refl
      k

enqueue_on-IsHeard :
    (h : ℕ) (enqueue : Bool) (id : Text) (name : Option Text) (s : LiveBrowser)
    → IsHeard h s
    → IsHeard h (enqueue_on enqueue id name s)
unfolding enqueue_on enqueue_resume broadcast_control
enqueue_on-IsHeard h true id name s k = elim (Bool-cases (is_queued id s.resume_queue)) [
  | inl e ↦ rw e k
  | inr e ↦ rw e k
]
enqueue_on-IsHeard h false id name s k = k

is_waiting-append :
    (h : ℕ) (waiters : List Waiter) (w : Waiter)
    → is_waiting h (waiters ++ (w ∷ [])) ≡ (is_waiting h waiters || ◌==◌ ⦃e = nat_eq⦄ w.handle h)
unfolding is_waiting nat_eq
is_waiting-append h [] w = ground arith
is_waiting-append h (x ∷ waiters) w = ground (arith, is_waiting-append h waiters w)

early : (a b c : Bool) → (a || c) ≡ true → ((a || b) || c) ≡ true
early a b c e = ground arith

pub late : (a b c : Bool) → b ≡ true → ((a || b) || c) ≡ true
late a b c e = ground arith

parked-IsHeard :
    (h : ℕ) (id : Text) (name : Option Text) (s : LiveBrowser)
    → IsHeard h s
    → IsHeard h (record s {
      wait_queue =
          s.wait_queue
          ++ (record { handle = s.next_handle; agent_id = id; agent_name = name } ∷ []);
      next_handle = s.next_handle + 1;
    })
parked-IsHeard h id name s k l =
    let w : Waiter = record { handle = s.next_handle; agent_id = id; agent_name = name } in
    rw (is_waiting-append h s.wait_queue w) (elim (Bool-cases (ltb h s.next_handle)) [
      | inl m ↦
          early (is_waiting h s.wait_queue) (◌==◌ ⦃e = nat_eq⦄ s.next_handle h)
            (is_set h s.outcomes) (k m)
      | inr m ↦
          late (is_waiting h s.wait_queue) (◌==◌ ⦃e = nat_eq⦄ s.next_handle h) (is_set h s.outcomes)
            (ground arith)
    ])

pub acquire_locked-IsHeard :
    (h : ℕ) (id : Text) (name : Option Text) (reclaim wait enqueue : Bool) (s : LiveBrowser)
    → IsHeard h s
    → IsHeard h (acquire_locked id name reclaim wait enqueue s).1
unfolding acquire_locked dequeue_resume write_control touch_lease broadcast_control
acquire_locked-IsHeard h id name reclaim wait enqueue s k = elim (Bool-cases (owns id s)) [
  | inl o ↦ rw o k
  | inr o ↦ rw o (elim (Bool-cases (not reclaim && human_pin_active s)) [
    | inl p ↦ rw p (enqueue_on-IsHeard h enqueue id name s k)
    | inr p ↦ rw p (elim (Bool-cases (is_human s.controller)) [
      | inl c ↦ rw c k
      | inr c ↦ rw c (elim (Bool-cases wait) [
        | inr w ↦ rw w (enqueue_on-IsHeard h enqueue id name s k)
        | inl w ↦ rw w (parked-IsHeard h id name s k)
      ])
    ])
  ])
]

is_waiting-without :
    (h handle : ℕ) (waiters : List Waiter)
    → ◌==◌ ⦃e = nat_eq⦄ handle h ≡ false
    → is_waiting h (without handle waiters) ≡ is_waiting h waiters
unfolding is_waiting without nat_eq
is_waiting-without h handle [] n = refl
is_waiting-without h handle (w ∷ waiters) n =
    elim (Bool-cases (◌==◌ ⦃e = nat_eq⦄ w.handle handle)) [
      | inl e ↦ rw e (ground arith)
      | inr e ↦ rw (e, is_waiting-without h handle waiters n) refl
    ]

pub give_up-IsHeard :
    (h handle : ℕ) (id : Text) (s : LiveBrowser)
    → ◌==◌ ⦃e = nat_eq⦄ handle h ≡ false
    → IsHeard h s
    → IsHeard h (give_up handle id s)
unfolding give_up
give_up-IsHeard h handle id s n k = elim (Bool-cases (is_waiting handle s.wait_queue)) [
  | inl e ↦ rw e (λ l. rw (is_waiting-without h handle s.wait_queue n) (k l))
  | inr e ↦ rw e (elim (Bool-cases (is_granted handle s && owns id s)) [
    | inl g ↦ rw g (settled-IsHeard h false s k)
    | inr g ↦ rw g k
  ])
]

pub transition-IsHeard :
    (h : ℕ) (controller : ControlOwner) (owner : Option Text) (was pinned : Bool) (s : LiveBrowser)
    → IsHeard h s
    → IsHeard h (transition controller owner was pinned s).1
unfolding transition
transition-IsHeard h controller owner was pinned s k =
    elim (Bool-cases (state_is controller owner was s)) [
      | inl e ↦ rw e (settled-IsHeard h pinned s k)
      | inr e ↦ rw e k
    ]

pub handoff-IsHeard :
    (h : ℕ) (id : Text) (name : Option Text) (reason : Text) (s : LiveBrowser)
    → IsHeard h s
    → IsHeard h (handoff id name reason s).1
unfolding handoff enqueue_resume_front
handoff-IsHeard h id name reason s k = elim (Bool-cases (owns id s)) [
  | inr e ↦ rw e k
  | inl e ↦ rw e (settled-IsHeard h true (enqueue_resume_front id name s) k)
]

pub sweep-IsHeard : (h : ℕ) (s : LiveBrowser) → IsHeard h s → IsHeard h (sweep_unclaimed_grant s).1
unfolding sweep_unclaimed_grant
sweep-IsHeard h s k = elim (Bool-cases (is_unclaimed s)) [
  | inl e ↦ rw e (settled-IsHeard h false (record s { granted_at = 0; ticks = s.ticks + 1 }) k)
  | inr e ↦ rw e k
]

-- Two states that a test chooses from.
pub chosen-IsHeard :
    (h : ℕ) (b : Bool) (s t : LiveBrowser)
    → IsHeard h s
    → IsHeard h t
    → IsHeard h (if b then s else t)
chosen-IsHeard h true s t k l = k
chosen-IsHeard h false s t k l = l

pub begin_run-IsHeard :
    (h : ℕ) (id : Text) (task : ℕ) (s : LiveBrowser)
    → IsHeard h s
    → IsHeard h (begin_run id task s).1
unfolding begin_run
begin_run-IsHeard h id task s k = elim (Bool-cases (state_is agent (some id) false s)) [
  | inl e ↦ rw e k
  | inr e ↦ rw e k
]

pub end_run-IsHeard : (h task : ℕ) (s : LiveBrowser) → IsHeard h s → IsHeard h (end_run task s)
unfolding end_run
end_run-IsHeard h task s k = chosen-IsHeard h _ (record s { agent_task = none }) s k k

pub check_lease-IsHeard :
    (h : ℕ) (id : Text) (name : Option Text) (enqueue : Bool) (s : LiveBrowser)
    → IsHeard h s
    → IsHeard h (check_lease id name enqueue s).1
unfolding check_lease
check_lease-IsHeard h id name enqueue s k = elim (Bool-cases (state_is agent (some id) false s)) [
  | inl e ↦ rw e k
  | inr e ↦ rw e (enqueue_on-IsHeard h enqueue id name s k)
]

displaced-IsHeard :
    (h : ℕ) (controller : ControlOwner) (owner : Option Text) (s : LiveBrowser)
    → IsHeard h s
    → IsHeard h (queue_displaced controller owner s)
unfolding queue_displaced enqueue_resume_front
displaced-IsHeard h agent (some owner) s k = k
displaced-IsHeard h agent none s k = k
displaced-IsHeard h human owner s k = k

cancelled-IsHeard :
    (h : ℕ) (task : Option ℕ) (s : LiveBrowser) → IsHeard h s → IsHeard h (cancel_task task s)
unfolding cancel_task
cancelled-IsHeard h none s k = k
cancelled-IsHeard h (some task) s k = k

pub take_control-IsHeard : (h : ℕ) (s : LiveBrowser) → IsHeard h s → IsHeard h (take_control s).1
unfolding take_control preempt
take_control-IsHeard h s k = elim (Bool-cases (is_running s)) [
  | inr e ↦ rw e k
  | inl e ↦ rw e (
      cancelled-IsHeard h s.agent_task _ (
        settled-IsHeard h true (queue_displaced s.controller s.owner_agent_id s)
          (displaced-IsHeard h s.controller s.owner_agent_id s k)))
]

pub abandoned-IsHeard :
    (h : ℕ) (reason : Reason) (s : LiveBrowser) → IsHeard h s → IsHeard h (abandon_queues reason s)
unfolding abandon_queues
abandoned-IsHeard h reason s k = evict_waiters-IsHeard h s k
