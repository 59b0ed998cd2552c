-- ===== src/Browser/Return.antt =====
-- What a human takes, and what an agent hands off and gets back.
use plain_text_gtd.Prelude.{
  ℕ, Bool, true, false, All, Assoc, lookup, List, [], ◌∷◌, ◌++◌, Option, none, some, ◌≡◌, refl,
  text_eq, option_eq, nat_eq, arith, ◌∙◌, ap,
}
use plain_text_gtd.Text.{Text}
use plain_text_gtd.Browser.{woken, LiveBrowser, ControlOwner, human, agent, Waiter, is_running}
use plain_text_gtd.Browser.Control.{
  evicted, others, enqueue_resume_front, write_control, touch_lease, broadcast_control,
  settle_queue, evict_waiters, hand_to_first, preempt, queue_displaced, cancel_task, transition,
  state_is,
}
use plain_text_gtd.Browser.Acquire.{owns, handoff, take_control, return_to_agents}
use plain_text_gtd.Browser.Steps.{hands_off}
use plain_text_gtd.Browser.Consistent.{IsConsistent}
use plain_text_gtd.Browser.Handover.{first_notice}
use plain_text_gtd.Browser.Kept.{AgentStep-IsConsistent}
use plain_text_gtd.Browser.Steps.{AgentSteps}
use plain_text_gtd.Browser.Pin.{IsPinned, AgentSteps-IsPinned, AgentSteps-IsConsistent}

abbrev pub with_task : Option ℕ → List ℕ → List ℕ
with_task none cancelled = cancelled
with_task (some task) cancelled = task ∷ cancelled

-- What the first of the two queues gets where a browser becomes free.
handed_to :
    (id : Text) (name : Option Text) (queue : List (Text × Option Text)) (waiters : List Waiter)
    (resume : List (Text × Option Text)) (s : LiveBrowser)
    → waiters ≡ []
    → resume ≡ (id, name) ∷ queue
    → let t = hand_to_first waiters resume s in
      (t.controller ≡ agent)
      × (t.owner_agent_id ≡ some id)
      × (t.resume_queue ≡ queue)
      × (first_notice t.sent ≡ some (woken id name))
unfolding hand_to_first write_control touch_lease broadcast_control
handed_to id name queue waiters resume s e q = rw (e, q) (refl, refl, refl, refl)

pinned_state : (s : LiveBrowser) → IsConsistent s → IsPinned s → state_is human none true s ≡ true
unfolding state_is
pinned_state s k p = let o = k.unowned p.0 in ground arith

returned :
    (id : Text) (name : Option Text) (queue : List (Text × Option Text)) (s : LiveBrowser)
    → IsConsistent s
    → IsPinned s
    → s.resume_queue ≡ (id, name) ∷ queue
    → let (done, t) = return_to_agents s in
      (done ≡ true)
      × (t.controller ≡ agent)
      × (t.owner_agent_id ≡ some id)
      × (t.resume_queue ≡ queue)
      × (first_notice t.sent ≡ some (woken id name))
unfolding return_to_agents transition settle_queue write_control touch_lease broadcast_control
returned id name queue s k p q = rw (pinned_state s k p) (
    let t = handed_to id name queue s.wait_queue s.resume_queue _ (k.unparked p.0) q in
    (refl, t.0, t.1, t.2, t.3))

handoff_pins :
    (id : Text) (name : Option Text) (reason : Text) (s : LiveBrowser)
    → owns id s ≡ true
    → let t = (handoff id name reason s).1 in
      IsPinned t × (t.resume_queue ≡ (id, name) ∷ others id s.resume_queue)
unfolding handoff settle_queue write_control touch_lease broadcast_control evict_waiters
    enqueue_resume_front
handoff_pins id name reason s o = rw o ((refl, refl), refl)

-- The agent in control hands the browser off to the human. Whatever agents do then, those that find
-- that they have lost it included, as long as none reclaims it: when the human hands it back, that agent has the browser, and is messaged to go on.
pub handoff_comes_back :
    (id : Text) (name : Option Text) (reason : Text) (s t : LiveBrowser)
    → IsConsistent s
    → owns id s ≡ true
    → AgentSteps (handoff id name reason s).1 t
    → let (done, u) = return_to_agents t in
      (done ≡ true)
      × (u.controller ≡ agent)
      × (u.owner_agent_id ≡ some id)
      × (first_notice u.sent ≡ some (woken id name))
handoff_comes_back id name reason s t k o steps =
    let pins = handoff_pins id name reason s o in
    let start = AgentStep-IsConsistent (hands_off id name reason) k in
    let (still, (more, e)) = AgentSteps-IsPinned steps start pins.0 in
    let u =
      returned id name (others id s.resume_queue ++ more) t (AgentSteps-IsConsistent steps start)
        still (e ∙ ap (λ q. q ++ more) pins.1) in
    (u.0, u.1, u.2, u.4)

-- What a human who takes a browser gets.
abbrev pub IsTaken : Text → LiveBrowser → LiveBrowser → Type 0
IsTaken id s t =
    (t.controller ≡ human)
    × (t.human_pinned ≡ true)
    × (t.owner_agent_id ≡ none)
    × (t.input_enabled ≡ true)
    × (t.wait_queue ≡ [])
    × All (λ (w : Waiter). lookup ⦃e = nat_eq⦄ w.handle t.outcomes ≡ some false) s.wait_queue
    × (t.resume_queue ≡ (id, s.owner_agent_name) ∷ others id s.resume_queue)

-- Whoever is on the list is not granted; of the others nothing changes.
lookup-evicted :
    (h : ℕ) (waiters : List Waiter) (outcomes : Assoc ℕ Bool)
    → lookup ⦃e = nat_eq⦄ h outcomes ≡ some false
    → lookup ⦃e = nat_eq⦄ h (evicted waiters outcomes) ≡ some false
unfolding evicted lookup nat_eq
lookup-evicted h [] outcomes e = e
lookup-evicted h (w ∷ waiters) outcomes e =
    lookup-evicted h waiters ((w.handle, false) ∷ outcomes) (ground arith)

evicted-refused :
    (waiters : List Waiter) (outcomes : Assoc ℕ Bool)
    → All
        (λ (w : Waiter). lookup ⦃e = nat_eq⦄ w.handle (evicted waiters outcomes) ≡ some false)
        waiters
unfolding evicted lookup nat_eq
evicted-refused [] outcomes = tt
evicted-refused (w ∷ waiters) outcomes = (
  lookup-evicted w.handle waiters ((w.handle, false) ∷ outcomes) (ground arith),
  evicted-refused waiters ((w.handle, false) ∷ outcomes),
)

taken :
    (id : Text) (controller : ControlOwner) (owner : Option Text) (task : Option ℕ)
    (s : LiveBrowser)
    → controller ≡ agent
    → owner ≡ some id
    → let t =
        cancel_task task (
          settle_queue (write_control human none none true (queue_displaced controller owner s))) in
      IsTaken id s t × (t.cancelled ≡ with_task task s.cancelled)
unfolding cancel_task settle_queue write_control touch_lease broadcast_control queue_displaced
    enqueue_resume_front evict_waiters
taken id controller owner none s c o =
    rw (c, o) ((refl, refl, refl, refl, refl, evicted-refused s.wait_queue s.outcomes, refl), refl)
taken id controller owner (some task) s c o =
    rw (c, o) ((refl, refl, refl, refl, refl, evicted-refused s.wait_queue s.outcomes, refl), refl)

owner_of :
    (id : Text) (s : LiveBrowser)
    → owns id s ≡ true
    → (s.controller ≡ agent) × (s.owner_agent_id ≡ some id)
unfolding owns
owner_of id s o = (ground arith, ground arith)

-- A human who takes a running browser that an agent controls has it at once: it is the human's, input
-- passes, every parked request learns that it is not granted, and the run of the agent is told to stop,
-- where it has one; the agent is first of those to be resumed, and not there a second time.
pub take_control_wins :
    (id : Text) (s : LiveBrowser)
    → is_running s ≡ true
    → owns id s ≡ true
    → let (done, t) = take_control s in
      (done ≡ true) × IsTaken id s t × (t.cancelled ≡ with_task s.agent_task s.cancelled)
unfolding take_control preempt
take_control_wins id s r o =
    let held = owner_of id s o in
    let t = taken id s.controller s.owner_agent_id s.agent_task s held.0 held.1 in
    rw r (refl, t.0, t.1)
