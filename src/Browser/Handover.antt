-- ===== src/Browser/Handover.antt =====
-- To whom a browser goes.
use plain_text_gtd.Prelude.{
  ℕ, lookup, ◌==◌, if◌then◌else◌, Bool, true, false, not, ◌&&◌, List, [], ◌∷◌, Option, none, some,
  ◌≡◌, ◌≢◌, refl, text_eq, option_eq, nat_eq, arith, Bool-cases, inl, inr, ◌∙◌,
}
use plain_text_gtd.Text.{Text}
use plain_text_gtd.Browser.{
  LiveBrowser, human, agent, Waiter, Notice, woken, is_human, human_pin_active,
}
use plain_text_gtd.Browser.Control.{
  is_queued, enqueue_resume, dequeue_resume, write_control, touch_lease, broadcast_control,
  settle_queue, hand_to_first, transition, state_is,
}
use plain_text_gtd.Browser.Acquire.{
  answered, acquired, owns, enqueue_on, acquire_locked, release, handoff, begin_run,
}
use plain_text_gtd.Browser.Consistent.{IsConsistent, is_queued-others}

abbrev pub first_notice : List Notice → Option Notice
first_notice [] = none
first_notice (n ∷ sent) = some n

-- What the agent that is next gets: of the parked requests the first is granted, and its agent is not
-- among those to be resumed any more; else the first of these is messaged. Where nobody waits, the
-- browser is free.
abbrev pub IsServed : List Waiter → List (Text × Option Text) → LiveBrowser → Type 0
IsServed (w ∷ waiters) resume t =
    (t.controller ≡ agent)
    × (t.owner_agent_id ≡ some w.agent_id)
    × (t.wait_queue ≡ waiters)
    × (lookup ⦃e = nat_eq⦄ w.handle t.outcomes ≡ some true)
    × (is_queued w.agent_id t.resume_queue ≡ false)
IsServed [] (e ∷ resume) t =
    (t.controller ≡ agent)
    × (t.owner_agent_id ≡ some e.0)
    × (t.wait_queue ≡ [])
    × (t.resume_queue ≡ resume)
    × (first_notice t.sent ≡ some (woken e.0 e.1))
IsServed [] [] t =
    (t.controller ≡ human)
    × (t.owner_agent_id ≡ none)
    × (t.wait_queue ≡ [])
    × (t.resume_queue ≡ [])
    × (t.human_pinned ≡ false)

hand_to_first-IsServed :
    (waiters : List Waiter) (resume : List (Text × Option Text)) (s : LiveBrowser)
    → s.wait_queue ≡ waiters
    → s.resume_queue ≡ resume
    → s.controller ≡ human
    → s.owner_agent_id ≡ none
    → s.human_pinned ≡ false
    → IsServed waiters resume (hand_to_first waiters resume s)
unfolding hand_to_first dequeue_resume write_control touch_lease broadcast_control lookup nat_eq
hand_to_first-IsServed (w ∷ waiters) resume s q r c o p =
    (refl, refl, refl, granted w.handle _, is_queued-others w.agent_id s.resume_queue)
  where
    granted :
        (h : ℕ) (other : Option Bool)
        → (if ◌==◌ ⦃e = nat_eq⦄ h h then some true else other) ≡ some true
    granted h other = ground arith
hand_to_first-IsServed [] (e ∷ resume) s q r c o p = (refl, refl, q, refl, refl)
hand_to_first-IsServed [] [] s q r c o p = (c, o, q, r, p)

pub settled-IsServed :
    (s : LiveBrowser)
    → IsServed s.wait_queue s.resume_queue (settle_queue (write_control human none none false s))
unfolding settle_queue write_control touch_lease broadcast_control
settled-IsServed s = hand_to_first-IsServed s.wait_queue s.resume_queue _ refl refl refl refl refl

holds :
    (id : Text) (s : LiveBrowser)
    → IsConsistent s
    → owns id s ≡ true
    → state_is agent (some id) false s ≡ true
unfolding owns state_is
holds id s k o = ground arith

-- Where the agent in control releases the browser, it goes at once to the agent that is next, which is
-- then in control: the agent of the first of the parked requests, which is granted, else the first of
-- those to be resumed, which is messaged; where nobody waits, it is free: a human has it and did not
-- take it.
pub release_serves_next :
    (id : Text) (s : LiveBrowser)
    → IsConsistent s
    → owns id s ≡ true
    → let (done, t) = release id s in (done ≡ true) × IsServed s.wait_queue s.resume_queue t
unfolding release transition
release_serves_next id s k o = rw (holds id s k o) (refl, settled-IsServed s)

enqueue_on-owner :
    (enqueue : Bool) (id : Text) (name : Option Text) (s : LiveBrowser)
    → ((enqueue_on enqueue id name s).controller ≡ s.controller)
      × ((enqueue_on enqueue id name s).owner_agent_id ≡ s.owner_agent_id)
unfolding enqueue_on enqueue_resume broadcast_control
enqueue_on-owner true id name s = elim (Bool-cases (is_queued id s.resume_queue)) [
  | inl e ↦ rw e (refl, refl)
  | inr e ↦ rw e (refl, refl)
]
enqueue_on-owner false id name s = (refl, refl)

asks_in_vain :
    (id : Text) (name : Option Text) (reclaim wait enqueue : Bool) (s : LiveBrowser)
    → s.controller ≡ agent
    → owns id s ≡ false
    → let (answer, t) = acquire_locked id name reclaim wait enqueue s in
      (answer ≢ answered acquired) × (t.controller ≡ agent) × (t.owner_agent_id ≡ s.owner_agent_id)
unfolding acquire_locked
asks_in_vain id name reclaim wait enqueue s c o =
    let same = enqueue_on-owner enqueue id name s in
    rw (o, not_pinned, not_human)
      (elim (Bool-cases wait) [
        | inl w ↦ rw w (λ e. cc, c, refl)
        | inr w ↦ rw w (λ e. cc, same.0 ∙ c, same.1)
      ])
  where
    not_pinned : (not reclaim && human_pin_active s) ≡ false
    not_pinned = ground arith

    not_human : is_human s.controller ≡ false
    not_human = ground arith

other_holds :
    (id : Text) (s : LiveBrowser) → owns id s ≡ false → state_is agent (some id) false s ≡ false
unfolding owns state_is
other_holds id s o = ground arith

-- Where an agent is in control, no other agent gets the browser from it or changes who has it: not by
-- acquiring it, to reclaim it or not, nor by releasing it, handing it off, or beginning a run.
pub other_agents_in_vain :
    (id : Text) (name : Option Text) (reason : Text) (reclaim wait enqueue : Bool) (task : ℕ)
    (s : LiveBrowser)
    → s.controller ≡ agent
    → owns id s ≡ false
    → (let (answer, t) = acquire_locked id name reclaim wait enqueue s in
        (answer ≢ answered acquired)
        × (t.controller ≡ agent)
        × (t.owner_agent_id ≡ s.owner_agent_id))
      × (release id s ≡ (false, s))
      × (handoff id name reason s ≡ (false, s))
      × (begin_run id task s ≡ (false, s))
unfolding release transition handoff begin_run
other_agents_in_vain id name reason reclaim wait enqueue task s c o = (
  asks_in_vain id name reclaim wait enqueue s c o,
  rw (other_holds id s o) refl,
  rw o refl,
  rw (other_holds id s o) refl,
)
