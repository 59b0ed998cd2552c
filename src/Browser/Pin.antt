-- ===== src/Browser/Pin.antt =====
-- A human who takes a browser keeps it, and how it goes back to agents.
use plain_text_gtd.Prelude.{
  ℕ, Bool, true, false, ◌&&◌, List, [], ◌∷◌, ◌++◌, Option, some, ◌≡◌, refl, ◌==◌, text_eq,
  option_eq, nat_eq, arith, Bool-cases, inl, inr, sym, ◌∙◌, ap,
}
use plain_text_gtd.Text.{Text}
use plain_text_gtd.Browser.{LiveBrowser, human, agent, human_pin_active}
use plain_text_gtd.Browser.Control.{
  is_queued, enqueue_resume, broadcast_control, transition, state_is,
}
use plain_text_gtd.Browser.Acquire.{
  owns, enqueue_on, acquire_locked, give_up, release, handoff, release_idle, sweep_unclaimed_grant,
  begin_run, end_run, check_lease, is_waiting, is_granted, is_unclaimed,
}
use plain_text_gtd.Browser.Steps.{
  AgentStep, asks, gives_up, releases, hands_off, idles, revokes, begins, ends, touches,
}
use plain_text_gtd.Browser.Consistent.{IsConsistent}
use plain_text_gtd.Browser.Kept.{AgentStep-IsConsistent, check_lease-IsConsistent}
use mathlib.Core.List.{append-nil, append_assoc}
use plain_text_gtd.Browser.Steps.{AgentSteps, none_yet, then_one, then_lost}

abbrev pub IsPinned : LiveBrowser → Type 0
IsPinned s = (s.controller ≡ human) × (s.human_pinned ≡ true)

-- The second queue has the entries of the first, in their order, and others behind.
abbrev pub Extends : List (Text × Option Text) → List (Text × Option Text) → Type 0
Extends queue longer = (more : List (Text × Option Text)) × (longer ≡ queue ++ more)

-- Still pinned, with the same agents first in the queue.
abbrev pub IsStillPinned : LiveBrowser → LiveBrowser → Type 0
IsStillPinned s t = IsPinned t × Extends s.resume_queue t.resume_queue

unchanged : (s : LiveBrowser) → IsPinned s → IsStillPinned s s
unchanged s p = (p, ([], sym (append-nil s.resume_queue)))

enqueue_on-IsPinned :
    (enqueue : Bool) (id : Text) (name : Option Text) (s : LiveBrowser)
    → IsPinned s
    → IsStillPinned s (enqueue_on enqueue id name s)
unfolding enqueue_on enqueue_resume broadcast_control
enqueue_on-IsPinned true id name s p = elim (Bool-cases (is_queued id s.resume_queue)) [
  | inl e ↦ rw e (unchanged s p)
  | inr e ↦ rw e (p, ((id, name) ∷ [], refl))
]
enqueue_on-IsPinned false id name s p = unchanged s p

no_owner : (id : Text) (s : LiveBrowser) → IsPinned s → owns id s ≡ false
unfolding owns
no_owner id s p = ground arith

pin_active : (s : LiveBrowser) → IsPinned s → human_pin_active s ≡ true
pin_active s p = ground arith

not_held :
    (owner : Option Text) (pinned : Bool) (s : LiveBrowser)
    → IsPinned s
    → state_is agent owner pinned s ≡ false
unfolding state_is
not_held owner pinned s p = ground arith

asks-IsPinned :
    (id : Text) (name : Option Text) (wait enqueue : Bool) (s : LiveBrowser)
    → IsPinned s
    → IsStillPinned s (acquire_locked id name false wait enqueue s).1
unfolding acquire_locked
asks-IsPinned id name wait enqueue s p =
    rw (no_owner id s p, pin_active s p) (enqueue_on-IsPinned enqueue id name s p)

gives_up-IsPinned :
    (handle : ℕ) (id : Text) (s : LiveBrowser)
    → IsConsistent s
    → IsPinned s
    → IsStillPinned s (give_up handle id s)
unfolding give_up
gives_up-IsPinned handle id s k p = elim (Bool-cases (is_waiting handle s.wait_queue)) [
  | inl e ↦ rw e (unchanged s p)
  | inr e ↦ rw e (elim (Bool-cases (is_granted handle s && owns id s)) [
    | inl g ↦ let n = no_owner id s p in ground arith
    | inr g ↦ rw g (unchanged s p)
  ])
]

not_unclaimed : (s : LiveBrowser) → IsPinned s → is_unclaimed s ≡ false
unfolding is_unclaimed
not_unclaimed s p = ground arith

revokes-IsPinned : (s : LiveBrowser) → IsPinned s → IsStillPinned s (sweep_unclaimed_grant s).1
unfolding sweep_unclaimed_grant
revokes-IsPinned s p = elim (Bool-cases (is_unclaimed s)) [
  | inl e ↦ let n = not_unclaimed s p in cc
  | inr e ↦ rw e (unchanged s p)
]

ends-IsPinned : (task : ℕ) (s : LiveBrowser) → IsPinned s → IsStillPinned s (end_run task s)
unfolding end_run nat_eq
ends-IsPinned task s p = elim (Bool-cases (s.agent_task == some task)) [
  | inl e ↦ rw e (unchanged s p)
  | inr e ↦ rw e (unchanged s p)
]

pub AgentSteps-IsConsistent : {s t : LiveBrowser} → AgentSteps s t → IsConsistent s → IsConsistent t
AgentSteps-IsConsistent none_yet k = k
AgentSteps-IsConsistent (then_one steps step) k =
    AgentStep-IsConsistent step (AgentSteps-IsConsistent steps k)
AgentSteps-IsConsistent (then_lost id name enqueue steps) k =
    check_lease-IsConsistent id name enqueue _ (AgentSteps-IsConsistent steps k)

lost-IsPinned :
    (id : Text) (name : Option Text) (enqueue : Bool) (s : LiveBrowser)
    → IsPinned s
    → IsStillPinned s (check_lease id name enqueue s).1
unfolding check_lease
lost-IsPinned id name enqueue s p =
    rw (not_held (some id) false s p) (enqueue_on-IsPinned enqueue id name s p)

Extends-trans : (a b c : List (Text × Option Text)) → Extends a b → Extends b c → Extends a c
Extends-trans a b c (m, e) (n, f) = (m ++ n, f ∙ ap (λ x. x ++ n) e ∙ append_assoc a m n)

AgentStep-IsPinned :
    {s t : LiveBrowser} → AgentStep s t → IsConsistent s → IsPinned s → IsStillPinned s t
unfolding release transition release_idle handoff begin_run
AgentStep-IsPinned (asks id name wait enqueue) k p = asks-IsPinned id name wait enqueue _ p
AgentStep-IsPinned (gives_up handle id) k p = gives_up-IsPinned handle id _ k p
AgentStep-IsPinned {s} (releases id) k p = rw (not_held (some id) false s p) (unchanged s p)
AgentStep-IsPinned {s} (hands_off id name reason) k p = rw (no_owner id s p) (unchanged s p)
AgentStep-IsPinned {s} (idles owner) k p = rw (not_held owner false s p) (unchanged s p)
AgentStep-IsPinned {s} revokes k p = revokes-IsPinned s p
AgentStep-IsPinned {s} (begins id task) k p = rw (not_held (some id) false s p) (unchanged s p)
AgentStep-IsPinned {s} (ends task) k p = ends-IsPinned task s p
AgentStep-IsPinned {s} (touches id name enqueue e) k p = let n = not_held (some id) false s p in cc

pub AgentSteps-IsPinned :
    {s t : LiveBrowser} → AgentSteps s t → IsConsistent s → IsPinned s → IsStillPinned s t
AgentSteps-IsPinned {s} none_yet k p = unchanged s p
AgentSteps-IsPinned {s} (then_one {t} {u} steps step) k p =
    let first = AgentSteps-IsPinned steps k p in
    let last = AgentStep-IsPinned step (AgentSteps-IsConsistent steps k) first.0 in
    (last.0, Extends-trans s.resume_queue t.resume_queue u.resume_queue first.1 last.1)
AgentSteps-IsPinned {s} (then_lost id name enqueue {t} steps) k p =
    let first = AgentSteps-IsPinned steps k p in
    let last = lost-IsPinned id name enqueue t first.0 in
    (last.0, Extends-trans s.resume_queue t.resume_queue _ first.1 last.1)
