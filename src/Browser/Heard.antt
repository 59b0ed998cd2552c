-- ===== src/Browser/Heard.antt =====
-- A request that is parked is answered, unless it gives up, over any sequence of steps.
use plain_text_gtd.Prelude.{
  ℕ, Bool, true, false, ◌||◌, none, some, ◌≡◌, ◌==◌, nat_eq, arith, ◌⊎◌, inl, inr,
}
use plain_text_gtd.Browser.{LiveBrowser, human, agent, by_crash, by_close, is_crashed}
use plain_text_gtd.Browser.Control.{broadcast_control, transition, abandon_queues}
use plain_text_gtd.Browser.Acquire.{
  release, release_idle, return_to_agents, on_disconnected, announce_crash, close, come_up,
}
use plain_text_gtd.Browser.Steps.{
  AgentStep, asks, gives_up, releases, hands_off, idles, revokes, begins, ends, touches, Step, acts,
  loses, reclaims, takes, returns, disconnects, announces, closes, rises, Reach, fresh, next,
}
use plain_text_gtd.Browser.Answered.{
  IsHeard, acquire_locked-IsHeard, give_up-IsHeard, transition-IsHeard, handoff-IsHeard,
  sweep-IsHeard, chosen-IsHeard, begin_run-IsHeard, end_run-IsHeard, check_lease-IsHeard,
  take_control-IsHeard, abandoned-IsHeard,
}

-- The step is one by which the waiter itself gives up.
abbrev pub AgentGivesUp : {s t : LiveBrowser} → ℕ → AgentStep s t → Type 0
AgentGivesUp h (gives_up handle id) = handle ≡ h
AgentGivesUp h step = ⊥

abbrev pub GivesUp : {late : Bool} {s t : LiveBrowser} → ℕ → Step late s t → Type 0
GivesUp h (acts step) = AgentGivesUp h step
GivesUp h step = ⊥

abbrev pub HasGivenUp :
    {late : Bool} {clock : ℕ → ℕ} {s : LiveBrowser} → ℕ → Reach late clock s → Type 0
HasGivenUp h fresh = ⊥
HasGivenUp h (next r step) = HasGivenUp h r ⊎ GivesUp h step

differs : (handle h : ℕ) → ¬ (handle ≡ h) → ◌==◌ ⦃e = nat_eq⦄ handle h ≡ false
differs handle h n = ground arith

AgentStep-IsHeard :
    {s t : LiveBrowser} (h : ℕ) (step : AgentStep s t)
    → ¬ AgentGivesUp h step
    → IsHeard h s
    → IsHeard h t
unfolding release transition release_idle
AgentStep-IsHeard {s} h (asks id name wait enqueue) n k =
    acquire_locked-IsHeard h id name false wait enqueue s k
AgentStep-IsHeard {s} h (gives_up handle id) n k =
    give_up-IsHeard h handle id _ (differs handle h n) k
AgentStep-IsHeard {s} h (releases id) n k = transition-IsHeard h agent (some id) false false s k
AgentStep-IsHeard {s} h (hands_off id name reason) n k = handoff-IsHeard h id name reason s k
AgentStep-IsHeard {s} h (idles owner) n k = transition-IsHeard h agent owner false false s k
AgentStep-IsHeard {s} h revokes n k = sweep-IsHeard h s k
AgentStep-IsHeard {s} h (begins id task) n k = begin_run-IsHeard h id task s k
AgentStep-IsHeard {s} h (ends task) n k = end_run-IsHeard h task s k
AgentStep-IsHeard {s} h (touches id name enqueue e) n k = check_lease-IsHeard h id name enqueue s k

Step-IsHeard :
    {s t : LiveBrowser} (h : ℕ) (step : Step false s t)
    → ¬ GivesUp h step
    → IsHeard h s
    → IsHeard h t
unfolding return_to_agents transition announce_crash abandon_queues close on_disconnected come_up
    broadcast_control
Step-IsHeard {s} h (acts step) n k = AgentStep-IsHeard h step n k
Step-IsHeard {s} h (loses id name enqueue e) n k = check_lease-IsHeard h id name enqueue s k
Step-IsHeard {s} h (reclaims id name wait enqueue) n k =
    acquire_locked-IsHeard h id name true wait enqueue s k
Step-IsHeard {s} h takes n k = take_control-IsHeard h s k
Step-IsHeard {s} h returns n k = transition-IsHeard h human none true false s k
Step-IsHeard {s} h disconnects n k = chosen-IsHeard h (s.closed || is_crashed s) s _ k k
Step-IsHeard {s} h announces n k = abandoned-IsHeard h by_crash s k
Step-IsHeard {s} h closes n k = abandoned-IsHeard h by_close s k
Step-IsHeard {s} h rises n k = chosen-IsHeard h (s.closed || is_crashed s) s _ k k

-- A request that was parked and did not give up waits or has its answer, after any sequence of steps.
pub Reach-IsHeard :
    {clock : ℕ → ℕ} {s : LiveBrowser} (h : ℕ) (r : Reach false clock s)
    → ¬ HasGivenUp h r
    → IsHeard h s
Reach-IsHeard h fresh n = λ l. ground arith
Reach-IsHeard h (next r step) n =
    Step-IsHeard h step (λ g. n (inr g)) (Reach-IsHeard h r (λ g. n (inl g)))
