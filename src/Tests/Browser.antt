-- ===== src/Tests/Browser.antt =====
-- Runs of the control of browsers and of their fleet.
use plain_text_gtd.Prelude.{
  ℕ, ◌*◌, map, latest, arith, List, ◌++◌, Bool, true, false, ◌&&◌, [], ◌∷◌, some, none, ◌≡◌, ◌≢◌,
  refl, leb, ltb, text_eq, option_eq, nat_eq,
}
use plain_text_gtd.Text.{lit}
use plain_text_gtd.Browser.{LiveBrowser, human, agent, new_browser, is_running, woken}
use plain_text_gtd.Browser.Acquire.{
  acquired, answered, acquire_locked, handoff, release, take_control, return_to_agents, come_up,
  owns, begin_run, check_lease,
}
use plain_text_gtd.Browser.Steps.{
  none_yet, then_one, releases, returns, asks, acts, rises, takes, Reach, fresh, next,
}
use plain_text_gtd.Browser.Consistent.{IsConsistent}
use plain_text_gtd.Browser.Reached.{Reach-IsConsistent}
use plain_text_gtd.Browser.Free.{free_with_nobody_waiting}
use plain_text_gtd.Browser.Handover.{
  first_notice, IsServed, release_serves_next, other_agents_in_vain,
}
use plain_text_gtd.Browser.Control.{is_queued}
use plain_text_gtd.Browser.Resumed.{IsMinded}
use plain_text_gtd.Browser.Minded.{Step-IsMinded}
use plain_text_gtd.Browser.Answered.{is_set}
use plain_text_gtd.Browser.Heard.{HasGivenUp}
use plain_text_gtd.Browser.Return.{handoff_comes_back, take_control_wins, IsTaken, with_task}
use plain_text_gtd.Browser.Names.{is_valid_browser_name}
use plain_text_gtd.Browser.Fleet.{BrowserSessionManager, create}
use plain_text_gtd.Browser.Cast.{
  CastMessage, CastQueues, tabs_of, frame_of, register_cast_queue, seed, cast_queue_max_size,
}
use plain_text_gtd.Browser.Viewers.{broadcast_casts, register_cast_queue-latest}
use plain_text_gtd.Queues.{content}
use plain_text_gtd.Browser.Created.{IsOutcome, create-IsOutcome}

abbrev ticking : ℕ → ℕ
ticking n = 1000 * n

abbrev up : LiveBrowser
up = come_up (new_browser ticking)

-- Ada has the browser, and Bob is parked.
abbrev taken_by_ada : LiveBrowser
taken_by_ada = (acquire_locked (lit "ada") none false false true up).1

abbrev with_bob : LiveBrowser
with_bob = (acquire_locked (lit "bob") none false true true taken_by_ada).1

-- A human has taken the browser from Ada.
abbrev taken_by_human : LiveBrowser
taken_by_human = (take_control taken_by_ada).1

up_reached : Reach false ticking up
up_reached = next fresh rises

ada_reached : Reach false ticking taken_by_ada
ada_reached = next up_reached (acts (asks (lit "ada") none false true))

bob_reached : Reach false ticking with_bob
bob_reached = next ada_reached (acts (asks (lit "bob") none true true))

human_reached : Reach false ticking taken_by_human
human_reached = next ada_reached takes

ada_owns : owns (lit "ada") taken_by_ada ≡ true
unfolding owns acquire_locked come_up text_eq option_eq
ada_owns = refl

ada_still_owns : owns (lit "ada") with_bob ≡ true
unfolding owns acquire_locked come_up text_eq option_eq
ada_still_owns = refl

bob_owns_nothing : owns (lit "bob") taken_by_ada ≡ false
unfolding owns acquire_locked come_up text_eq option_eq
bob_owns_nothing = refl

agent_controls : taken_by_ada.controller ≡ agent
unfolding acquire_locked come_up text_eq option_eq
agent_controls = refl

ada_running : is_running taken_by_ada ≡ true
unfolding acquire_locked come_up text_eq option_eq
ada_running = refl

Reach-IsConsistent_example : IsConsistent taken_by_human
Reach-IsConsistent_example = Reach-IsConsistent ticking taken_by_human human_reached

-- Bob is parked, and Ada gives the browser back; Bob has it, and gives it back too.
abbrev all_served : LiveBrowser
all_served = (release (lit "bob") (release (lit "ada") with_bob).1).1

served_reached : Reach false ticking all_served
served_reached = next (next bob_reached (acts (releases (lit "ada")))) (acts (releases (lit "bob")))

all_served_free : (all_served.controller ≡ human) × (all_served.human_pinned ≡ false)
unfolding release acquire_locked come_up text_eq option_eq nat_eq
all_served_free = (refl, refl)

free_with_nobody_waiting_example :
    (all_served.wait_queue ≡ [])
    × (all_served.resume_queue ≡ [])
    × ((h : ℕ)
        → ltb h all_served.next_handle ≡ true
        → ¬ HasGivenUp h served_reached
        → is_set h all_served.outcomes ≡ true)
free_with_nobody_waiting_example =
    free_with_nobody_waiting ticking all_served served_reached all_served_free.0 all_served_free.1

-- Ada finds that she has lost the browser, and queues up behind herself; then Bob asks.
abbrev lost_by_ada : LiveBrowser
lost_by_ada = (check_lease (lit "ada") none true taken_by_human).1

release_serves_next_example :
    let (done, t) = release (lit "ada") with_bob in
    (done ≡ true) × IsServed with_bob.wait_queue with_bob.resume_queue t
release_serves_next_example =
    release_serves_next (lit "ada") with_bob (Reach-IsConsistent ticking with_bob bob_reached)
      ada_still_owns

-- What the last comes to: it is Bob's turn.
bob_served : (release (lit "ada") with_bob).1.owner_agent_id ≡ some (lit "bob")
unfolding release acquire_locked come_up text_eq option_eq nat_eq
bob_served = refl

other_agents_in_vain_example :
    (let (answer, t) = acquire_locked (lit "bob") none true false true taken_by_ada in
      (answer ≢ answered acquired)
      × (t.controller ≡ agent)
      × (t.owner_agent_id ≡ taken_by_ada.owner_agent_id))
    × (release (lit "bob") taken_by_ada ≡ (false, taken_by_ada))
    × (handoff (lit "bob") none (lit "stuck") taken_by_ada ≡ (false, taken_by_ada))
    × (begin_run (lit "bob") 7 taken_by_ada ≡ (false, taken_by_ada))
other_agents_in_vain_example =
    other_agents_in_vain (lit "bob") none (lit "stuck") true false true 7 taken_by_ada
      agent_controls bob_owns_nothing

abbrev handed_off : LiveBrowser
handed_off = (handoff (lit "ada") none (lit "captcha") taken_by_ada).1

handoff_comes_back_example :
    let (done, u) =
      return_to_agents (acquire_locked (lit "bob") none false true true handed_off).1 in
    (done ≡ true)
    × (u.controller ≡ agent)
    × (u.owner_agent_id ≡ some (lit "ada"))
    × (first_notice u.sent ≡ some (woken (lit "ada") none))
handoff_comes_back_example =
    handoff_comes_back (lit "ada") none (lit "captcha") taken_by_ada
      (acquire_locked (lit "bob") none false true true handed_off).1
      (Reach-IsConsistent ticking taken_by_ada ada_reached) ada_owns
      (then_one none_yet (asks (lit "bob") none true true))

take_control_wins_example :
    let (done, t) = take_control taken_by_ada in
    (done ≡ true)
    × IsTaken (lit "ada") taken_by_ada t
    × (t.cancelled ≡ with_task taken_by_ada.agent_task taken_by_ada.cancelled)
take_control_wins_example = take_control_wins (lit "ada") taken_by_ada ada_running ada_owns

abbrev is_ascii_digit : ℕ → Bool
is_ascii_digit c = leb 48 c && leb c 57

blue_otter_valid : is_valid_browser_name is_ascii_digit (lit "blue-otter2") ≡ true
unfolding is_valid_browser_name nat_eq
blue_otter_valid = refl

-- The generator gives the name in use again and again.
abbrev one_browser : BrowserSessionManager
one_browser = record {
  browsers = (lit "calm-fox", up) ∷ [];
  failed_launch_names = [];
  generated = λ n. lit "calm-fox";
  draws = 0;
}

create-IsOutcome_example :
    let (r, t) = create is_ascii_digit ticking none one_browser in
    IsOutcome is_ascii_digit one_browser ticking none r t
create-IsOutcome_example = create-IsOutcome is_ascii_digit ticking none one_browser

-- One viewer is there already; a tab has a number, a picture too.
abbrev one_viewer : CastQueues ℕ ℕ
one_viewer = record { cast_queues = 0 ∷ []; contents = (0, []) ∷ []; next_queue = 1 }

abbrev two_pictures : List (CastMessage ℕ ℕ)
two_pictures = frame_of 5 ∷ tabs_of 2 ∷ frame_of 6 ∷ []

register_cast_queue-latest_example :
    let (h, r) =
      register_cast_queue 1
        (some 4)
        up
        taken_by_ada
        (broadcast_casts (tabs_of 3 ∷ []) one_viewer) in
    content h (broadcast_casts two_pictures r).contents
    ≡ latest cast_queue_max_size
        (map some (seed 1 (some 4) up taken_by_ada) ++ map some two_pictures)
register_cast_queue-latest_example =
    register_cast_queue-latest 1 (some 4) up taken_by_ada (tabs_of 3 ∷ []) two_pictures one_viewer
      (refl, tt) (omega arith, tt)

-- Ada is to be resumed, and the human hands the browser back.
ada_queued : is_queued (lit "ada") taken_by_human.resume_queue ≡ true
unfolding is_queued take_control acquire_locked come_up text_eq option_eq
ada_queued = refl

Step-IsMinded_example : IsMinded (lit "ada") (return_to_agents taken_by_human).1
Step-IsMinded_example = Step-IsMinded {late = false} (lit "ada") returns ada_queued
