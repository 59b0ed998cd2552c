-- ===== src/Browser/Minded.antt =====
-- An agent leaves the queue of those to be resumed only for a reason, in every step.
use plain_text_gtd.Prelude.{
  Bool, true, false, ◌||◌, ◌∷◌, none, some, ◌≡◌, text_eq, option_eq, nat_eq,
}
use plain_text_gtd.Text.{Text}
use plain_text_gtd.Browser.{LiveBrowser, human, agent, by_crash, by_close, crash_sent, is_crashed}
use plain_text_gtd.Browser.Control.{is_queued, broadcast_control, transition, abandon_queues}
use plain_text_gtd.Browser.Acquire.{
  release, release_idle, end_run, return_to_agents, on_disconnected, announce_crash, close, come_up,
}
use plain_text_gtd.Browser.Steps.{
  AgentStep, asks, gives_up, releases, hands_off, idles, revokes, begins, ends, touches, Step, acts,
  loses, reclaims, takes, returns, disconnects, announces, closes, rises,
}
use plain_text_gtd.Browser.Resumed.{
  IsMinded, acquire_locked-IsMinded, give_up-IsMinded, transition-IsMinded, handoff-IsMinded,
  sweep-IsMinded, chosen-IsMinded, begin_run-IsMinded, check_lease-IsMinded, take_control-IsMinded,
  abandoned-IsMinded,
}

AgentStep-IsMinded :
    {s t : LiveBrowser} (id : Text)
    → AgentStep s t
    → is_queued id s.resume_queue ≡ true
    → IsMinded id t
unfolding release transition release_idle end_run
AgentStep-IsMinded {s} id (asks a name wait enqueue) q =
    acquire_locked-IsMinded id a name false wait enqueue s q
AgentStep-IsMinded {s} id (gives_up handle a) q = give_up-IsMinded id handle a s q
AgentStep-IsMinded {s} id (releases a) q = transition-IsMinded id agent (some a) false false s q
AgentStep-IsMinded {s} id (hands_off a name reason) q = handoff-IsMinded id a name reason s q
AgentStep-IsMinded {s} id (idles owner) q = transition-IsMinded id agent owner false false s q
AgentStep-IsMinded {s} id revokes q = sweep-IsMinded id s q
AgentStep-IsMinded {s} id (begins a task) q = begin_run-IsMinded id a task s q
AgentStep-IsMinded {s} id (ends task) q =
    chosen-IsMinded id _ (record s { agent_task = none }) s q q
AgentStep-IsMinded {s} id (touches a name enqueue e) q = check_lease-IsMinded id a name enqueue s q

-- Whatever step is taken, by agents, humans, the sweeps or the browser itself: an agent that was among
-- those to be resumed is still among them, or is the one that the browser belongs to, or was told that
-- the browser is gone.
pub Step-IsMinded :
    {late : Bool} {s t : LiveBrowser} (id : Text)
    → Step late s t
    → is_queued id s.resume_queue ≡ true
    → IsMinded id t
unfolding return_to_agents transition announce_crash abandon_queues close on_disconnected come_up
    broadcast_control
Step-IsMinded {s} id (acts step) q = AgentStep-IsMinded id step q
Step-IsMinded {s} id (loses a name enqueue e) q = check_lease-IsMinded id a name enqueue s q
Step-IsMinded {s} id (reclaims a name wait enqueue) q =
    acquire_locked-IsMinded id a name true wait enqueue s q
Step-IsMinded {s} id takes q = take_control-IsMinded id s q
Step-IsMinded {s} id returns q = transition-IsMinded id human none true false s q
Step-IsMinded {s} id disconnects q = chosen-IsMinded id (s.closed || is_crashed s) s _ q q
Step-IsMinded {s} id announces q =
    abandoned-IsMinded id by_crash (record s { sent = crash_sent ∷ s.sent }) q
Step-IsMinded {s} id closes q = abandoned-IsMinded id by_close (record s { closed = true }) q
Step-IsMinded {s} id rises q = chosen-IsMinded id (s.closed || is_crashed s) s _ q q
