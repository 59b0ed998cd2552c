-- ===== src/Browser/Consistent.antt =====
-- What holds of the control of a browser after any sequence of steps.
use plain_text_gtd.Prelude.{
  false, ◌||◌, List, [], ◌∷◌, ◌++◌, Option, none, some, ◌≡◌, ◌≢◌, refl, ◌==◌, text_eq, option_eq,
  arith,
}
use plain_text_gtd.Text.{Text}
use plain_text_gtd.Browser.{LiveBrowser, human, agent, is_human}
use plain_text_gtd.Browser.Control.{
  is_queued, others, write_control, touch_lease, broadcast_control,
}

abbrev pub AreDistinct : List (Text × Option Text) → Type 0
AreDistinct [] = Unit
AreDistinct (e ∷ queue) = (is_queued e.0 queue ≡ false) × AreDistinct queue

-- An agent that holds the browser is known, is not pinned out and is not among those to be resumed; a
-- human holds it for no agent, and no request waits for a human; input passes for a human alone.
pub record IsConsistent (s : LiveBrowser) : Type 0 where
  pub unpinned : s.controller ≡ agent → s.human_pinned ≡ false
  pub named : s.controller ≡ agent → s.owner_agent_id ≢ none
  pub unqueued : (id : Text) → s.owner_agent_id ≡ some id → is_queued id s.resume_queue ≡ false
  pub unowned : s.controller ≡ human → s.owner_agent_id ≡ none
  pub unparked : s.controller ≡ human → s.wait_queue ≡ []
  pub gate : s.input_enabled ≡ is_human s.controller
  pub distinct : AreDistinct s.resume_queue

pub is_queued-others :
    (id : Text) (queue : List (Text × Option Text)) → is_queued id (others id queue) ≡ false
unfolding is_queued others
is_queued-others id [] = refl
is_queued-others id (e ∷ queue) = ground (arith, is_queued-others id queue)

pub is_queued-others_keeps :
    (a id : Text) (queue : List (Text × Option Text))
    → is_queued a queue ≡ false
    → is_queued a (others id queue) ≡ false
unfolding is_queued others
is_queued-others_keeps a id [] h = refl
is_queued-others_keeps a id (e ∷ queue) h = ground (arith, is_queued-others_keeps a id queue)

pub others-distinct :
    (id : Text) (queue : List (Text × Option Text))
    → AreDistinct queue
    → AreDistinct (others id queue)
unfolding others
others-distinct id [] h = tt
others-distinct id (e ∷ queue) h =
    ground (arith, others-distinct id queue h.1, is_queued-others_keeps e.0 id queue)

pub is_queued-append :
    (a : Text) (queue : List (Text × Option Text)) (e : Text × Option Text)
    → is_queued a (queue ++ (e ∷ [])) ≡ (is_queued a queue || (e.0 == a))
unfolding is_queued
is_queued-append a [] e = ground arith
is_queued-append a (x ∷ queue) e = ground (arith, is_queued-append a queue e)

pub append-distinct :
    (queue : List (Text × Option Text)) (e : Text × Option Text)
    → is_queued e.0 queue ≡ false
    → AreDistinct queue
    → AreDistinct (queue ++ (e ∷ []))
unfolding is_queued
append-distinct [] e h d = (refl, tt)
append-distinct (x ∷ queue) e h d =
    ground (arith, append-distinct queue e, is_queued-append x.0 queue e)

-- An agent that is let in is not in the resume queue.
pub write_agent-IsConsistent :
    (id : Text) (name : Option Text) (s : LiveBrowser)
    → is_queued id s.resume_queue ≡ false
    → AreDistinct s.resume_queue
    → IsConsistent (write_control agent (some id) name false s)
unfolding write_control touch_lease broadcast_control
write_agent-IsConsistent id name s q d = ground arith
