-- ===== src/Browser/Cast.antt =====
-- session.py: the queues of the viewers of a browser, which carry its live picture. A queue is known by
-- a number, where the code has an object; `contents` has what was put in each and not taken out, and
-- `none` for the end. What a message says of the tabs and of the picture is of any type.
use plain_text_gtd.Queues.{content, drop_queue}
use plain_text_gtd.Prelude.{
  ℕ, ◌+◌, List, [], ◌∷◌, ◌++◌, map, Option, none, some, Assoc, assign, nat_eq, pushed,
}
use plain_text_gtd.Browser.{LiveBrowser, ControlMessage, Lifecycle, init, running, crashed}
use plain_text_gtd.Browser.Control.{control_message}

-- `_CAST_QUEUE_MAX_SIZE`
abbrev pub cast_queue_max_size : ℕ
cast_queue_max_size = 16

pub data CastMessage (T F : Type 0) : Type 0 where
  control_message_of : ControlMessage → CastMessage T F
  tabs_of : T → CastMessage T F
  crash_of : CastMessage T F
  frame_of : F → CastMessage T F

pub record CastQueues (T F : Type 0) : Type 0 where
  pub cast_queues : List ℕ
  pub contents : Assoc ℕ (List (Option (CastMessage T F)))
  pub next_queue : ℕ

module _ {T F : Type 0} where
  abbrev frame_or_none : Option F → List (CastMessage T F)
  frame_or_none none = []
  frame_or_none (some frame) = frame_of frame ∷ []

  abbrev pub seed_of : Lifecycle → Option F → List (CastMessage T F)
  seed_of init frame = []
  seed_of running frame = frame_or_none frame
  seed_of crashed frame = crash_of ∷ []

  -- What a new queue is given: `tabs` are those of `_tab_list`, `frame` the last one or one just taken.
  -- The control message is of the browser as it is at the start, and the lifecycle that decides on the
  -- rest is read once the tabs are there.
  unfoldable pub seed : T → Option F → LiveBrowser → LiveBrowser → List (CastMessage T F)
  unfolding control_message
  seed tabs frame start seen =
      control_message_of (control_message start) ∷ tabs_of tabs ∷ seed_of seen.lifecycle frame

  -- `register_cast_queue`, which waits for the tabs and for a picture: the browser at the start and once
  -- the tabs are there, and the queues as they are at the end, when the new one joins them
  unfoldable pub register_cast_queue :
      T → Option F → LiveBrowser → LiveBrowser → CastQueues T F → ℕ × CastQueues T F
  unfolding seed assign nat_eq
  register_cast_queue tabs frame start seen q = (
    q.next_queue,
    record {
      cast_queues = q.cast_queues ++ (q.next_queue ∷ []);
      contents = assign q.next_queue (map some (seed tabs frame start seen)) q.contents;
      next_queue = q.next_queue + 1;
    },
  )

  -- `unregister_cast_queue`
  unfoldable pub unregister_cast_queue : ℕ → CastQueues T F → CastQueues T F
  unfolding drop_queue
  unregister_cast_queue h q = record q { cast_queues = drop_queue h q.cast_queues }

  -- The loops of `_broadcast` and of `_shutdown_cast_queues`
  unfoldable pub push_all :
      List ℕ
      → Option (CastMessage T F)
      → Assoc ℕ (List (Option (CastMessage T F)))
      → Assoc ℕ (List (Option (CastMessage T F)))
  unfolding content assign nat_eq
  push_all [] m c = c
  push_all (h ∷ hs) m c = push_all hs m (assign h (pushed cast_queue_max_size (content h c) m) c)

  -- `_broadcast`
  unfoldable pub broadcast_cast : CastMessage T F → CastQueues T F → CastQueues T F
  unfolding push_all
  broadcast_cast m q = record q { contents = push_all q.cast_queues (some m) q.contents }

  -- `_shutdown_cast_queues`
  unfoldable pub shutdown_cast_queues : CastQueues T F → CastQueues T F
  unfolding push_all
  shutdown_cast_queues q = record q { contents = push_all q.cast_queues none q.contents }
