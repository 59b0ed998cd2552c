-- ===== src/Shell/EventQueues.antt =====
-- event_queues.py: the queues of events of each agent, and what is kept for those who come late. A
-- queue is known by a number, where the code has an object; `contents` has what was put in each and not
-- taken out. `BufferBehavior` is of events.py. An event is what is left without `buffer_behavior`.
use plain_text_gtd.Queues.{content, drop_queue, or_empty}
use plain_text_gtd.Prelude.{
  ℕ, ◌+◌, Bool, true, false, List, [], ◌∷◌, ◌++◌, map, Option, none, some, Assoc, lookup, assign,
  remove, nat_eq, text_eq, if◌then◌else◌,
}
use plain_text_gtd.Text.{Text}

-- `BufferBehavior`
pub data BufferBehavior : Type 0 where
  store ignore flush : BufferBehavior

pub record AgentEventQueues (E : Type 0) : Type 0 where
  pub queues : Assoc Text (List ℕ)
  pub event_buffers : Assoc Text (List E)
  pub contents : Assoc ℕ (List (Option E))
  pub next_queue : ℕ
  pub is_shutdown : Bool

abbrev keep_queues : Text → List ℕ → Assoc Text (List ℕ) → Assoc Text (List ℕ)
keep_queues agent_id [] queues = remove ⦃e = text_eq⦄ agent_id queues
keep_queues agent_id (h ∷ hs) queues = assign ⦃e = text_eq⦄ agent_id (h ∷ hs) queues

abbrev left_queues : Text → ℕ → Option (List ℕ) → Assoc Text (List ℕ) → Assoc Text (List ℕ)
left_queues agent_id h none queues = queues
left_queues agent_id h (some hs) queues = keep_queues agent_id (drop_queue h hs) queues

module _ {E : Type 0} where
  -- `AgentEventQueues()`
  abbrev pub new_queues : AgentEventQueues E
  new_queues = record {
    queues = [];
    event_buffers = [];
    contents = [];
    next_queue = 0;
    is_shutdown = false;
  }

  -- `event_queue.put_nowait(event)`; a queue has no bound
  unfoldable pub put : ℕ → Option E → Assoc ℕ (List (Option E)) → Assoc ℕ (List (Option E))
  unfolding content assign nat_eq
  put h e c = assign h (content h c ++ (e ∷ [])) c

  unfoldable pub put_all : List ℕ → Option E → Assoc ℕ (List (Option E)) → Assoc ℕ (List (Option E))
  unfolding put
  put_all [] e c = c
  put_all (h ∷ hs) e c = put_all hs e (put h e c)

  -- `register`
  unfoldable pub register : Text → AgentEventQueues E → ℕ × AgentEventQueues E
  unfolding lookup assign text_eq nat_eq
  register agent_id s =
      let h = s.next_queue in
      let made = record s { next_queue = h + 1 } in
      if s.is_shutdown then (h, record made { contents = assign h (none ∷ []) s.contents }) else (
        h,
        record made {
          contents = assign h (map some (or_empty (lookup agent_id s.event_buffers))) s.contents;
          queues = assign agent_id (or_empty (lookup agent_id s.queues) ++ (h ∷ [])) s.queues;
        },
      )

  -- `unregister`
  unfoldable pub unregister : Text → ℕ → AgentEventQueues E → AgentEventQueues E
  unfolding drop_queue lookup assign remove text_eq
  unregister agent_id h s = record s {
    queues = left_queues agent_id h (lookup agent_id s.queues) s.queues;
  }

  -- What a broadcast does to the buffers.
  unfoldable pub buffer : Text → BufferBehavior → E → Assoc Text (List E) → Assoc Text (List E)
  unfolding lookup assign remove text_eq
  buffer agent_id store event buffers =
      assign agent_id (or_empty (lookup agent_id buffers) ++ (event ∷ [])) buffers
  buffer agent_id ignore event buffers = buffers
  buffer agent_id flush event buffers = remove agent_id buffers

  -- The part of `broadcast` under the lock: the queues that the event will go to, and the buffers
  unfoldable pub broadcast_locked :
      Text → BufferBehavior → E → AgentEventQueues E → List ℕ × AgentEventQueues E
  unfolding buffer lookup text_eq
  broadcast_locked agent_id behavior event s = (
    or_empty (lookup agent_id s.queues),
    record s { event_buffers = buffer agent_id behavior event s.event_buffers },
  )

  -- The part that follows, without the lock
  unfoldable pub deliver : List ℕ → E → AgentEventQueues E → AgentEventQueues E
  unfolding put_all
  deliver queues event s = record s { contents = put_all queues (some event) s.contents }

  -- `broadcast`, where nothing comes between its two parts
  unfoldable pub broadcast : Text → BufferBehavior → E → AgentEventQueues E → AgentEventQueues E
  unfolding broadcast_locked deliver
  broadcast agent_id behavior event s =
      let (queues, t) = broadcast_locked agent_id behavior event s in deliver queues event t

  -- `broadcast_all_ignored`
  unfoldable pub broadcast_all_ignored : Text → List E → AgentEventQueues E → AgentEventQueues E
  unfolding broadcast
  broadcast_all_ignored agent_id [] s = s
  broadcast_all_ignored agent_id (event ∷ events) s =
      broadcast_all_ignored agent_id events (broadcast agent_id ignore event s)

  unfoldable pub close_all :
      Assoc Text (List ℕ) → Assoc ℕ (List (Option E)) → Assoc ℕ (List (Option E))
  unfolding put_all
  close_all [] c = c
  close_all (e ∷ queues) c = close_all queues (put_all e.1 none c)

  -- `shutdown`
  unfoldable pub shutdown : AgentEventQueues E → AgentEventQueues E
  unfolding close_all
  shutdown s = record s {
    is_shutdown = true;
    contents = close_all s.queues s.contents;
    queues = [];
    event_buffers = [];
  }
