-- ===== src/Shell/Delivered.antt =====
-- What is in the queue of one who registered, after further broadcasts.
use plain_text_gtd.Queues.{content, or_empty}
use plain_text_gtd.Prelude.{
  ℕ, ◌<◌, Bool, true, false, List, [], ◌∷◌, ◌++◌, map, Option, some, Assoc, lookup, lookup-assign,
  nat_eq, text_eq, ◌==◌, if◌then◌else◌, ◌≡◌, refl, sym, ap, ◌∙◌, All, arith, Bool-cases, inl, inr,
  eq→≡, ≡→eq,
}
use mathlib.Core.List.{append_assoc, append-nil}
use plain_text_gtd.Text.{Text}
use plain_text_gtd.Shell.EventQueues.{
  BufferBehavior, AgentEventQueues, put, put_all, register, broadcast,
}
use plain_text_gtd.Shell.Replay.{
  Broadcast, broadcast_all, has_flush, since_flush, events_for, kept, kept_nothing, buffered,
  broadcast_all-buffered,
}

-- The queue is the last of the agent's, and newer than all others.
abbrev IsNewest : Text → ℕ → Assoc Text (List ℕ) → Type 0
IsNewest agent h queues =
    ((hs : List ℕ) × (lookup agent queues ≡ some (hs ++ (h ∷ []))) × All (λ k. k < h) hs)
    × ((a : Text) → (a == agent) ≡ false → All (λ k. k < h) (or_empty (lookup a queues)))

module _ {E : Type 0} where
  content-put :
      (h k : ℕ) (e : Option E) (c : Assoc ℕ (List (Option E)))
      → content h (put k e c) ≡ (if h == k then content k c ++ (e ∷ []) else content h c)
  unfolding content put
  content-put h k e c = elim (Bool-cases (h == k)) [
    | inl q ↦ rw (lookup-assign k h (content k c ++ (e ∷ [])) c, q) refl
    | inr q ↦ rw (lookup-assign k h (content k c ++ (e ∷ [])) c, q) refl
  ]

  put_all-below :
      (h : ℕ) (hs : List ℕ) (e : Option E) (c : Assoc ℕ (List (Option E)))
      → All (λ k. k < h) hs
      → content h (put_all hs e c) ≡ content h c
  unfolding put_all
  put_all-below h [] e c a = refl
  put_all-below h (k ∷ hs) e c a =
      put_all-below h hs e (put k e c) a.1 ∙ content-put h k e c ∙ (rw (differs h k a.0) refl)
    where
      differs : (h k : ℕ) → k < h → (h == k) ≡ false
      differs h k l = ground arith

  put_all-last :
      (h : ℕ) (hs : List ℕ) (e : Option E) (c : Assoc ℕ (List (Option E)))
      → All (λ k. k < h) hs
      → content h (put_all (hs ++ (h ∷ [])) e c) ≡ content h c ++ (e ∷ [])
  unfolding put_all
  put_all-last h [] e c a = content-put h h e c ∙ (rw (≡→eq h h refl) refl)
  put_all-last h (k ∷ hs) e c a =
      put_all-last h hs e (put k e c) a.1
      ∙ ap (λ l. l ++ (e ∷ [])) (content-put h k e c ∙ (rw (differs h k a.0) refl))
    where
      differs : (h k : ℕ) → k < h → (h == k) ≡ false
      differs h k l = ground arith

  content-broadcast :
      (agent a : Text) (h : ℕ) (b : BufferBehavior) (e : E) (s : AgentEventQueues E)
      → IsNewest agent h s.queues
      → content h (broadcast a b e s).contents
        ≡ content h s.contents ++ (if agent == a then some e ∷ [] else [])
  unfolding broadcast
  content-broadcast agent a h b e s ((hs, q, below), others) = elim (Bool-cases (agent == a)) [
    | inl p ↦ rw p (
        ap (λ x. content h (put_all (or_empty (lookup x s.queues)) (some e) s.contents))
          (sym (eq→≡ agent a p))
        ∙ ap (λ o. content h (put_all (or_empty o) (some e) s.contents)) q
        ∙ put_all-last h hs (some e) s.contents below)
    | inr p ↦ rw p (
        put_all-below h (or_empty (lookup a s.queues)) (some e) s.contents (others a (other p))
        ∙ sym (append-nil _))
  ]
    where
      other : (agent == a) ≡ false → (a == agent) ≡ false
      other p = ground arith

  content-broadcast_all :
      (agent : Text) (h : ℕ) (sent : List (Broadcast E)) (s : AgentEventQueues E)
      → IsNewest agent h s.queues
      → content h (broadcast_all sent s).contents
        ≡ content h s.contents ++ map some (events_for agent sent)
  unfolding broadcast_all events_for
  content-broadcast_all agent h [] s n = sym (append-nil _)
  content-broadcast_all agent h ((a, b, e) ∷ sent) s n =
      content-broadcast_all agent h sent (broadcast a b e s) n
      ∙ ap (λ l. l ++ map some (events_for agent sent)) (content-broadcast agent a h b e s n)
      ∙ append_assoc (content h s.contents) (if agent == a then some e ∷ [] else []) _
      ∙ ap (λ l. content h s.contents ++ l) (ahead (agent == a))
    where
      ahead :
          (c : Bool)
          → (if c then some e ∷ [] else []) ++ map some (events_for agent sent)
            ≡ map some (if c then e ∷ events_for agent sent else events_for agent sent)
      ahead true = refl
      ahead false = refl

  broadcast_all-same :
      (sent : List (Broadcast E)) (s : AgentEventQueues E)
      → let t = broadcast_all sent s in
        (t.queues ≡ s.queues) × (t.next_queue ≡ s.next_queue) × (t.is_shutdown ≡ s.is_shutdown)
  unfolding broadcast_all broadcast
  broadcast_all-same [] s = (refl, refl, refl)
  broadcast_all-same ((a, b, e) ∷ sent) s = broadcast_all-same sent (broadcast a b e s)

  -- The queue that `register` makes: it holds the buffer, and is the newest of its agent.
  registered :
      (agent : Text) (s : AgentEventQueues E)
      → s.is_shutdown ≡ false
      → ((a : Text) → All (λ k. k < s.next_queue) (or_empty (lookup a s.queues)))
      → let (h, t) = register agent s in
        (content h t.contents ≡ map some (buffered agent s.event_buffers))
        × IsNewest agent h t.queues
  unfolding register content
  registered agent s live below = rw live (
    rw
        (
          lookup-assign s.next_queue s.next_queue (map some (buffered agent s.event_buffers))
              s.contents,
          ≡→eq s.next_queue s.next_queue refl,
        )
        refl,
    (
      (
        or_empty (lookup agent s.queues),
        lookup-assign agent agent (or_empty (lookup agent s.queues) ++ (s.next_queue ∷ [])) s.queues
            ∙ (rw (≡→eq agent agent refl) refl),
        below agent,
      ),
      λ a n.
          rw
            (
              lookup-assign agent a (or_empty (lookup agent s.queues) ++ (s.next_queue ∷ []))
                  s.queues,
              n,
            )
            (below a),
    ),
  )

  -- Broadcasts are made, one registers for an agent, and more broadcasts are made, each whole before
  -- the next call, in a state that is not shut down, whose buffers are empty and whose queues are
  -- numbered below the next. The queue of the one who registers then has, in this order: the events
  -- for the agent that were stored behind the last flush, and every later event for it, whether it
  -- is stored or not, and none for another agent.
  pub register_replays :
      (agent : Text) (before after : List (Broadcast E)) (s : AgentEventQueues E)
      → s.is_shutdown ≡ false
      → s.event_buffers ≡ []
      → ((a : Text) → All (λ k. k < s.next_queue) (or_empty (lookup a s.queues)))
      → let (h, t) = register agent (broadcast_all before s) in
        content h (broadcast_all after t).contents
        ≡ map some (since_flush agent before) ++ map some (events_for agent after)
  unfolding lookup
  register_replays agent before after s live fresh below =
      let s1 = broadcast_all before s in
      let same = broadcast_all-same before s in
      let new = registered agent s1 (same.2 ∙ live) (λ a. rw (same.0, same.1) (below a)) in
      content-broadcast_all agent (register agent s1).0 after (register agent s1).1 new.1
      ∙ ap (λ l. l ++ map some (events_for agent after))
          (new.0
            ∙ ap (map some)
                (broadcast_all-buffered agent before s ∙ from_nothing (has_flush agent before)))
    where
      from_nothing :
          (flushed : Bool)
          → kept flushed (buffered agent s.event_buffers) ++ since_flush agent before
            ≡ since_flush agent before
      from_nothing flushed =
          rw fresh (ap (λ l. l ++ since_flush agent before) (kept_nothing flushed))
