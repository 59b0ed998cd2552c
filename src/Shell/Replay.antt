-- ===== src/Shell/Replay.antt =====
-- What one who registers late receives.
use plain_text_gtd.Queues.{or_empty}
use plain_text_gtd.Prelude.{
  Bool, true, false, ◌||◌, List, [], ◌∷◌, ◌++◌, Assoc, lookup, lookup-assign, lookup-remove, nat_eq,
  text_eq, ◌==◌, if◌then◌else◌, ◌≡◌, refl, sym, ap, ◌∙◌, Bool-cases, inl, inr, eq→≡,
}
use mathlib.Core.List.{append_assoc, append-nil}
use plain_text_gtd.Text.{Text}
use plain_text_gtd.Shell.EventQueues.{
  BufferBehavior, store, ignore, flush, AgentEventQueues, buffer, broadcast,
}

-- A broadcast: the agent, the behaviour and the event.
abbrev pub Broadcast : Type 0 → Type 0
Broadcast E = Text × BufferBehavior × E

module _ {E : Type 0} where
  unfoldable pub broadcast_all : List (Broadcast E) → AgentEventQueues E → AgentEventQueues E
  unfolding broadcast
  broadcast_all [] s = s
  broadcast_all ((a, b, e) ∷ sent) s = broadcast_all sent (broadcast a b e s)

  -- Some broadcast to the agent flushes.
  unfoldable pub has_flush : Text → List (Broadcast E) → Bool
  unfolding text_eq
  has_flush agent [] = false
  has_flush agent ((a, flush, e) ∷ sent) = agent == a || has_flush agent sent
  has_flush agent ((a, _, e) ∷ sent) = has_flush agent sent

  -- The events for the agent that are stored and behind which none flushes.
  unfoldable pub since_flush : Text → List (Broadcast E) → List E
  unfolding has_flush text_eq
  since_flush agent [] = []
  since_flush agent ((a, store, e) ∷ sent) =
      let rest = since_flush agent sent in
      if agent == a then (if has_flush agent sent then rest else e ∷ rest) else rest
  since_flush agent ((a, _, e) ∷ sent) = since_flush agent sent

  -- All the events for the agent.
  unfoldable pub events_for : Text → List (Broadcast E) → List E
  unfolding text_eq
  events_for agent [] = []
  events_for agent ((a, b, e) ∷ sent) =
      let rest = events_for agent sent in if agent == a then e ∷ rest else rest

  -- What the buffer had goes where some broadcast flushes.
  unfoldable pub kept : Bool → List E → List E
  kept true old = []
  kept false old = old

  abbrev pub buffered : Text → Assoc Text (List E) → List E
  buffered agent buffers = or_empty (lookup agent buffers)

  kept_store :
      (flushed : Bool) (old rest : List E) (e : E)
      → kept flushed (old ++ (e ∷ [])) ++ rest
        ≡ kept flushed old ++ (if flushed then rest else e ∷ rest)
  unfolding kept
  kept_store true old rest e = refl
  kept_store false old rest e = append_assoc old (e ∷ []) rest

  pub kept_nothing : (flushed : Bool) → kept flushed [] ≡ []
  unfolding kept
  kept_nothing true = refl
  kept_nothing false = refl

  buffered-buffer :
      (agent a : Text) (b : BufferBehavior) (e : E) (buffers : Assoc Text (List E))
      (sent : List (Broadcast E))
      → kept (has_flush agent sent) (buffered agent (buffer a b e buffers))
          ++ since_flush agent sent
        ≡ kept (has_flush agent ((a, b, e) ∷ sent)) (buffered agent buffers)
          ++ since_flush agent ((a, b, e) ∷ sent)
  unfolding kept has_flush since_flush buffer
  buffered-buffer agent a store e buffers sent = elim (Bool-cases (agent == a)) [
    | inl q ↦
        rw (lookup-assign a agent (or_empty (lookup a buffers) ++ (e ∷ [])) buffers, q)
          (ap
              (λ x.
                kept (has_flush agent sent) (or_empty (lookup x buffers) ++ (e ∷ []))
                ++ since_flush agent sent)
              (sym (eq→≡ agent a q))
            ∙ kept_store (has_flush agent sent) (buffered agent buffers) (since_flush agent sent) e)
    | inr q ↦ rw (lookup-assign a agent (or_empty (lookup a buffers) ++ (e ∷ [])) buffers, q) refl
  ]
  buffered-buffer agent a ignore e buffers sent = refl
  buffered-buffer agent a flush e buffers sent = elim (Bool-cases (agent == a)) [
    | inl q ↦
        rw (lookup-remove a agent buffers, q)
          (ap (λ l. l ++ since_flush agent sent) (kept_nothing (has_flush agent sent)))
    | inr q ↦ rw (lookup-remove a agent buffers, q) refl
  ]

  pub broadcast_all-buffered :
      (agent : Text) (sent : List (Broadcast E)) (s : AgentEventQueues E)
      → buffered agent (broadcast_all sent s).event_buffers
        ≡ kept (has_flush agent sent) (buffered agent s.event_buffers) ++ since_flush agent sent
  unfolding broadcast_all kept has_flush since_flush
  broadcast_all-buffered agent [] s = sym (append-nil _)
  broadcast_all-buffered agent ((a, b, e) ∷ sent) s =
      broadcast_all-buffered agent sent (broadcast a b e s)
      ∙ buffered-buffer agent a b e s.event_buffers sent
