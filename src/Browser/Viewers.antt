-- ===== src/Browser/Viewers.antt =====
-- What a viewer of a browser finds in its queue.
use plain_text_gtd.Queues.{
  content, content-assign, IsDistinct, IsBelow, or_false, or_true, IsDistinct-add, contains-add,
}
use plain_text_gtd.Prelude.{
  ℕ, suc, ◌≤◌, true, false, List, [], ◌∷◌, ◌++◌, map, length, Option, none, some, Assoc, assign,
  nat_eq, ◌==◌, contains, latest, pushed, latest-pushed, latest-latest, latest-short, length-latest,
  ◌≡◌, refl, sym, ap, subst, ◌∙◌, arith, Bool-cases, inl, inr, ≡→eq, eq→≡,
}
use mathlib.Core.List.{append_assoc, append-nil}
use mathlib.Core.Bool.{true≢false}
use plain_text_gtd.Browser.{LiveBrowser, init, running, crashed, Lifecycle}
use plain_text_gtd.Browser.Cast.{
  CastMessage, CastQueues, cast_queue_max_size, seed, seed_of, register_cast_queue, push_all,
  broadcast_cast,
}

module _ {T F : Type 0} where
  unfoldable pub broadcast_casts : List (CastMessage T F) → CastQueues T F → CastQueues T F
  unfolding broadcast_cast
  broadcast_casts [] q = q
  broadcast_casts (m ∷ ms) q = broadcast_casts ms (broadcast_cast m q)

  push_all-absent :
      (k : ℕ) (hs : List ℕ) (m : Option (CastMessage T F))
      (c : Assoc ℕ (List (Option (CastMessage T F))))
      → contains hs k ≡ false
      → content k (push_all hs m c) ≡ content k c
  unfolding push_all
  push_all-absent k [] m c e = refl
  push_all-absent k (h ∷ hs) m c e =
      let (q, e') = or_false (k == h) (contains hs k) e in
      push_all-absent k hs m (assign h (pushed cast_queue_max_size (content h c) m) c) e'
      ∙ rw (content-assign k h (pushed cast_queue_max_size (content h c) m) c, q) refl

  push_all-present :
      (k : ℕ) (hs : List ℕ) (m : Option (CastMessage T F))
      (c : Assoc ℕ (List (Option (CastMessage T F))))
      → IsDistinct hs
      → contains hs k ≡ true
      → content k (push_all hs m c) ≡ pushed cast_queue_max_size (content k c) m
  unfolding push_all
  push_all-present k [] m c u e = absurd (true≢false (sym e))
  push_all-present k (h ∷ hs) m c u e = elim (Bool-cases (k == h)) [
    | inl q ↦
        push_all-absent k hs m (assign h (pushed cast_queue_max_size (content h c) m) c)
          (ap (contains hs) (eq→≡ k h q) ∙ u.0)
        ∙ (rw (content-assign k h (pushed cast_queue_max_size (content h c) m) c, q)
            (ap (λ a. pushed cast_queue_max_size (content a c) m) (sym (eq→≡ k h q))))
    | inr q ↦
        push_all-present k hs m (assign h (pushed cast_queue_max_size (content h c) m) c) u.1
          (rw q at e)
        ∙ ap (λ l. pushed cast_queue_max_size l m)
            (rw (content-assign k h (pushed cast_queue_max_size (content h c) m) c, q) refl)
  ]

  broadcast_casts-latest :
      (k : ℕ) (ms : List (CastMessage T F)) (q : CastQueues T F)
      → IsDistinct q.cast_queues
      → contains q.cast_queues k ≡ true
      → length (content k q.contents) ≤ cast_queue_max_size
      → content k (broadcast_casts ms q).contents
        ≡ latest cast_queue_max_size (content k q.contents ++ map some ms)
  unfolding broadcast_casts broadcast_cast
  broadcast_casts-latest k [] q u e l = sym (
      ap (latest cast_queue_max_size) (append-nil (content k q.contents))
      ∙ latest-short cast_queue_max_size (content k q.contents) l)
  broadcast_casts-latest k (m ∷ ms) q u e l =
      let after = content k q.contents ++ (some m ∷ []) in
      let pushed_now =
        push_all-present k q.cast_queues (some m) q.contents u e
        ∙ latest-pushed cast_queue_max_size (content k q.contents) (some m) l (omega arith) in
      broadcast_casts-latest k ms (broadcast_cast m q) u e (
        subst (λ t. length t ≤ cast_queue_max_size) (sym pushed_now)
          (length-latest cast_queue_max_size after))
      ∙ ap (λ t. latest cast_queue_max_size (t ++ map some ms)) pushed_now
      ∙ latest-latest cast_queue_max_size after (map some ms)
      ∙ ap (latest cast_queue_max_size)
          (append_assoc (content k q.contents) (some m ∷ []) (map some ms))

  seed-short :
      (tabs : T) (frame : Option F) (start seen : LiveBrowser)
      → length (map some (seed tabs frame start seen)) ≤ 3
  unfolding seed
  seed-short tabs frame start seen = few seen.lifecycle frame
    where
      few :
          (l : Lifecycle) (frame : Option F)
          → suc (suc (length (map some (seed_of {T = T} l frame)))) ≤ 3
      few init frame = omega arith
      few running none = omega arith
      few running (some f) = omega arith
      few crashed frame = omega arith

  broadcast_casts-queues :
      (ms : List (CastMessage T F)) (q : CastQueues T F)
      → ((broadcast_casts ms q).cast_queues ≡ q.cast_queues)
        × ((broadcast_casts ms q).next_queue ≡ q.next_queue)
  unfolding broadcast_casts broadcast_cast
  broadcast_casts-queues [] q = (refl, refl)
  broadcast_casts-queues (m ∷ ms) q = broadcast_casts-queues ms (broadcast_cast m q)

  registered-latest :
      (tabs : T) (frame : Option F) (start seen : LiveBrowser) (ms : List (CastMessage T F))
      (q : CastQueues T F)
      → IsDistinct q.cast_queues
      → IsBelow q.next_queue q.cast_queues
      → let (h, r) = register_cast_queue tabs frame start seen q in
        content h (broadcast_casts ms r).contents
        ≡ latest cast_queue_max_size (map some (seed tabs frame start seen) ++ map some ms)
  unfolding register_cast_queue
  registered-latest tabs frame start seen ms q u b =
      let (h, r) = register_cast_queue tabs frame start seen q in
      let seeded : content h r.contents ≡ map some (seed tabs frame start seen) =
        rw (content-assign h h (map some (seed tabs frame start seen)) q.contents, ≡→eq h h refl)
          refl in
      let short = seed-short tabs frame start seen in
      broadcast_casts-latest h ms r (IsDistinct-add q.next_queue q.cast_queues u b).0
        (rw (contains-add h h q.cast_queues, ≡→eq h h refl) (or_true (contains q.cast_queues h)))
        (subst (λ t. length t ≤ cast_queue_max_size) (sym seeded) (omega (arith, short)))
      ∙ ap (λ t. latest cast_queue_max_size (t ++ map some ms)) seeded

  -- A viewer that takes nothing from its queue finds in it the last sixteen of the messages that it was
  -- given when it came and of those that were broadcast since it joined, in their order: the oldest go
  -- first, and the latest message is always there. What is broadcast while it is being registered, after
  -- its control message was made and before it joined, is not among them. This is where no queue is
  -- registered twice and the number of each is below the next.
  pub register_cast_queue-latest :
      (tabs : T) (frame : Option F) (start seen : LiveBrowser) (missed ms : List (CastMessage T F))
      (q : CastQueues T F)
      → IsDistinct q.cast_queues
      → IsBelow q.next_queue q.cast_queues
      → let (h, r) = register_cast_queue tabs frame start seen (broadcast_casts missed q) in
        content h (broadcast_casts ms r).contents
        ≡ latest cast_queue_max_size (map some (seed tabs frame start seen) ++ map some ms)
  register_cast_queue-latest tabs frame start seen missed ms q u b =
      let (queues, number) = broadcast_casts-queues missed q in
      registered-latest tabs frame start seen ms (broadcast_casts missed q)
        (subst IsDistinct (sym queues) u) (rw (queues, number) b)
