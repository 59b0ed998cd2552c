-- ===== src/Shell/Connected.antt =====
-- What stays true of the clients of ws_broadcaster.py over any sequence of calls.
use plain_text_gtd.Queues.{
  IsBelow, IsBelow-drop, IsDistinct, IsDistinct-add, IsDistinct-drop, contains-add, contains-drop,
  content, content-assign, or_false,
}
use plain_text_gtd.Prelude.{
  ℕ, ◌+◌, ◌<◌, ◌≤◌, Bool, true, false, List, [], ◌∷◌, length, length-append, Option, none, some,
  Assoc, lookup, assign, lookup-assign, lookup-remove, nat_eq, ◌==◌, contains, ltb, leb,
  if◌then◌else◌, ltb→lt, ◌≡◌, refl, sym, ap, subst, ◌∙◌, arith, Bool-cases, inl, inr, eq→≡,
}
use mathlib.Core.Bool.{true≢false}
use plain_text_gtd.Text.{Text}
use plain_text_gtd.Shell.Broadcaster.{
  ClientInfo, WebSocketBroadcaster, client_queue_max_size, max_consecutive_queue_full,
  new_broadcaster, queue_full_count, register, unregister, set_client_info, is_target, offer_all,
  disconnect_locked, disconnect_all, broadcast_to_matching, shutdown, receive, signal_all, taken,
}
use plain_text_gtd.Shell.Clients.{
  Client, client, tried, visited, reached, queue_full_count-assign, queue_full_count-remove, book,
  offer_all-book, broadcast_to_matching-client,
}

-- A call of the broadcaster, or of the queue of one client by its own thread.
pub data Request : Type 0 where
  registers : Request
  unregisters : ℕ → Request
  reports : ℕ → ClientInfo → Request
  sends : Option Text → Text → Request
  receives : ℕ → Request
  shuts_down : Request

unfoldable pub handled : Request → WebSocketBroadcaster → WebSocketBroadcaster
unfolding register unregister set_client_info broadcast_to_matching receive shutdown
handled registers s = (register s).1
handled (unregisters h) s = unregister h s
handled (reports h info) s = set_client_info h info s
handled (sends target text) s = broadcast_to_matching target text s
handled (receives h) s = receive h s
handled shuts_down s = shutdown s

unfoldable pub handled_all : List Request → WebSocketBroadcaster → WebSocketBroadcaster
unfolding handled
handled_all [] s = s
handled_all (r ∷ rs) s = handled_all rs (handled r s)

-- The bounds of one client, and that one who is not connected is not known.
abbrev pub IsBounded : Client → Type 0
IsBounded c =
    (c.full_count < max_consecutive_queue_full)
    × (length c.pending ≤ client_queue_max_size)
    × (c.connected ≡ false → c.info ≡ none)

abbrev pub IsSound : WebSocketBroadcaster → Type 0
IsSound s =
    IsDistinct s.client_queues
    × IsBelow s.next_queue s.client_queues
    × ((k : ℕ) → IsBounded (client k s))

never : (info : Option ClientInfo) → true ≡ false → info ≡ none
never info e = absurd (true≢false e)

reached-IsBounded :
    (target : Option Text) (text : Text) (c : Client)
    → IsBounded c
    → IsBounded (reached target text c)
unfolding reached visited tried
reached-IsBounded target text c (n, l, known) = elim (Bool-cases c.connected) [
  | inr a ↦ rw (a) (n, l, λ e. known a)
  | inl a ↦ elim (Bool-cases (is_target target c.info)) [
    | inr t ↦ rw (a, t) (n, l, never c.info)
    | inl t ↦ elim (Bool-cases (ltb (length c.pending) client_queue_max_size)) [
      | inl r ↦
          rw (a, t, r)
            (
              omega arith,
              omega (arith, length-append c.pending (some text ∷ []), ltb→lt _ _ r),
              never c.info,
            )
      | inr r ↦ elim (Bool-cases (leb max_consecutive_queue_full (c.full_count + 1))) [
        | inl d ↦ rw (a, t, r, d) (omega arith, omega arith, λ e. refl)
        | inr d ↦ rw (a, t, r, d) ((ground arith), l, never c.info)
      ]
    ]
  ]
]

abbrev IsKept : List ℕ × ℕ → Type 0
IsKept (hs, next) = IsDistinct hs × IsBelow next hs

disconnect_all-IsKept :
    (hs : List ℕ) (s : WebSocketBroadcaster) → IsKept (book s) → IsKept (book (disconnect_all hs s))
unfolding disconnect_all disconnect_locked unregister
disconnect_all-IsKept [] s u = u
disconnect_all-IsKept (h ∷ hs) s (u, b) =
    disconnect_all-IsKept hs (disconnect_locked h s)
      (IsDistinct-drop h s.client_queues u, IsBelow-drop s.next_queue h s.client_queues b)

either : {A : Type 0} (P : A → Type 0) (b : Bool) (x y : A) → P x → P y → P (if b then x else y)
either P true x y p q = p
either P false x y p q = q

abbrev IsTolerated : ℕ → Type 0
IsTolerated n = n < max_consecutive_queue_full

abbrev IsSmall : List (Option Text) → Type 0
IsSmall l = length l ≤ client_queue_max_size

registered : (s : WebSocketBroadcaster) → IsSound s → (k : ℕ) → IsBounded (client k (register s).1)
unfolding register
registered s (u, b, c) k = (
  rw (queue_full_count-assign k s.next_queue 0 s.consecutive_queue_full_by_id)
      (either IsTolerated (k == s.next_queue) 0 _ (omega arith) (c k).0),
  rw (content-assign k s.next_queue [] s.contents)
      (either IsSmall (k == s.next_queue) [] _ (omega arith) (c k).1),
  λ e. (c k).2 (or_false _ _ (sym (contains-add k s.next_queue s.client_queues) ∙ e)).0,
)

unregistered :
    (h : ℕ) (s : WebSocketBroadcaster) → IsSound s → (k : ℕ) → IsBounded (client k (unregister h s))
unfolding unregister
unregistered h s (u, b, c) k = (
  rw (queue_full_count-remove k h s.consecutive_queue_full_by_id)
      (either IsTolerated (k == h) 0 _ (omega arith) (c k).0),
  (c k).1,
  λ e. rw (lookup-remove h k s.client_info_by_queue_id) (elim (Bool-cases (k == h)) [
    | inl q ↦ rw (q) refl
    | inr q ↦ rw (q) ((c k).2 (rw (contains-drop k h s.client_queues u, q) at e))
  ]),
)

reported :
    (h : ℕ) (info : ClientInfo) (s : WebSocketBroadcaster)
    → contains s.client_queues h ≡ true
    → IsSound s
    → (k : ℕ) → contains s.client_queues k ≡ false
    → lookup k (assign h info s.client_info_by_queue_id) ≡ none
reported h info s q (u, b, c) k e = elim (Bool-cases (k == h)) [
  | inl p ↦ absurd (true≢false (sym q ∙ ap (contains s.client_queues) (sym (eq→≡ k h p)) ∙ e))
  | inr p ↦ rw (lookup-assign h k info s.client_info_by_queue_id, p) ((c k).2 e)
]

taken-IsSound :
    (h : ℕ) (l : List (Option Text)) (s : WebSocketBroadcaster)
    → IsSmall l
    → IsSound s
    → IsSound (taken h l s)
taken-IsSound h [] s small v = v
taken-IsSound h (m ∷ ms) s small (u, b, c) = (
  u,
  b,
  λ k. (
    (c k).0,
    rw (content-assign k h ms s.contents)
        (either IsSmall (k == h) ms _ (omega (arith, small)) (c k).1),
    (c k).2,
  ),
)

signal_all-IsSmall :
    (k : ℕ) (hs : List ℕ) (c : Assoc ℕ (List (Option Text)))
    → IsSmall (content k c)
    → IsSmall (content k (signal_all hs c))
unfolding signal_all
signal_all-IsSmall k [] c l = l
signal_all-IsSmall k (h ∷ hs) c l =
    signal_all-IsSmall k hs (assign h (none ∷ []) c) (
      rw (content-assign k h (none ∷ []) c) (either IsSmall (k == h) (none ∷ []) _ (omega arith) l))

handled-IsSound : (r : Request) (s : WebSocketBroadcaster) → IsSound s → IsSound (handled r s)
unfolding handled register unregister set_client_info broadcast_to_matching receive shutdown
    queue_full_count lookup
handled-IsSound registers s (u, b, c) =
    let (u', b') = IsDistinct-add s.next_queue s.client_queues u b in
    (u', b', registered s (u, b, c))
handled-IsSound (unregisters h) s (u, b, c) = (
  IsDistinct-drop h s.client_queues u,
  IsBelow-drop s.next_queue h s.client_queues b,
  unregistered h s (u, b, c),
)
handled-IsSound (reports h info) s (u, b, c) = elim (Bool-cases (contains s.client_queues h)) [
  | inl q ↦ rw (q) (u, b, λ k. ((c k).0, (c k).1, reported h info s q (u, b, c) k))
  | inr q ↦ rw (q) (u, b, c)
]
handled-IsSound (sends target text) s (u, b, c) =
    let (dead, s') = offer_all target text s.client_queues s in
    let kept = subst IsKept (sym (offer_all-book target text s.client_queues s)) (u, b) in
    let (u', b') = disconnect_all-IsKept dead s' kept in
    (
      u',
      b',
      λ k.
          subst IsBounded (sym (broadcast_to_matching-client k target text s u))
            (reached-IsBounded target text (client k s) (c k)),
    )
handled-IsSound (receives h) s (u, b, c) =
    taken-IsSound h (content h s.contents) s (c h).1 (u, b, c)
handled-IsSound shuts_down s (u, b, c) =
    (tt, tt, λ k. (omega arith, signal_all-IsSmall k s.client_queues s.contents (c k).1, λ e. refl))

handled_all-kept :
    (rs : List Request) (s : WebSocketBroadcaster) → IsSound s → IsSound (handled_all rs s)
unfolding handled_all
handled_all-kept [] s v = v
handled_all-kept (r ∷ rs) s v = handled_all-kept rs (handled r s) (handled-IsSound r s v)

new_broadcaster-IsSound : IsSound new_broadcaster
unfolding content queue_full_count lookup
new_broadcaster-IsSound = (tt, tt, λ k. (omega arith, omega arith, λ e. refl))

-- Whatever clients come, report themselves, receive and go, and whatever is sent to all or to the
-- clients of a layout, and even after a shutdown: no client is connected twice; no client's count of
-- broadcasts in a row that found its queue full is at fifty; no queue is longer than a thousand; and
-- nothing is known of a client that is not connected.
pub handled_all-IsSound : (rs : List Request) → IsSound (handled_all rs new_broadcaster)
handled_all-IsSound rs = handled_all-kept rs new_broadcaster new_broadcaster-IsSound
