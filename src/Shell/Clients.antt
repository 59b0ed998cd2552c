-- ===== src/Shell/Clients.antt =====
-- What a broadcast of ws_broadcaster.py does to each client, told as a machine of one client.
use plain_text_gtd.Queues.{
  IsDistinct, IsDistinct-drop, contains-drop, content, content-assign, or_false,
}
use plain_text_gtd.Prelude.{
  ℕ, ◌+◌, Bool, true, false, List, [], ◌∷◌, ◌++◌, length, Option, none, some, Assoc, lookup, assign,
  remove, lookup-assign, lookup-remove, nat_eq, text_eq, ◌==◌, ◌||◌, ◌&&◌, contains, ltb, leb,
  if◌then◌else◌, ◌≡◌, refl, sym, ap, subst, ◌∙◌, arith, Bool-cases, inl, inr, eq→≡, ≡→eq,
}
use mathlib.Core.Bool.{true≢false}
use plain_text_gtd.Text.{Text}
use plain_text_gtd.Shell.Broadcaster.{
  ClientInfo, WebSocketBroadcaster, client_queue_max_size, max_consecutive_queue_full,
  queue_full_count, unregister, is_target, visit, offer, offer_all, disconnect_locked,
  disconnect_all, broadcast_to_matching,
}

pub queue_full_count-assign :
    (k h n : ℕ) (counts : Assoc ℕ ℕ)
    → queue_full_count k (assign h n counts) ≡ (if k == h then n else queue_full_count k counts)
unfolding queue_full_count
queue_full_count-assign k h n counts = elim (Bool-cases (k == h)) [
  | inl q ↦ rw (lookup-assign h k n counts, q) refl
  | inr q ↦ rw (lookup-assign h k n counts, q) refl
]

pub queue_full_count-remove :
    (k h : ℕ) (counts : Assoc ℕ ℕ)
    → queue_full_count k (remove h counts) ≡ (if k == h then 0 else queue_full_count k counts)
unfolding queue_full_count
queue_full_count-remove k h counts = elim (Bool-cases (k == h)) [
  | inl q ↦ rw (lookup-remove h k counts, q) refl
  | inr q ↦ rw (lookup-remove h k counts, q) refl
]

-- What the broadcaster has of one client.
pub record Client : Type 0 where
  pub pending : List (Option Text)
  pub full_count : ℕ
  pub info : Option ClientInfo
  pub connected : Bool

abbrev pub client : ℕ → WebSocketBroadcaster → Client
client k s = record {
  pending = content k s.contents;
  full_count = queue_full_count k s.consecutive_queue_full_by_id;
  info = lookup k s.client_info_by_queue_id;
  connected = contains s.client_queues k;
}

-- A client that is given up: its queue has the end of the connection alone.
abbrev pub gone : Client
gone = record { pending = none ∷ []; full_count = 0; info = none; connected = false }

-- A message for one client, and whether it is the last straw.
unfoldable pub tried : Text → Client → Bool × Client
tried text c =
    if ltb (length c.pending) client_queue_max_size
    then (false, record c { pending = c.pending ++ (some text ∷ []); full_count = 0 })
    else (
      leb max_consecutive_queue_full (c.full_count + 1),
      record c { full_count = c.full_count + 1 },
    )

unfoldable pub visited : Option Text → Text → Client → Bool × Client
unfolding tried
visited target text c = if is_target target c.info then tried text c else (false, c)

-- The machine of one client.
unfoldable pub reached : Option Text → Text → Client → Client
unfolding visited
reached target text c =
    if c.connected
    then (if (visited target text c).0 then gone else (visited target text c).1)
    else c

offer-own :
    (h : ℕ) (text : Text) (s : WebSocketBroadcaster)
    → ((offer h text s).0 ≡ (tried text (client h s)).0)
      × (client h (offer h text s).1 ≡ (tried text (client h s)).1)
unfolding offer tried
offer-own h text s = elim (Bool-cases (ltb (length (content h s.contents)) client_queue_max_size)) [
  | inl r ↦
      rw
        (
          r,
          content-assign h h (content h s.contents ++ (some text ∷ [])) s.contents,
          queue_full_count-assign h h 0 s.consecutive_queue_full_by_id,
          ≡→eq h h refl,
        )
        (refl, refl)
  | inr r ↦
      rw
        (
          r,
          queue_full_count-assign h h (queue_full_count h s.consecutive_queue_full_by_id + 1)
              s.consecutive_queue_full_by_id,
          ≡→eq h h refl,
        )
        (refl, refl)
]

offer-else :
    (k h : ℕ) (text : Text) (s : WebSocketBroadcaster)
    → (k == h) ≡ false
    → client k (offer h text s).1 ≡ client k s
unfolding offer
offer-else k h text s q =
    elim (Bool-cases (ltb (length (content h s.contents)) client_queue_max_size)) [
      | inl r ↦
          rw
            (
              r,
              content-assign k h (content h s.contents ++ (some text ∷ [])) s.contents,
              queue_full_count-assign k h 0 s.consecutive_queue_full_by_id,
              q,
            )
            refl
      | inr r ↦
          rw
            (
              r,
              queue_full_count-assign k h (queue_full_count h s.consecutive_queue_full_by_id + 1)
                  s.consecutive_queue_full_by_id,
              q,
            )
            refl
    ]

-- The clients and the number of the next.
abbrev pub book : WebSocketBroadcaster → List ℕ × ℕ
book s = (s.client_queues, s.next_queue)

offer-book : (h : ℕ) (text : Text) (s : WebSocketBroadcaster) → book (offer h text s).1 ≡ book s
unfolding offer
offer-book h text s =
    elim (Bool-cases (ltb (length (content h s.contents)) client_queue_max_size)) [
      | inl r ↦ rw (r) refl
      | inr r ↦ rw (r) refl
    ]

visit-own :
    (target : Option Text) (h : ℕ) (text : Text) (s : WebSocketBroadcaster)
    → ((visit target text h s).0 ≡ (visited target text (client h s)).0)
      × (client h (visit target text h s).1 ≡ (visited target text (client h s)).1)
unfolding visit visited
visit-own target h text s =
    elim (Bool-cases (is_target target (lookup h s.client_info_by_queue_id))) [
      | inl t ↦ rw (t) (offer-own h text s)
      | inr t ↦ rw (t) (refl, refl)
    ]

visit-else :
    (target : Option Text) (k h : ℕ) (text : Text) (s : WebSocketBroadcaster)
    → (k == h) ≡ false
    → client k (visit target text h s).1 ≡ client k s
unfolding visit
visit-else target k h text s q =
    elim (Bool-cases (is_target target (lookup h s.client_info_by_queue_id))) [
      | inl t ↦ rw (t) (offer-else k h text s q)
      | inr t ↦ rw (t) refl
    ]

visit-book :
    (target : Option Text) (h : ℕ) (text : Text) (s : WebSocketBroadcaster)
    → book (visit target text h s).1 ≡ book s
unfolding visit
visit-book target h text s =
    elim (Bool-cases (is_target target (lookup h s.client_info_by_queue_id))) [
      | inl t ↦ rw (t) (offer-book h text s)
      | inr t ↦ rw (t) refl
    ]

pub offer_all-book :
    (target : Option Text) (text : Text) (hs : List ℕ) (s : WebSocketBroadcaster)
    → book (offer_all target text hs s).1 ≡ book s
unfolding offer_all
offer_all-book target text [] s = refl
offer_all-book target text (h ∷ hs) s =
    offer_all-book target text hs (visit target text h s).1 ∙ visit-book target h text s

or_nothing : (a : Bool) → (a || false) ≡ a
or_nothing true = refl
or_nothing false = refl

contains-given_up :
    (d : Bool) (k h : ℕ) (dead : List ℕ)
    → contains (if d then h ∷ dead else dead) k ≡ (((k == h) && d) || contains dead k)
contains-given_up true k h dead = ground arith
contains-given_up false k h dead = ground arith

offer_all-absent :
    (target : Option Text) (k : ℕ) (text : Text) (hs : List ℕ) (s : WebSocketBroadcaster)
    → contains hs k ≡ false
    → (contains (offer_all target text hs s).0 k ≡ false)
      × (client k (offer_all target text hs s).1 ≡ client k s)
unfolding offer_all
offer_all-absent target k text [] s e = (refl, refl)
offer_all-absent target k text (h ∷ hs) s e =
    let (q, e') = or_false (k == h) (contains hs k) e in
    let (dead, same) = offer_all-absent target k text hs (visit target text h s).1 e' in
    (
      rw
          (
            contains-given_up (visit target text h s).0 k h
                (offer_all target text hs (visit target text h s).1).0,
            q,
            dead,
          )
          refl,
      same ∙ visit-else target k h text s q,
    )

offer_all-head :
    (target : Option Text) (h : ℕ) (text : Text) (hs : List ℕ) (s : WebSocketBroadcaster)
    → contains hs h ≡ false
    → (contains (offer_all target text (h ∷ hs) s).0 h ≡ (visited target text (client h s)).0)
      × (client h (offer_all target text (h ∷ hs) s).1 ≡ (visited target text (client h s)).1)
unfolding offer_all
offer_all-head target h text hs s e =
    let (d, own) = visit-own target h text s in
    let (dead, same) = offer_all-absent target h text hs (visit target text h s).1 e in
    (
      (rw
            (
              contains-given_up (visit target text h s).0 h h
                  (offer_all target text hs (visit target text h s).1).0,
              ≡→eq h h refl,
              dead,
            )
            (or_nothing (visit target text h s).0))
          ∙ d,
      same ∙ own,
    )

offer_all-present :
    (target : Option Text) (k : ℕ) (text : Text) (hs : List ℕ) (s : WebSocketBroadcaster)
    → IsDistinct hs
    → contains hs k ≡ true
    → (contains (offer_all target text hs s).0 k ≡ (visited target text (client k s)).0)
      × (client k (offer_all target text hs s).1 ≡ (visited target text (client k s)).1)
unfolding offer_all
offer_all-present target k text [] s u e = absurd (true≢false (sym e))
offer_all-present target k text (h ∷ hs) s u e = elim (Bool-cases (k == h)) [
  | inl q ↦
      subst
        (λ k.
          (contains (offer_all target text (h ∷ hs) s).0 k ≡ (visited target text (client k s)).0)
          × (client k (offer_all target text (h ∷ hs) s).1 ≡ (visited target text (client k s)).1))
        (sym (eq→≡ k h q)) (offer_all-head target h text hs s u.0)
  | inr q ↦
      let (dead, own) =
        offer_all-present target k text hs (visit target text h s).1 u.1 (rw q at e) in
      let same = ap (visited target text) (visit-else target k h text s q) in
      (
        (rw
              (
                contains-given_up (visit target text h s).0 k h
                    (offer_all target text hs (visit target text h s).1).0,
                q,
              )
              dead)
            ∙ ap (λ v. v.0) same,
        own ∙ ap (λ v. v.1) same,
      )
]

pub disconnect_locked-client :
    (k h : ℕ) (s : WebSocketBroadcaster)
    → IsDistinct s.client_queues
    → client k (disconnect_locked h s) ≡ (if k == h then gone else client k s)
unfolding disconnect_locked unregister
disconnect_locked-client k h s u = elim (Bool-cases (k == h)) [
  | inl q ↦
      rw
        (
          content-assign k h (none ∷ []) s.contents,
          queue_full_count-remove k h s.consecutive_queue_full_by_id,
          lookup-remove h k s.client_info_by_queue_id,
          contains-drop k h s.client_queues u,
          q,
        )
        refl
  | inr q ↦
      rw
        (
          content-assign k h (none ∷ []) s.contents,
          queue_full_count-remove k h s.consecutive_queue_full_by_id,
          lookup-remove h k s.client_info_by_queue_id,
          contains-drop k h s.client_queues u,
          q,
        )
        refl
]

pub gone_either :
    (a b : Bool) (c : Client)
    → (if a then gone else (if b then gone else c)) ≡ (if b || a then gone else c)
gone_either true true c = refl
gone_either true false c = refl
gone_either false true c = refl
gone_either false false c = refl

disconnect_all-client :
    (k : ℕ) (hs : List ℕ) (s : WebSocketBroadcaster)
    → IsDistinct s.client_queues
    → client k (disconnect_all hs s) ≡ (if contains hs k then gone else client k s)
unfolding disconnect_all
disconnect_all-client k [] s u = refl
disconnect_all-client k (h ∷ hs) s u =
    disconnect_all-client k hs (disconnect_locked h s) (IsDistinct-drop h s.client_queues u)
    ∙ rw (disconnect_locked-client k h s u) (gone_either (contains hs k) (k == h) (client k s))

reached_apart :
    (target : Option Text) (text : Text) (c : Client)
    → c.connected ≡ false
    → reached target text c ≡ c
unfolding reached
reached_apart target text c e = rw (e) refl

-- Where no client is connected twice, a broadcast does to each client what the machine of one client
-- does, whatever the other clients are: a connected client that the broadcast is for gets the message
-- at the end of its queue and its count starts again; where its queue is full its count grows, and at
-- fifty in a row it is given up. All others stay as they are.
pub broadcast_to_matching-client :
    (k : ℕ) (target : Option Text) (text : Text) (s : WebSocketBroadcaster)
    → IsDistinct s.client_queues
    → client k (broadcast_to_matching target text s) ≡ reached target text (client k s)
unfolding broadcast_to_matching reached
broadcast_to_matching-client k target text s u =
    disconnect_all-client k (offer_all target text s.client_queues s).0
      (offer_all target text s.client_queues s).1
      (subst IsDistinct (sym (ap (λ x. x.0) (offer_all-book target text s.client_queues s))) u)
    ∙ elim (Bool-cases (contains s.client_queues k)) [
      | inl c ↦
          let (dead, own) = offer_all-present target k text s.client_queues s u c in
          rw (dead, own, c) refl
      | inr c ↦
          let (dead, same) = offer_all-absent target k text s.client_queues s c in
          (rw (dead) same) ∙ sym (reached_apart target text (client k s) c)
    ]
