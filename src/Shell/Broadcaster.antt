-- ===== src/Shell/Broadcaster.antt =====
-- ws_broadcaster.py: the clients of the shell over WebSockets. A client's queue is known by a number,
-- where the code has an object and its `id`; `contents` has what was put in each and not taken out. A
-- message is the text that `json.dumps` makes of it.
use plain_text_gtd.Queues.{content, drop_queue}
use plain_text_gtd.Prelude.{
  ℕ, ◌+◌, Bool, true, false, not, List, [], ◌∷◌, ◌++◌, map, length, Option, none, some, Assoc,
  lookup, assign, remove, nat_eq, text_eq, ◌==◌, contains, ltb, leb, if◌then◌else◌,
}
use plain_text_gtd.Text.{Text}

-- `_CLIENT_QUEUE_MAX_SIZE`
abbrev pub client_queue_max_size : ℕ
client_queue_max_size = 1000

-- `_MAX_CONSECUTIVE_QUEUE_FULL`
abbrev pub max_consecutive_queue_full : ℕ
max_consecutive_queue_full = 50

-- A value of `_client_info_by_queue_id`
pub record ClientInfo : Type 0 where
  pub client_id : Text
  pub active_layout_slug : Text
  pub device_kind : Text

pub record WebSocketBroadcaster : Type 0 where
  pub client_queues : List ℕ
  pub consecutive_queue_full_by_id : Assoc ℕ ℕ
  pub client_info_by_queue_id : Assoc ℕ ClientInfo
  pub contents : Assoc ℕ (List (Option Text))
  pub next_queue : ℕ

-- `WebSocketBroadcaster()`
abbrev pub new_broadcaster : WebSocketBroadcaster
new_broadcaster = record {
  client_queues = [];
  consecutive_queue_full_by_id = [];
  client_info_by_queue_id = [];
  contents = [];
  next_queue = 0;
}

abbrev or_zero : Option ℕ → ℕ
or_zero none = 0
or_zero (some n) = n

-- `.get(id(client_queue), 0)`
unfoldable pub queue_full_count : ℕ → Assoc ℕ ℕ → ℕ
unfolding lookup nat_eq
queue_full_count h counts = or_zero (lookup h counts)

-- `register`
unfoldable pub register : WebSocketBroadcaster → ℕ × WebSocketBroadcaster
unfolding assign nat_eq
register s = (
  s.next_queue,
  record s {
    client_queues = s.client_queues ++ (s.next_queue ∷ []);
    consecutive_queue_full_by_id = assign s.next_queue 0 s.consecutive_queue_full_by_id;
    contents = assign s.next_queue [] s.contents;
    next_queue = s.next_queue + 1;
  },
)

-- `unregister`
unfoldable pub unregister : ℕ → WebSocketBroadcaster → WebSocketBroadcaster
unfolding remove drop_queue nat_eq
unregister h s = record s {
  client_queues = drop_queue h s.client_queues;
  consecutive_queue_full_by_id = remove h s.consecutive_queue_full_by_id;
  client_info_by_queue_id = remove h s.client_info_by_queue_id;
}

-- `set_client_info`
unfoldable pub set_client_info : ℕ → ClientInfo → WebSocketBroadcaster → WebSocketBroadcaster
unfolding assign nat_eq
set_client_info h info s =
    if not (contains s.client_queues h)
    then s
    else record s { client_info_by_queue_id = assign h info s.client_info_by_queue_id }

-- `get_connected_client_infos`
unfoldable pub get_connected_client_infos : WebSocketBroadcaster → List ClientInfo
get_connected_client_infos s = map (λ e. e.1) s.client_info_by_queue_id

-- `any(info["active_layout_slug"] == layout_slug for info in infos)`
unfoldable pub shows_layout : Text → List ClientInfo → Bool
unfolding text_eq
shows_layout slug [] = false
shows_layout slug (info ∷ infos) =
    let rest = shows_layout slug infos in if info.active_layout_slug == slug then true else rest

-- `has_client_on_layout`
unfoldable pub has_client_on_layout : Text → WebSocketBroadcaster → Bool
unfolding shows_layout get_connected_client_infos
has_client_on_layout slug s = shows_layout slug (get_connected_client_infos s)

-- The test that passes over a client, the other way round.
unfoldable pub is_target : Option Text → Option ClientInfo → Bool
unfolding text_eq
is_target none info = true
is_target (some slug) none = false
is_target (some slug) (some info) = info.active_layout_slug == slug

-- What the loop does for a client that it does not pass over, and whether that client is given up.
unfoldable pub offer : ℕ → Text → WebSocketBroadcaster → Bool × WebSocketBroadcaster
unfolding content queue_full_count assign nat_eq
offer h text s =
    let pending = content h s.contents in
    let new_count = queue_full_count h s.consecutive_queue_full_by_id + 1 in
    if ltb (length pending) client_queue_max_size
    then (
      false,
      record s {
        contents = assign h (pending ++ (some text ∷ [])) s.contents;
        consecutive_queue_full_by_id = assign h 0 s.consecutive_queue_full_by_id;
      },
    )
    else (
      leb max_consecutive_queue_full new_count,
      record s { consecutive_queue_full_by_id = assign h new_count s.consecutive_queue_full_by_id },
    )

-- One turn of the loop.
unfoldable pub visit : Option Text → Text → ℕ → WebSocketBroadcaster → Bool × WebSocketBroadcaster
unfolding offer is_target lookup nat_eq
visit target text h s =
    if is_target target (lookup h s.client_info_by_queue_id) then offer h text s else (false, s)

-- The loop over the clients; the list is `dead_queues`.
unfoldable pub offer_all :
    Option Text → Text → List ℕ → WebSocketBroadcaster → List ℕ × WebSocketBroadcaster
unfolding visit
offer_all target text [] s = ([], s)
offer_all target text (h ∷ hs) s =
    let (is_dead, s') = visit target text h s in
    let (dead, s'') = offer_all target text hs s' in (if is_dead then h ∷ dead else dead, s'')

-- `_disconnect_locked`, with `_drain_queue`
unfoldable pub disconnect_locked : ℕ → WebSocketBroadcaster → WebSocketBroadcaster
unfolding unregister assign nat_eq
disconnect_locked h s = record (unregister h s) { contents = assign h (none ∷ []) s.contents }

unfoldable pub disconnect_all : List ℕ → WebSocketBroadcaster → WebSocketBroadcaster
unfolding disconnect_locked
disconnect_all [] s = s
disconnect_all (h ∷ hs) s = disconnect_all hs (disconnect_locked h s)

-- `_broadcast_to_matching`
unfoldable pub broadcast_to_matching :
    Option Text → Text → WebSocketBroadcaster → WebSocketBroadcaster
unfolding offer_all disconnect_all
broadcast_to_matching target text s =
    let (dead, s') = offer_all target text s.client_queues s in disconnect_all dead s'

-- `broadcast`
unfoldable pub broadcast : Text → WebSocketBroadcaster → WebSocketBroadcaster
unfolding broadcast_to_matching
broadcast text s = broadcast_to_matching none text s

-- `broadcast_to_layout`
unfoldable pub broadcast_to_layout : Text → Text → WebSocketBroadcaster → WebSocketBroadcaster
unfolding broadcast_to_matching
broadcast_to_layout text slug s = broadcast_to_matching (some slug) text s

-- The choice that `broadcast_layout_op` makes.
unfoldable pub broadcast_layout_op :
    Text → Option Text → WebSocketBroadcaster → WebSocketBroadcaster
unfolding broadcast broadcast_to_layout
broadcast_layout_op text none s = broadcast text s
broadcast_layout_op text (some slug) s = broadcast_to_layout text slug s

unfoldable pub signal_all : List ℕ → Assoc ℕ (List (Option Text)) → Assoc ℕ (List (Option Text))
unfolding assign nat_eq
signal_all [] c = c
signal_all (h ∷ hs) c = signal_all hs (assign h (none ∷ []) c)

-- `shutdown`
unfoldable pub shutdown : WebSocketBroadcaster → WebSocketBroadcaster
unfolding signal_all
shutdown s = record s {
  contents = signal_all s.client_queues s.contents;
  client_queues = [];
  consecutive_queue_full_by_id = [];
  client_info_by_queue_id = [];
}

abbrev pub taken : ℕ → List (Option Text) → WebSocketBroadcaster → WebSocketBroadcaster
taken h [] s = s
taken h (m ∷ ms) s = record s { contents = assign ⦃e = nat_eq⦄ h ms s.contents }

-- `client_queue.get()` in the thread of a client, which waits where the queue is empty.
unfoldable pub receive : ℕ → WebSocketBroadcaster → WebSocketBroadcaster
unfolding content assign nat_eq
receive h s = taken h (content h s.contents) s
