-- ===== src/Tests/Shell.antt =====
-- Runs of the layouts, the queues, the mutex and the clients of the shell.
use plain_text_gtd.Queues.{content, or_empty}
use plain_text_gtd.Prelude.{
  ℕ, ◌+◌, ◌<◌, true, false, List, [], ◌∷◌, ◌++◌, map, latest, select, some, none, ◌≡◌, refl, arith,
  All, length, leb, lookup, text_eq, option_eq, nat_eq,
}
use plain_text_gtd.Text.{Text, lit}
use plain_text_gtd.Shell.Slugs.{slugify_layout_name}
use plain_text_gtd.Shell.Layouts.{
  LayoutDir, gives, raises, layout_not_found, is_registered, read_meta, get_last_active_slug,
  delete_layout, read_layout_content, write_layout_content, mobile, desktop,
}
use plain_text_gtd.Shell.Registry.{HasDistinctSlugs}
use plain_text_gtd.Shell.Requests.{
  Request, sets_active, writes, registers, deletes, serve_all, get_last_active_slug_registered,
}
use plain_text_gtd.Shell.Deletion.{delete_layout_gone}
use plain_text_gtd.Shell.EventQueues.{new_queues, register, store, ignore, flush}
use plain_text_gtd.Shell.Replay.{Broadcast, broadcast_all, since_flush, events_for}
use plain_text_gtd.Shell.Delivered.{register_replays}
use plain_text_gtd.Shell.Mutex.{
  Call, IsForeign, tries, releases, try_acquire, called_all, mutex_ttl, IsRefusedUntil,
  try_acquire_excludes,
}
use plain_text_gtd.Shell.Terminals.{terminal_name}
use plain_text_gtd.Shell.Broadcaster.{new_broadcaster, broadcast_to_matching}
use plain_text_gtd.Shell.Clients.{client, reached, broadcast_to_matching-client}
use plain_text_gtd.Shell.Connected.{IsSound, handled_all, handled_all-IsSound}
use plain_text_gtd.Shell.Connected
use plain_text_gtd.Text.Json.{json_text}
use plain_text_gtd.Shell.ClientLog.{LogEvent, message_of, tally_all, recent_messages_per_client}
use plain_text_gtd.Shell.Summaries.{is_from, messages_or, tally_all-latest}

abbrev same_text : Text → Text
same_text s = s

big_screen_slug : slugify_layout_name same_text (lit " big -- screen!") ≡ some (lit "big-screen")
unfolding slugify_layout_name nat_eq
big_screen_slug = refl

-- A directory with the layout of an older version, and no registry.
abbrev old_dir : LayoutDir ℕ
old_dir = record { meta = none; contents = []; legacy = some (some 7); migrated = none }

abbrev some_requests : List (Request ℕ)
some_requests =
    registers (lit "Big screen")
    ∷ writes mobile 8
    ∷ deletes mobile
    ∷ sets_active (lit "nowhere")
    ∷ []

get_last_active_slug_registered_example :
    (slug : Text) × ((get_last_active_slug (serve_all same_text some_requests old_dir)).0
      ≡ gives slug)
    × (is_registered slug
          (read_meta (serve_all same_text some_requests old_dir)).0.display_name_by_slug
        ≡ true)
get_last_active_slug_registered_example =
    get_last_active_slug_registered same_text some_requests old_dir refl

two_slugs : HasDistinctSlugs (read_meta old_dir).0.display_name_by_slug
unfolding read_meta is_registered text_eq
two_slugs = (refl, (refl, tt))

desktop_there : is_registered desktop (read_meta old_dir).0.display_name_by_slug ≡ true
unfolding read_meta is_registered text_eq
desktop_there = refl

desktop_not_alone : leb (length (read_meta old_dir).0.display_name_by_slug) 1 ≡ false
unfolding read_meta
desktop_not_alone = refl

delete_layout_gone_example :
    let (r, t) = delete_layout desktop old_dir in
    (fallback : Text) × (r ≡ gives fallback)
    × (is_registered fallback (read_meta t).0.display_name_by_slug ≡ true)
    × ((read_layout_content desktop t).0 ≡ raises layout_not_found)
    × (write_layout_content desktop 9 t ≡ (raises layout_not_found, t))
delete_layout_gone_example =
    delete_layout_gone desktop 9 old_dir two_slugs desktop_there desktop_not_alone

-- Events are numbers; two agents.
abbrev early_events : List (Broadcast ℕ)
early_events =
    (lit "a", store, 1)
    ∷ (lit "a", flush, 2)
    ∷ (lit "a", store, 3)
    ∷ (lit "b", store, 4)
    ∷ (lit "a", ignore, 5)
    ∷ []

abbrev late_events : List (Broadcast ℕ)
late_events = (lit "b", store, 6) ∷ (lit "a", flush, 7) ∷ []

no_queues : (a : Text) → All (λ k. k < 0) (or_empty (lookup ⦃e = text_eq⦄ a []))
unfolding lookup
no_queues a = tt

register_replays_example :
    let (h, t) = register (lit "a") (broadcast_all early_events new_queues) in
    content h (broadcast_all late_events t).contents
    ≡ map some (since_flush (lit "a") early_events) ++ map some (events_for (lit "a") late_events)
register_replays_example =
    register_replays (lit "a") early_events late_events new_queues refl refl no_queues

replayed_events :
    map some (since_flush (lit "a") early_events) ++ map some (events_for (lit "a") late_events)
    ≡ some 3 ∷ some 7 ∷ []
unfolding since_flush events_for text_eq
replayed_events = refl

-- Others try, and release what is not theirs, while the mutex is held.
abbrev meddling : List (Call ℕ)
meddling = tries 1200 6 (lit "bob") (lit "open") 2 ∷ releases (lit "ada") (lit "close") ∷ []

meddling-IsForeign : All (λ c. IsForeign (1000 + mutex_ttl) (lit "ada") (lit "split") c) meddling
unfolding text_eq
meddling-IsForeign = (omega arith, (refl, tt))

free_taken : (try_acquire {A = ℕ} 1000 5 (lit "ada") (lit "split") 1 none).0 ≡ none
unfolding try_acquire
free_taken = refl

try_acquire_excludes_example :
    IsRefusedUntil 1300
      (1000 + mutex_ttl)
      5
      (lit "ada")
      (lit "split")
      1
      (try_acquire 1300 7
        (lit "bob")
        (lit "open")
        3
        (called_all meddling (try_acquire {A = ℕ} 1000 5 (lit "ada") (lit "split") 1 none).1)).0
try_acquire_excludes_example =
    try_acquire_excludes 1000 5 (lit "ada") (lit "split") 1 none meddling 1300 7 (lit "bob")
      (lit "open") 3 free_taken meddling-IsForeign

abbrev used_names : List Text
used_names = terminal_name 1 ∷ terminal_name 3 ∷ []

abbrev two_clients : List Connected.Request
two_clients =
    Connected.registers
    ∷ Connected.registers
    ∷ Connected.reports 0 (record {
      client_id = lit "laptop";
      active_layout_slug = desktop;
      device_kind = lit "desktop";
    })
    ∷ []

handled_all-IsSound_example : IsSound (handled_all two_clients new_broadcaster)
handled_all-IsSound_example = handled_all-IsSound two_clients

broadcast_to_matching-client_example :
    client 0
      (broadcast_to_matching (some desktop) (lit "{}") (handled_all two_clients new_broadcaster))
    ≡ reached (some desktop) (lit "{}") (client 0 (handled_all two_clients new_broadcaster))
broadcast_to_matching-client_example =
    broadcast_to_matching-client 0 (some desktop) (lit "{}")
      (handled_all two_clients new_broadcaster) (handled_all-IsSound two_clients).0

-- The client that reported the layout has the message, the other not.
delivered :
    let t =
      broadcast_to_matching (some desktop) (lit "{}") (handled_all two_clients new_broadcaster) in
    (content 0 t.contents ≡ some (lit "{}") ∷ []) × (content 1 t.contents ≡ [])
unfolding broadcast_to_matching handled_all content text_eq nat_eq
delivered = (refl, refl)

abbrev message_from : Text → Text → LogEvent
message_from client text =
    (lit "type", json_text (lit "message"))
    ∷ (lit "client_id", json_text client)
    ∷ (lit "agent_id", json_text (lit "agent-1"))
    ∷ (lit "message_text", json_text text)
    ∷ []

abbrev client_events : List LogEvent
client_events =
    message_from (lit "laptop") (lit "one")
    ∷ message_from (lit "phone") (lit "other")
    ∷ message_from (lit "laptop") (lit "two")
    ∷ []

tally_all-latest_example :
    messages_or (lookup ⦃e = text_eq⦄ (lit "laptop") (tally_all client_events []))
    ≡ latest recent_messages_per_client
        (map message_of (select (is_from (lit "laptop")) client_events))
tally_all-latest_example = tally_all-latest (lit "laptop") client_events refl

laptop_sent_two :
    length (messages_or (lookup ⦃e = text_eq⦄ (lit "laptop") (tally_all client_events []))) ≡ 2
unfolding lookup tally_all text_eq
laptop_sent_two = refl
