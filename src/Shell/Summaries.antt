-- ===== src/Shell/Summaries.antt =====
-- What the summaries of client_activity.py say of the log.
use plain_text_gtd.Prelude.{
  ◌≤◌, Bool, true, false, ◌&&◌, List, [], ◌∷◌, ◌++◌, map, length, Option, none, some, Assoc, lookup,
  lookup-assign, text_eq, option_eq, ◌==◌, if◌then◌else◌, latest, latest-latest, latest-short,
  length-latest, select, ◌≡◌, refl, sym, ap, subst, ◌∙◌, arith, Bool-cases, inl, inr, eq→≡, All,
}
use mathlib.Core.List.{
  reverse, reverse_aux, reverse_aux-append, reverse_aux-eq, append_assoc, append-nil,
}
use mathlib.Core.Bool.{true≢false}
use plain_text_gtd.Text.{Text, lit, is_empty}
use plain_text_gtd.Text.Json.{str_of, has_text}
use plain_text_gtd.Shell.ClientLog.{
  LogEvent, Message, ClientSummary, message_of, is_message, noted, found_or_new, tally, tally_all,
  recent_messages_per_client, sender_in, find_client_id_for_agent, unless_blank,
}

-- The messages that a client sent.
abbrev pub is_from : Text → LogEvent → Bool
is_from client event =
    ◌==◌ ⦃e = text_eq⦄ client (str_of (lit "client_id") event) && is_message event

abbrev pub messages_or : Option ClientSummary → List Message
messages_or none = []
messages_or (some s) = s.recent_messages

-- What a message adds.
abbrev then_recent : LogEvent → List Message → List Message
then_recent event old = latest recent_messages_per_client (old ++ (message_of event ∷ []))

found_messages :
    (id : Text) (o : Option ClientSummary) → (found_or_new id o).recent_messages ≡ messages_or o
found_messages id none = refl
found_messages id (some s) = refl

noted-messages :
    (event : LogEvent) (s : ClientSummary)
    → (noted event s).recent_messages
      ≡ (if is_message event then then_recent event s.recent_messages else s.recent_messages)
unfolding noted
noted-messages event s = refl

tally-messages :
    (client : Text) (event : LogEvent) (d : Assoc Text ClientSummary)
    → is_empty client ≡ false
    → messages_or (lookup client (tally event d)) ≡ (
        if is_from client event
        then then_recent event (messages_or (lookup client d))
        else messages_or (lookup client d))
unfolding tally
tally-messages client event d n = elim (Bool-cases (is_empty (str_of (lit "client_id") event))) [
  | inl e ↦ rw (e) (elim (Bool-cases (client == str_of (lit "client_id") event)) [
    | inl q ↦ absurd (true≢false (sym e ∙ sym (ap is_empty (eq→≡ client _ q)) ∙ n))
    | inr q ↦ rw (q) refl
  ])
  | inr e ↦ elim (Bool-cases (client == str_of (lit "client_id") event)) [
    | inl q ↦
        rw
          (
            e,
            lookup-assign (str_of (lit "client_id") event) client
                (noted event (
                  found_or_new (str_of (lit "client_id") event)
                    (lookup (str_of (lit "client_id") event) d)))
                d,
            q,
          )
          (rw
            (found_messages (str_of (lit "client_id") event)
              (lookup (str_of (lit "client_id") event) d))
            (ap
              (λ id.
                if is_message event
                then then_recent event (messages_or (lookup id d))
                else messages_or (lookup id d))
              (sym (eq→≡ client _ q))))
    | inr q ↦
        rw
          (
            e,
            lookup-assign (str_of (lit "client_id") event) client
                (noted event (
                  found_or_new (str_of (lit "client_id") event)
                    (lookup (str_of (lit "client_id") event) d)))
                d,
            q,
          )
          refl
  ]
]

tally_all-messages :
    (client : Text) (events : List LogEvent) (d : Assoc Text ClientSummary)
    → is_empty client ≡ false
    → length (messages_or (lookup client d)) ≤ recent_messages_per_client
    → messages_or (lookup client (tally_all events d))
      ≡ latest recent_messages_per_client
          (messages_or (lookup client d) ++ map message_of (select (is_from client) events))
unfolding tally_all
tally_all-messages client [] d n l = sym (
    ap (latest recent_messages_per_client) (append-nil (messages_or (lookup client d)))
    ∙ latest-short recent_messages_per_client (messages_or (lookup client d)) l)
tally_all-messages client (event ∷ events) d n l = elim (Bool-cases (is_from client event)) [
  | inl m ↦
      let old = messages_or (lookup client d) in
      let rest = map message_of (select (is_from client) events) in
      let now : messages_or (lookup client (tally event d)) ≡ then_recent event old =
        tally-messages client event d n ∙ (rw (m) refl) in
      rw (m) (
        tally_all-messages client events (tally event d) n (
          subst (λ t. length t ≤ recent_messages_per_client) (sym now)
            (length-latest recent_messages_per_client (old ++ (message_of event ∷ []))))
        ∙ ap (λ t. latest recent_messages_per_client (t ++ rest)) now
        ∙ latest-latest recent_messages_per_client (old ++ (message_of event ∷ [])) rest
        ∙ ap (latest recent_messages_per_client) (append_assoc old (message_of event ∷ []) rest))
  | inr m ↦
      let old = messages_or (lookup client d) in
      let now : messages_or (lookup client (tally event d)) ≡ old =
        tally-messages client event d n ∙ (rw (m) refl) in
      rw (m) (
        tally_all-messages client events (tally event d) n
          (subst (λ t. length t ≤ recent_messages_per_client) (sym now) l)
        ∙ ap
            (λ t.
              latest recent_messages_per_client
                (t ++ map message_of (select (is_from client) events)))
            now)
]

-- The messages that the summary of a client shows are the last five that it sent, in their order, where
-- a client's name is not empty; events of others and of other kinds between them do not count.
pub tally_all-latest :
    (client : Text) (events : List LogEvent)
    → is_empty client ≡ false
    → messages_or (lookup client (tally_all events []))
      ≡ latest recent_messages_per_client (map message_of (select (is_from client) events))
unfolding lookup
tally_all-latest client events n = tally_all-messages client events [] n (omega arith)

-- A message that was sent to the agent.
abbrev pub is_to : Text → LogEvent → Bool
is_to agent event = is_message event && has_text (lit "agent_id") agent event

sender_in-append :
    (agent : Text) (after : List LogEvent) (event : LogEvent) (before : List LogEvent)
    → All (λ e. is_to agent e ≡ false) after
    → is_to agent event ≡ true
    → sender_in agent (after ++ (event ∷ before)) ≡ unless_blank (str_of (lit "client_id") event)
unfolding sender_in
sender_in-append agent [] event before a t = rw (t) refl
sender_in-append agent (e ∷ after) event before a t =
    rw (a.0) (sender_in-append agent after event before a.1 t)

All-reverse {κ} :
    (P : LogEvent → Type κ) (xs ys : List LogEvent)
    → All P xs
    → All P ys
    → All P (reverse_aux xs ys)
All-reverse P [] ys a b = b
All-reverse P (x ∷ xs) ys a b = All-reverse P xs (x ∷ ys) a.1 (a.0, b)

-- The client that an agent's request is put down to is the one that sent the agent its latest message,
-- and none where that message names no client: messages to others behind it do not count.
pub find_client_id_for_agent_latest :
    (agent : Text) (before : List LogEvent) (event : LogEvent) (after : List LogEvent)
    → is_empty agent ≡ false
    → is_to agent event ≡ true
    → All (λ e. is_to agent e ≡ false) after
    → find_client_id_for_agent (before ++ (event ∷ after)) agent
      ≡ unless_blank (str_of (lit "client_id") event)
unfolding find_client_id_for_agent
find_client_id_for_agent_latest agent before event after n t a = rw (n) (
    ap (sender_in agent)
      (reverse_aux-append before (event ∷ after) [] ∙ reverse_aux-eq after (event ∷ reverse before))
    ∙ sender_in-append agent (reverse after) event (reverse before)
        (All-reverse (λ e. is_to agent e ≡ false) after [] a tt) t)
