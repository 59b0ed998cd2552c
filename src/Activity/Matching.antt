-- ===== src/Activity/Matching.antt =====
-- Tool calls without a result.
use plain_text_gtd.Prelude.{
  Bool, true, false, not, ◌&&◌, ◌||◌, List, [], ◌∷◌, Option, none, some, ◌≡◌, refl, ◌↔◌, ◌==◌,
  text_eq, option_eq, contains, Bool-cases, inl, inr, arith, ◌∙◌, eq→≡, sym,
}
use plain_text_gtd.Text.{Text, lit, is_empty}
use plain_text_gtd.Activity.{
  Event, CallIds, add_id, add_ids, track, track_all, leaves_some, has_unmatched_tool_use,
}

-- Some message of the assistant calls a tool under the id.
unfoldable pub is_called : Text → List Event → Bool
unfolding text_eq option_eq
is_called id [] = false
is_called id (event ∷ events) =
    (event.kind == some (lit "assistant_message")
      && (not (is_empty id) && contains event.tool_calls (some id)))
    || is_called id events

-- Some result has the id.
unfoldable pub is_answered : Text → List Event → Bool
unfolding text_eq option_eq
is_answered id [] = false
is_answered id (event ∷ events) =
    (event.kind == some (lit "tool_result")
      && (not (is_empty id) && (some id == event.tool_call_id)))
    || is_answered id events

contains-add_id :
    (id : Text) (o : Option Text) (ids : List Text)
    → contains (add_id o ids) id ≡ ((not (is_empty id) && (some id == o)) || contains ids id)
unfolding add_id
contains-add_id [] none ids = refl
contains-add_id [] (some []) ids = refl
contains-add_id [] (some (c ∷ s)) ids = ground arith
contains-add_id (d ∷ t) none ids = ground arith
contains-add_id (d ∷ t) (some []) ids = ground arith
contains-add_id (d ∷ t) (some (c ∷ s)) ids = ground arith

contains-add_ids :
    (id : Text) (calls : List (Option Text)) (ids : List Text)
    → contains (add_ids calls ids) id
      ≡ ((not (is_empty id) && contains calls (some id)) || contains ids id)
unfolding add_ids
contains-add_ids id [] ids = elim (Bool-cases (is_empty id)) [
  | inl e ↦ rw e refl
  | inr e ↦ rw e refl
]
contains-add_ids id (o ∷ calls) ids = rw (contains-add_ids id calls (add_id o ids)) (
    rw (contains-add_id id o ids)
      (swapped (not (is_empty id)) (contains calls (some id)) (some id == o) (contains ids id)))
  where
    swapped : (a b c d : Bool) → ((a && b) || ((a && c) || d)) ≡ ((a && (c || b)) || d)
    swapped a b c d = ground arith

merge : (a b c : Bool) → (b || (a || c)) ≡ ((a || b) || c)
merge a b c = ground arith

-- What one event adds to the calls.
track-pending :
    (id : Text) (event : Event) (s : CallIds)
    → contains (track event s).pending id ≡ (
        (event.kind == some (lit "assistant_message")
          && (not (is_empty id) && contains event.tool_calls (some id)))
        || contains s.pending id)
unfolding track
track-pending id event s = elim (Bool-cases (event.kind == some (lit "assistant_message"))) [
  | inl e ↦ rw e (contains-add_ids id event.tool_calls s.pending)
  | inr e ↦ rw e (elim (Bool-cases (event.kind == some (lit "tool_result"))) [
    | inl t ↦ rw t refl
    | inr f ↦ rw f refl
  ])
]

kinds_differ : (some (lit "assistant_message") == some (lit "tool_result")) ≡ false
unfolding text_eq option_eq
kinds_differ = refl

no_result :
    (kind : Option Text)
    → (kind == some (lit "assistant_message")) ≡ true
    → (kind == some (lit "tool_result")) ≡ false
no_result kind e = rw (eq→≡ kind (some (lit "assistant_message")) e) kinds_differ

-- What one event adds to the results.
track-matched :
    (id : Text) (event : Event) (s : CallIds)
    → contains (track event s).matched id ≡ (
        (event.kind == some (lit "tool_result")
          && (not (is_empty id) && (some id == event.tool_call_id)))
        || contains s.matched id)
unfolding track
track-matched id event s = elim (Bool-cases (event.kind == some (lit "assistant_message"))) [
  | inl e ↦ rw e (rw (no_result event.kind e) refl)
  | inr e ↦ rw e (elim (Bool-cases (event.kind == some (lit "tool_result"))) [
    | inl t ↦ rw t (contains-add_id id event.tool_call_id s.matched)
    | inr f ↦ rw f refl
  ])
]

contains-pending :
    (id : Text) (events : List Event) (s : CallIds)
    → contains (track_all events s).pending id ≡ (is_called id events || contains s.pending id)
unfolding track_all is_called
contains-pending id [] s = refl
contains-pending id (event ∷ events) s = rw (contains-pending id events (track event s)) (
    rw (track-pending id event s) (
      merge
        (event.kind == some (lit "assistant_message")
          && (not (is_empty id) && contains event.tool_calls (some id)))
        (is_called id events) (contains s.pending id)))

contains-matched :
    (id : Text) (events : List Event) (s : CallIds)
    → contains (track_all events s).matched id ≡ (is_answered id events || contains s.matched id)
unfolding track_all is_answered
contains-matched id [] s = refl
contains-matched id (event ∷ events) s = rw (contains-matched id events (track event s)) (
    rw (track-matched id event s) (
      merge
        (event.kind == some (lit "tool_result")
          && (not (is_empty id) && (some id == event.tool_call_id)))
        (is_answered id events) (contains s.matched id)))

leaves_some-contains :
    (pending matched : List Text)
    → leaves_some pending matched ≡ true
    → (id : Text) × (contains pending id ≡ true) × (contains matched id ≡ false)
unfolding leaves_some
leaves_some-contains [] matched h = ground arith
leaves_some-contains (x ∷ pending) matched h = elim (Bool-cases (contains matched x)) [
  | inl e ↦
      let r = leaves_some-contains pending matched (rw e at h) in (r.0, ground (arith, r.1), r.2)
  | inr e ↦ (x, ground arith, e)
]

contains-leaves_some :
    (id : Text) (pending matched : List Text)
    → contains pending id ≡ true
    → contains matched id ≡ false
    → leaves_some pending matched ≡ true
unfolding leaves_some
contains-leaves_some id [] matched h n = h
contains-leaves_some id (x ∷ pending) matched h n = elim (Bool-cases (id == x)) [
  | inl e ↦ rw (← eq→≡ id x e) (rw n refl)
  | inr e ↦ grind (arith, contains-leaves_some id pending matched (rw e at h) n)
]

right_false : (b : Bool) → (b || false) ≡ b
right_false b = ground arith

-- A transcript has an unmatched tool use exactly where there is an id under which some message of the
-- assistant, at any place, calls a tool and which no result, at any place, has; the calls and results
-- without an id count for nothing.
pub has_unmatched_tool_use_called :
    (events : List Event)
    → (has_unmatched_tool_use events ≡ true)
      ↔ ((id : Text) × (is_called id events ≡ true) × (is_answered id events ≡ false))
unfolding has_unmatched_tool_use
has_unmatched_tool_use_called events =
    let start : CallIds = record { pending = []; matched = [] } in
    let s = track_all events start in
    (
      λ h.
          let (id, p, m) = leaves_some-contains s.pending s.matched h in
          (
            id,
            sym (right_false (is_called id events)) ∙ sym (contains-pending id events start) ∙ p,
            sym (right_false (is_answered id events)) ∙ sym (contains-matched id events start) ∙ m,
          ),
      λ (id, c, a).
          contains-leaves_some id s.pending s.matched
            (contains-pending id events start ∙ right_false (is_called id events) ∙ c)
            (contains-matched id events start ∙ right_false (is_answered id events) ∙ a),
    )
