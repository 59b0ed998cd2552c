-- ===== src/Bands/Notices.antt =====
-- An agent is told once of what was shed.
use plain_text_gtd.Prelude.{
  ℕ, Bool, true, false, List, [], ◌∷◌, ◌++◌, Option, some, if◌then◌else◌, key_le-IsOrder, textual,
  compare_text, ≡→eq, lookup, ◌≡◌, refl, ◌≢◌, sym, ap, ◌∙◌, subst, Bool-cases, inl, inr, All,
  text_eq,
}
use plain_text_gtd.Text.{Text, lit, is_empty}
use plain_text_gtd.Text.Json.{JsonDict, str_of, has_text}
use plain_text_gtd.Bands.Ledger.{
  at_most, max_from, max_or_blank, is_record_of, delivered, latest_delivered_timestamp,
  pending_after, pending_shed_timestamps, notice_record, record_type_process_shed,
  record_type_notice_delivered, shed_notice_hook, noticed, shed_record,
}

at_most_trans : (a b c : Text) → at_most a b ≡ true → at_most b c ≡ true → at_most a c ≡ true
unfolding at_most
at_most_trans a b c h k = (key_le-IsOrder (textual (λ t. t) ∷ [])).trans a b c h k

at_most_total : (a b : Text) → at_most a b ≡ false → at_most b a ≡ true
unfolding at_most
at_most_total a b h = (key_le-IsOrder (textual (λ t. t) ∷ [])).total a b h

at_most_refl : (a : Text) → at_most a a ≡ true
at_most_refl a = elim (Bool-cases (at_most a a)) [ inl e ↦ e | inr e ↦ at_most_total a a e ]

max_from-least :
    (best : Text) (ts : List Text) (z : Text)
    → at_most best z ≡ true
    → All (λ t. at_most t z ≡ true) ts
    → at_most (max_from best ts) z ≡ true
unfolding max_from
max_from-least best [] z h a = h
max_from-least best (t ∷ ts) z h a = elim (Bool-cases (at_most t best)) [
  | inl e ↦ rw (e) (max_from-least best ts z h a.1)
  | inr e ↦ rw (e) (max_from-least t ts z a.0 a.1)
]

from_best : (best : Text) (ts : List Text) → at_most best (max_from best ts) ≡ true
unfolding max_from
from_best best [] = at_most_refl best
from_best best (t ∷ ts) = elim (Bool-cases (at_most t best)) [
  | inl e ↦ rw (e) (from_best best ts)
  | inr e ↦ rw (e) (at_most_trans best t (max_from t ts) (at_most_total t best e) (from_best t ts))
]

no_better :
    (best t : Text) (ts : List Text)
    → at_most t best ≡ true
    → max_from best (t ∷ ts) ≡ max_from best ts
unfolding max_from
no_better best t ts e = rw (e) refl

better :
    (best t : Text) (ts : List Text)
    → at_most t best ≡ false
    → max_from best (t ∷ ts) ≡ max_from t ts
unfolding max_from
better best t ts e = rw (e) refl

max_from-above : (best : Text) (ts : List Text) → All (λ t. at_most t (max_from best ts) ≡ true) ts
max_from-above best [] = tt
max_from-above best (t ∷ ts) = elim (Bool-cases (at_most t best)) [
  | inl e ↦
      subst (λ z. (at_most t z ≡ true) × All (λ u. at_most u z ≡ true) ts)
        (sym (no_better best t ts e))
        (at_most_trans t best (max_from best ts) e (from_best best ts), max_from-above best ts)
  | inr e ↦
      subst (λ z. (at_most t z ≡ true) × All (λ u. at_most u z ≡ true) ts)
        (sym (better best t ts e)) (from_best t ts, max_from-above t ts)
]

max-above : (ts : List Text) → All (λ t. at_most t (max_or_blank ts) ≡ true) ts
max-above [] = tt
max-above (t ∷ ts) = (from_best t ts, max_from-above t ts)

blank_at_most : (z : Text) → at_most [] z ≡ true
unfolding at_most compare_text
blank_at_most [] = refl
blank_at_most (c ∷ z) = refl

max-least :
    (ts : List Text) (z : Text)
    → All (λ t. at_most t z ≡ true) ts
    → at_most (max_or_blank ts) z ≡ true
max-least [] z a = blank_at_most z
max-least (t ∷ ts) z a = max_from-least t ts z a.0 a.1

is_record-notice :
    (now agent up : Text)
    → (is_record_of record_type_notice_delivered agent (notice_record now agent up) ≡ true)
      × (is_record_of record_type_process_shed agent (notice_record now agent up) ≡ false)
unfolding is_record_of notice_record has_text lookup text_eq
is_record-notice now agent up = (≡→eq agent agent refl, refl)

up_to : (now agent up : Text) → str_of (lit "up_to_timestamp") (notice_record now agent up) ≡ up
unfolding str_of notice_record lookup text_eq
up_to now agent up = refl

delivered-notice :
    (now agent up : Text) (records : List JsonDict)
    → delivered (records ++ (notice_record now agent up ∷ [])) agent
      ≡ delivered records agent ++ (up ∷ [])
unfolding delivered
delivered-notice now agent up [] =
    rw ((is_record-notice now agent up).0) (ap (λ t. t ∷ []) (up_to now agent up))
delivered-notice now agent up (r ∷ records) =
    elim (Bool-cases (is_record_of record_type_notice_delivered agent r)) [
      | inl e ↦
          rw (e)
            (ap (λ l. str_of (lit "up_to_timestamp") r ∷ l) (delivered-notice now agent up records))
      | inr e ↦ rw (e) (delivered-notice now agent up records)
    ]

pending-notice :
    (after now agent up : Text) (records : List JsonDict)
    → pending_after after (records ++ (notice_record now agent up ∷ [])) agent
      ≡ pending_after after records agent
unfolding pending_after
pending-notice after now agent up [] = rw ((is_record-notice now agent up).1) refl
pending-notice after now agent up (r ∷ records) =
    rw (pending-notice after now agent up records) refl

-- Nothing is pending after an instant that is no earlier than all that was pending.
covered :
    (after z agent : Text) (records : List JsonDict)
    → at_most after z ≡ true
    → All (λ t. at_most t z ≡ true) (pending_after after records agent)
    → pending_after z records agent ≡ []
unfolding pending_after
covered after z agent [] h a = refl
covered after z agent (r ∷ records) h a =
    let timestamp = str_of (lit "timestamp") r in
    elim (Bool-cases (is_record_of record_type_process_shed agent r)) [
      | inr e ↦ rw (e) (covered after z agent records h (rw (e) at a))
      | inl e ↦ elim (Bool-cases (is_empty timestamp)) [
        | inl m ↦ rw (e, m) (covered after z agent records h (rw (e, m) at a))
        | inr m ↦ elim (Bool-cases (at_most timestamp after)) [
          | inl p ↦
              rw (e, m, at_most_trans timestamp after z p h)
                (covered after z agent records h (rw (e, m, p) at a))
          | inr p ↦
              let b = rw (e, m, p) at a in rw (e, m, b.0) (covered after z agent records h b.1)
        ]
      ]
    ]

split : (P : Text → Type 0) (xs : List Text) (x : Text) → All P (xs ++ (x ∷ [])) → All P xs × P x
split P [] x a = (tt, a.0)
split P (y ∷ xs) x a = let (b, p) = split P xs x a.1 in ((a.0, b), p)

weaken :
    (m z : Text) (ts : List Text)
    → at_most m z ≡ true
    → All (λ t. at_most t m ≡ true) ts
    → All (λ t. at_most t z ≡ true) ts
weaken m z [] h a = tt
weaken m z (t ∷ ts) h a = (at_most_trans t m z a.0 h, weaken m z ts h a.1)

-- After a notice up to the latest that is pending, nothing is.
nothing_left :
    (now agent : Text) (records : List JsonDict)
    → let m = max_or_blank (pending_shed_timestamps records agent) in
      pending_shed_timestamps (records ++ (notice_record now agent m ∷ [])) agent ≡ []
unfolding pending_shed_timestamps latest_delivered_timestamp
nothing_left now agent records =
    let pending = pending_shed_timestamps records agent in
    let m = max_or_blank pending in
    let z = max_or_blank (delivered records agent ++ (m ∷ [])) in
    let (all, last) =
      split (λ t. at_most t z ≡ true) (delivered records agent) m
        (max-above (delivered records agent ++ (m ∷ []))) in
    rw (delivered-notice now agent m records) (
      pending-notice z now agent m records
      ∙ covered (latest_delivered_timestamp records agent) z agent records
          (max-least (delivered records agent) z all) (weaken m z pending last (max-above pending)))

-- An agent is told once: where the hook runs again and nothing was shed between, it says nothing and
-- leaves the ledger as it is, whatever was in the ledger before the first time.
pub shed_notice_hook_once :
    (now later agent : Text) (records : List JsonDict)
    → let (told, after) = shed_notice_hook now agent records in
      shed_notice_hook later agent after ≡ (false, after)
unfolding shed_notice_hook
shed_notice_hook_once now later agent records = elim (Bool-cases (is_empty agent)) [
  | inl e ↦ rw (e) refl
  | inr e ↦ rw (e) (quiet e (pending_shed_timestamps records agent) refl)
]
  where
    quiet :
        is_empty agent ≡ false
        → (p : List Text) → pending_shed_timestamps records agent ≡ p
        → let after = (noticed now agent p records).1 in
          noticed later agent (pending_shed_timestamps after agent) after ≡ (false, after)
    quiet e [] q = rw (q) refl
    quiet e (t ∷ ts) q =
        let none_left =
          ap
            (λ p.
              pending_shed_timestamps (records ++ (notice_record now agent (max_or_blank p) ∷ []))
                agent)
            (sym q)
          ∙ nothing_left now agent records in
        rw (none_left) refl

is_record-shed :
    (t comm agent : Text) (pid : ℕ) (is_worker : Option Bool)
    → let r = shed_record t pid comm (some agent) is_worker in
      (is_record_of record_type_notice_delivered agent r ≡ false)
      × (is_record_of record_type_process_shed agent r ≡ true)
      × (str_of (lit "timestamp") r ≡ t)
unfolding is_record_of shed_record has_text str_of lookup text_eq
is_record-shed t comm agent pid is_worker = (refl, ≡→eq agent agent refl, refl)

delivered-shed :
    (agent : Text) (r : JsonDict) (records : List JsonDict)
    → is_record_of record_type_notice_delivered agent r ≡ false
    → delivered (records ++ (r ∷ [])) agent ≡ delivered records agent
unfolding delivered
delivered-shed agent r [] e = rw (e) refl
delivered-shed agent r (q ∷ records) e = rw (delivered-shed agent r records e) refl

rest_empty :
    (a b : Bool) (t : Text) (rest : List Text)
    → (if a then (if b then t ∷ rest else rest) else rest) ≡ []
    → rest ≡ []
rest_empty true true t rest e = cc
rest_empty true false t rest e = e
rest_empty false b t rest e = e

pending-shed :
    (after agent : Text) (r : JsonDict) (records : List JsonDict)
    → is_record_of record_type_process_shed agent r ≡ true
    → is_empty (str_of (lit "timestamp") r) ≡ false
    → at_most (str_of (lit "timestamp") r) after ≡ false
    → pending_after after (records ++ (r ∷ [])) agent ≢ []
unfolding pending_after
pending-shed after agent r [] e m p q = let one = rw (e, m, p) at q in cc
pending-shed after agent r (x ∷ records) e m p q =
    pending-shed after agent r records e m p (rest_empty _ _ _ _ q)

-- An agent whose own process is shed after the last notice it had is told the next time the hook runs.
pub shed_notice_hook_told :
    (now t comm agent : Text) (pid : ℕ) (is_worker : Option Bool) (records : List JsonDict)
    → is_empty agent ≡ false
    → is_empty t ≡ false
    → at_most t (latest_delivered_timestamp records agent) ≡ false
    → (shed_notice_hook now agent
        (records ++ (shed_record t pid comm (some agent) is_worker ∷ []))).0
      ≡ true
unfolding shed_notice_hook pending_shed_timestamps latest_delivered_timestamp
shed_notice_hook_told now t comm agent pid is_worker records e m l =
    let r = shed_record t pid comm (some agent) is_worker in
    let (no_notice, is_shed, same) = is_record-shed t comm agent pid is_worker in
    rw (e, delivered-shed agent r records no_notice)
      (says (pending_after (latest_delivered_timestamp records agent) (records ++ (r ∷ [])) agent) (
        pending-shed (latest_delivered_timestamp records agent) agent r records is_shed
          (rw (same) m) (rw (same) l)))
  where
    says :
        (p : List Text)
        → p ≢ []
        → (noticed now agent p (records ++ (shed_record t pid comm (some agent) is_worker ∷ []))).0
          ≡ true
    says [] n = absurd (n refl)
    says (u ∷ us) n = refl
