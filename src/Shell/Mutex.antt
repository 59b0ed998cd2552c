-- ===== src/Shell/Mutex.antt =====
-- layout_ops.py, `LayoutMutex`: the mutex of the operations that change a layout. An instant is a number
-- of microseconds of `time.monotonic`, read when the call is made; the wall clock is another argument.
use plain_text_gtd.Prelude.{
  ℕ, ◌+◌, ◌-◌, ◌/◌, ◌<◌, true, false, ◌&&◌, List, [], ◌∷◌, Option, none, some, ◌==◌, text_eq, ltb,
  if◌then◌else◌, ◌≡◌, refl, All, arith, Bool-cases, inl, inr, ap, sym, ◌∙◌,
}
use plain_text_gtd.Text.{Text}
use mathlib.Core.Option.{none-ne-some}

-- `_MUTEX_TTL_SECONDS`
abbrev pub mutex_ttl : ℕ
mutex_ttl = 500000

-- `retry_after_ms`
abbrev pub retry_after_ms : ℕ
retry_after_ms = mutex_ttl / 1000

-- The holder; `args` has what was sent with the operation, of any type.
pub record Holder (A : Type 0) : Type 0 where
  pub agent_id : Text
  pub op : Text
  pub args : A
  pub started_at_monotonic : ℕ
  pub started_at_wall : ℕ

pub record InFlight (A : Type 0) : Type 0 where
  pub agent_id : Text
  pub operation : Text
  pub args : A
  pub started_at : ℕ

module _ {A : Type 0} where
  abbrev take_slot : ℕ → ℕ → Text → Text → A → Option (InFlight A) × Option (Holder A)
  take_slot now wall agent_id op args = (
    none,
    some (record {
      agent_id = agent_id;
      op = op;
      args = args;
      started_at_monotonic = now;
      started_at_wall = wall;
    }),
  )

  -- `try_acquire`; `none` as its first part is success
  unfoldable pub try_acquire :
      ℕ → ℕ → Text → Text → A → Option (Holder A) → Option (InFlight A) × Option (Holder A)
  try_acquire now wall agent_id op args none = take_slot now wall agent_id op args
  try_acquire now wall agent_id op args (some h) =
      if ltb (now - h.started_at_monotonic) mutex_ttl
      then (
        some (record {
          agent_id = h.agent_id;
          operation = h.op;
          args = h.args;
          started_at = h.started_at_wall;
        }),
        some h,
      )
      else take_slot now wall agent_id op args

  -- `release`
  unfoldable pub release : Text → Text → Option (Holder A) → Option (Holder A)
  unfolding text_eq
  release agent_id op none = none
  release agent_id op (some h) = if (h.agent_id == agent_id) && (h.op == op) then none else some h

ltb-since : (n start : ℕ) → ltb (n - start) mutex_ttl ≡ ltb n (start + mutex_ttl)
ltb-since n start = ground arith

ltb-before : (n bound : ℕ) → n < bound → ltb n bound ≡ true
ltb-before n bound l = ground arith

-- A call that some client makes.
pub data Call (A : Type 0) : Type 0 where
  tries : ℕ → ℕ → Text → Text → A → Call A
  releases : Text → Text → Call A

module _ {A : Type 0} where
  unfoldable pub called : Call A → Option (Holder A) → Option (Holder A)
  unfolding try_acquire release
  called (tries now wall agent_id op args) s = (try_acquire now wall agent_id op args s).1
  called (releases agent_id op) s = release agent_id op s

  unfoldable pub called_all : List (Call A) → Option (Holder A) → Option (Holder A)
  unfolding called
  called_all [] s = s
  called_all (c ∷ calls) s = called_all calls (called c s)

  -- Every attempt comes before the instant, and every release is for another agent or operation.
  abbrev pub IsForeign : ℕ → Text → Text → Call A → Type 0
  IsForeign until agent_id op (tries now wall a o args) = now < until
  IsForeign until agent_id op (releases a o) = ((agent_id == a) && (op == o)) ≡ false

  kept :
      (h : Holder A) (c : Call A)
      → IsForeign (h.started_at_monotonic + mutex_ttl) h.agent_id h.op c
      → called c (some h) ≡ some h
  unfolding called try_acquire release
  kept h (tries now wall id op args) a =
      rw
        (
          called,
          ltb-since now h.started_at_monotonic,
          ltb-before now (h.started_at_monotonic + mutex_ttl) a,
        )
        refl
  kept h (releases id op) a = rw (called, a) refl

  held :
      (h : Holder A) (calls : List (Call A))
      → All (IsForeign (h.started_at_monotonic + mutex_ttl) h.agent_id h.op) calls
      → called_all calls (some h) ≡ some h
  unfolding called_all
  held h [] a = refl
  held h (c ∷ calls) a = ap (called_all calls) (kept h c a.0) ∙ held h calls a.1

  abbrev holder_of : ℕ → ℕ → Text → Text → A → Holder A
  holder_of now wall agent_id op args = record {
    agent_id = agent_id;
    op = op;
    args = args;
    started_at_monotonic = now;
    started_at_wall = wall;
  }

  refused :
      (now wall : ℕ) (id op : Text) (args : A) (h : Holder A)
      → ltb (now - h.started_at_monotonic) mutex_ttl ≡ true
      → (o : InFlight A) × ((try_acquire now wall id op args (some h)).0 ≡ some o)
  unfolding try_acquire
  refused now wall id op args h t = (
    record {
      agent_id = h.agent_id;
      operation = h.op;
      args = h.args;
      started_at = h.started_at_wall;
    },
    rw (t) refl,
  )

  taken :
      (now wall : ℕ) (id op : Text) (args : A) (s : Option (Holder A))
      → (try_acquire now wall id op args s).0 ≡ none
      → (try_acquire now wall id op args s).1 ≡ some (holder_of now wall id op args)
  unfolding try_acquire
  taken now wall id op args none e = refl
  taken now wall id op args (some h) e =
      elim (Bool-cases (ltb (now - h.started_at_monotonic) mutex_ttl)) [
        | inl t ↦
            let (o, q) = refused now wall id op args h t in absurd (none-ne-some o (sym e ∙ q))
        | inr f ↦ rw (f) refl
      ]

  abbrev pub IsRefusedUntil : ℕ → ℕ → ℕ → Text → Text → A → Option (InFlight A) → Type 0
  IsRefusedUntil later until wall id op args answer =
      if ltb later until
      then answer ≡ some (record { agent_id = id; operation = op; args = args; started_at = wall })
      else answer ≡ none

  answered :
      (later wall' : ℕ) (id' op' : Text) (args' : A) (h : Holder A)
      → IsRefusedUntil later
          (h.started_at_monotonic + mutex_ttl)
          h.started_at_wall
          h.agent_id
          h.op
          h.args
          (try_acquire later wall' id' op' args' (some h)).0
  unfolding try_acquire
  answered later wall' id' op' args' h =
      elim (Bool-cases (ltb later (h.started_at_monotonic + mutex_ttl))) [
        | inl t ↦ rw (ltb-since later h.started_at_monotonic, t) refl
        | inr f ↦ rw (ltb-since later h.started_at_monotonic, f) refl
      ]

  -- Once the mutex is taken, it stays with the one who took it for half a second: whatever attempts
  -- others make in that time and whatever releases come for other agents or operations, the next
  -- attempt in that time is refused and told who holds it. From then on, the next attempt takes it.
  pub try_acquire_excludes :
      (now wall : ℕ) (id op : Text) (args : A) (s : Option (Holder A)) (calls : List (Call A))
      (later wall' : ℕ) (id' op' : Text) (args' : A)
      → (try_acquire now wall id op args s).0 ≡ none
      → All (IsForeign (now + mutex_ttl) id op) calls
      → IsRefusedUntil later
          (now + mutex_ttl)
          wall
          id
          op
          args
          (try_acquire later wall' id' op' args'
            (called_all calls (try_acquire now wall id op args s).1)).0
  try_acquire_excludes now wall id op args s calls later wall' id' op' args' e a =
      let h = holder_of now wall id op args in
      rw (taken now wall id op args s e, held h calls a) (answered later wall' id' op' args' h)
