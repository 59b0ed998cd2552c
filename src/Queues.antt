-- ===== src/Queues.antt =====
-- Lists of queues, each known by a number, and what is in them.
use plain_text_gtd.Prelude.{
  ℕ, ◌+◌, ◌<◌, Bool, true, false, ◌||◌, List, [], ◌∷◌, ◌++◌, Option, Assoc, lookup, assign, none,
  some, lookup-assign, nat_eq, ◌==◌, contains, if◌then◌else◌, ◌≡◌, refl, arith, Bool-cases, inl,
  inr, All,
}
use mathlib.Core.Bool.{true≢false}

-- `d.get(key, [])`
abbrev pub or_empty {ℓ} : {A : Type ℓ} → Option (List A) → List A
or_empty none = []
or_empty (some l) = l

-- `queues.remove(event_queue)`
unfoldable pub drop_queue : ℕ → List ℕ → List ℕ
unfolding nat_eq
drop_queue h [] = []
drop_queue h (k ∷ hs) = let rest = drop_queue h hs in if h == k then hs else k ∷ rest

unfoldable pub content : {E : Type 0} → ℕ → Assoc ℕ (List (Option E)) → List (Option E)
unfolding lookup nat_eq
content h c = or_empty (lookup h c)

pub content-assign :
    {E : Type 0} (k h : ℕ) (l : List (Option E)) (c : Assoc ℕ (List (Option E)))
    → content k (assign h l c) ≡ (if k == h then l else content k c)
unfolding content
content-assign k h l c = elim (Bool-cases (k == h)) [
  | inl q ↦ rw (lookup-assign h k l c, q) refl
  | inr q ↦ rw (lookup-assign h k l c, q) refl
]

abbrev pub IsDistinct : List ℕ → Type 0
IsDistinct [] = Unit
IsDistinct (h ∷ hs) = (contains hs h ≡ false) × IsDistinct hs

pub contains-drop :
    (k h : ℕ) (hs : List ℕ)
    → IsDistinct hs
    → contains (drop_queue h hs) k ≡ (if k == h then false else contains hs k)
unfolding drop_queue
contains-drop k h [] u = ground arith
contains-drop k h (x ∷ hs) u =
    let own : contains hs x ≡ false = u.0 in grind (arith, contains-drop k h hs u.1)

pub IsDistinct-drop : (h : ℕ) (hs : List ℕ) → IsDistinct hs → IsDistinct (drop_queue h hs)
unfolding drop_queue
IsDistinct-drop h [] u = tt
IsDistinct-drop h (x ∷ hs) u = elim (Bool-cases (h == x)) [
  | inl q ↦ rw (q) u.1
  | inr q ↦ rw (q, contains-drop x h hs u.1) ((ground (arith, u.0)), IsDistinct-drop h hs u.1)
]

pub or_false : (a b : Bool) → (a || b) ≡ false → (a ≡ false) × (b ≡ false)
or_false true b e = absurd (true≢false e)
or_false false b e = (refl, e)

pub or_true : (b : Bool) → (b || true) ≡ true
or_true true = refl
or_true false = refl

abbrev pub IsBelow : ℕ → List ℕ → Type 0
IsBelow next hs = All (λ h. h < next) hs

pub IsBelow-drop : (next h : ℕ) (hs : List ℕ) → IsBelow next hs → IsBelow next (drop_queue h hs)
unfolding drop_queue
IsBelow-drop next h [] b = tt
IsBelow-drop next h (x ∷ hs) b = elim (Bool-cases (h == x)) [
  | inl q ↦ rw (q) b.1
  | inr q ↦ rw (q) (b.0, IsBelow-drop next h hs b.1)
]

pub contains-below : (next : ℕ) (hs : List ℕ) → IsBelow next hs → contains hs next ≡ false
contains-below next [] b = refl
contains-below next (h ∷ hs) b = ground (arith, b.0, contains-below next hs b.1)

pub contains-add :
    (k h : ℕ) (hs : List ℕ) → contains (hs ++ (h ∷ [])) k ≡ (contains hs k || (k == h))
contains-add k h [] = ground arith
contains-add k h (x ∷ hs) = ground (arith, contains-add k h hs)

pub IsDistinct-add :
    (next : ℕ) (hs : List ℕ)
    → IsDistinct hs
    → IsBelow next hs
    → IsDistinct (hs ++ (next ∷ [])) × IsBelow (next + 1) (hs ++ (next ∷ []))
IsDistinct-add next [] u b = ((refl, tt), (omega arith, tt))
IsDistinct-add next (h ∷ hs) u b =
    let (u', b') = IsDistinct-add next hs u.1 b.1 in
    ((rw (contains-add h next hs, u.0) (ground (arith, b.0)), u'), (omega (arith, b.0), b'))
