-- ===== src/Prelude/Lists.antt =====
-- Lists measured by native numbers, filters by a Boolean test, and predicates on all elements.
use Prim.Native.Nat.{ℕ, zero, suc, ◌+◌, ◌≤◌}
use mathlib.Core.Path.{◌≡◌, refl, ap}
use mathlib.Core.Logic.{◌∨₁◌, inl, inr, ∥∥₁_map}
use mathlib.Core.Logic.Or
use mathlib.Core.Bool.{Bool, true, false, ◌&&◌}
use mathlib.Core.Option.{Option, none, some}
use mathlib.Core.List.{List, [], ◌∷◌, ◌++◌, Mem, Mem-prop, mem-cons, mem-cons_of_mem, not-mem-nil}
use native.Mathlib.Omega.{arith}
use plain_text_gtd.Prelude.Tests.{if◌then◌else◌, Bool-cases, Eq, ◌==◌, contains, eq→≡}

module _ {ℓ} {A : Type ℓ} where
  abbrev pub length : List A → ℕ
  length [] = 0
  length (x ∷ xs) = suc (length xs)

  -- `l[:n]`
  abbrev pub take : ℕ → List A → List A
  take zero xs = []
  take (suc n) [] = []
  take (suc n) (x ∷ xs) = x ∷ take n xs

  -- `l[n:]`
  abbrev pub drop : ℕ → List A → List A
  drop zero xs = xs
  drop (suc n) [] = []
  drop (suc n) (x ∷ xs) = drop n xs

  -- `[x for x in l if p(x)]`
  abbrev pub select : (A → Bool) → List A → List A
  select p [] = []
  select p (x ∷ xs) = let rest = select p xs in if p x then x ∷ rest else rest

  -- `next((x for x in l if p(x)), None)`
  abbrev pub first : (A → Bool) → List A → Option A
  first p [] = none
  first p (x ∷ xs) = if p x then some x else first p xs

  abbrev pub All {κ} : (A → Type κ) → List A → Type κ
  All P [] = Unit
  All P (x ∷ xs) = P x × All P xs

  pub length-append : (xs ys : List A) → length (xs ++ ys) ≡ length xs + length ys
  length-append [] ys = omega arith
  length-append (x ∷ xs) ys = omega (arith, length-append xs ys)

  pub length-take-le : (n : ℕ) (xs : List A) → length (take n xs) ≤ n
  length-take-le zero xs = omega arith
  length-take-le (suc n) [] = omega arith
  length-take-le (suc n) (x ∷ xs) = omega (arith, length-take-le n xs)

  pub length-select-le : (p : A → Bool) (xs : List A) → length (select p xs) ≤ length xs
  length-select-le p [] = omega arith
  length-select-le p (x ∷ xs) = ground (arith, length-select-le p xs)

  pub All-select {κ} :
      (P : A → Type κ) (p : A → Bool) (xs : List A)
      → ((x : A) → p x ≡ true → P x)
      → All P (select p xs)
  All-select P p [] h = tt
  All-select P p (x ∷ xs) h = elim (Bool-cases (p x)) [
    | inl e ↦ rw e (h x e, All-select P p xs h)
    | inr e ↦ rw e (All-select P p xs h)
  ]

  pub All-append {κ} : (P : A → Type κ) (xs ys : List A) → All P xs → All P ys → All P (xs ++ ys)
  All-append P [] ys hx hy = hy
  All-append P (x ∷ xs) ys hx hy = (hx.0, All-append P xs ys hx.1 hy)

  select_cases-mem :
      {a : A} (p : A → Bool) (x : A) (xs : List A)
      → Mem a (if p x then x ∷ select p xs else select p xs)
      → (a ≡ x) × (p x ≡ true) ∨₁ Mem a (select p xs)
  select_cases-mem p x xs m = elim (Bool-cases (p x)) [
    | inl e ↦ Or.elim squash₁ (mem-cons.0 (rw e at m)) (λ q. Or.inl (q, e)) Or.inr
    | inr e ↦ Or.inr (rw e at m)
  ]

  -- What a comprehension keeps is exactly what was there and passes the test.
  pub mem-select :
      {a : A} (p : A → Bool) (xs : List A) → Mem a (select p xs) → ∥ Mem a xs × (p a ≡ true) ∥₁
  mem-select p [] m = absurd (not-mem-nil m)
  mem-select p (x ∷ xs) m =
      Or.elim squash₁ (select_cases-mem p x xs m) (λ (q, e). ∣ (mem-cons.1 (Or.inl q), rw q e) ∣₁)
        (λ r. ∥∥₁_map (mem-select p xs r) (λ (n, e). (mem-cons_of_mem x n, e)))

  pub mem-select_of_mem :
      {a : A} (p : A → Bool) (xs : List A) → Mem a xs → p a ≡ true → Mem a (select p xs)
  mem-select_of_mem p [] m e = m
  mem-select_of_mem p (x ∷ xs) m e =
      Or.elim Mem-prop (mem-cons.0 m)
        (λ q. let t : p x ≡ true = rw (← q) e in rw t (mem-cons.1 (Or.inl q)))
        (λ r. elim (Bool-cases (p x)) [
          | inl t ↦ rw t (mem-cons_of_mem x (mem-select_of_mem p xs r e))
          | inr f ↦ rw f (mem-select_of_mem p xs r e)
        ])

and_false : (b : Bool) → (b && false) ≡ false
and_false true = refl
and_false false = refl

module _ {ℓ} {A : Type ℓ} ⦃e : Eq A⦄ where
  pub contains-select :
      (a : A) (p : A → Bool) (xs : List A) → contains (select p xs) a ≡ (contains xs a && p a)
  contains-select a p [] = refl
  contains-select a p (x ∷ xs) = elim (Bool-cases (p x)) [
    | inl t ↦
        rw (t, contains-select a p xs)
          (elim (Bool-cases (a == x)) [
            | inl q ↦ rw (q, ap p (eq→≡ a x q), t) refl
            | inr q ↦ rw (q) refl
          ])
    | inr f ↦
        rw (f, contains-select a p xs)
          (elim (Bool-cases (a == x)) [
            | inl q ↦ rw (q, ap p (eq→≡ a x q), f) (and_false (contains xs a))
            | inr q ↦ rw (q) refl
          ])
  ]
