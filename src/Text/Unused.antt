-- ===== src/Text/Unused.antt =====
-- The first name of a numbered family that is not in use: `while name(index) in used: index += 1`.
-- The search has fuel for as many names as are in use and one more, and finds one.
use plain_text_gtd.Prelude.{
  ℕ, zero, suc, ◌+◌, ◌≤◌, ◌<◌, true, false, List, [], ◌∷◌, Option, none, some, ◌≡◌, refl, ap, ◌==◌,
  nat_eq, text_eq, contains, length, if◌then◌else◌, arith, Bool-cases, inl, inr, eq→≡, ltb, subst,
}
use plain_text_gtd.Text.{Text}

module _ (name : ℕ → Text) where
  unfoldable pub first_unused_from : ℕ → ℕ → List Text → Option ℕ
  unfolding text_eq
  first_unused_from zero index used = none
  first_unused_from (suc fuel) index used =
      let rest = first_unused_from fuel (index + 1) used in
      if contains used (name index) then rest else some index

  -- The search from the number 1.
  unfoldable pub first_unused : List Text → Option ℕ
  unfolding first_unused_from
  first_unused used = first_unused_from (length used + 1) 1 used

  -- The list without one occurrence of a text.
  drop_one : Text → List Text → List Text
  drop_one t [] = []
  drop_one t (x ∷ xs) = let rest = drop_one t xs in if t == x then xs else x ∷ rest

  length-drop_one :
      (t : Text) (xs : List Text) → contains xs t ≡ true → suc (length (drop_one t xs)) ≡ length xs
  unfolding drop_one
  length-drop_one t [] h = cc
  length-drop_one t (x ∷ xs) h = elim (Bool-cases (t == x)) [
    | inl e ↦ rw e refl
    | inr e ↦ rw e (ap suc (length-drop_one t xs (ground arith)))
  ]

  contains-drop_one :
      (t u : Text) (xs : List Text)
      → (u == t) ≡ false
      → contains xs u ≡ true
      → contains (drop_one t xs) u ≡ true
  unfolding drop_one
  contains-drop_one t u [] n h = h
  contains-drop_one t u (x ∷ xs) n h = ground (arith, contains-drop_one t u xs n)

  IsUsedUpTo : ℕ → ℕ → List Text → Type 0
  IsUsedUpTo fuel index used =
      (k : ℕ) → index ≤ k → k < index + fuel → contains used (name k) ≡ true

  used_bound :
      ((i j : ℕ) → name i ≡ name j → i ≡ j)
      → (fuel index : ℕ) (used : List Text) → IsUsedUpTo fuel index used
      → fuel ≤ length used
  unfolding IsUsedUpTo
  used_bound inj zero index used h = omega arith
  used_bound inj (suc fuel) index used h =
      let here = h index (omega arith) (omega arith) in
      let rest = used_bound inj fuel (index + 1) (drop_one (name index) used) (λ k l m.
        contains-drop_one (name index) (name k) used (differs k l)
          (h k (omega arith) (omega arith))) in
      omega (arith, length-drop_one (name index) used here)
    where
      differs : (k : ℕ) → index + 1 ≤ k → (name k == name index) ≡ false
      differs k l = elim (Bool-cases (name k == name index)) [
        | inl e ↦ absurd (omega (arith, inj k index (eq→≡ (name k) (name index) e)))
        | inr e ↦ e
      ]

  -- What a search finds, and what it means that it finds nothing.
  Found : ℕ → ℕ → List Text → Option ℕ → Type 0
  Found fuel index used none = IsUsedUpTo fuel index used
  Found fuel index used (some n) =
      (index ≤ n)
      × (contains used (name n) ≡ false)
      × ((k : ℕ) → index ≤ k → k < n → contains used (name k) ≡ true)

  used_here :
      (fuel index : ℕ) (used : List Text)
      → contains used (name index) ≡ true
      → IsUsedUpTo fuel (index + 1) used
      → IsUsedUpTo (suc fuel) index used
  unfolding IsUsedUpTo
  used_here fuel index used e h k l m = elim (Bool-cases (ltb index k)) [
    | inl b ↦ h k (ground arith) (omega arith)
    | inr b ↦ subst (λ j. contains used (name j) ≡ true) (ground arith) e
  ]

  Found-next :
      (fuel index : ℕ) (used : List Text) (o : Option ℕ)
      → contains used (name index) ≡ true
      → Found fuel (index + 1) used o
      → Found (suc fuel) index used o
  unfolding Found
  Found-next fuel index used none e h = used_here fuel index used e h
  Found-next fuel index used (some n) e (l, u, h) = (
    omega arith,
    u,
    λ k a b. elim (Bool-cases (ltb index k)) [
      | inl c ↦ h k (ground arith) b
      | inr c ↦ subst (λ j. contains used (name j) ≡ true) (ground arith) e
    ],
  )

  first_unused_from-Found :
      (fuel index : ℕ) (used : List Text)
      → Found fuel index used (first_unused_from fuel index used)
  unfolding Found IsUsedUpTo first_unused_from
  first_unused_from-Found zero index used = λ k l m. absurd (omega arith)
  first_unused_from-Found (suc fuel) index used = elim (Bool-cases (contains used (name index))) [
    | inl e ↦ rw e (
        Found-next fuel index used (first_unused_from fuel (index + 1) used) e
          (first_unused_from-Found fuel (index + 1) used))
    | inr e ↦ rw e (omega arith, e, λ k l m. absurd (omega arith))
  ]

  -- The number that the search finds: the least whose name is not in use.
  abbrev pub IsFirstUnused : List Text → ℕ → Type 0
  IsFirstUnused used n =
      (1 ≤ n)
      × (contains used (name n) ≡ false)
      × ((k : ℕ) → 1 ≤ k → k < n → contains used (name k) ≡ true)

  -- Where no two numbers share a name, the search finds the least number whose name is not in use.
  pub first_unused_total :
      ((i j : ℕ) → name i ≡ name j → i ≡ j)
      → (used : List Text) → (n : ℕ) × (first_unused used ≡ some n) × IsFirstUnused used n
  unfolding first_unused Found
  first_unused_total inj used =
      search_result (first_unused_from (length used + 1) 1 used) refl
        (first_unused_from-Found (length used + 1) 1 used)
    where
      search_result :
          (o : Option ℕ)
          → first_unused_from (length used + 1) 1 used ≡ o
          → Found (length used + 1) 1 used o
          → (n : ℕ) × (first_unused_from (length used + 1) 1 used ≡ some n) × IsFirstUnused used n
      search_result none e h = absurd (omega (arith, used_bound inj (length used + 1) 1 used h))
      search_result (some n) e h = (n, e, h)
