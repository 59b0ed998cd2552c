-- ===== src/Prelude/Order.antt =====
-- `sorted`: a stable insertion sort by a comparison, and the comparisons that key tuples make.
use Prim.Native.Nat.{ℕ, compare, Ordering}
use mathlib.Core.Path.{◌≡◌, refl}
use mathlib.Core.Logic.{inl, inr}
use mathlib.Core.Bool.{Bool, true, false}
use mathlib.Core.List.{List, [], ◌∷◌, Perm}
use mathlib.Core.List.Perm
use native.Mathlib.Omega.{arith}
use plain_text_gtd.Prelude.Tests.{if◌then◌else◌, Bool-cases}
use plain_text_gtd.Prelude.Lists.{All}

-- Python compares texts, which are lists of code points, from the left.
unfoldable pub compare_text : List ℕ → List ℕ → Ordering
compare_text [] [] = Ordering.eq
compare_text [] (_ ∷ _) = Ordering.lt
compare_text (_ ∷ _) [] = Ordering.gt
compare_text (x ∷ xs) (y ∷ ys) = elim (compare x y) [
  | Ordering.lt ↦ Ordering.lt
  | Ordering.eq ↦ compare_text xs ys
  | Ordering.gt ↦ Ordering.gt
]

-- One component of a key tuple: a number, a number with a minus sign, or a text.
pub data Component {ℓ} (A : Type ℓ) : Type ℓ where
  ascending : (A → ℕ) → Component A
  descending : (A → ℕ) → Component A
  textual : (A → List ℕ) → Component A

module _ {ℓ} {A : Type ℓ} where
  abbrev pub compare_component : Component A → A → A → Ordering
  compare_component (ascending f) a b = compare (f a) (f b)
  compare_component (descending f) a b = compare (f b) (f a)
  compare_component (textual f) a b = compare_text (f a) (f b)

  -- `key(a) <= key(b)` for tuples.
  unfoldable pub key_le : List (Component A) → A → A → Bool
  key_le [] a b = true
  key_le (c ∷ cs) a b = elim (compare_component c a b) [
    | Ordering.lt ↦ true
    | Ordering.eq ↦ key_le cs a b
    | Ordering.gt ↦ false
  ]

  unfoldable pub insert : (A → A → Bool) → A → List A → List A
  insert le x [] = x ∷ []
  insert le x (y ∷ ys) = if le x y then x ∷ y ∷ ys else y ∷ insert le x ys

  -- An element stays before the later ones that its key equals, as in Python.
  unfoldable pub sort : (A → A → Bool) → List A → List A
  unfolding insert
  sort le [] = []
  sort le (x ∷ xs) = insert le x (sort le xs)

  -- Every element is at most each of those after it.
  abbrev pub IsSorted : (A → A → Bool) → List A → Type 0
  IsSorted le [] = Unit
  IsSorted le (x ∷ xs) = All (λ y. le x y ≡ true) xs × IsSorted le xs

  insert-perm : (le : A → A → Bool) (x : A) (ys : List A) → Perm (insert le x ys) (x ∷ ys)
  unfolding insert
  insert-perm le x [] = Perm.refl (x ∷ [])
  insert-perm le x (y ∷ ys) = elim (Bool-cases (le x y)) [
    | inl e ↦ rw e (Perm.refl (x ∷ y ∷ ys))
    | inr e ↦ rw e (Perm.trans (Perm.cons y (insert-perm le x ys)) (Perm.swap x y ys))
  ]

  -- Sorting loses nothing and adds nothing.
  pub sort-perm : (le : A → A → Bool) (xs : List A) → Perm (sort le xs) xs
  unfolding sort
  sort-perm le [] = Perm.refl []
  sort-perm le (x ∷ xs) = Perm.trans (insert-perm le x (sort le xs)) (Perm.cons x (sort-perm le xs))

  pub record IsOrder (le : A → A → Bool) : Type ℓ where
    pub total : (a b : A) → le a b ≡ false → le b a ≡ true
    pub trans : (a b c : A) → le a b ≡ true → le b c ≡ true → le a c ≡ true

  module _ (le : A → A → Bool) (o : IsOrder le) where
    All-le_trans :
        (x y : A) (ys : List A)
        → le x y ≡ true
        → All (λ z. le y z ≡ true) ys
        → All (λ z. le x z ≡ true) ys
    All-le_trans x y [] h all = tt
    All-le_trans x y (z ∷ ys) h all = (o.trans x y z h all.0, All-le_trans x y ys h all.1)

    All-insert :
        (y x : A) (ys : List A)
        → le y x ≡ true
        → All (λ z. le y z ≡ true) ys
        → All (λ z. le y z ≡ true) (insert le x ys)
    unfolding insert
    All-insert y x [] h all = (h, tt)
    All-insert y x (z ∷ ys) h all = elim (Bool-cases (le x z)) [
      | inl e ↦ rw e (h, all)
      | inr e ↦ rw e (all.0, All-insert y x ys h all.1)
    ]

    insert-IsSorted : (x : A) (ys : List A) → IsSorted le ys → IsSorted le (insert le x ys)
    unfolding insert
    insert-IsSorted x [] s = (tt, tt)
    insert-IsSorted x (y ∷ ys) s = elim (Bool-cases (le x y)) [
      | inl e ↦ rw e ((e, All-le_trans x y ys e s.0), s)
      | inr e ↦ rw e (All-insert y x ys (o.total x y e) s.0, insert-IsSorted x ys s.1)
    ]

    pub sort-IsSorted : (xs : List A) → IsSorted le (sort le xs)
    unfolding sort
    sort-IsSorted [] = tt
    sort-IsSorted (x ∷ xs) = insert-IsSorted x (sort le xs) (sort-IsSorted xs)

abbrev flip : Ordering → Ordering
flip Ordering.lt = Ordering.gt
flip Ordering.eq = Ordering.eq
flip Ordering.gt = Ordering.lt

-- What a three-way comparison has to satisfy for the orders built on it to be orders.
record IsComparison {ℓ} {A : Type ℓ} (c : A → A → Ordering) : Type ℓ where
  flips : (a b : A) → c b a ≡ flip (c a b)
  lt_trans : (a b d : A) → c a b ≡ Ordering.lt → c b d ≡ Ordering.lt → c a d ≡ Ordering.lt
  eq_left : (a b d : A) → c a b ≡ Ordering.eq → c a d ≡ c b d

compare_flips : (a b : ℕ) → compare b a ≡ flip (compare a b)
compare_flips a b = ground arith

compare_lt_trans :
    (a b d : ℕ) → compare a b ≡ Ordering.lt → compare b d ≡ Ordering.lt → compare a d ≡ Ordering.lt
compare_lt_trans a b d h k = ground arith

compare_eq_left : (a b d : ℕ) → compare a b ≡ Ordering.eq → compare a d ≡ compare b d
compare_eq_left a b d h = ground arith

compare_text_flips : (xs ys : List ℕ) → compare_text ys xs ≡ flip (compare_text xs ys)
unfolding compare_text
compare_text_flips [] [] = refl
compare_text_flips [] (y ∷ ys) = refl
compare_text_flips (x ∷ xs) [] = refl
compare_text_flips (x ∷ xs) (y ∷ ys) = ground (arith, compare_text_flips xs ys)

compare_text_eq : (xs ys : List ℕ) → compare_text xs ys ≡ Ordering.eq → xs ≡ ys
unfolding compare_text
compare_text_eq [] [] h = refl
compare_text_eq [] (y ∷ ys) h = cc
compare_text_eq (x ∷ xs) [] h = cc
compare_text_eq (x ∷ xs) (y ∷ ys) h = ground (arith, compare_text_eq xs ys)

compare_text_lt_trans :
    (xs ys zs : List ℕ)
    → compare_text xs ys ≡ Ordering.lt
    → compare_text ys zs ≡ Ordering.lt
    → compare_text xs zs ≡ Ordering.lt
unfolding compare_text
compare_text_lt_trans [] [] zs h k = cc
compare_text_lt_trans [] (y ∷ ys) [] h k = cc
compare_text_lt_trans [] (y ∷ ys) (z ∷ zs) h k = refl
compare_text_lt_trans (x ∷ xs) [] zs h k = cc
compare_text_lt_trans (x ∷ xs) (y ∷ ys) [] h k = cc
compare_text_lt_trans (x ∷ xs) (y ∷ ys) (z ∷ zs) h k =
    ground (arith, compare_text_lt_trans xs ys zs)

module _ {ℓ} {A : Type ℓ} where
  component-IsComparison : (c : Component A) → IsComparison (compare_component c)
  component-IsComparison (ascending f) = record {
    flips = λ a b. compare_flips (f a) (f b);
    lt_trans = λ a b d. compare_lt_trans (f a) (f b) (f d);
    eq_left = λ a b d. compare_eq_left (f a) (f b) (f d);
  }
  component-IsComparison (descending f) = record {
    flips = λ a b. compare_flips (f b) (f a);
    lt_trans = λ a b d h k. compare_lt_trans (f d) (f b) (f a) k h;
    eq_left = λ a b d h. ground arith;
  }
  component-IsComparison (textual f) = record {
    flips = λ a b. compare_text_flips (f a) (f b);
    lt_trans = λ a b d. compare_text_lt_trans (f a) (f b) (f d);
    eq_left = λ a b d h. rw (compare_text_eq (f a) (f b) h);
  }

  key_le_total : (cs : List (Component A)) (a b : A) → key_le cs a b ≡ false → key_le cs b a ≡ true
  unfolding key_le
  key_le_total [] a b h = refl
  key_le_total (c ∷ cs) a b h =
      ground (arith, (component-IsComparison c).flips a b, key_le_total cs a b)

  key_le_trans :
      (cs : List (Component A)) (a b d : A)
      → key_le cs a b ≡ true
      → key_le cs b d ≡ true
      → key_le cs a d ≡ true
  unfolding key_le
  key_le_trans [] a b d h k = refl
  key_le_trans (c ∷ cs) a b d h k = ground (
    arith,
    (component-IsComparison c).lt_trans a b d,
    (component-IsComparison c).eq_left a b d,
    (component-IsComparison c).eq_left b d a,
    (component-IsComparison c).eq_left b a d,
    (component-IsComparison c).flips a b,
    (component-IsComparison c).flips b d,
    (component-IsComparison c).flips a d,
    (component-IsComparison c).eq_left d b a,
    key_le_trans cs a b d,
  )

  -- Keys made of components order the elements: sorting by them sorts.
  pub key_le-IsOrder : (cs : List (Component A)) → IsOrder (key_le cs)
  key_le-IsOrder cs = record { total = key_le_total cs; trans = key_le_trans cs }
