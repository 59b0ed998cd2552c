-- ===== src/Prelude/Tails.antt =====
-- The last elements of a list.
use Prim.Native.Nat.{ℕ, zero, suc, ◌+◌, ◌-◌, ◌≤◌}
use mathlib.Core.Path.{◌≡◌, refl, sym, ap, ◌∙◌}
use mathlib.Core.Logic.{inl, inr}
use mathlib.Core.Bool.{false}
use mathlib.Core.List.{List, [], ◌∷◌, ◌++◌}
use native.Mathlib.Omega.{arith}
use plain_text_gtd.Prelude.Tests.{if◌then◌else◌, ltb, Bool-cases}
use plain_text_gtd.Prelude.Lists.{length, drop, length-append}

module _ {ℓ} {A : Type ℓ} where
  -- `l[-n:]`, for an `n` that is not 0
  abbrev pub latest : ℕ → List A → List A
  latest n l = drop (length l - n) l

  -- `put_nowait` on a queue of at most `n`, with the oldest dropped where it is full
  abbrev pub pushed : ℕ → List A → A → List A
  pushed n l x = if ltb (length l) n then l ++ (x ∷ []) else drop 1 l ++ (x ∷ [])

  length-drop : (k : ℕ) (l : List A) → length (drop k l) ≡ length l - k
  length-drop zero l = omega arith
  length-drop (suc k) [] = omega arith
  length-drop (suc k) (x ∷ l) = omega (arith, length-drop k l)

  drop-nil : (k : ℕ) → drop {A = A} k [] ≡ []
  drop-nil zero = refl
  drop-nil (suc k) = refl

  drop-drop : (a b : ℕ) (l : List A) → drop b (drop a l) ≡ drop (a + b) l
  drop-drop zero b l = ap (λ k. drop k l) (zero_add b)
    where
      zero_add : (b : ℕ) → b ≡ zero + b
      zero_add b = omega arith
  drop-drop (suc a) b [] = drop-nil b ∙ sym (drop-nil (suc a + b))
  drop-drop (suc a) b (x ∷ l) = drop-drop a b l ∙ ap (λ k. drop k (x ∷ l)) (suc_add a b)
    where
      suc_add : (a b : ℕ) → suc (a + b) ≡ suc a + b
      suc_add a b = omega arith

  drop-append : (k : ℕ) (l r : List A) → k ≤ length l → drop k (l ++ r) ≡ drop k l ++ r
  drop-append zero l r h = refl
  drop-append (suc k) [] r h = absurd (omega arith)
  drop-append (suc k) (x ∷ l) r h = drop-append k l r (omega (arith, h))

  pub length-latest : (n : ℕ) (l : List A) → length (latest n l) ≤ n
  length-latest n l = omega (arith, length-drop (length l - n) l)

  pub latest-short : (n : ℕ) (l : List A) → length l ≤ n → latest n l ≡ l
  latest-short n l h = ap (λ k. drop k l) (none_over (length l) n h)
    where
      none_over : (a b : ℕ) → a ≤ b → a - b ≡ 0
      none_over a b h = omega (arith, h)

  -- What is before the last elements does not count.
  pub latest-latest : (n : ℕ) (l r : List A) → latest n (latest n l ++ r) ≡ latest n (l ++ r)
  latest-latest n l r = elim (Bool-cases (ltb (length l) n)) [
    | inl e ↦ ap (λ t. latest n (t ++ r)) (latest-short n l (ground arith))
    | inr e ↦
        ap (λ k. drop k (drop (length l - n) l ++ r)) (over e)
        ∙ ap (drop (length r)) (sym (drop-append (length l - n) l r (omega arith)))
        ∙ drop-drop (length l - n) (length r) (l ++ r)
        ∙ ap (λ k. drop k (l ++ r)) (whole e)
  ]
    where
      over : ltb (length l) n ≡ false → length (drop (length l - n) l ++ r) - n ≡ length r
      over e = ground (arith, length-append (drop (length l - n) l) r, length-drop (length l - n) l)

      whole : ltb (length l) n ≡ false → length l - n + length r ≡ length (l ++ r) - n
      whole e = ground (arith, length-append l r)

  -- A queue keeps its last elements.
  pub latest-pushed :
      (n : ℕ) (l : List A) (x : A) → length l ≤ n → 1 ≤ n → pushed n l x ≡ latest n (l ++ (x ∷ []))
  latest-pushed n l x h p = elim (Bool-cases (ltb (length l) n)) [
    | inl e ↦ rw e (sym (latest-short n (l ++ (x ∷ [])) (ground (arith, length-append l (x ∷ [])))))
    | inr e ↦ rw e (
        sym (drop-append 1 l (x ∷ []) (ground arith))
        ∙ ap (λ k. drop k (l ++ (x ∷ []))) (one_over e))
  ]
    where
      one_over : ltb (length l) n ≡ false → 1 ≡ length (l ++ (x ∷ [])) - n
      one_over e = ground (arith, length-append l (x ∷ []))
