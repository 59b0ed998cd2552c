-- ===== src/Text/Strip.antt =====
-- The laws of stripping.
use plain_text_gtd.Prelude.{ℕ, ◌≡◌, refl, Bool, true, false, [], ◌∷◌, arith, inl, inr, Bool-cases}
use plain_text_gtd.Text.{Text, is_space, lstrip, rstrip, strip}

rstrip_idem : (p : ℕ → Bool) (s : Text) → rstrip p (rstrip p s) ≡ rstrip p s
unfolding rstrip
rstrip_idem p [] = refl
rstrip_idem p (c ∷ s) = ground (arith, rstrip_idem p s)

-- A text that does not begin with a stripped character is left alone.
lstrip-rstrip_head :
    (p : ℕ → Bool) (c : ℕ) (s : Text) → p c ≡ false → lstrip p (rstrip p (c ∷ s)) ≡ rstrip p (c ∷ s)
unfolding lstrip rstrip
lstrip-rstrip_head p c s h = ground arith

lstrip-rstrip : (p : ℕ → Bool) (s : Text) → lstrip p (rstrip p (lstrip p s)) ≡ rstrip p (lstrip p s)
unfolding lstrip
lstrip-rstrip p [] = unfold rstrip in refl
lstrip-rstrip p (c ∷ s) = elim (Bool-cases (p c)) [
  | inl e ↦ rw e (lstrip-rstrip p s)
  | inr e ↦ rw e (lstrip-rstrip_head p c s e)
]

-- Stripping a stripped text changes nothing.
pub strip_idem : (s : Text) → strip (strip s) ≡ strip s
unfolding strip
strip_idem s = rw (lstrip-rstrip is_space s) (rstrip_idem is_space (lstrip is_space s))

-- Stripping a shorter end first makes no difference.
rstrip-rstrip :
    (p q : ℕ → Bool)
    → ((c : ℕ) → q c ≡ true → p c ≡ true)
    → (s : Text) → rstrip p (rstrip q s) ≡ rstrip p s
unfolding rstrip
rstrip-rstrip p q h [] = refl
rstrip-rstrip p q h (c ∷ s) = ground (arith, rstrip-rstrip p q h s, h c)
