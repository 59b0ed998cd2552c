-- ===== src/Text/Decimal.antt =====
-- `str(n)` for a number that is not negative, which different numbers do not share.
use plain_text_gtd.Prelude.{
  ℕ, zero, suc, ◌+◌, ◌*◌, ◌-◌, ◌/◌, ◌%◌, ◌<◌, ◌≡◌, sym, ap, ◌∙◌, [], ◌∷◌, ltb, arith, Bool-cases,
  inl, inr, if◌then◌else◌,
}
use plain_text_gtd.Text.{Text}

-- The decimal digits of a number, with fuel for its length.
unfoldable pub digits : ℕ → ℕ → Text → Text
digits zero n after = after
digits (suc fuel) n after =
    let more = digits fuel (n / 10) ((48 + n % 10) ∷ after) in
    if ltb n 10 then (48 + n) ∷ after else more

-- `str(n)`
unfoldable pub decimal_text : ℕ → Text
unfolding digits
decimal_text n = digits (suc n) n []

-- The number that digits stand for, behind those that were read.
value_from : ℕ → Text → ℕ
value_from n [] = n
value_from n (c ∷ s) = value_from (n * 10 + (c - 48)) s

value_from-digits :
    (fuel n : ℕ) (after : Text) → n < fuel → value_from 0 (digits fuel n after) ≡ value_from n after
unfolding value_from digits
value_from-digits zero n after h = absurd (omega arith)
value_from-digits (suc fuel) n after h = elim (Bool-cases (ltb n 10)) [
  | inl e ↦ rw e (ap (λ k. value_from k after) (omega arith))
  | inr e ↦ rw e (
      value_from-digits fuel (n / 10) ((48 + n % 10) ∷ after) (ground arith)
      ∙ ap (λ k. value_from k after) (omega arith))
]

pub decimal_text_injective : (m n : ℕ) → decimal_text m ≡ decimal_text n → m ≡ n
unfolding decimal_text value_from
decimal_text_injective m n e =
    sym (value_from-digits (suc m) m [] (omega arith))
    ∙ ap (value_from 0) e
    ∙ value_from-digits (suc n) n [] (omega arith)
