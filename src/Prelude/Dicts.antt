-- ===== src/Prelude/Dicts.antt =====
-- Python's `dict`: the entries in the order of their first insertion.
use mathlib.Core.Path.{◌≡◌}
use mathlib.Core.Option.{Option, none, some}
use mathlib.Core.List.{List, [], ◌∷◌}
use native.Mathlib.Omega.{arith}
use plain_text_gtd.Prelude.Tests.{Eq, ◌==◌, if◌then◌else◌}

abbrev pub Assoc {ℓ κ} : Type ℓ → Type κ → Type (ℓ ⊔ κ)
Assoc K V = List (K × V)

module _ {ℓ κ} {K : Type ℓ} {V : Type κ} ⦃e : Eq K⦄ where
  -- `d.get(k)`
  unfoldable pub lookup : K → Assoc K V → Option V
  lookup k [] = none
  lookup k ((j, v) ∷ d) = if k == j then some v else lookup k d

  -- `d[k] = v`
  unfoldable pub assign : K → V → Assoc K V → Assoc K V
  assign k v [] = (k, v) ∷ []
  assign k v ((j, w) ∷ d) = if k == j then (j, v) ∷ d else (j, w) ∷ assign k v d

  -- `d.pop(k, None)`
  unfoldable pub remove : K → Assoc K V → Assoc K V
  remove k [] = []
  remove k ((j, w) ∷ d) = let rest = remove k d in if k == j then rest else (j, w) ∷ rest

  pub lookup-assign :
      (k j : K) (v : V) (d : Assoc K V)
      → lookup j (assign k v d) ≡ (if j == k then some v else lookup j d)
  unfolding lookup assign
  lookup-assign k j v [] = ground arith
  lookup-assign k j v (_ ∷ d) = ground (arith, lookup-assign k j v d)

  pub lookup-remove :
      (k j : K) (d : Assoc K V) → lookup j (remove k d) ≡ (if j == k then none else lookup j d)
  unfolding lookup remove
  lookup-remove k j [] = ground arith
  lookup-remove k j (_ ∷ d) = ground (arith, lookup-remove k j d)
