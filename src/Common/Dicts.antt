-- ===== src/Common/Dicts.antt =====
-- Python's `d[k] = v`, `del d[k]` and a filter by the key, on a dictionary given by its entries.
use mathlib.Core.Path.{◌≡◌, refl, ap}
use mathlib.Core.Bool.{Bool}
use mathlib.Core.Logic.{inl, inr}
use mathlib.Core.List.{List, [], ◌∷◌}
use mathlib.Core.Option.{none, some}
use native.Mathlib.Omega.{arith}
use thenexusengine.Common.Tests.{if◌then◌else◌, Bool-cases}
use thenexusengine.Common.Equality.{HasEq, ◌==◌}
use thenexusengine.Common.Lists.{filter}
use thenexusengine.Common.Members.{lookup, eq_of_beq}

module _ {ℓ κ} {K : Type ℓ} {V : Type κ} ⦃e : HasEq K⦄ where
  -- `d[k] = v`, in the place of the old entry or at the end.
  unfoldable pub dict_set : List (K × V) → K → V → List (K × V)
  dict_set [] k v = (k, v) ∷ []
  dict_set ((j, w) ∷ m) k v = if j == k then (j, v) ∷ m else (j, w) ∷ dict_set m k v

  -- `del d[k]`
  unfoldable pub dict_del : List (K × V) → K → List (K × V)
  dict_del [] k = []
  dict_del ((j, w) ∷ m) k = if j == k then dict_del m k else (j, w) ∷ dict_del m k

  pub lookup-dict_set :
      (m : List (K × V)) (k : K) (v : V) (j : K)
      → lookup (dict_set m k v) j ≡ (if k == j then some v else lookup m j)
  unfolding dict_set
  lookup-dict_set [] k v j = refl
  lookup-dict_set ((i, w) ∷ m) k v j = elim (Bool-cases (i == k)) [
    | inl same ↦ let moved = ap (λ x. x == j) (eq_of_beq i k same) in ground arith
    | inr other ↦ elim (Bool-cases (i == j)) [
      | inl hit ↦
          let back = ap (λ x. x == k) (eq_of_beq i j hit) in
          ground (arith, lookup-dict_set m k v j, eq_of_beq k j, e.equal_iff j k, e.equal_iff k j)
      | inr miss ↦ ground (arith, lookup-dict_set m k v j)
    ]
  ]

  pub lookup-dict_del :
      (m : List (K × V)) (k j : K) → lookup (dict_del m k) j ≡ (if k == j then none else lookup m j)
  unfolding dict_del
  lookup-dict_del [] k j = ground arith
  lookup-dict_del ((i, w) ∷ m) k j = elim (Bool-cases (i == k)) [
    | inl same ↦
        let moved = ap (λ x. x == j) (eq_of_beq i k same) in ground (arith, lookup-dict_del m k j)
    | inr other ↦ elim (Bool-cases (i == j)) [
      | inl hit ↦
          ground (arith, lookup-dict_del m k j, e.equal_iff k j, e.equal_iff i k, e.equal_iff i j)
      | inr miss ↦ ground (arith, lookup-dict_del m k j)
    ]
  ]

  pub lookup-filter :
      (keep : K → Bool) (m : List (K × V)) (j : K)
      → lookup (filter (λ (p : K × V). keep p.0) m) j ≡ (if keep j then lookup m j else none)
  lookup-filter keep [] j = ground arith
  lookup-filter keep ((i, w) ∷ m) j = elim (Bool-cases (i == j)) [
    | inl hit ↦ let moved = ap keep (eq_of_beq i j hit) in ground (arith, lookup-filter keep m j)
    | inr miss ↦ ground (arith, lookup-filter keep m j)
  ]
