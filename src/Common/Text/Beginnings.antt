-- ===== src/Common/Text/Beginnings.antt =====
-- Texts with the same beginning.
use Prim.Native.String.{String}
use mathlib.Core.Path.{◌≡◌, sym, ap, ◌∙◌}
use mathlib.Core.Logic.{inl, inr}
use native.Mathlib.Omega.{arith}
use thenexusengine.Common.Tests.{Bool-cases}
use thenexusengine.Common.Equality.{◌==◌, string_eq}
use thenexusengine.Common.Members.{eq_of_beq, eq_self}
use thenexusengine.Common.Text.{concat}

concat_cancel : (part a b : String) → concat part a ≡ concat part b → a ≡ b
concat_cancel String.[] a b e = e
concat_cancel (String.◌∷◌ c part) a b e = concat_cancel part a b (ground (arith, e))

pub concat-equal : (part a b : String) → (concat part a == concat part b) ≡ (a == b)
concat-equal part a b = elim (Bool-cases (a == b)) [
  | inl same ↦
      let moved = ap (λ x. concat part a == concat part x) (eq_of_beq a b same) in
      ground (arith, eq_self (concat part a))
  | inr other ↦ elim (Bool-cases (concat part a == concat part b)) [
    | inl same ↦
        let equal = concat_cancel part a b (eq_of_beq (concat part a) (concat part b) same) in
        let back = ap (λ x. a == x) equal in absurd (ground (arith, eq_self a))
    | inr differs ↦ differs ∙ sym other
  ]
]
