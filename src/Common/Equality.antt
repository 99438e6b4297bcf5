-- ===== src/Common/Equality.antt =====
-- Python's `==` on numbers and on texts, as one operator.
use Prim.Native.Nat.{ℕ, compare, Ordering}
use Prim.Native.String.{String}
use mathlib.Core.Path.{◌≡◌}
use mathlib.Core.Logic.{◌↔◌}
use mathlib.Core.Bool.{Bool, true, false}
use native.Mathlib.Omega.{arith}
use text.Mathlib.Text
use text.Mathlib.TextEquality.{eq_iff}

-- A type whose values Python compares, with what makes the comparison one of equality.
pub record HasEq {κ} (T : Type κ) : Type κ where
  pub equal : T → T → Bool
  pub equal_iff : (x y : T) → (equal x y ≡ true) ↔ (x ≡ y)

abbrev pub same_nat : ℕ → ℕ → Bool
same_nat m n = elim (compare m n) [ Ordering.eq ↦ true | _ ↦ false ]

pub same_nat_iff : (m n : ℕ) → (same_nat m n ≡ true) ↔ (m ≡ n)
same_nat_iff m n = ground arith

instance abbrev pub string_eq : HasEq String
string_eq = record { equal = Text.◌==◌; equal_iff = eq_iff }

instance abbrev pub nat_eq : HasEq ℕ
nat_eq = record { equal = same_nat; equal_iff = same_nat_iff }

infix 50 ◌==◌
abbrev pub ◌==◌ {κ} : {T : Type κ} ⦃eq : HasEq T⦄ → T → T → Bool
◌==◌ ⦃eq⦄ = eq.equal
