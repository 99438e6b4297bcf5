-- ===== src/Common/Members.antt =====
-- Python's `in` on a list or a set, where a set is the list of its elements, and an association
-- list for a dictionary.
use Prim.Native.Nat.{ℕ, suc, ◌+◌, ◌≤◌}
use mathlib.Core.Path.{◌≡◌, refl, ap}
use mathlib.Core.Bool.{Bool, true, false, ◌||◌, ◌&&◌}
use mathlib.Core.Logic.{inl, inr}
use mathlib.Core.List.{List, [], ◌∷◌, ◌++◌}
use mathlib.Core.Option.{Option, none, some}
use native.Mathlib.Omega.{arith}
use thenexusengine.Common.Tests.{if◌then◌else◌, Bool-cases}
use thenexusengine.Common.Equality.{HasEq, ◌==◌}
use thenexusengine.Common.Lists.{All, filter}

module _ {ℓ} {A : Type ℓ} ⦃e : HasEq A⦄ where
  abbrev pub contains : List A → A → Bool
  contains [] a = false
  contains (x ∷ xs) a = x == a || contains xs a

  -- `s.add(a)`
  abbrev pub set_add : List A → A → List A
  set_add s a = if contains s a then s else s ++ a ∷ []

  abbrev pub Distinct : List A → Type 0
  Distinct [] = Unit
  Distinct (x ∷ xs) = (contains xs x ≡ false) × Distinct xs

  -- `d.get(k)` on a dictionary given by its entries
  abbrev pub lookup {κ} : {V : Type κ} → List (A × V) → A → Option V
  lookup [] k = none
  lookup ((j, v) ∷ m) k = if j == k then some v else lookup m k

  pub eq_self : (a : A) → (a == a) ≡ true
  eq_self a = (e.equal_iff a a).1 refl

  pub eq_of_beq : (a b : A) → (a == b) ≡ true → a ≡ b
  eq_of_beq a b = (e.equal_iff a b).0

  -- What equals `a` compares with `b` as `a` does.
  pub beq_trans : (c a b : A) → (c == a) ≡ true → (c == b) ≡ (a == b)
  beq_trans c a b h = ap (λ x. x == b) (eq_of_beq c a h)

  pub contains-append :
      (xs ys : List A) (a : A) → contains (xs ++ ys) a ≡ (contains xs a || contains ys a)
  contains-append [] ys a = refl
  contains-append (x ∷ xs) ys a = ground (arith, contains-append xs ys a)

  pub set_add_absent : (s : List A) (a : A) → contains s a ≡ false → set_add s a ≡ s ++ a ∷ []
  set_add_absent s a h = ground arith

  pub Distinct-snoc :
      (xs : List A) (a : A) → Distinct xs → contains xs a ≡ false → Distinct (xs ++ a ∷ [])
  Distinct-snoc [] a d h = (refl, tt)
  Distinct-snoc (x ∷ xs) a (fresh, d) h = (
    ground (arith, contains-append xs (a ∷ []) x, e.equal_iff x a, e.equal_iff a x),
    Distinct-snoc xs a d (ground arith),
  )

  -- A predicate of all members holds of each.
  pub All-get {κ} : (P : A → Type κ) (xs : List A) (a : A) → All P xs → contains xs a ≡ true → P a
  All-get P [] a h m = cc
  All-get P (x ∷ xs) a (p, h) m = elim (Bool-cases (x == a)) [
    | inl same ↦ ground (arith, e.equal_iff x a)
    | inr other ↦ All-get P xs a h (ground arith)
  ]

  abbrev pub count : List A → A → ℕ
  count [] a = 0
  count (x ∷ xs) a = if x == a then suc (count xs a) else count xs a

  pub count-append : (xs ys : List A) (a : A) → count (xs ++ ys) a ≡ count xs a + count ys a
  count-append [] ys a = omega arith
  count-append (x ∷ xs) ys a = ground (arith, count-append xs ys a)

  pub count_absent : (xs : List A) (a : A) → contains xs a ≡ false → count xs a ≡ 0
  count_absent [] a h = refl
  count_absent (x ∷ xs) a h = ground (arith, count_absent xs a)

  pub count_present : (xs : List A) (a : A) → contains xs a ≡ true → 1 ≤ count xs a
  count_present [] a h = absurd (ground arith)
  count_present (x ∷ xs) a h = ground (arith, count_present xs a)

  pub absent_of_count : (xs : List A) (a : A) → count xs a ≡ 0 → contains xs a ≡ false
  absent_of_count [] a h = refl
  absent_of_count (x ∷ xs) a h = ground (arith, absent_of_count xs a)

  pub present_of_count : (xs : List A) (a : A) → 1 ≤ count xs a → contains xs a ≡ true
  present_of_count [] a h = absurd (omega arith)
  present_of_count (x ∷ xs) a h = ground (arith, present_of_count xs a)

  All-weaken :
      (x : A) (xs ys : List A)
      → All (λ a. contains xs a ≡ true) ys
      → All (λ a. contains (x ∷ xs) a ≡ true) ys
  All-weaken x xs [] h = tt
  All-weaken x xs (y ∷ ys) (p, h) = (ground (arith, p), All-weaken x xs ys h)

  -- Every element of a list is in the list.
  pub All-self : (xs : List A) → All (λ a. contains xs a ≡ true) xs
  All-self [] = tt
  All-self (x ∷ xs) = (ground (arith, eq_self x), All-weaken x xs xs (All-self xs))

  pub contains-filter :
      (keep : A → Bool) (xs : List A) (a : A)
      → contains (filter keep xs) a ≡ (contains xs a && keep a)
  contains-filter keep [] a = refl
  contains-filter keep (x ∷ xs) a = elim (Bool-cases (x == a)) [
    | inl same ↦ ground (arith, contains-filter keep xs a, ap keep (eq_of_beq x a same))
    | inr other ↦ ground (arith, contains-filter keep xs a)
  ]

  pub count_of_Distinct : (xs : List A) → Distinct xs → (a : A) → count xs a ≤ 1
  count_of_Distinct [] d a = omega arith
  count_of_Distinct (x ∷ xs) (fresh, d) a = elim (Bool-cases (x == a)) [
    | inl same ↦
        let none_left = count_absent xs x fresh in
        let moved = ap (count xs) (eq_of_beq x a same) in ground arith
    | inr other ↦ ground (arith, count_of_Distinct xs d a)
  ]
