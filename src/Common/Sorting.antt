-- ===== src/Common/Sorting.antt =====
-- Python's sort by a key, from the highest down.
use Prim.Native.Nat.{ℕ}
use mathlib.Core.List.{List, [], ◌∷◌}
use thenexusengine.Common.Tests.{ltb, if◌then◌else◌}

-- `list.sort(key=…, reverse=True)`, which keeps the order of equals.
unfoldable pub insert_by : {A : Type 0} → (A → ℕ) → A → List A → List A
insert_by key x [] = x ∷ []
insert_by key x (y ∷ ys) =
    let rest = insert_by key x ys in if ltb (key x) (key y) then y ∷ rest else x ∷ y ∷ ys

unfoldable pub sort_by : {A : Type 0} → (A → ℕ) → List A → List A
sort_by key [] = []
sort_by key (x ∷ xs) = insert_by key x (sort_by key xs)

-- `list.sort()` on numbers.
unfoldable pub insert_up : ℕ → List ℕ → List ℕ
insert_up x [] = x ∷ []
insert_up x (y ∷ ys) = let rest = insert_up x ys in if ltb y x then y ∷ rest else x ∷ y ∷ ys

unfoldable pub sort_up : List ℕ → List ℕ
sort_up [] = []
sort_up (x ∷ xs) = insert_up x (sort_up xs)
