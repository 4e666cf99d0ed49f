-- ===== src/Prelude/Sort.antt =====
-- `ORDER BY`, as a stable insertion sort.
use mathlib.Core.Bool.{Bool}
use mathlib.Core.List.{List, [], ◌∷◌}
use repo_mender.Prelude.Tests.{if◌then◌else◌}

module _ {ℓ} {A : Type ℓ} (precedes : A → A → Bool) where
  -- `x` goes before the first member that does not precede it.
  unfoldable pub insert : A → List A → List A
  insert x [] = x ∷ []
  insert x (y ∷ ys) = if precedes y x then y ∷ insert x ys else x ∷ y ∷ ys

  unfoldable pub order_by : List A → List A
  unfolding insert
  order_by [] = []
  order_by (x ∷ xs) = insert x (order_by xs)
