-- ===== src/Sorting.antt =====
-- The standard library's `slices.Sort` and `slices.SortStableFunc`: an insertion sort by a key, in
-- which equal keys keep their order.
pub mod Laws
use circuit.Prelude.{ℤ, List, [], ◌∷◌, leb_ℤ, if◌then◌else◌}

module _ {ℓ} {A : Type ℓ} (key : A → ℤ) where
  unfoldable pub insert_by : A → List A → List A
  insert_by x [] = x ∷ []
  insert_by x (y ∷ ys) =
      let rest = insert_by x ys in if leb_ℤ (key x) (key y) then x ∷ y ∷ ys else y ∷ rest

  unfoldable pub sort_by : List A → List A
  unfolding insert_by
  sort_by [] = []
  sort_by (x ∷ xs) = insert_by x (sort_by xs)
