-- ===== src/Sorting/Laws.antt =====
-- The laws of the sorts: a sorted arrangement of the input, which for integers depends on no order.
use mathlib.Core.List.{Perm, foldr}
use native.Mathlib.Nat.{ℕ_set}
use mathlib.Core.List.Perm
use circuit.Prelude.{
  ℤ, List, [], ◌∷◌, leb_ℤ, eqb_ℤ, ◌≤ℤ◌, if◌then◌else◌, Bool-cases, inl, inr, ◌≡◌, refl, ap, sym,
  ◌∙◌, arith, eq_of_parts,
}
use circuit.Sorting.{insert_by, sort_by}

module _ {ℓ} {A : Type ℓ} (key : A → ℤ) where
  -- No element comes before one with a smaller key: each is at most the next.
  abbrev pub IsSorted : List A → Type 0
  IsSorted [] = Unit {0}
  IsSorted (x ∷ []) = Unit {0}
  IsSorted (x ∷ y ∷ ys) = (key x ≤ℤ key y) × IsSorted (y ∷ ys)

  insert_by-perm : (x : A) (xs : List A) → Perm (insert_by key x xs) (x ∷ xs)
  unfolding insert_by
  insert_by-perm x [] = Perm.rfl
  insert_by-perm x (y ∷ ys) = elim (Bool-cases (leb_ℤ (key x) (key y))) [
    | inl le ↦ rw le Perm.rfl
    | inr gt ↦ rw gt (Perm.trans (Perm.cons y (insert_by-perm x ys)) (Perm.swap x y ys))
  ]

  pub sort_by-perm : (xs : List A) → Perm (sort_by key xs) xs
  unfolding sort_by
  sort_by-perm [] = Perm.rfl
  sort_by-perm (x ∷ xs) =
      Perm.trans (insert_by-perm x (sort_by key xs)) (Perm.cons x (sort_by-perm xs))

  insert_by-IsSorted : (x : A) (xs : List A) → IsSorted xs → IsSorted (insert_by key x xs)
  unfolding insert_by
  insert_by-IsSorted x [] s = tt
  insert_by-IsSorted x (y ∷ []) s = elim (Bool-cases (leb_ℤ (key x) (key y))) [
    | inl le ↦ rw le (ground arith)
    | inr gt ↦ rw gt (ground arith)
  ]
  insert_by-IsSorted x (y ∷ z ∷ zs) s = elim (Bool-cases (leb_ℤ (key x) (key y))) [
    | inl le ↦ rw le (ground arith)
    | inr gt ↦ rw gt (elim (Bool-cases (leb_ℤ (key x) (key z))) [
      | inl le' ↦ rw le' (ground arith)
      | inr gt' ↦ let rest = insert_by-IsSorted x (z ∷ zs) s.1 in rw gt' (s.0, rw gt' at rest)
    ])
  ]

  pub sort_by-IsSorted : (xs : List A) → IsSorted (sort_by key xs)
  unfolding sort_by
  sort_by-IsSorted [] = tt
  sort_by-IsSorted (x ∷ xs) = insert_by-IsSorted x (sort_by key xs) (sort_by-IsSorted xs)

insert_comm :
    (x y : ℤ) (zs : List ℤ)
    → insert_by (λ d. d) x (insert_by (λ d. d) y zs)
      ≡ insert_by (λ d. d) y (insert_by (λ d. d) x zs)
unfolding insert_by
insert_comm x y [] = ground (arith, eq_of_parts x y)
insert_comm x y (z ∷ zs) = ground (arith, insert_comm x y zs, eq_of_parts x y)

ℤ-set : IsSet ℤ
ℤ-set = hlevel ℕ_set

ℤs-set : IsSet (List ℤ)
ℤs-set = hlevel ℤ-set

sort_by-foldr : (xs : List ℤ) → sort_by (λ d. d) xs ≡ foldr (insert_by (λ d. d)) [] xs
unfolding sort_by
sort_by-foldr [] = refl
sort_by-foldr (x ∷ xs) = ap (insert_by (λ d. d) x) (sort_by-foldr xs)

pub sort_by-eq_of_perm : {xs ys : List ℤ} → Perm xs ys → sort_by (λ d. d) xs ≡ sort_by (λ d. d) ys
sort_by-eq_of_perm {xs} {ys} p =
    sort_by-foldr xs
    ∙ Perm.foldr-eq ℤs-set (insert_by (λ d. d)) insert_comm p []
    ∙ sym (sort_by-foldr ys)

module _ {A : Type 0} (key : A → ℤ) where
  -- The elements with the key t.
  unfoldable pub at_key : ℤ → List A → List A
  at_key t [] = []
  at_key t (x ∷ xs) = let rest = at_key t xs in if eqb_ℤ (key x) t then x ∷ rest else rest

  insert_by-at_key :
      (t : ℤ) (x : A) (xs : List A) → at_key t (insert_by key x xs) ≡ at_key t (x ∷ xs)
  unfolding insert_by at_key
  insert_by-at_key t x [] = refl
  insert_by-at_key t x (y ∷ ys) = elim (Bool-cases (leb_ℤ (key x) (key y))) [
    | inl le ↦ rw le
    | inr gt ↦ rw gt (ground (arith, insert_by-at_key t x ys))
  ]

  -- Elements of equal keys keep their order.
  pub sort_by-at_key : (t : ℤ) (xs : List A) → at_key t (sort_by key xs) ≡ at_key t xs
  unfolding sort_by at_key
  sort_by-at_key t [] = refl
  sort_by-at_key t (x ∷ xs) =
      insert_by-at_key t x (sort_by key xs)
      ∙ ap (λ rest. if eqb_ℤ (key x) t then x ∷ rest else rest) (sort_by-at_key t xs)
