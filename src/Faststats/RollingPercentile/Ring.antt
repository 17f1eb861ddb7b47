-- ===== src/Faststats/RollingPercentile/Ring.antt =====
-- faststats/rolling_percentile.go: the slots of a bucket hold, in some order, its latest durations.
use mathlib.Core.List.{Perm, perm_middle, append-nil}
use mathlib.Core.List.Perm
use native.Mathlib.Nat.{mod-eq_of_lt, add-mod_right}
use circuit.Prelude.{
  ℕ, zero, suc, ℤ, List, [], ◌∷◌, ◌++◌, map, some, length, get_elem?, get_elem?-lt, set, take,
  replicate, if◌then◌else◌, ◌-◌, ◌%◌, ◌<◌, ◌≤◌, ◌≡◌, refl, sym, ap, subst, ◌∙◌, arith, length-set,
  length-replicate, leb,
}
use circuit.Faststats.DurationsBucket.{unset_duration, encode_duration}

-- The slots of a bucket of m slots after its durations, the latest one at the head.
unfoldable pub slots_of : ℕ → List ℤ → List ℤ
slots_of m [] = replicate m unset_duration
slots_of m (d ∷ ds) = set (slots_of m ds) (length ds % m) (encode_duration d)

pub length-slots_of : (m : ℕ) (ds : List ℤ) → length (slots_of m ds) ≡ m
unfolding slots_of
length-slots_of m [] = length-replicate m unset_duration
length-slots_of m (d ∷ ds) =
    length-set (slots_of m ds) (length ds % m) (encode_duration d) ∙ length-slots_of m ds

-- The slots that were handed out.
abbrev pub used : ℕ → List ℤ → List ℤ
used m ds = take (if leb (length ds) m then length ds else m) (slots_of m ds)

module _ {ℓ} {A : Type ℓ} where
  pub take_all : (n : ℕ) (xs : List A) → length xs ≤ n → take n xs ≡ xs
  take_all zero [] h = refl
  take_all zero (x ∷ xs) h = absurd (omega arith)
  take_all (suc n) [] h = refl
  take_all (suc n) (x ∷ xs) h = ap (◌∷◌ x) (take_all n xs (omega arith))

  take-set_end :
      (xs : List A) (i : ℕ) (v : A)
      → i < length xs
      → take (suc i) (set xs i v) ≡ take i xs ++ v ∷ []
  take-set_end [] i v h = absurd (omega arith)
  take-set_end (x ∷ xs) zero v h = refl
  take-set_end (x ∷ xs) (suc i) v h = ap (◌∷◌ x) (take-set_end xs i v (omega arith))

  take-suc :
      (xs : List A) (i : ℕ) (v : A)
      → get_elem? xs i ≡ some v
      → take (suc i) xs ≡ take i xs ++ v ∷ []
  take-suc [] i v h = absurd (ground (arith, h))
  take-suc (x ∷ xs) zero v h = ground (arith, h)
  take-suc (x ∷ xs) (suc i) v h = ap (◌∷◌ x) (take-suc xs i v h)

  -- Overwriting an element trades it for the new one.
  set-perm :
      (xs : List A) (i : ℕ) (old v : A)
      → get_elem? xs i ≡ some old
      → Perm (old ∷ set xs i v) (v ∷ xs)
  set-perm [] i old v h = absurd (ground (arith, h))
  set-perm (x ∷ xs) zero old v h = let e : old ≡ x = ground (arith, h) in rw e (Perm.swap v x xs)
  set-perm (x ∷ xs) (suc i) old v h =
      Perm.trans (Perm.swap x old (set xs i v))
        (Perm.trans (Perm.cons x (set-perm xs i old v h)) (Perm.swap v x xs))

  snoc-perm : (xs : List A) (v : A) → Perm (xs ++ v ∷ []) (v ∷ xs)
  snoc-perm xs v = subst (λ l. Perm (xs ++ v ∷ []) (v ∷ l)) (append-nil xs) (perm_middle xs [])

get_elem?-map :
    (f : ℤ → ℤ) (ds : List ℤ) (p : ℕ) (d : ℤ)
    → get_elem? ds p ≡ some d
    → get_elem? (map f ds) p ≡ some (f d)
get_elem?-map f [] p d h = absurd (ground (arith, h))
get_elem?-map f (x ∷ ds) zero d h = ground (arith, h)
get_elem?-map f (x ∷ ds) (suc p) d h = get_elem?-map f ds p d h

map-take : (f : ℤ → ℤ) (n : ℕ) (ds : List ℤ) → map f (take n ds) ≡ take n (map f ds)
map-take f zero ds = refl
map-take f (suc n) [] = refl
map-take f (suc n) (d ∷ ds) = ap (◌∷◌ (f d)) (map-take f n ds)

-- The latest m, encoded.
abbrev pub latest : ℕ → List ℤ → List ℤ
latest m ds = map encode_duration (take m ds)

mod-sub : (a m : ℕ) → m ≤ a → (a - m) % m ≡ a % m
mod-sub a m h = sym (add-mod_right (a - m) m) ∙ ap (λ x. x % m) (omega arith)

-- What the kept slots of the bucket say of `slots_of`.
pub record Places (m : ℕ) (ds : List ℤ) : Type 0 where
  pub places :
      (p : ℕ) (d : ℤ)
      → get_elem? ds p ≡ some d
      → p < m
      → get_elem? (slots_of m ds) ((length ds - suc p) % m) ≡ some (encode_duration d)

used_few : (m : ℕ) (ds : List ℤ) → length ds ≤ m → used m ds ≡ take (length ds) (slots_of m ds)
used_few m ds h = ap (λ k. take k (slots_of m ds)) (ground arith)

used_full : (m : ℕ) (ds : List ℤ) → m ≤ length ds → used m ds ≡ slots_of m ds
used_full m ds h =
    ap (λ k. take k (slots_of m ds)) {y = m} (ground arith)
    ∙ take_all m (slots_of m ds) (omega (arith, length-slots_of m ds))

latest_few : (m : ℕ) (ds : List ℤ) → length ds ≤ m → latest m ds ≡ map encode_duration ds
latest_few m ds h = ap (map encode_duration) (take_all m ds h)

pub used_grows :
    (m : ℕ) (d : ℤ) (ds : List ℤ)
    → length ds < m
    → Perm (used m ds) (latest m ds)
    → Perm (used m (d ∷ ds)) (latest m (d ∷ ds))
unfolding slots_of
used_grows m d ds h ih =
    let e = encode_duration d in
    let size = length-slots_of m ds in
    let slots : used m (d ∷ ds) ≡ take (length ds) (slots_of m ds) ++ e ∷ [] =
      used_few m (d ∷ ds) (omega arith)
      ∙ ap (λ i. take (suc (length ds)) (set (slots_of m ds) i e)) (mod-eq_of_lt h)
      ∙ take-set_end (slots_of m ds) (length ds) e (omega (arith, size)) in
    let before : Perm (take (length ds) (slots_of m ds)) (map encode_duration ds) =
      subst (λ l. Perm l (map encode_duration ds)) (used_few m ds (omega arith))
        (subst (Perm (used m ds)) (latest_few m ds (omega arith)) ih) in
    subst (Perm (used m (d ∷ ds))) (sym (latest_few m (d ∷ ds) (omega arith))) (
      subst (λ l. Perm l (e ∷ map encode_duration ds)) (sym slots)
        (Perm.trans (snoc-perm (take (length ds) (slots_of m ds)) e) (Perm.cons e before)))

pub used_turns :
    (m : ℕ) (d : ℤ) (ds : List ℤ)
    → suc m ≤ length ds
    → Places (suc m) ds
    → Perm (used (suc m) ds) (latest (suc m) ds)
    → Perm (used (suc m) (d ∷ ds)) (latest (suc m) (d ∷ ds))
unfolding slots_of
used_turns m d ds h v ih =
    let e = encode_duration d in
    let i = length ds % suc m in
    let kept = take m (map encode_duration ds) in
    let (old, found) = get_elem?-lt ds m (omega arith) in
    let o = encode_duration old in
    let oldest : latest (suc m) ds ≡ kept ++ o ∷ [] =
      map-take encode_duration (suc m) ds
      ∙ take-suc (map encode_duration ds) m o (get_elem?-map encode_duration ds m old found) in
    let place : get_elem? (slots_of (suc m) ds) i ≡ some o =
      ap (get_elem? (slots_of (suc m) ds)) (sym (mod-sub (length ds) (suc m) h))
      ∙ v.places m old found (omega arith) in
    let slots : Perm (slots_of (suc m) ds) (kept ++ o ∷ []) =
      subst (λ l. Perm l (kept ++ o ∷ [])) (used_full (suc m) ds h)
        (subst (Perm (used (suc m) ds)) oldest ih) in
    let turned : Perm (o ∷ set (slots_of (suc m) ds) i e) (o ∷ e ∷ kept) =
      Perm.trans (set-perm (slots_of (suc m) ds) i o e place)
        (Perm.trans (Perm.cons e (Perm.trans slots (snoc-perm kept o))) (Perm.swap o e kept)) in
    subst (Perm (used (suc m) (d ∷ ds))) (ap (◌∷◌ e) (sym (map-take encode_duration m ds))) (
      subst (λ l. Perm l (e ∷ kept)) (sym (used_full (suc m) (d ∷ ds) (omega arith)))
        (Perm.cons_inv turned))
