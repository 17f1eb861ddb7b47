-- ===== src/Faststats/RollingPercentile/Clearing.antt =====
-- faststats/rolling_percentile.go: the buckets that `Advance` and `Reset` clear.
use native.Mathlib.Nat.{mod-lt}
use circuit.Prelude.{
  ℕ, zero, suc, ℤ, pos, List, [], some, length, get_elem?, set, if◌then◌else◌, ◌+◌, ◌%◌, ◌<◌, ◌≡◌,
  ◌==◌, refl, sym, ap, subst, ◌∙◌, lt→ltb, arith, length-set, get_elem?-set_self, get_elem?-set_ne,
  leb, Bool-cases, inl, inr, true, false, Bool, ◌||◌, ==_iff,
}
use circuit.Faststats.RollingBuckets.Window.{clears}
use circuit.Faststats.DurationsBucket.{DurationsBucket, new_durations_bucket}
use circuit.Faststats.RollingCounter.Slots.{hit}
use circuit.Faststats.RollingPercentile.{clear_bucket, clear_all}
use circuit.Faststats.RollingPercentile.Held.{Holds, new-Holds, clear-Holds}
use circuit.Faststats.RollingPercentile.History.{HoldsAt}

-- A write of a bucket changes what is held there, and nowhere else.
pub set-HoldsAt :
    (m i j : ℕ) (bs : List DurationsBucket) (b : DurationsBucket) (new old : List ℤ)
    → i < length bs
    → Holds m new b
    → HoldsAt m bs j old
    → HoldsAt m (set bs i b) j (if i == j then new else old)
set-HoldsAt m i j bs b new old h held (c, at, v) = elim (Bool-cases (i == j)) [
  | inl same ↦
      let e : i ≡ j = (==_iff i j).0 same in
      rw same (b, ap (get_elem? (set bs i b)) (sym e) ∙ get_elem?-set_self bs i b h, held)
  | inr other ↦ rw other (c, get_elem?-set_ne bs i j b (λ e. ground (arith, e, other)) ∙ at, v)
]

module _ (n m : ℕ) where
  -- Every bucket holds its durations.
  abbrev pub HoldAll : List DurationsBucket → (ℕ → List ℤ) → Type 0
  HoldAll bs ds = (length bs ≡ n) × ((j : ℕ) → j < n → HoldsAt m bs j (ds j))

  clear_bucket-HoldAll :
      (i : ℕ) (bs : List DurationsBucket) (ds : ℕ → List ℤ)
      → i < n
      → HoldAll bs ds
      → (bs' : List DurationsBucket) × (clear_bucket (pos i) bs ≡ some bs')
        × HoldAll bs' (λ j. if i == j then [] else ds j)
  unfolding clear_bucket
  clear_bucket-HoldAll i bs ds h (size, held) =
      let (b, at, v) = held i h in
      let room : i < length bs = omega (arith, size) in
      (
        set bs i (new_durations_bucket m),
        rw (at, clear-Holds m (ds i) b v, lt→ltb _ _ room) refl,
        (
          length-set bs i (new_durations_bucket m) ∙ size,
          λ j q.
              set-HoldsAt m i j bs (new_durations_bucket m) [] (ds j) room (new-Holds m) (held j q),
        ),
      )

  if_or :
      (a b : Bool) (ds : List ℤ)
      → (if b then [] else if a then [] else ds) ≡ (if a || b then [] else ds)
  if_or true true ds = refl
  if_or true false ds = refl
  if_or false true ds = refl
  if_or false false ds = refl

  pub clears-HoldAll :
      (k i : ℕ) (bs : List DurationsBucket) (ds : ℕ → List ℤ)
      → 0 < n
      → HoldAll bs ds
      → (bs' : List DurationsBucket) × (clears clear_bucket k i n bs ≡ some bs')
        × HoldAll bs' (λ j. if hit k i n j then [] else ds j)
  unfolding clears hit
  clears-HoldAll zero i bs ds p held = (bs, refl, held)
  clears-HoldAll (suc k) i bs ds p held =
      let (once, run, held₁) = clear_bucket-HoldAll (i % n) bs ds (mod-lt i p) held in
      let (cleared, run', (size, held₂)) =
        clears-HoldAll k (suc i) once (λ j. if i % n == j then [] else ds j) p held₁ in
      (
        cleared,
        rw run run',
        (
          size,
          λ j q.
              subst (HoldsAt m cleared j) (if_or (i % n == j) (hit k (suc i) n j) (ds j))
                (held₂ j q),
        ),
      )

  pub clear_all-HoldAll :
      (k i : ℕ) (bs : List DurationsBucket) (ds : ℕ → List ℤ)
      → i + k ≡ n
      → HoldAll bs ds
      → (bs' : List DurationsBucket) × (clear_all k i bs ≡ some bs')
        × HoldAll bs' (λ j. if leb i j then [] else ds j)
  unfolding clear_all
  clear_all-HoldAll zero i bs ds e (size, held) =
      (bs, refl, (size, λ j q. subst (HoldsAt m bs j) (ground arith) (held j q)))
  clear_all-HoldAll (suc k) i bs ds e held =
      let (once, run, held₁) = clear_bucket-HoldAll i bs ds (omega arith) held in
      let (cleared, run', (size, held₂)) =
        clear_all-HoldAll k (suc i) once (λ j. if i == j then [] else ds j) (omega arith) held₁ in
      (cleared, rw run run', (size, λ j q. subst (HoldsAt m cleared j) (ground arith) (held₂ j q)))
