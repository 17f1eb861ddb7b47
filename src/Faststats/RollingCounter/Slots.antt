-- ===== src/Faststats/RollingCounter/Slots.antt =====
-- faststats/rolling_counter.go: which buckets `Advance` clears, and the events that a bucket counts.
use Prim.Native.Nat.{min}
use native.Mathlib.Nat.{add-mod_right, mod-lt, div-add-mod}
use circuit.Prelude.{
  ℕ, zero, suc, ℤ, pos, ◌==◌, leb, ◌||◌, Bool, false, List, [], ◌∷◌, some, length, get_elem?, set,
  if◌then◌else◌, ◌+◌, ◌-◌, ◌%◌, ◌<◌, ◌≤◌, ◌≡◌, ◌≢◌, refl, ◌∙◌, lt→ltb, arith, length-set,
  get_elem?-set_self, get_elem?-set_ne,
}
use circuit.Faststats.RollingBuckets.Window.{clears}
use circuit.Faststats.RollingCounter.{clear_bucket}

-- Absolute indices less than `n` apart have different buckets.
pub mod_apart : (a b n : ℕ) → a < b → b < a + n → a % n ≢ b % n
mod_apart a b n h k e = grind (arith, div-add-mod a n, div-add-mod b n)

-- Whether slot `j` is that of one of the `k` indices from `i` on.
unfoldable pub hit : ℕ → ℕ → ℕ → ℕ → Bool
hit zero i n j = false
hit (suc k) i n j = i % n == j || hit k (suc i) n j

-- The events of a slot.
unfoldable pub slot_count : ℕ → ℕ → List ℕ → ℕ
slot_count n j [] = 0
slot_count n j (e ∷ es) = let rest = slot_count n j es in if e % n == j then suc rest else rest

pub clears-hit :
    (k i n : ℕ) (buckets : List ℤ)
    → length buckets ≡ n
    → 0 < n
    → (cleared : List ℤ) × (clears clear_bucket k i n buckets ≡ some cleared)
      × (length cleared ≡ n)
      × ((j : ℕ)
          → j < n
          → get_elem? cleared j ≡ (if hit k i n j then some (pos 0) else get_elem? buckets j))
unfolding clears hit
clears-hit zero i n buckets e p = (buckets, refl, e, λ j h. refl)
clears-hit (suc k) i n buckets e p =
    let room : i % n < length buckets = rw e (mod-lt i p) in
    let once = set buckets (i % n) (pos 0) in
    let sized : length once ≡ n = length-set buckets (i % n) (pos 0) ∙ e in
    let (cleared, run, size, slots) = clears-hit k (suc i) n once sized p in
    (
      cleared,
      rw (lt→ltb _ _ room) run,
      size,
      λ j h.
          slots j h
          ∙ ground (
            arith,
            get_elem?-set_self buckets (i % n) (pos 0) room,
            get_elem?-set_ne buckets (i % n) j (pos 0),
          ),
    )

pub hit-leb : (k i n e : ℕ) → e < i → i ≤ e + n → hit k i n (e % n) ≡ leb (suc (e + n)) (i + k)
unfolding hit
hit-leb zero i n e h le = ground arith
hit-leb (suc k) i n e h le =
    ground (arith, add-mod_right e n, mod_apart e i n h, hit-leb k (suc i) n e)

-- The events that are still in the window when the last index is `a`.
unfoldable pub live : ℕ → ℕ → List ℕ → List ℕ
live a n [] = []
live a n (e ∷ es) = let rest = live a n es in if leb (e + n) a then rest else e ∷ rest

-- Every event lies in the window that ends at `l`.
abbrev pub InWindow : ℕ → ℕ → List ℕ → Type 0
InWindow l n [] = Unit {0}
InWindow l n (e ∷ es) = (e ≤ l) × (l < e + n) × InWindow l n es

-- When the window moves from `l` to `a`, the cleared slots lose all their events, and the others none.
pub slot_count-live :
    (l a n j : ℕ) (es : List ℕ)
    → l < a
    → InWindow l n es
    → slot_count n j (live a n es)
      ≡ (if hit (min n (a - l)) (suc l) n j then 0 else slot_count n j es)
unfolding slot_count live
slot_count-live l a n j [] h v = ground arith
slot_count-live l a n j (e ∷ es) h v =
    ground (arith, hit-leb (min n (a - l)) (suc l) n e, slot_count-live l a n j es h v.2)

pub live-InWindow : (l a n : ℕ) (es : List ℕ) → l < a → InWindow l n es → InWindow a n (live a n es)
unfolding live
live-InWindow l a n [] h v = tt
live-InWindow l a n (e ∷ es) h v = ground (arith, live-InWindow l a n es h v.2)

-- Nothing is dropped while the window stands still.
pub live_same : (l n : ℕ) (es : List ℕ) → InWindow l n es → live l n es ≡ es
unfolding live
live_same l n [] v = refl
live_same l n (e ∷ es) v = ground (arith, live_same l n es v.2)
