-- ===== src/Faststats/RollingCounter/Refinement.antt =====
-- faststats/rolling_counter.go: every call answers as the history does, and none panics.
use native.Mathlib.Nat.{mod-lt}
use circuit.Prelude.{
  ℕ, zero, suc, ℤ, pos, leb, List, [], ◌∷◌, Option, some, none, length, get_elem?, set,
  if◌then◌else◌, ◌+◌, ◌/◌, ◌%◌, ◌-◌, ◌^◌, ◌<◌, ◌≤◌, ◌≡◌, ◌∙◌, sym, refl, ap, wrap64, ◌==◌, false,
  Bool-cases, inl, inr, ne-zero→false, pos_nonneg, arith, add64, wrap64-suc, wrap64-eq,
  length-replicate, get_elem?-replicate, get_elem?-set_self, get_elem?-set_ne, length-set, lt→ltb,
}
use circuit.Faststats.RollingCounter.{
  RollingCounter, new_rolling_counter, bump, inc, count_in, rolling_sum_at, clear_range, reset,
}
use circuit.Faststats.RollingCounter.Slots.{slot_count}
use circuit.Faststats.RollingCounter.History.{
  History, no_events, index?, moved, counted, recorded, slot_of, Represents,
}
use circuit.Faststats.RollingCounter.Advancing.{advance_counter-Represents}
use circuit.Faststats.RollingCounter.Sums.{sum_from-length}

-- Settings with which no index overflows.
pub record IsUsable (n w : ℕ) : Type 0 where
  pub some_buckets : 0 < n
  pub some_width : 0 < w
  pub room : (2 ^ 63 - 1) / w + n < 2 ^ 63 - 1

pub new-Represents :
    (n w : ℕ) (now : ℤ)
    → IsUsable n w
    → (c : RollingCounter) × (new_rolling_counter (pos w) (pos n) now ≡ some c)
      × Represents n w now no_events c
unfolding new_rolling_counter slot_count
new-Represents n w now u = (
  _,
  refl,
  record {
    window = record {
      buckets = refl;
      width = refl;
      last = refl;
      some_buckets = u.some_buckets;
      some_width = u.some_width;
      reached = omega arith;
      room = u.room;
    };
    started = refl;
    sized = length-replicate n (pos 0);
    total = sym (wrap64-eq (pos 0) (omega arith));
    inside = tt;
    counted =
        λ j q. get_elem?-replicate n j (pos 0) q ∙ ap some (sym (wrap64-eq (pos 0) (omega arith)));
  },
)

module _ (n w : ℕ) (start : ℤ) where
  -- Counting an event of index `a` in its bucket.
  bump-Represents :
      (a : ℕ) (h : History) (c : RollingCounter)
      → Represents n w start h c
      → a ≤ h.last
      → h.last < a + n
      → (c' : RollingCounter) × (bump (pos (a % n)) c ≡ some c')
        × Represents n w start (record h { events = a ∷ h.events }) c'
  unfolding bump slot_count
  bump-Represents a h c v le lt =
      let j = a % n in
      let q : j < n = mod-lt a v.window.some_buckets in
      let room : j < length c.buckets = rw v.sized q in
      let new = add64 (wrap64 (pos (slot_count n j h.events))) (pos 1) in
      (
        record c { buckets = set c.buckets j new },
        simp (v.counted j q, lt→ltb _ _ room),
        record {
          window = v.window;
          started = v.started;
          sized = length-set c.buckets j new ∙ v.sized;
          total = v.total;
          inside = (le, lt, v.inside);
          counted = λ i p. ground (
            arith,
            v.counted i p,
            wrap64-suc (slot_count n j h.events),
            get_elem?-set_self c.buckets j new room,
            get_elem?-set_ne c.buckets j i new,
          );
        },
      )

  count_in-Represents :
      (a : Option ℕ) (h : History) (c : RollingCounter)
      → Represents n w start (moved n a h) c
      → (c' : RollingCounter) × (count_in (slot_of n h.last a) c ≡ some c')
        × Represents n w start (counted n a h) c'
  unfolding count_in
  count_in-Represents none h c v = (c, refl, v)
  count_in-Represents (some a) h c v = elim (Bool-cases (leb (a + n) h.last)) [
    | inl outside ↦ (c, rw outside, rw outside v)
    | inr inside ↦
        let last : (a ≤ (moved n (some a) h).last) × ((moved n (some a) h).last < a + n) =
          (ground arith, ground arith) in
        let (c', run, v') = bump-Represents a (moved n (some a) h) c v last.0 last.1 in
        (c', rw (inside, pos_nonneg (a % n)) run, rw inside v')
  ]

  pub inc-Represents :
      (h : History) (c : RollingCounter) (now : ℤ)
      → Represents n w start h c
      → (c' : RollingCounter) × (inc c now ≡ some c')
        × Represents n w start (recorded n (index? start w now) h) c'
  unfolding inc
  inc-Represents h c now v =
      let h₁ = record h { total = suc h.total } in
      let c₁ = record c { total_sum = add64 c.total_sum (pos 1) } in
      let v₁ : Represents n w start h₁ c₁ = record {
        window = v.window;
        started = v.started;
        sized = v.sized;
        total = ap (λ t. add64 t (pos 1)) v.total ∙ wrap64-suc h.total;
        inside = v.inside;
        counted = v.counted;
      } in
      let (c₂, run, v₂) = advance_counter-Represents n w start h₁ c₁ v₁ now in
      let (c₃, run', v₃) = count_in-Represents (index? start w now) h₁ c₂ v₂ in
      let some_buckets : (length c.buckets == 0) ≡ false =
        rw v.sized (ne-zero→false n v.window.some_buckets) in
      (c₃, rw (some_buckets, run) run', v₃)

  pub rolling_sum_at-Represents :
      (h : History) (c : RollingCounter) (now : ℤ)
      → Represents n w start h c
      → let h' = moved n (index? start w now) h in
        (c' : RollingCounter) × (rolling_sum_at c now ≡ some (wrap64 (pos (length h'.events)), c'))
        × Represents n w start h' c'
  unfolding rolling_sum_at
  rolling_sum_at-Represents h c now v =
      let (c', run, v') = advance_counter-Represents n w start h c v now in
      (
        c',
        rw run (
            ap (λ t. some (t, c'))
              (sum_from-length n c'.buckets _ v'.window.some_buckets v'.sized v'.counted)),
        v',
      )

  clear_range-slots :
      (k i : ℕ) (buckets : List ℤ)
      → i + k ≡ length buckets
      → (cleared : List ℤ) × (clear_range k i buckets ≡ some cleared)
        × (length cleared ≡ length buckets)
        × ((j : ℕ)
            → j < length buckets
            → get_elem? cleared j ≡ (if leb i j then some (pos 0) else get_elem? buckets j))
  unfolding clear_range
  clear_range-slots zero i buckets e = (buckets, refl, refl, λ j q. ground arith)
  clear_range-slots (suc k) i buckets e =
      let once = set buckets i (pos 0) in
      let size = length-set buckets i (pos 0) in
      let room : i < length buckets = omega arith in
      let (cleared, run, size', slots) = clear_range-slots k (suc i) once (rw size (omega arith)) in
      (
        cleared,
        rw (lt→ltb _ _ room) run,
        size' ∙ size,
        λ j q. ground (
          arith,
          slots j,
          size,
          get_elem?-set_self buckets i (pos 0) room,
          get_elem?-set_ne buckets i j (pos 0),
        ),
      )

  pub reset-Represents :
      (h : History) (c : RollingCounter) (now : ℤ)
      → Represents n w start h c
      → (c' : RollingCounter) × (reset c now ≡ some c')
        × Represents n w start (record (moved n (index? start w now) h) { events = [] }) c'
  unfolding reset slot_count
  reset-Represents h c now v =
      let (c₁, run, v₁) = advance_counter-Represents n w start h c v now in
      let (cleared, run', size, slots) =
        clear_range-slots (length c₁.buckets) 0 c₁.buckets (omega arith) in
      (
        record c₁ { buckets = cleared },
        rw (run, run'),
        record {
          window = v₁.window;
          started = v₁.started;
          sized = size ∙ v₁.sized;
          total = v₁.total;
          inside = tt;
          counted =
              λ j q. slots j (rw v₁.sized q) ∙ ground (arith, wrap64-eq (pos 0) (omega arith));
        },
      )
