-- ===== src/Faststats/RollingPercentile/Refinement.antt =====
-- faststats/rolling_percentile.go: every method does what the sliding window of samples does.
use native.Mathlib.Nat.{mod-lt}
use circuit.Prelude.{
  ℕ, ℤ, pos, leb, List, [], ◌∷◌, Option, some, none, length, set, ◌+◌, ◌*◌, ◌%◌, ◌^◌, ◌<◌, ◌≤◌, ◌≡◌,
  ◌==◌, refl, ap, subst, ◌∙◌, false, Bool-cases, inl, inr, lt→ltb, ne-zero→false, pos_nonneg, arith,
  IsInt64, length-set, ==_iff,
}
use mathlib.Core.List.{Perm}
use circuit.Sorting.{sort_by}
use circuit.Sorting.Laws.{sort_by-eq_of_perm}
use circuit.Faststats.DurationsBucket.{DurationsBucket}
use circuit.Faststats.RollingCounter.History.{index?, slot_of}
use circuit.Faststats.RollingPercentile.{
  RollingPercentile, sorted_durations, snapshot_at, make_slice, total_size, gather, put_duration,
  add_in, add_duration_at, reset,
}
use circuit.Faststats.RollingPercentile.Held.{add_duration-Holds}
use circuit.Faststats.RollingPercentile.History.{
  Samples, slot_durations, moved, sampled, sorted_reports, reports, HoldsAt, Represents,
  length-slot_durations, length-live_samples,
}
use circuit.Faststats.RollingPercentile.Clearing.{set-HoldsAt, clear_all-HoldAll}
use circuit.Faststats.RollingPercentile.Gathering.{gather-reports, total_size-nonneg}
use circuit.Faststats.RollingPercentile.Advancing.{advance_percentile-Represents}

module _ (n w m : ℕ) (start : ℤ) (slots : 0 < m) where
  -- Adding a duration of index `a` to its bucket.
  put_duration-Represents :
      (a : ℕ) (d : ℤ) (h : Samples) (p : RollingPercentile)
      → Represents n w m start h p
      → IsInt64 d
      → length h.samples + 1 < 2 ^ 63
      → a ≤ h.last
      → h.last < a + n
      → (bs : List DurationsBucket) × (put_duration (pos (a % n)) d p.buckets ≡ some bs)
        × Represents n w m start
            (record h { samples = record { index = a; duration = d } ∷ h.samples })
            (record p { buckets = bs })
  unfolding put_duration slot_durations
  put_duration-Represents a d h p v int few le lt =
      let j = a % n in
      let q : j < n = mod-lt a v.window.some_buckets in
      let room : j < length p.buckets = rw v.sized q in
      let (b, at, held) = v.held j q in
      let ds = slot_durations n j h.samples in
      let (b', run, held') =
        add_duration-Holds m d ds b slots (omega (arith, length-slot_durations n j h.samples))
          held in
      (
        set p.buckets j b',
        rw (at, run, lt→ltb _ _ room) refl,
        record {
          window = v.window;
          started = v.started;
          sized = length-set p.buckets j b' ∙ v.sized;
          inside = (le, lt, v.inside);
          whole = (int, v.whole);
          held = λ i r. elim (Bool-cases (j == i)) [
            | inl same ↦
                let e : j ≡ i = (==_iff j i).0 same in
                subst (HoldsAt m (set p.buckets j b') i) (rw (same, e)) (
                  set-HoldsAt m j i p.buckets b' (d ∷ ds) (slot_durations n i h.samples) room held'
                    (v.held i r))
            | inr other ↦ subst (HoldsAt m (set p.buckets j b') i) (rw other) (
                set-HoldsAt m j i p.buckets b' (d ∷ ds) (slot_durations n i h.samples) room held'
                  (v.held i r))
          ];
        },
      )

  add_in-Represents :
      (a : Option ℕ) (d : ℤ) (h : Samples) (p : RollingPercentile)
      → Represents n w m start (moved n a h) p
      → IsInt64 d
      → length h.samples + 1 < 2 ^ 63
      → (p' : RollingPercentile) × (add_in (slot_of n h.last a) d p ≡ some p')
        × Represents n w m start (sampled n d a h) p'
  unfolding add_in
  add_in-Represents none d h p v int few = (p, refl, v)
  add_in-Represents (some a) d h p v int few = elim (Bool-cases (leb (a + n) h.last)) [
    | inl outside ↦ (p, rw outside, rw outside v)
    | inr inside ↦
        let h' = moved n (some a) h in
        let fewer : length h'.samples ≤ length h.samples =
          ground (arith, length-live_samples a n h.samples) in
        let (bs, run, v') =
          put_duration-Represents a d h' p v int (omega arith) (ground arith) (ground arith) in
        (record p { buckets = bs }, rw (inside, pos_nonneg (a % n), run) refl, rw inside v')
  ]

  some_buckets :
      (h : Samples) (p : RollingPercentile)
      → Represents n w m start h p
      → (length p.buckets == 0) ≡ false
  some_buckets h p v = rw v.sized (ne-zero→false n v.window.some_buckets)

  pub add_duration_at-Represents :
      (d now : ℤ) (h : Samples) (p : RollingPercentile)
      → Represents n w m start h p
      → IsInt64 d
      → length h.samples + 1 < 2 ^ 63
      → (p' : RollingPercentile) × (add_duration_at p d now ≡ some p')
        × Represents n w m start (sampled n d (index? start w now) h) p'
  unfolding add_duration_at
  add_duration_at-Represents d now h p v int few =
      let (p₁, run, v₁) = advance_percentile-Represents n w m start h p v now in
      let (p₂, run', v₂) = add_in-Represents (index? start w now) d h p₁ v₁ int few in
      (p₂, rw (some_buckets h p v, run) run', v₂)

  collected :
      (h : Samples) (p : RollingPercentile)
      → Represents n w m start h p
      → n * m < 2 ^ 63
      → (l : List ℤ) × (k : ℕ) × (total_size (pos 0) p.buckets ≡ pos k)
        × (gather [] p.buckets ≡ some l)
        × (sort_by (λ d. d) l ≡ sorted_reports n m h)
  unfolding sorted_reports
  collected h p v fits =
      let held = λ (j : ℕ) (q : j < length p.buckets).
        subst (λ x. HoldsAt m p.buckets j (slot_durations n x h.samples)) {y = 0 + j} (omega arith)
          (v.held j (omega (arith, v.sized, q))) in
      let (l, all, perm) = gather-reports 0 n m h.samples p.buckets v.whole held in
      let room : 0 + length p.buckets * m < 2 ^ 63 = rw v.sized (omega arith) in
      let (k, total) = total_size-nonneg 0 n m 0 h.samples p.buckets room held in
      (
        l,
        k,
        total,
        all [],
        sort_by-eq_of_perm (subst (λ x. Perm l (reports x 0 n m h.samples)) v.sized perm),
      )

  pub snapshot_at-Represents :
      (now : ℤ) (h : Samples) (p : RollingPercentile)
      → Represents n w m start h p
      → n * m < 2 ^ 63
      → let h' = moved n (index? start w now) h in
        (p' : RollingPercentile) × (snapshot_at p now ≡ some (sorted_reports n m h', p'))
        × Represents n w m start h' p'
  unfolding snapshot_at sorted_durations make_slice
  snapshot_at-Represents now h p v fits =
      let h' = moved n (index? start w now) h in
      let (p', run, v') = advance_percentile-Represents n w m start h p v now in
      let (l, k, total, all, same) = collected h' p' v' fits in
      (
        p',
        simp (some_buckets h p v, run, total, pos_nonneg k, all) (ap (λ ds. some (ds, p')) same),
        v',
      )

  pub reset-Represents :
      (now : ℤ) (h : Samples) (p : RollingPercentile)
      → Represents n w m start h p
      → (p' : RollingPercentile) × (reset p now ≡ some p')
        × Represents n w m start (record (moved n (index? start w now) h) { samples = [] }) p'
  unfolding reset slot_durations
  reset-Represents now h p v =
      let h' = moved n (index? start w now) h in
      let (p₁, run, v₁) = advance_percentile-Represents n w m start h p v now in
      let (bs, run', (size, held)) =
        clear_all-HoldAll n m n 0 p₁.buckets (λ j. slot_durations n j h'.samples) (omega arith)
          (v₁.sized, v₁.held) in
      (
        record p₁ { buckets = bs },
        rw (run, v₁.window.buckets, run') refl,
        record {
          window = v₁.window;
          started = v₁.started;
          sized = size;
          inside = tt;
          whole = tt;
          held = λ j q. subst (HoldsAt m bs j) (ground arith) (held j q);
        },
      )
