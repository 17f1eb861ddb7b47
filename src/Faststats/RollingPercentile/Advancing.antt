-- ===== src/Faststats/RollingPercentile/Advancing.antt =====
-- faststats/rolling_percentile.go: a new percentile, and the window of samples moving on.
use Prim.Native.Nat.{min}
use circuit.Prelude.{
  ℕ, zero, suc, ℤ, pos, ltb_ℤ, leb, Option, some, replicate, ◌-◌, ◌/◌, ◌^◌, ◌<◌, ◌≤◌, ◌≡◌, refl,
  sym, subst, false, Bool-cases, inl, inr, leb-false→lt, arith, ◌>>=◌, length-replicate,
  get_elem?-replicate,
}
use circuit.Faststats.RollingBuckets.Window.{
  advanced, advance-advanced, elapsed, index_at, index_at-le,
}
use circuit.Faststats.DurationsBucket.{new_durations_bucket}
use circuit.Faststats.RollingCounter.History.{index?, slot_of}
use circuit.Faststats.RollingCounter.Refinement.{IsUsable}
use circuit.Faststats.RollingPercentile.{
  RollingPercentile, make_bucket, fill_buckets, make_buckets, new_rolling_percentile, clear_bucket,
  advance_percentile,
}
use circuit.Faststats.RollingPercentile.Held.{new-Holds}
use circuit.Faststats.RollingPercentile.History.{
  Samples, no_samples, slot_durations, moved, HoldsAt, Represents, slot_durations-live_samples,
  live_samples-InWindow, live_samples-AllInt64,
}
use circuit.Faststats.RollingPercentile.Clearing.{clears-HoldAll}

pub fill_buckets-replicate :
    (n m : ℕ) → fill_buckets n (pos m) ≡ some (replicate n (new_durations_bucket m))
unfolding fill_buckets make_bucket
fill_buckets-replicate zero m = refl
fill_buckets-replicate (suc n) m = rw (fill_buckets-replicate n m)

pub new-Represents :
    (n w m : ℕ) (now : ℤ)
    → IsUsable n w
    → (r : RollingPercentile) × (new_rolling_percentile (pos w) (pos n) (pos m) now ≡ some r)
      × Represents n w m now no_samples r
unfolding new_rolling_percentile make_buckets slot_durations
new-Represents n w m now u = (
  _,
  rw (fill_buckets-replicate n m),
  record {
    window = record {
      buckets = refl;
      width = refl;
      last = refl;
      some_buckets = u.some_buckets;
      some_width = u.some_width;
      reached = omega arith;
      room = u.room;
    };
    started = refl;
    sized = length-replicate n (new_durations_bucket m);
    inside = tt;
    whole = tt;
    held = λ j q.
        (new_durations_bucket m, get_elem?-replicate n j (new_durations_bucket m) q, new-Holds m);
  },
)

-- What `advance_percentile` returns: the bucket, and a percentile that holds the moved window.
abbrev pub Advances : ℕ → ℕ → ℕ → ℤ → Samples → Option ℕ → Option (ℤ × RollingPercentile) → Type 0
Advances n w m start h a r =
    (p : RollingPercentile) × (r ≡ some (slot_of n h.last a, p))
    × Represents n w m start (moved n a h) p

module _ (n w m : ℕ) (start : ℤ) (h : Samples) (p : RollingPercentile)
    (v : Represents n w m start h p) where
  run_advanced : ℕ → Option (ℤ × RollingPercentile)
  run_advanced a =
      advanced clear_bucket a n h.last p.rolling_bucket p.buckets >>= λ (idx, window, buckets).
      some (idx, record { rolling_bucket = window; buckets = buckets })

  moves_ahead :
      (a : ℕ) → h.last < a → a ≤ (2 ^ 63 - 1) / w → Advances n w m start h (some a) (run_advanced a)
  unfolding run_advanced
  moves_ahead a ahead le =
      let k = min n (a - h.last) in
      let some_buckets = v.window.some_buckets in
      let (cleared, run, (size, held)) =
        clears-HoldAll n m k (suc h.last) p.buckets (λ j. slot_durations n j h.samples) some_buckets
          (v.sized, v.held) in
      let behind : leb a h.last ≡ false = ground arith in
      (
        record {
          rolling_bucket = record p.rolling_bucket { last_abs_index = pos a };
          buckets = cleared;
        },
        simp (behind, run) (ground arith),
        rw behind (record {
          window = record {
            buckets = v.window.buckets;
            width = v.window.width;
            last = refl;
            some_buckets = some_buckets;
            some_width = v.window.some_width;
            reached = le;
            room = v.window.room;
          };
          started = v.started;
          sized = size;
          inside = live_samples-InWindow h.last a n h.samples ahead v.inside;
          whole = live_samples-AllInt64 a n h.samples v.whole;
          held = λ j q.
              subst (HoldsAt m cleared j)
                (sym (slot_durations-live_samples h.last a n j h.samples ahead v.inside))
                (held j q);
        }),
      )

  moves : (a : ℕ) → a ≤ (2 ^ 63 - 1) / w → Advances n w m start h (some a) (run_advanced a)
  unfolding run_advanced
  moves a le = elim (Bool-cases (leb a h.last)) [
    | inl behind ↦ (p, simp behind, rw behind v)
    | inr ahead ↦ moves_ahead a (leb-false→lt a h.last ahead) le
  ]

  pub advance_percentile-Represents :
      (now : ℤ) → Advances n w m start h (index? start w now) (advance_percentile p now)
  unfolding advance_percentile run_advanced
  advance_percentile-Represents now =
      let step = advance-advanced clear_bucket n w h.last p.rolling_bucket now p.buckets v.window in
      let le = index_at-le w p.rolling_bucket now v.window.some_width in
      subst (λ s. Advances n w m start h (index? s w now) (advance_percentile p now)) v.started
        (rw step (elim (Bool-cases (ltb_ℤ (elapsed p.rolling_bucket now) (pos 0))) [
          | inl early ↦ rw early (p, refl, v)
          | inr late ↦ rw late (moves (index_at p.rolling_bucket w now) le)
        ]))
