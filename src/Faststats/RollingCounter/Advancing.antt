-- ===== src/Faststats/RollingCounter/Advancing.antt =====
-- faststats/rolling_counter.go: a look at the clock moves the counter as it moves the history.
use Prim.Native.Nat.{min}
use circuit.Prelude.{
  ℕ, suc, ℤ, pos, ltb_ℤ, leb, Option, some, ◌-◌, ◌/◌, ◌^◌, ◌<◌, ◌≤◌, ◌≡◌, refl, subst, false,
  leb-false→lt, arith, Bool-cases, inl, inr, ◌>>=◌, wrap64-eq,
}
use circuit.Faststats.RollingBuckets.Window.{
  advanced, advance-advanced, elapsed, index_at, index_at-le,
}
use circuit.Faststats.RollingCounter.{RollingCounter, clear_bucket, advance_counter}
use circuit.Faststats.RollingCounter.Slots.{clears-hit, slot_count-live, live-InWindow}
use circuit.Faststats.RollingCounter.History.{History, index?, moved, slot_of, Represents}

-- What `advance_counter` returns: the bucket, and a counter that holds the moved history.
abbrev pub Advances : ℕ → ℕ → ℤ → History → Option ℕ → Option (ℤ × RollingCounter) → Type 0
Advances n w start h a r =
    (c : RollingCounter) × (r ≡ some (slot_of n h.last a, c)) × Represents n w start (moved n a h) c

module _ (n w : ℕ) (start : ℤ) (h : History) (c : RollingCounter)
    (v : Represents n w start h c) where
  run_advanced : ℕ → Option (ℤ × RollingCounter)
  run_advanced a =
      advanced clear_bucket a n h.last c.rolling_bucket c.buckets >>= λ (idx, window, buckets).
      some (idx, record c { rolling_bucket = window; buckets = buckets })

  moves_ahead :
      (a : ℕ) → h.last < a → a ≤ (2 ^ 63 - 1) / w → Advances n w start h (some a) (run_advanced a)
  unfolding run_advanced
  moves_ahead a ahead le =
      let k = min n (a - h.last) in
      let p = v.window.some_buckets in
      let (cleared, run, size, slots) = clears-hit k (suc h.last) n c.buckets v.sized p in
      let behind : leb a h.last ≡ false = ground arith in
      (
        record c {
          rolling_bucket = record c.rolling_bucket { last_abs_index = pos a };
          buckets = cleared;
        },
        simp (behind, run) (ground arith),
        rw behind (record {
          window = record {
            buckets = v.window.buckets;
            width = v.window.width;
            last = refl;
            some_buckets = p;
            some_width = v.window.some_width;
            reached = le;
            room = v.window.room;
          };
          started = v.started;
          sized = size;
          total = v.total;
          inside = live-InWindow h.last a n h.events ahead v.inside;
          counted = λ j q. ground (
            arith,
            slots j q,
            slot_count-live h.last a n j h.events ahead v.inside,
            v.counted j q,
            wrap64-eq (pos 0) (omega arith),
          );
        }),
      )

  moves : (a : ℕ) → a ≤ (2 ^ 63 - 1) / w → Advances n w start h (some a) (run_advanced a)
  unfolding run_advanced
  moves a le = elim (Bool-cases (leb a h.last)) [
    | inl behind ↦ (c, simp behind, rw behind v)
    | inr ahead ↦ moves_ahead a (leb-false→lt a h.last ahead) le
  ]

  pub advance_counter-Represents :
      (now : ℤ) → Advances n w start h (index? start w now) (advance_counter c now)
  unfolding advance_counter run_advanced
  advance_counter-Represents now =
      let step = advance-advanced clear_bucket n w h.last c.rolling_bucket now c.buckets v.window in
      let le = index_at-le w c.rolling_bucket now v.window.some_width in
      subst (λ s. Advances n w start h (index? s w now) (advance_counter c now)) v.started
        (rw step (elim (Bool-cases (ltb_ℤ (elapsed c.rolling_bucket now) (pos 0))) [
          | inl early ↦ rw early (c, refl, v)
          | inr late ↦ rw late (moves (index_at c.rolling_bucket w now) le)
        ]))
