-- ===== src/Rolling/FallbackStats/Counting.antt =====
-- metrics/rolling/rolling.go: the totals of a fallback count each outcome once.
use circuit.Prelude.{
  ℕ, suc, ℤ, pos, List, [], ◌∷◌, Option, some, ◌>>=◌, ◌/◌, ◌^◌, ◌<◌, ◌≡◌, refl, ap, ◌∙◌, arith,
  wrap64, none,
}
use circuit.Faststats.TimedCheck.{FuncId}
use circuit.Faststats.RollingCounter.{RollingCounter, inc, get_total_sum}
use circuit.Faststats.RollingCounter.History.{History, no_events, index?, recorded, Represents}
use circuit.Faststats.RollingCounter.Refinement.{IsUsable, new-Represents, inc-Represents}
use circuit.Rolling.Config.{
  FallbackStatsConfig, merge_fallback, sanitize_fallback, default_fallback_stats_config, time_now,
  read_clock, divide,
}
use circuit.Rolling.Config.Repairing.{
  positive_or, func_or, IsRepairedFallback, merge_fallback-sanitize_fallback,
}
use circuit.Rolling.RunStats.Configured.{divide-pos}
use circuit.Rolling.FallbackStats.{
  FallbackStats, renew, set_config_not_thread_safe, success, err_concurrency_limit_reject,
  err_failure, totals,
}

pub data Event : Type 0 where
  successes rejects failures : ℤ → Event

unfoldable pub handle : Event → FallbackStats → Option FallbackStats
handle (successes now) r = success now r
handle (rejects now) r = err_concurrency_limit_reject now r
handle (failures now) r = err_failure now r

-- The events, the latest one first.
unfoldable pub handle_all : List Event → FallbackStats → Option FallbackStats
unfolding handle
handle_all [] r = some r
handle_all (e ∷ es) r = handle_all es r >>= λ r'. handle e r'

-- How many events of each kind there are.
abbrev pub count_successes : List Event → ℕ
count_successes [] = 0
count_successes (successes now ∷ es) = suc (count_successes es)
count_successes (rejects now ∷ es) = count_successes es
count_successes (failures now ∷ es) = count_successes es

abbrev pub count_rejects : List Event → ℕ
count_rejects [] = 0
count_rejects (successes now ∷ es) = count_rejects es
count_rejects (rejects now ∷ es) = suc (count_rejects es)
count_rejects (failures now ∷ es) = count_rejects es

abbrev pub count_failures : List Event → ℕ
count_failures [] = 0
count_failures (successes now ∷ es) = count_failures es
count_failures (rejects now ∷ es) = count_failures es
count_failures (failures now ∷ es) = suc (count_failures es)

recorded-total : (n : ℕ) (a : Option ℕ) (h : History) → (recorded n a h).total ≡ suc h.total
recorded-total n none h = refl
recorded-total n (some a) h = ground arith

-- Settings that give n buckets of w nanoseconds.
pub record HasWindow (c : FallbackStatsConfig) (n w : ℕ) : Type 0 where
  pub span : ℕ
  pub duration : positive_or c.rolling_stats_duration (pos 10_000_000_000) ≡ pos span
  pub span_fits : span < 2 ^ 63
  pub buckets : positive_or c.rolling_stats_num_buckets (pos 10) ≡ pos n
  pub width : span / n ≡ w
  pub usable : IsUsable n w

module _ (n w : ℕ) (start : ℤ) where
  abbrev Counted : ℕ → RollingCounter → Type 0
  Counted t c = (h : History) × (h.total ≡ t) × Represents n w start h c

  record Holds (es : List Event) (r : FallbackStats) : Type 0 where
    successes : Counted (count_successes es) r.successes
    rejects : Counted (count_rejects es) r.err_concurrency_limit_rejects
    failures : Counted (count_failures es) r.err_failures

  inc-Counted :
      (t : ℕ) (c : RollingCounter) (now : ℤ)
      → Counted t c
      → (c' : RollingCounter) × (inc c now ≡ some c') × Counted (suc t) c'
  inc-Counted t c now (h, e, v) =
      let (c', run, v') = inc-Represents n w start h c now v in
      let a = index? start w now in (c', run, (recorded n a h, recorded-total n a h ∙ ap suc e, v'))

  handle-Holds :
      (e : Event) (es : List Event) (r : FallbackStats)
      → Holds es r
      → (r' : FallbackStats) × (handle e r ≡ some r') × Holds (e ∷ es) r'
  unfolding handle success err_concurrency_limit_reject err_failure
  handle-Holds (successes now) es r v =
      let (c, run, vc) = inc-Counted (count_successes es) r.successes now v.successes in
      (
        record r { successes = c },
        rw run,
        record { successes = vc; rejects = v.rejects; failures = v.failures },
      )
  handle-Holds (rejects now) es r v =
      let (c, run, vc) =
        inc-Counted (count_rejects es) r.err_concurrency_limit_rejects now v.rejects in
      (
        record r { err_concurrency_limit_rejects = c },
        rw run,
        record { successes = v.successes; rejects = vc; failures = v.failures },
      )
  handle-Holds (failures now) es r v =
      let (c, run, vc) = inc-Counted (count_failures es) r.err_failures now v.failures in
      (
        record r { err_failures = c },
        rw run,
        record { successes = v.successes; rejects = v.rejects; failures = vc },
      )

  handle_all-Holds :
      (es : List Event) (r : FallbackStats)
      → Holds [] r
      → (r' : FallbackStats) × (handle_all es r ≡ some r') × Holds es r'
  unfolding handle_all
  handle_all-Holds [] r v = (r, refl, v)
  handle_all-Holds (e ∷ es) r v =
      let (r₁, run, v₁) = handle_all-Holds es r v in
      let (r₂, run', v₂) = handle-Holds e es r₁ v₁ in (r₂, rw run run', v₂)

  Counted-total : (t : ℕ) (c : RollingCounter) → Counted t c → get_total_sum c ≡ wrap64 (pos t)
  unfolding get_total_sum
  Counted-total t c (h, e, v) = v.total ∙ ap (λ x. wrap64 (pos x)) e

set_config-Holds :
    (clock : FuncId → ℤ) (c : FallbackStatsConfig) (n w : ℕ)
    → HasWindow c n w
    → (r : FallbackStats) × (set_config_not_thread_safe clock c ≡ some r)
      × Holds n w (clock (func_or c.now_func time_now)) [] r
unfolding set_config_not_thread_safe renew read_clock
set_config-Holds clock c n w h =
    let start = clock (func_or c.now_func time_now) in
    let d = merge_fallback (sanitize_fallback c) default_fallback_stats_config in
    let u : IsRepairedFallback c d = merge_fallback-sanitize_fallback c in
    let (counter, new, v) = new-Represents n w start h.usable in
    let width : divide d.rolling_stats_duration d.rolling_stats_num_buckets ≡ some (pos w) =
      rw (u.duration, h.duration, u.buckets, h.buckets)
        (divide-pos h.span n h.span_fits h.usable.some_buckets ∙ ap (λ x. some (pos x)) h.width) in
    (
      record {
        successes = counter;
        err_concurrency_limit_rejects = counter;
        err_failures = counter;
      },
      ap (λ f. read_clock clock f >>= λ now. renew d now) u.now_func
          ∙ simp width (simp (u.buckets, h.buckets, new)),
      record {
        successes = (no_events, refl, v);
        rejects = (no_events, refl, v);
        failures = (no_events, refl, v);
      },
    )

-- Statistics of a fallback that are configured with usable settings, the defaults included, take any
-- outcomes without a panic, and expose how many there were of each kind.
pub handle_all-totals :
    (clock : FuncId → ℤ) (c : FallbackStatsConfig) (n w : ℕ) (es : List Event)
    → HasWindow c n w
    → (r : FallbackStats) × ((set_config_not_thread_safe clock c >>= λ r₀. handle_all es r₀)
        ≡ some r)
      × (totals r
          ≡ wrap64 (pos (count_successes es))
            ∷ wrap64 (pos (count_rejects es))
            ∷ wrap64 (pos (count_failures es))
            ∷ [])
unfolding totals
handle_all-totals clock c n w es h =
    let start = clock (func_or c.now_func time_now) in
    let (r₀, run, v₀) = set_config-Holds clock c n w h in
    let (r, run', v) = handle_all-Holds n w start es r₀ v₀ in
    (
      r,
      rw run run',
      rw (
        Counted-total n w start (count_successes es) r.successes v.successes,
        Counted-total n w start (count_rejects es) r.err_concurrency_limit_rejects v.rejects,
        Counted-total n w start (count_failures es) r.err_failures v.failures,
      ),
    )
