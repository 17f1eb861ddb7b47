-- ===== src/Rolling/Config/Repairing.antt =====
-- metrics/rolling/rolling.go: any settings are made usable.
use circuit.Prelude.{
  ℕ, ℤ, pos, pos_part, Option, none, some, ltb_ℤ, if◌then◌else◌, ◌<◌, ◌≡◌, ◌<ℤ◌, refl, arith,
}
use circuit.Faststats.TimedCheck.{FuncId}
use circuit.Rolling.Config.{
  RunStatsConfig, FallbackStatsConfig, or_else, or_func, unset_negative, merge_run, sanitize_run,
  merge_fallback, sanitize_fallback, default_run_stats_config, default_fallback_stats_config,
  time_now,
}

-- A positive value is kept, and any other one is the default.
abbrev pub positive_or : ℤ → ℤ → ℤ
positive_or a default = if ltb_ℤ (pos 0) a then a else default

abbrev pub func_or : Option FuncId → FuncId → FuncId
func_or none default = default
func_or (some f) default = f

pub record IsRepairedRun (c d : RunStatsConfig) : Type 0 where
  pub now_func : d.now_func ≡ some (func_or c.now_func time_now)
  pub duration :
      d.rolling_stats_duration ≡ positive_or c.rolling_stats_duration (pos 10_000_000_000)
  pub buckets : d.rolling_stats_num_buckets ≡ positive_or c.rolling_stats_num_buckets (pos 10)
  pub percentile_duration :
      d.rolling_percentile_duration ≡ positive_or c.rolling_percentile_duration (pos 60_000_000_000)
  pub percentile_buckets :
      d.rolling_percentile_num_buckets ≡ positive_or c.rolling_percentile_num_buckets (pos 6)
  pub percentile_size :
      d.rolling_percentile_bucket_size ≡ positive_or c.rolling_percentile_bucket_size (pos 100)

repaired : (a d : ℤ) → or_else (unset_negative a) d ≡ positive_or a d
repaired a d = ground arith

or_func-some : (f : Option FuncId) (g : FuncId) → or_func f (some g) ≡ some (func_or f g)
or_func-some none g = refl
or_func-some (some f) g = refl

-- The settings that are used keep each positive number and the given clock, and have the default for
-- every other field.
pub merge_run-sanitize_run :
    (c : RunStatsConfig) → IsRepairedRun c (merge_run (sanitize_run c) default_run_stats_config)
unfolding merge_run sanitize_run
merge_run-sanitize_run c = record {
  now_func = or_func-some c.now_func time_now;
  duration = repaired c.rolling_stats_duration _;
  buckets = repaired c.rolling_stats_num_buckets _;
  percentile_duration = repaired c.rolling_percentile_duration _;
  percentile_buckets = repaired c.rolling_percentile_num_buckets _;
  percentile_size = repaired c.rolling_percentile_bucket_size _;
}

pub record IsRepairedFallback (c d : FallbackStatsConfig) : Type 0 where
  pub now_func : d.now_func ≡ some (func_or c.now_func time_now)
  pub duration :
      d.rolling_stats_duration ≡ positive_or c.rolling_stats_duration (pos 10_000_000_000)
  pub buckets : d.rolling_stats_num_buckets ≡ positive_or c.rolling_stats_num_buckets (pos 10)

pub merge_fallback-sanitize_fallback :
    (c : FallbackStatsConfig)
    → IsRepairedFallback c (merge_fallback (sanitize_fallback c) default_fallback_stats_config)
unfolding merge_fallback sanitize_fallback
merge_fallback-sanitize_fallback c = record {
  now_func = or_func-some c.now_func time_now;
  duration = repaired c.rolling_stats_duration _;
  buckets = repaired c.rolling_stats_num_buckets _;
}

-- So the numbers are positive.
pub positive_or-pos : (a d : ℤ) → pos 0 <ℤ d → (n : ℕ) × (positive_or a d ≡ pos n) × (0 < n)
positive_or-pos a d h = (pos_part (positive_or a d), ground arith, ground arith)
