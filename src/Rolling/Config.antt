-- ===== src/Rolling/Config.antt =====
-- metrics/rolling/rolling.go: the settings of the statistics. A `Now` is the name of a function of the
-- environment, or nil; a clock gives what it reads.
pub mod Repairing
use circuit.Prelude.{
  ℕ, ℤ, pos, negsuc, Bool, Option, none, some, ltb_ℤ, eqb_ℤ, if◌then◌else◌, div64, ◌>>=◌,
}
use circuit.Faststats.TimedCheck.{FuncId}

pub record RunStatsConfig : Type 0 where
  pub now_func : Option FuncId
  pub rolling_stats_duration : ℤ
  pub rolling_stats_num_buckets : ℤ
  pub rolling_percentile_duration : ℤ
  pub rolling_percentile_num_buckets : ℤ
  pub rolling_percentile_bucket_size : ℤ

pub record FallbackStatsConfig : Type 0 where
  pub rolling_stats_duration : ℤ
  pub now_func : Option FuncId
  pub rolling_stats_num_buckets : ℤ

-- An unset field takes the other value.
abbrev pub or_else : ℤ → ℤ → ℤ
or_else a b = if eqb_ℤ a (pos 0) then b else a

abbrev pub or_func : Option FuncId → Option FuncId → Option FuncId
or_func none g = g
or_func (some f) g = some f

-- A negative field is unset.
abbrev pub unset_negative : ℤ → ℤ
unset_negative a = if ltb_ℤ a (pos 0) then pos 0 else a

unfoldable pub merge_run : RunStatsConfig → RunStatsConfig → RunStatsConfig
merge_run r other = record {
  now_func = or_func r.now_func other.now_func;
  rolling_stats_duration = or_else r.rolling_stats_duration other.rolling_stats_duration;
  rolling_stats_num_buckets = or_else r.rolling_stats_num_buckets other.rolling_stats_num_buckets;
  rolling_percentile_duration =
      or_else r.rolling_percentile_duration other.rolling_percentile_duration;
  rolling_percentile_num_buckets =
      or_else r.rolling_percentile_num_buckets other.rolling_percentile_num_buckets;
  rolling_percentile_bucket_size =
      or_else r.rolling_percentile_bucket_size other.rolling_percentile_bucket_size;
}

unfoldable pub sanitize_run : RunStatsConfig → RunStatsConfig
sanitize_run r = record r {
  rolling_stats_duration = unset_negative r.rolling_stats_duration;
  rolling_stats_num_buckets = unset_negative r.rolling_stats_num_buckets;
  rolling_percentile_duration = unset_negative r.rolling_percentile_duration;
  rolling_percentile_num_buckets = unset_negative r.rolling_percentile_num_buckets;
  rolling_percentile_bucket_size = unset_negative r.rolling_percentile_bucket_size;
}

unfoldable pub merge_fallback : FallbackStatsConfig → FallbackStatsConfig → FallbackStatsConfig
merge_fallback r other = record {
  rolling_stats_duration = or_else r.rolling_stats_duration other.rolling_stats_duration;
  now_func = or_func r.now_func other.now_func;
  rolling_stats_num_buckets = or_else r.rolling_stats_num_buckets other.rolling_stats_num_buckets;
}

unfoldable pub sanitize_fallback : FallbackStatsConfig → FallbackStatsConfig
sanitize_fallback r = record r {
  rolling_stats_duration = unset_negative r.rolling_stats_duration;
  rolling_stats_num_buckets = unset_negative r.rolling_stats_num_buckets;
}

-- `time.Now`.
abbrev pub time_now : FuncId
time_now = 0

abbrev pub default_run_stats_config : RunStatsConfig
default_run_stats_config = record {
  now_func = some time_now;
  rolling_stats_duration = pos 10_000_000_000;
  rolling_stats_num_buckets = pos 10;
  rolling_percentile_duration = pos 60_000_000_000;
  rolling_percentile_num_buckets = pos 6;
  rolling_percentile_bucket_size = pos 100;
}

abbrev pub default_fallback_stats_config : FallbackStatsConfig
default_fallback_stats_config = record {
  rolling_stats_duration = pos 10_000_000_000;
  now_func = some time_now;
  rolling_stats_num_buckets = pos 10;
}

-- The zero values of the two settings.
abbrev pub zero_run_stats_config : RunStatsConfig
zero_run_stats_config = record {
  now_func = none;
  rolling_stats_duration = pos 0;
  rolling_stats_num_buckets = pos 0;
  rolling_percentile_duration = pos 0;
  rolling_percentile_num_buckets = pos 0;
  rolling_percentile_bucket_size = pos 0;
}

abbrev pub zero_fallback_stats_config : FallbackStatsConfig
zero_fallback_stats_config = record {
  rolling_stats_duration = pos 0;
  now_func = none;
  rolling_stats_num_buckets = pos 0;
}

-- The clock's reading; a call of a nil function panics.
unfoldable pub read_clock : (FuncId → ℤ) → Option FuncId → Option ℤ
read_clock clock none = none
read_clock clock (some f) = some (clock f)

-- An integer division by zero panics.
unfoldable pub divide : ℤ → ℤ → Option ℤ
divide a b = if eqb_ℤ b (pos 0) then none else some (div64 a b)
