-- ===== src/Regions/Metrics.antt =====
-- regions/types.go: the metrics of a pair. A counter is a
-- word of 64 bits; a time.Duration is the 64 bits of its two's complement.
pub mod Streak
use aristo.Prelude.{
  ℕ, ◌+◌, ◌-◌, ◌/◌, ◌%◌, ◌^◌, Bool, true, false, ◌&&◌, ◌||◌, Bytes, text, same, ◌==◌, ltb, leb,
  if◌then◌else◌,
}
use aristo.Prelude.Floats.{Floats}
use aristo.Storage.Words.{u64_mod}

abbrev pub sign_bit : ℕ
sign_bit = 2 ^ 63

pub record TeePairMetrics (F : Type 0) : Type 0 where
  pub success_rate : F
  pub average_latency : ℕ
  pub error_rate : F
  pub tasks_processed : ℕ
  pub last_healthy : ℕ
  pub consecutive_errors : ℕ
  pub status : Bytes
  pub pending_tasks : ℕ
  pub failed_tasks : ℕ
  pub average_task_time : ℕ
  pub load_factor : F
  pub execution_time : ℕ
  pub pair_id : Bytes
  pub sgx_endpoint : Bytes
  pub sev_endpoint : Bytes
  pub last_health_check : ℕ
  pub cpu_usage : F
  pub memory_usage : F
  pub network_latency : F
  pub last_attestation : ℕ
  pub attestation_failures : ℕ

pub record PairThresholds (F : Type 0) : Type 0 where
  pub min_success_rate : F
  pub max_error_rate : F
  pub max_latency : ℕ

-- a <= b on durations
unfoldable pub at_most_duration : ℕ → ℕ → Bool
at_most_duration a b = leb ((a + sign_bit) % u64_mod) ((b + sign_bit) % u64_mod)

-- d / 2 on a duration, which rounds towards zero
unfoldable pub halve : ℕ → ℕ
halve d = if ltb d sign_bit then d / 2 else (u64_mod - (u64_mod - d) / 2) % u64_mod

module _ {F : Type 0} (floats : Floats F) where
  unfoldable pub is_healthy : PairThresholds F → TeePairMetrics F → Bool
  unfolding at_most_duration
  is_healthy limits m =
      same m.status (text "active")
      && (floats.le limits.min_success_rate m.success_rate
          && (floats.le m.error_rate limits.max_error_rate
              && (at_most_duration m.average_latency limits.max_latency
                  && (m.consecutive_errors == 0))))

  unfoldable pub update_status : TeePairMetrics F → TeePairMetrics F
  update_status m = record m {
    status =
        if leb 3 m.consecutive_errors
        then text "failed"
        else (if floats.lt floats.tenth m.error_rate || floats.lt m.success_rate floats.nine_tenths
            then text "degraded"
            else text "active");
  }

  unfoldable pub count_result : Bool → ℕ → TeePairMetrics F → TeePairMetrics F
  count_result true now m = record m {
    consecutive_errors = 0;
    last_healthy = now;
    success_rate =
        floats.div (floats.of_nat ((m.tasks_processed + (u64_mod - m.failed_tasks)) % u64_mod))
          (floats.of_nat m.tasks_processed);
  }
  count_result false now m =
      let failed = (m.failed_tasks + 1) % u64_mod in
      record m {
        failed_tasks = failed;
        consecutive_errors = (m.consecutive_errors + 1) % u64_mod;
        error_rate = floats.div (floats.of_nat failed) (floats.of_nat m.tasks_processed);
      }

  unfoldable pub average_time : ℕ → TeePairMetrics F → TeePairMetrics F
  unfolding halve
  average_time duration m = record m {
    average_task_time =
        if m.average_task_time == 0
        then duration
        else halve ((m.average_task_time + duration) % u64_mod);
  }

  -- `now` is the clock.
  unfoldable pub update_metrics : Bool → ℕ → ℕ → TeePairMetrics F → TeePairMetrics F
  unfolding count_result average_time update_status
  update_metrics success duration now m =
      let counted = record m { tasks_processed = (m.tasks_processed + 1) % u64_mod } in
      update_status (average_time duration (count_result success now counted))

  unfoldable pub reset_metrics : TeePairMetrics F → TeePairMetrics F
  reset_metrics m = record m {
    tasks_processed = 0;
    failed_tasks = 0;
    consecutive_errors = 0;
    success_rate = floats.of_nat 1;
    error_rate = floats.of_nat 0;
    average_task_time = 0;
    pending_tasks = 0;
    status = text "active";
  }
