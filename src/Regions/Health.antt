-- ===== src/Regions/Health.antt =====
-- regions/health.go and regions/monitor.go: the rounds of the health checker and of the performance
-- monitor. `pairs_of` is GetTEEPairs of the region manager, and `regions` its ListRegions.
pub mod Unread
pub mod Missing
pub mod Stuck
use aristo.Prelude.{
  ℕ, [], ◌∷◌, List, Bool, true, false, not, ◌&&◌, Bytes, text, Option, none, some, Result, ok, err,
  panic, then_try, Act, pure, fail, crash, gets, lift, continue, ◌>>=◌, ◌>>◌, if◌then◌else◌,
  close_closed, pair_not_found,
}
use aristo.Prelude.Integers.{pos, at_most}
use aristo.Prelude.Floats.{Floats}
use aristo.Prelude.Dict.{Dict}
use aristo.Regions.Config.{TeePair}
use aristo.Regions.Metrics.{TeePairMetrics, at_most_duration}
use aristo.Regions.States.{
  States, StateStore, HealthStatus, PairState, get_tee_state, get_metrics, update_region_health,
  ignoring, on_store, entry, set_entry, zero_metrics, update_tee_state,
}

-- 5 * time.Second and 100 * time.Millisecond
abbrev pub max_latency : ℕ
max_latency = 5000000000

abbrev pub probe_latency : ℕ
probe_latency = 100000000

pub record PerformanceMetrics (F : Type 0) : Type 0 where
  pub cpu : F
  pub memory : F
  pub network_latency : ℕ
  pub task_queue : ℕ
  pub last_update : ℕ

pub record Monitor (S F : Type 0) : Type 0 where
  pub manager : States S F
  pub metrics : Dict (Dict (PerformanceMetrics F))
  pub done_closed : Bool

module _ {S F : Type 0} (floats : Floats F) (state_store : StateStore S F) where
  -- isHealthy of the checker
  unfoldable pub is_healthy : HealthStatus F → Bool
  unfolding at_most_duration
  is_healthy status =
      not (at_most (pos 3) status.error_count)
      && (floats.le floats.nineteen_twentieths status.success_rate
          && (floats.lt status.load_factor floats.four_fifths
              && not (at_most_duration max_latency status.average_latency)))

  unfoldable pub judged : HealthStatus F → HealthStatus F
  unfolding is_healthy
  judged status = record status {
    status = if is_healthy status then text "healthy" else text "unhealthy";
  }

  unfoldable pub measured : ℕ → TeePairMetrics F → PairState F → HealthStatus F
  measured now m state = record {
    status = [];
    last_check = now;
    error_count = state.error_count;
    success_rate = m.success_rate;
    load_factor = m.load_factor;
    average_latency = m.average_latency;
  }

  unfoldable pub check_tee_pair : Bytes → Bytes → ℕ → States S F → Result (HealthStatus F)
  unfolding judged measured get_metrics get_tee_state
  check_tee_pair region pair now rm = then_try (get_metrics floats state_store region pair rm) λ m.
      then_try (get_tee_state floats state_store region pair rm)
        λ state. ok (judged (measured now m state))

  unfoldable pub update_checked : Bytes → Result (HealthStatus F) → Act (States S F) (Unit {0})
  unfolding ignoring update_region_health
  update_checked region (ok h) =
      ignoring floats state_store (update_region_health floats state_store region h)
  update_checked region (err e) = pure tt
  update_checked region (panic c) = crash c

  unfoldable pub check_each : Bytes → ℕ → List TeePair → Act (States S F) (Unit {0})
  unfolding update_checked check_tee_pair
  check_each region now [] = pure tt
  check_each region now (p ∷ ps) =
      (λ rm. update_checked region (check_tee_pair region p.id now rm) rm)
      >> check_each region now ps

  unfoldable pub check_region : Bytes → ℕ → Result (List TeePair) → Act (States S F) (Unit {0})
  unfolding check_each
  check_region region now (ok pairs) = check_each region now pairs
  check_region region now (err e) = fail e
  check_region region now (panic c) = crash c

  unfoldable pub perform_health_checks :
      (Bytes → Result (List TeePair)) → ℕ → List Bytes → Act (States S F) (Unit {0})
  unfolding check_region ignoring
  perform_health_checks pairs_of now [] = pure tt
  perform_health_checks pairs_of now (region ∷ regions) =
      ignoring floats state_store (check_region region now (pairs_of region))
      >> perform_health_checks pairs_of now regions

  unfoldable pub with_health : HealthStatus F → PairState F → PairState F
  with_health h state = record state {
    status = h.status;
    last_healthy = h.last_check;
    error_count = h.error_count;
    success_rate = h.success_rate;
    load_factor = h.load_factor;
    average_latency = h.average_latency;
  }

  unfoldable pub update_pair_health :
      Bytes → Bytes → HealthStatus F → ℕ → Act (States S F) (Unit {0})
  unfolding update_tee_state with_health
  update_pair_health region pair h now =
      update_tee_state floats state_store region pair (with_health h) now

  unfoldable pub new_monitor : States S F → Monitor S F
  new_monitor manager = record { manager = manager; metrics = []; done_closed = false }

  -- The measurement is left open in the source: it returns constants.
  unfoldable pub collect_pair_metrics : ℕ → PerformanceMetrics F
  collect_pair_metrics now = record {
    cpu = floats.of_nat 0;
    memory = floats.of_nat 0;
    network_latency = probe_latency;
    task_queue = 0;
    last_update = now;
  }

  unfoldable pub update_performance :
      Bytes → Bytes → PerformanceMetrics F → Act (Monitor S F) (Unit {0})
  unfolding set_entry
  update_performance region pair m pm =
      (ok tt, record pm { metrics = set_entry region pair m pm.metrics })

  -- What the monitor saves; the latency is in milliseconds.
  unfoldable pub saved_metrics : Bytes → ℕ → PerformanceMetrics F → TeePairMetrics F
  unfolding zero_metrics
  saved_metrics pair now m = record (zero_metrics floats state_store) {
    pair_id = pair;
    last_health_check = now;
    cpu_usage = m.cpu;
    memory_usage = m.memory;
    network_latency = floats.of_nat 100;
    pending_tasks = m.task_queue;
    execution_time = m.network_latency;
  }

  unfoldable pub on_manager : Act (States S F) (Unit {0}) → Act (Monitor S F) (Unit {0})
  on_manager m pm = let (r, rm) = m pm.manager in (r, record pm { manager = rm })

  unfoldable pub monitor_pairs : Bytes → ℕ → List TeePair → Act (Monitor S F) (Unit {0})
  unfolding collect_pair_metrics update_performance saved_metrics on_manager on_store ignoring
  monitor_pairs region now [] = pure tt
  monitor_pairs region now (p ∷ ps) = do
    update_performance region p.id (collect_pair_metrics now)
    on_manager (
        ignoring floats state_store (
          on_store floats state_store (
            state_store.save_metrics region p.id
              (saved_metrics p.id now (collect_pair_metrics now)))))
    monitor_pairs region now ps

  unfoldable pub monitor_region : Bytes → ℕ → Result (List TeePair) → Act (Monitor S F) (Unit {0})
  unfolding monitor_pairs
  monitor_region region now (ok pairs) = monitor_pairs region now pairs
  monitor_region region now (err e) = pure tt
  monitor_region region now (panic c) = crash c

  unfoldable pub collect_metrics :
      (Bytes → Result (List TeePair)) → ℕ → List Bytes → Act (Monitor S F) (Unit {0})
  unfolding monitor_region
  collect_metrics pairs_of now [] = pure tt
  collect_metrics pairs_of now (region ∷ regions) =
      monitor_region region now (pairs_of region) >> collect_metrics pairs_of now regions

  unfoldable pub get_performance : Bytes → Bytes → Monitor S F → Result (PerformanceMetrics F)
  unfolding entry
  get_performance region pair pm = elim (entry region pair pm.metrics) [
    | none ↦ err pair_not_found
    | some m ↦ ok m
  ]

  unfoldable pub stop : Act (Monitor S F) (Unit {0})
  stop pm =
      if pm.done_closed then (panic close_closed, pm) else (ok tt, record pm { done_closed = true })
