-- ===== src/Regions/States.antt =====
-- regions/manager.go: the states and the metrics of pairs, by region and pair, in memory and in the store.
-- `now` is the clock. The zero time counts as 0.
pub mod Changes
use aristo.Prelude.{
  ℕ, [], ◌∷◌, List, Bool, true, false, not, ◌&&◌, Bytes, text, same, is_empty, Option, none, some,
  Result, ok, err, panic, then_try, Act, pure, fail, crash, gets, lift, continue, ◌>>=◌, ◌>>◌,
  if◌then◌else◌, region_not_found, pair_not_found, nil_map,
}
use aristo.Prelude.Integers.{ℤ, pos, at_most, successor, younger_than}
use aristo.Prelude.Floats.{Floats}
use aristo.Prelude.Dict
use aristo.Prelude.Dict.{Dict}
use aristo.Regions.Config.{TeePair, RegionConfig}
use aristo.Regions.Metrics.{TeePairMetrics}

pub record PairState (F : Type 0) : Type 0 where
  pub status : Bytes
  pub last_healthy : ℕ
  pub active_tasks : ℤ
  pub error_count : ℤ
  pub load_factor : F
  pub success_rate : F
  pub average_latency : ℕ

pub record HealthStatus (F : Type 0) : Type 0 where
  pub status : Bytes
  pub last_check : ℕ
  pub error_count : ℤ
  pub success_rate : F
  pub load_factor : F
  pub average_latency : ℕ

-- The store's methods for pairs, and the one that RegisterTEEPair uses for the configuration.
pub record StateStore (S F : Type 0) : Type 0 where
  pub set_region_config : Bytes → RegionConfig F → Act S (Unit {0})
  pub save_tee_state : Bytes → Bytes → PairState F → Act S (Unit {0})
  pub get_tee_state : Bytes → Bytes → S → Result (PairState F)
  pub save_metrics : Bytes → Bytes → TeePairMetrics F → Act S (Unit {0})

-- The maps of a region manager that the methods below use.
pub record States (S F : Type 0) : Type 0 where
  pub stored : S
  pub configs : Dict (RegionConfig F)
  pub states : Dict (Dict (PairState F))
  pub metrics : Dict (Dict (TeePairMetrics F))

-- m[region][pair], where m[region] may be nil
unfoldable pub inner : {V : Type 0} → Option (Dict V) → Dict V
inner none = []
inner (some m) = m

unfoldable pub entry : {V : Type 0} → Bytes → Bytes → Dict (Dict V) → Option V
unfolding inner
entry region pair m = Dict.lookup pair (inner (Dict.lookup region m))

-- m[region][pair] = v, with a new map for a region that has none
unfoldable pub set_entry : {V : Type 0} → Bytes → Bytes → V → Dict (Dict V) → Dict (Dict V)
unfolding inner
set_entry region pair v m = Dict.insert region (Dict.insert pair v (inner (Dict.lookup region m))) m

unfoldable pub found_in : {V : Type 0} → Bytes → Option (Dict V) → Result V
found_in pair none = err region_not_found
found_in pair (some m) = elim (Dict.lookup pair m) [ none ↦ err pair_not_found | some v ↦ ok v ]

-- Whether a pair of the list has the id.
unfoldable pub has_pair : Bytes → List TeePair → Bool
has_pair id [] = false
has_pair id (p ∷ ps) = let rest = has_pair id ps in if same p.id id then true else rest

module _ {S F : Type 0} (floats : Floats F) (state_store : StateStore S F) where
  -- The literal of a state, with the fields that are not set.
  unfoldable pub new_state : F → ℕ → PairState F
  new_state success_rate now = record {
    status = text "active";
    last_healthy = now;
    active_tasks = pos 0;
    error_count = pos 0;
    load_factor = floats.of_nat 0;
    success_rate = success_rate;
    average_latency = 0;
  }

  unfoldable pub zero_metrics : TeePairMetrics F
  zero_metrics = record {
    success_rate = floats.of_nat 0;
    average_latency = 0;
    error_rate = floats.of_nat 0;
    tasks_processed = 0;
    last_healthy = 0;
    consecutive_errors = 0;
    status = [];
    pending_tasks = 0;
    failed_tasks = 0;
    average_task_time = 0;
    load_factor = floats.of_nat 0;
    execution_time = 0;
    pair_id = [];
    sgx_endpoint = [];
    sev_endpoint = [];
    last_health_check = 0;
    cpu_usage = floats.of_nat 0;
    memory_usage = floats.of_nat 0;
    network_latency = floats.of_nat 0;
    last_attestation = 0;
    attestation_failures = 0;
  }

  unfoldable pub new_metrics : ℕ → TeePairMetrics F
  unfolding zero_metrics
  new_metrics now = record zero_metrics { success_rate = floats.of_nat 1; last_healthy = now }

  unfoldable pub on_store : {A : Type 0} → Act S A → Act (States S F) A
  on_store m rm = let (r, s) = m rm.stored in (r, record rm { stored = s })

  unfoldable pub put_config : Bytes → RegionConfig F → Act (States S F) (Unit {0})
  put_config region config rm =
      (ok tt, record rm { configs = Dict.insert region config rm.configs })

  unfoldable pub put_state : Bytes → Bytes → PairState F → Act (States S F) (Unit {0})
  unfolding set_entry
  put_state region pair state rm =
      (ok tt, record rm { states = set_entry region pair state rm.states })

  unfoldable pub put_metrics : Bytes → Bytes → TeePairMetrics F → Act (States S F) (Unit {0})
  unfolding set_entry
  put_metrics region pair m rm = (ok tt, record rm { metrics = set_entry region pair m rm.metrics })

  -- A region that has no states gets new maps, and loses the metrics that it had.
  unfoldable pub with_maps : Bytes → Act (States S F) (Unit {0})
  with_maps region rm = elim (Dict.lookup region rm.states) [
    | none ↦ (
      ok tt,
      record rm {
        states = Dict.insert region [] rm.states;
        metrics = Dict.insert region [] rm.metrics;
      },
    )
    | some m ↦ (ok tt, rm)
  ]

  -- metrics[region][pair] = m, where metrics[region] may be nil
  unfoldable pub assign_metrics : Bytes → Bytes → TeePairMetrics F → Act (States S F) (Unit {0})
  unfolding put_metrics
  assign_metrics region pair m rm = elim (Dict.lookup region rm.metrics) [
    | none ↦ (panic nil_map, rm)
    | some ms ↦ put_metrics region pair m rm
  ]

  -- The state and the metrics are those of the region's own id, not of a pair.
  unfoldable pub register_tee_pair : Bytes → RegionConfig F → ℕ → Act (States S F) (Unit {0})
  unfolding with_maps put_config put_state assign_metrics new_state new_metrics on_store
  register_tee_pair region config now = do
    with_maps region
    put_config region config
    put_state region config.id (new_state (floats.of_nat 1) now)
    assign_metrics region config.id (new_metrics now)
    on_store (state_store.set_region_config region config)
    on_store (state_store.save_tee_state region config.id (new_state (floats.of_nat 1) now))
    on_store (state_store.save_metrics region config.id (new_metrics now))

  unfoldable pub known_config :
      Option (RegionConfig F)
      → (RegionConfig F → Act (States S F) (Unit {0}))
      → Act (States S F) (Unit {0})
  known_config none f = fail region_not_found
  known_config (some config) f = f config

  unfoldable pub state_or_new : Option (PairState F) → ℕ → PairState F
  unfolding new_state
  state_or_new none now = new_state (floats.of_nat 0) now
  state_or_new (some state) now = state

  unfoldable pub seen_active : ℕ → PairState F → PairState F
  seen_active now state =
      if same state.status (text "active") then record state { last_healthy = now } else state

  -- A new state stays in the map, and the changed one too when the store fails.
  unfoldable pub change_state :
      Bytes → Bytes → (PairState F → PairState F) → ℕ → Act (States S F) (Unit {0})
  unfolding put_state on_store state_or_new seen_active
  change_state region pair update now rm =
      let state : PairState F =
        seen_active now (update (state_or_new (entry region pair rm.states) now)) in
      (put_state region pair state >> on_store (state_store.save_tee_state region pair state)) rm

  unfoldable pub update_tee_state :
      Bytes → Bytes → (PairState F → PairState F) → ℕ → Act (States S F) (Unit {0})
  unfolding known_config has_pair change_state
  update_tee_state region pair update now rm =
      known_config (Dict.lookup region rm.configs)
        (λ config.
          if has_pair pair config.tee_pairs
          then change_state region pair update now
          else fail pair_not_found)
        rm

  unfoldable pub metrics_or_new : Option (TeePairMetrics F) → ℕ → TeePairMetrics F
  unfolding new_metrics
  metrics_or_new none now = new_metrics now
  metrics_or_new (some m) now = m

  -- What the metrics make of a state.
  unfoldable pub rated : RegionConfig F → TeePairMetrics F → PairState F → PairState F
  rated config m state = record state {
    load_factor = m.load_factor;
    success_rate = m.success_rate;
    average_latency = m.average_latency;
    status =
        if floats.lt config.load_balancer.max_load_factor m.load_factor
        then text "degraded"
        else text "active";
  }

  unfoldable pub rate_state :
      Bytes
      → Bytes
      → RegionConfig F
      → TeePairMetrics F
      → Option (PairState F)
      → Act (States S F) (Unit {0})
  unfolding rated put_state on_store
  rate_state region pair config m none = pure tt
  rate_state region pair config m (some state) = do
    put_state region pair (rated config m state)
    on_store (state_store.save_tee_state region pair (rated config m state))

  unfoldable pub change_metrics :
      Bytes
      → Bytes
      → (TeePairMetrics F → TeePairMetrics F)
      → ℕ
      → RegionConfig F
      → Act (States S F) (Unit {0})
  unfolding put_metrics rate_state on_store metrics_or_new
  change_metrics region pair update now config rm =
      let m : TeePairMetrics F = update (metrics_or_new (entry region pair rm.metrics) now) in
      (do
        put_metrics region pair m
        rate_state region pair config m (entry region pair rm.states)
        on_store (state_store.save_metrics region pair m))
        rm

  unfoldable pub update_metrics :
      Bytes → Bytes → (TeePairMetrics F → TeePairMetrics F) → ℕ → Act (States S F) (Unit {0})
  unfolding known_config change_metrics
  update_metrics region pair update now rm =
      known_config (Dict.lookup region rm.configs) (change_metrics region pair update now) rm

  unfoldable pub get_tee_state : Bytes → Bytes → States S F → Result (PairState F)
  unfolding found_in
  get_tee_state region pair rm = found_in pair (Dict.lookup region rm.states)

  unfoldable pub get_metrics : Bytes → Bytes → States S F → Result (TeePairMetrics F)
  unfolding found_in
  get_metrics region pair rm = found_in pair (Dict.lookup region rm.metrics)

  unfoldable pub collected : ℕ → PairState F → TeePairMetrics F
  unfolding zero_metrics
  collected now state = record zero_metrics {
    last_health_check = now;
    status = state.status;
    load_factor = state.load_factor;
    success_rate = state.success_rate;
    average_latency = state.average_latency;
  }

  unfoldable pub collect_all : Bytes → ℕ → Dict (PairState F) → Act (States S F) (Unit {0})
  unfolding update_metrics collected
  collect_all region now [] = pure tt
  collect_all region now ((pair, state) ∷ pairs) =
      update_metrics region pair (λ m. collected now state) now >> collect_all region now pairs

  unfoldable pub collect_region_metrics : Bytes → ℕ → Act (States S F) (Unit {0})
  unfolding collect_all inner
  collect_region_metrics region now rm =
      collect_all region now (inner (Dict.lookup region rm.states)) rm

  unfoldable pub marked : Bool → ℕ → PairState F → PairState F
  marked true now state = record state {
    status = text "healthy";
    last_healthy = now;
    error_count = pos 0;
  }
  marked false now state = record state {
    status = text "unhealthy";
    error_count = successor state.error_count;
  }

  unfoldable pub update_health_status : Bytes → Bytes → Bool → ℕ → Act (States S F) (Unit {0})
  unfolding update_tee_state marked
  update_health_status region pair healthy now =
      update_tee_state region pair (marked healthy now) now

  -- 5 * time.Minute
  unfoldable pub is_pair_healthy : ℕ → PairState F → Bool
  is_pair_healthy now state =
      younger_than now state.last_healthy (pos 300000000000)
      && (not (at_most (pos 3) state.error_count)
          && (floats.le floats.nineteen_twentieths state.success_rate
              && floats.lt state.load_factor floats.four_fifths))

  -- An error is printed, and the next pair is looked at.
  unfoldable pub ignoring : Act (States S F) (Unit {0}) → Act (States S F) (Unit {0})
  ignoring m rm = elim (m rm).0 as (λ r. Result (Unit {0}) × States S F) [
    | ok u ↦ (ok u, (m rm).1)
    | err e ↦ (ok tt, (m rm).1)
    | panic c ↦ (panic c, (m rm).1)
  ]

  unfoldable pub check_found :
      Bytes → Bytes → ℕ → Result (PairState F) → Act (States S F) (Unit {0})
  unfolding ignoring update_health_status is_pair_healthy
  check_found region pair now (ok state) =
      ignoring (update_health_status region pair (is_pair_healthy now state) now)
  check_found region pair now (err e) = pure tt
  check_found region pair now (panic c) = crash c

  unfoldable pub check_pairs : Bytes → ℕ → List TeePair → Act (States S F) (Unit {0})
  unfolding check_found get_tee_state
  check_pairs region now [] = pure tt
  check_pairs region now (p ∷ ps) =
      (λ rm. check_found region p.id now (get_tee_state region p.id rm) rm)
      >> check_pairs region now ps

  unfoldable pub check_region_health : Bytes → ℕ → Act (States S F) (Unit {0})
  unfolding known_config check_pairs
  check_region_health region now rm =
      known_config (Dict.lookup region rm.configs)
        (λ config. check_pairs region now config.tee_pairs) rm

  unfoldable pub as_state : HealthStatus F → PairState F
  as_state h = record {
    status = h.status;
    last_healthy = h.last_check;
    active_tasks = pos 0;
    error_count = h.error_count;
    load_factor = h.load_factor;
    success_rate = h.success_rate;
    average_latency = h.average_latency;
  }

  -- The store keeps it under the status, as if that were a pair.
  unfoldable pub update_region_health : Bytes → HealthStatus F → Act (States S F) (Unit {0})
  unfolding on_store as_state
  update_region_health region h = on_store (state_store.save_tee_state region h.status (as_state h))

  unfoldable pub as_health : PairState F → HealthStatus F
  as_health state = record {
    status = state.status;
    last_check = state.last_healthy;
    error_count = state.error_count;
    success_rate = state.success_rate;
    load_factor = state.load_factor;
    average_latency = state.average_latency;
  }

  -- The store is asked for a pair with no name.
  unfoldable pub get_region_health : Bytes → States S F → Result (HealthStatus F)
  unfolding as_health
  get_region_health region rm =
      then_try (state_store.get_tee_state region [] rm.stored) λ state. ok (as_health state)

  unfoldable pub update_region_metrics : Bytes → TeePairMetrics F → Act (States S F) (Unit {0})
  unfolding on_store
  update_region_metrics region m = on_store (state_store.save_metrics region [] m)
