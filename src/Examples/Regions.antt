-- ===== src/Examples/Regions.antt =====
-- Regions on the natural numbers in place of floats.
use aristo.Prelude.{
  ℕ, ◌+◌, ◌-◌, ◌*◌, ◌/◌, ◌≤◌, ◌≡◌, ◌↔◌, refl, [], ◌∷◌, List, arith, true, false, text, same, none,
  ok, err, store, ltb, leb, arith, All, length, is_empty, no_healthy_regions,
}
use aristo.Prelude.Integers.{pos, is_positive}
use aristo.Prelude.Floats.{Floats, IsOrdered}
use aristo.Prelude.Dict
use aristo.Prelude.Dict.{Dict}
use aristo.Regions.Config.{LoadBalancerConfig, GeoLocation, TeePair, RegionConfig, validate}
use aristo.Regions.Config.Valid.{HasIds, AreDistinct, IsBalanced, IsPlaced, validate_iff}
use aristo.Regions.Manager.{ConfigStore, RegionManager, update_config, get_tee_pairs}
use aristo.Regions.Manager.Cached.{get_tee_pairs-update_config}
use aristo.Regions.Balancer.{
  Region, RegionMetrics, BalancerConfig, RegionBalancer, select_region_by_load,
}
use aristo.Regions.Metrics.{TeePairMetrics, PairThresholds, reset_metrics, is_healthy}
use aristo.Regions.Metrics.Streak.{
  Outcome, Keeps, after, all_succeed, after-Keeps, is_healthy-after,
}
use aristo.Regions.Balancer.Load.{
  Best, NoneLower, select_region_by_load-Best, select_region_by_load-NoneLower,
}

abbrev pub numbers : Floats ℕ
numbers = record {
  lt = ltb;
  le = leb;
  of_nat = λ n. n;
  neg = λ n. 0;
  add = λ a b. a + b;
  sub = λ a b. a - b;
  mul = λ a b. a * b;
  div = λ a b. a / b;
  tenth = 0;
  nine_tenths = 1;
  nineteen_twentieths = 1;
  four_fifths = 1;
  two_fifths = 0;
  three_tenths = 0;
  max_float = 1000;
}

numbers_irrefl : (a : ℕ) → ltb a a ≡ false
numbers_irrefl a = ground arith

numbers_trans : (a b c : ℕ) → ltb a b ≡ true → ltb b c ≡ true → ltb a c ≡ true
numbers_trans a b c h k = ground arith

numbers-IsOrdered : IsOrdered numbers
numbers-IsOrdered = record { lt_irrefl = numbers_irrefl; lt_trans = numbers_trans }

abbrev pub eu : Region ℕ
eu = record {
  id = text "eu";
  worker_ids = [];
  is_healthy = true;
  last_updated = 0;
  location = none;
  tee_pairs = [];
}

abbrev idle_metrics : RegionMetrics ℕ
idle_metrics = record {
  load_factor = 0;
  latency_ms = 10;
  error_rate = 0;
  active_workers = pos 3;
  pending_tasks = pos 0;
  last_health_check = 100;
}

abbrev pub limits : BalancerConfig ℕ
limits = record {
  max_load_factor = 1;
  max_latency_ms = 1000;
  max_error_rate = 0;
  min_success_rate = 0;
  min_active_workers = pos 2;
  max_pending_tasks = pos 10;
  health_check_window = pos 50;
  geo_preference = true;
  max_distance = 5000;
}

abbrev balancer : RegionBalancer ℕ
balancer = record {
  regions = (text "eu", eu) ∷ [];
  metrics = (text "eu", idle_metrics) ∷ [];
  pair_metrics = [];
  thresholds = limits;
}

eu_selected : select_region_by_load numbers 120 balancer ≡ ok (text "eu")
unfolding select_region_by_load Dict.lookup same
eu_selected = refl

select_region_by_load-Best_example :
    Best numbers numbers-IsOrdered 120 balancer 1 (text "eu") balancer.regions
select_region_by_load-Best_example =
    select_region_by_load-Best numbers numbers-IsOrdered 120 balancer (text "eu") eu_selected

-- The last health check is too old.
none_selected : select_region_by_load numbers 151 balancer ≡ err no_healthy_regions
unfolding select_region_by_load Dict.lookup same
none_selected = refl

select_region_by_load-NoneLower_example :
    NoneLower numbers numbers-IsOrdered 151 balancer 1 balancer.regions
select_region_by_load-NoneLower_example =
    select_region_by_load-NoneLower numbers numbers-IsOrdered 151 balancer none_selected (refl, tt)

abbrev settings : LoadBalancerConfig ℕ
settings = record {
  max_load_factor = 1;
  max_latency_ms = 1000;
  max_error_rate = 0;
  min_active_workers = pos 2;
  max_pending_tasks = pos 10;
  health_check_window = pos 60;
  geo_preference = true;
  max_distance = 5000;
}

abbrev frankfurt : GeoLocation ℕ
frankfurt = record {
  latitude = 50;
  longitude = 8;
  data_center = text "fra1";
  country = text "de";
  region = text "eu";
}

abbrev pair : TeePair
pair = record {
  id = text "p";
  sgx_id = 1 ∷ [];
  sev_id = 2 ∷ [];
  sgx_endpoint = [];
  sev_endpoint = [];
  status = text "active";
}

abbrev pub config : RegionConfig ℕ
config = record {
  id = text "eu";
  tee_pairs = pair ∷ [];
  max_objects = pos 5;
  max_events = pos 5;
  load_balancer = settings;
  location = frankfurt;
}

validate_iff_example : (validate numbers config ≡ ok tt) ↔ (
    (is_empty config.id ≡ false)
    × (1 ≤ length config.tee_pairs)
    × (All HasIds config.tee_pairs × AreDistinct config.tee_pairs)
    × ((is_positive config.max_objects ≡ true) × (is_positive config.max_events ≡ true))
    × IsBalanced numbers config.load_balancer
    × IsPlaced numbers config.location)
validate_iff_example = validate_iff numbers config

abbrev configs_in_memory : ConfigStore (Dict (RegionConfig ℕ)) ℕ
configs_in_memory = record {
  set_region_config = λ id c. store (λ s. ok (Dict.insert id c s)) tt;
  get_region_config = λ id s. (ok (Dict.lookup id s), s);
  delete_region_config = λ id. store (λ s. ok (Dict.remove id s)) tt;
}

abbrev empty_manager : RegionManager (Dict (RegionConfig ℕ)) ℕ
empty_manager = record { stored = []; configs = []; cache = [] }

get_tee_pairs-update_config_example :
    get_tee_pairs numbers configs_in_memory
      (text "eu")
      (update_config numbers configs_in_memory (text "eu") config empty_manager).1
    ≡ get_tee_pairs numbers configs_in_memory (text "eu") empty_manager
get_tee_pairs-update_config_example =
    get_tee_pairs-update_config numbers configs_in_memory (text "eu") (text "eu") config
      empty_manager

abbrev fresh_metrics : TeePairMetrics ℕ
fresh_metrics = record {
  success_rate = 1;
  average_latency = 20;
  error_rate = 1;
  tasks_processed = 1;
  last_healthy = 0;
  consecutive_errors = 1;
  status = text "degraded";
  pending_tasks = 0;
  failed_tasks = 1;
  average_task_time = 30;
  load_factor = 0;
  execution_time = 0;
  pair_id = text "p";
  sgx_endpoint = [];
  sev_endpoint = [];
  last_health_check = 0;
  cpu_usage = 0;
  memory_usage = 0;
  network_latency = 0;
  last_attestation = 0;
  attestation_failures = 0;
}

abbrev success_at : ℕ → Outcome
success_at t = record { success = true; duration = 10; now = t }

abbrev failure_at : ℕ → Outcome
failure_at t = record { success = false; duration = 10; now = t }

abbrev three_failures : List Outcome
three_failures = failure_at 3 ∷ failure_at 2 ∷ failure_at 1 ∷ success_at 0 ∷ []

after-Keeps_example :
    Keeps numbers three_failures
      (after numbers (reset_metrics numbers fresh_metrics) three_failures)
after-Keeps_example = after-Keeps numbers fresh_metrics three_failures (omega arith)

abbrev pair_limits : PairThresholds ℕ
pair_limits = record { min_success_rate = 0; max_error_rate = 1; max_latency = 100 }

two_succeed : all_succeed (success_at 2 ∷ success_at 1 ∷ []) ≡ true
unfolding all_succeed
two_succeed = refl

is_healthy-after_example :
    is_healthy numbers pair_limits (after numbers fresh_metrics (success_at 2 ∷ success_at 1 ∷ []))
    ≡ false
is_healthy-after_example =
    is_healthy-after numbers pair_limits fresh_metrics (success_at 2) (success_at 1 ∷ [])
      two_succeed refl
