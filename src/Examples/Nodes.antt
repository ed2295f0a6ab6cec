-- ===== src/Examples/Nodes.antt =====
-- A pair of two compute nodes in a region, with the manager's store in memory.
use aristo.Prelude.{
  arith, ℕ, ◌+◌, ◌≤◌, ◌≡◌, refl, ap, ◌∙◌, [], ◌∷◌, List, true, false, Bytes, text, same, Option,
  none, some, Result, ok, err, db_not_found,
}
use aristo.Prelude.Integers.{pos, max_int}
use aristo.Prelude.Dict
use aristo.Prelude.Dict.{Dict, lookup-insert}
use aristo.Actions.Shuttle.{SendEvent}
use aristo.Regions.Config.{TeePair}
use aristo.Regions.Balancer.{PairMetrics, RegionBalancer, select_optimal_pair}
use aristo.Regions.States.{
  PairState, HealthStatus, StateStore, States, get_tee_state, get_region_health, is_pair_healthy,
}
use aristo.Regions.Health.Stuck.{looks, rounds, is_pair_healthy-rounds}
use aristo.Regions.Health.Unread.{is_name, IsStateStore}
use aristo.Regions.Health.Missing.{Op, run, registers, changes_state, get_region_health-run}
use aristo.Verifier.{verify_attestation_pair}
use aristo.Vm.Execution.{send_event}
use aristo.Vm.Regional.{
  Request, NodeAttestation, NodeResult, ExecutionResult, Nodes, execute_in_region,
}
use aristo.Vm.Regional.Agreed.{IsAgreed, execute_in_region-IsAgreed}
use aristo.Vm.Regional.Refused.{execute_in_region-region_state_store}
use aristo.Storage.State.{memory, memory-IsMutable}
use aristo.Storage.RegionStates.{RegionCodecs, state_key_of, region_state_store}
use aristo.Storage.RegionStates.Apart.{region_state_store-IsStateStore}
use aristo.Compute.{ComputeNode, admit}
use aristo.Compute.Slots.{IsCounted, enters, here, next, slots-IsCounted}
use aristo.Examples.Regions.{numbers, config, limits, eu}
use aristo.Examples.Coordination.{coordinator}

abbrev state_at : Option (PairState ℕ) → Result (PairState ℕ)
state_at none = err db_not_found
state_at (some st) = ok st

-- The states of one region's pairs.
abbrev states_in_memory : StateStore (Dict (PairState ℕ)) ℕ
states_in_memory = record {
  set_region_config = λ r c s. (ok tt, s);
  save_tee_state = λ r p st s. (ok tt, Dict.insert p st s);
  get_tee_state = λ r p s. state_at (Dict.lookup p s);
  save_metrics = λ r p m s. (ok tt, s);
}

name-other : (p : Bytes) → is_name p ≡ true → same p [] ≡ false
unfolding same
name-other [] h = cc
name-other (x ∷ xs) h = refl

states_in_memory-IsStateStore : IsStateStore states_in_memory
states_in_memory-IsStateStore = record {
  saved_elsewhere =
      λ r p region st s named. ap state_at (lookup-insert p [] st s) ∙ rw (name-other p named) refl;
  config_apart = λ r region c s. refl;
  metrics_apart = λ r p region m s. refl;
}

abbrev failed_state : PairState ℕ
failed_state = record {
  status = text "unhealthy";
  last_healthy = 5;
  active_tasks = pos 0;
  error_count = pos 3;
  load_factor = 0;
  success_rate = 1;
  average_latency = 0;
}

abbrev pair_manager : States (Dict (PairState ℕ)) ℕ
pair_manager = record {
  stored = [];
  configs = (text "eu", config) ∷ [];
  states = (text "eu", (text "p", failed_state) ∷ []) ∷ [];
  metrics = [];
}

state_known :
    get_tee_state numbers states_in_memory (text "eu") (text "p") pair_manager ≡ ok failed_state
unfolding get_tee_state Dict.lookup same
state_known = refl

few_errors : 3 + looks ((text "eu", 7) ∷ (text "eu", 8) ∷ []) pair_manager.configs ≤ max_int
unfolding Dict.lookup same
few_errors = omega arith

is_pair_healthy-rounds_example :
    (after : PairState ℕ) × ((get_tee_state numbers states_in_memory
          (text "eu")
          (text "p")
          (rounds numbers states_in_memory ((text "eu", 7) ∷ (text "eu", 8) ∷ []) pair_manager)
        ≡ ok after)
      × (is_pair_healthy numbers states_in_memory 9 after ≡ false))
is_pair_healthy-rounds_example =
    is_pair_healthy-rounds numbers states_in_memory (text "eu") (text "p") pair_manager failed_state
      3 ((text "eu", 7) ∷ (text "eu", 8) ∷ []) 9 state_known refl (omega arith) few_errors

abbrev calls : List (Op ℕ)
calls =
    registers (text "eu") config 6
    ∷ changes_state (text "eu") (text "p") (λ st. record st { error_count = pos 0 }) 7
    ∷ []

get_region_health-run_example :
    get_region_health numbers states_in_memory
      (text "eu")
      (run numbers states_in_memory states_in_memory-IsStateStore calls pair_manager)
    ≡ get_region_health numbers states_in_memory (text "eu") pair_manager
get_region_health-run_example =
    get_region_health-run numbers states_in_memory states_in_memory-IsStateStore (text "eu") calls
      pair_manager refl

abbrev attested : Bytes → NodeAttestation
attested enclave = record {
  enclave_id = enclave;
  measurement = 4 ∷ [];
  timestamp = 1 ∷ [];
  payload = 5 ∷ [];
  region_proof = [];
}

abbrev result : Bytes → NodeResult
result enclave = record {
  timestamp = 1 ∷ [];
  attestations = attested enclave ∷ [];
  state_hash = 9 ∷ [];
  result = text "out";
}

abbrev nodes : Nodes
nodes endpoint = some (λ request. ok (result endpoint))

abbrev event : SendEvent
event = record {
  id_to = text "o";
  function_call = text "f";
  parameters = [];
  attestations = record {
    first = record {
      enclave_id = [];
      measurement = [];
      timestamp = 0;
      payload = [];
      signature = [];
      region_proof = [];
    };
    second = record {
      enclave_id = [];
      measurement = [];
      timestamp = 0;
      payload = [];
      signature = [];
      region_proof = [];
    };
  };
  region_id = text "eu";
}

abbrev measured_pair : PairMetrics ℕ
measured_pair = record {
  pair_id = text "p";
  sgx_endpoint = text "x";
  sev_endpoint = text "v";
  success_rate = 1;
  load_factor = 0;
  last_healthy = 100;
}

abbrev balancer : RegionBalancer ℕ
balancer = record {
  regions = (text "eu", eu) ∷ [];
  metrics = [];
  pair_metrics = (text "eu", measured_pair ∷ []) ∷ [];
  thresholds = limits;
}

abbrev key : Bytes
key = text "0123456789abcdef0123456789abcdef"

-- The region's health stands under the empty name, where a call of the program puts none.
abbrev healthy_manager : States (Dict (PairState ℕ)) ℕ
healthy_manager = record {
  stored = ([], record failed_state { status = text "healthy" }) ∷ [];
  configs = [];
  states = [];
  metrics = [];
}

abbrev outcome : ExecutionResult
outcome = record {
  state_hash = 9 ∷ [];
  output = text "out";
  attestations = record {
    first = record {
      enclave_id = text "x";
      measurement = 4 ∷ [];
      timestamp = 50;
      payload = 5 ∷ [];
      signature = [];
      region_proof = [];
    };
    second = record {
      enclave_id = text "v";
      measurement = 4 ∷ [];
      timestamp = 50;
      payload = 5 ∷ [];
      signature = [];
      region_proof = [];
    };
  };
  timestamp = 1 ∷ [];
  id = text "p";
  region_id = text "eu";
}

is_executed :
    (execute_in_region numbers states_in_memory
      (ok key)
      (λ t. some 50)
      true
      nodes
      balancer
      3
      120
      (text "eu")
      (send_event event)
      healthy_manager).0
    ≡ ok outcome
unfolding execute_in_region Dict.lookup same select_optimal_pair verify_attestation_pair
is_executed = refl

execute_in_region-IsAgreed_example :
    (health : HealthStatus ℕ) × (pair : TeePair) × (get_region_health numbers states_in_memory
        (text "eu")
        healthy_manager
      ≡ ok health)
    × (health.status ≡ text "healthy")
    × (select_optimal_pair numbers 120 (text "eu") balancer ≡ ok pair)
    × IsAgreed (ok key) (λ t. some 50) nodes (text "eu") (send_event event) pair outcome
execute_in_region-IsAgreed_example =
    execute_in_region-IsAgreed numbers states_in_memory (ok key) (λ t. some 50) true nodes balancer
      3 120 (text "eu") (send_event event) healthy_manager outcome is_executed

abbrev codecs : RegionCodecs ℕ
codecs = record {
  config = record { marshal = λ c. ok []; unmarshal = λ b. err db_not_found };
  settings = record { marshal = λ c. ok []; unmarshal = λ b. err db_not_found };
  state = record { marshal = λ st. ok st.status; unmarshal = λ b. ok failed_state };
  metrics = record { marshal = λ m. ok []; unmarshal = λ b. err db_not_found };
}

abbrev stored_manager : States (Dict Bytes) ℕ
stored_manager = record {
  stored = [];
  configs = (text "eu", config) ∷ [];
  states = (text "eu", (text "p", failed_state) ∷ []) ∷ [];
  metrics = [];
}

no_health : memory.get_value stored_manager.stored (state_key_of (text "eu") []) ≡ err db_not_found
unfolding Dict.lookup
no_health = refl

execute_in_region-region_state_store_example :
    execute_in_region numbers
      (region_state_store memory codecs)
      (ok key)
      (λ t. some 50)
      true
      nodes
      balancer
      3
      120
      (text "eu")
      (send_event event)
      (run numbers
        (region_state_store memory codecs)
        (region_state_store-IsStateStore memory memory-IsMutable codecs)
        calls
        stored_manager)
    ≡ (
      err db_not_found,
      run numbers
          (region_state_store memory codecs)
          (region_state_store-IsStateStore memory memory-IsMutable codecs)
          calls
          stored_manager,
    )
execute_in_region-region_state_store_example =
    execute_in_region-region_state_store numbers memory memory-IsMutable codecs (ok key)
      (λ t. some 50) true nodes balancer 3 120 (text "eu") (send_event event) calls stored_manager
      db_not_found refl no_health

abbrev node : ComputeNode (Unit {0})
node = record { region_id = text "eu"; max_tasks = 1; active_tasks = 0; coordinator = coordinator }

abbrev request : Request
request = record {
  region_id = text "eu";
  id_to = text "o";
  function_call = text "f";
  parameters = [];
  detailed_proof = false;
}

admitted : admit request node ≡ (ok tt, record node { active_tasks = 1 })
unfolding admit same
admitted = refl

slots-IsCounted_example :
    IsCounted 1 (record { node = record node { active_tasks = 1 }; in_flight = 1 })
slots-IsCounted_example =
    slots-IsCounted node (record { node = record node { active_tasks = 1 }; in_flight = 1 }) refl
      (next here (
        enters (record { node = node; in_flight = 0 }) request (record node { active_tasks = 1 })
          admitted))
