-- ===== src/Vm/Regional.antt =====
-- vm/core.go and vm/tee_validator.go: the execution of an action by the two enclaves of a pair, and the
-- checks of a transaction and of an action. What gRPC and time.Parse do is a parameter: `Nodes` has the
-- call of a compute node by its endpoint.
pub mod Agreed
pub mod Refused
use aristo.Prelude.{
  ℕ, ◌+◌, ◌-◌, ◌/◌, [], ◌∷◌, ◌++◌, List, Bool, true, false, not, Bytes, text, same, is_empty,
  Option, none, some, Result, ok, err, panic, then_try, Act, pure, fail, crash, lift, gets,
  continue, ◌>>=◌, ◌>>◌, if◌then◌else◌, Error, region_not_found, node_not_found, unhealthy_region,
  unsupported_action, state_hash_mismatch, out_of_range, panicked, ◌%◌,
}
use aristo.Prelude.Dict
use aristo.Prelude.Dict.{Dict}
use aristo.Prelude.Floats.{Floats}
use aristo.Core.Types.{TeeAttestation, AttestationPair}
use aristo.Storage.Words.{u64_mod}
use aristo.Actions.Shuttle.{SendEvent, CreateObject}
use aristo.Regions.Config.{TeePair}
use aristo.Regions.Metrics.{TeePairMetrics}
use aristo.Regions.States.{States, StateStore, HealthStatus, get_region_health, update_metrics}
use aristo.Regions.Balancer.{RegionBalancer, PairMetrics, select_optimal_pair, update_pair_metrics}
use aristo.Verifier.{verify_attestation_pair}
use aristo.Vm.CodeValidator.{CodeValidator, validate_code}
use aristo.Vm.Execution.{Action, create_object, send_event, verify_tee_execution}

-- proto.ExecutionRequest
pub record Request : Type 0 where
  pub region_id : Bytes
  pub id_to : Bytes
  pub function_call : Bytes
  pub parameters : Bytes
  pub detailed_proof : Bool

-- proto.TEEAttestation
pub record NodeAttestation : Type 0 where
  pub enclave_id : Bytes
  pub measurement : Bytes
  pub timestamp : Bytes
  pub payload : Bytes
  pub region_proof : Bytes

-- proto.ExecutionResult
pub record NodeResult : Type 0 where
  pub timestamp : Bytes
  pub attestations : List NodeAttestation
  pub state_hash : Bytes
  pub result : Bytes

-- compute.ExecutionResult
pub record ExecutionResult : Type 0 where
  pub state_hash : Bytes
  pub output : Bytes
  pub attestations : AttestationPair
  pub timestamp : Bytes
  pub id : Bytes
  pub region_id : Bytes

-- The compute nodes by endpoint: none where there is no client for it.
abbrev pub Nodes : Type 0
Nodes = Bytes → Option (Request → Result NodeResult)

unfoldable pub node_at : Nodes → Bytes → Result (Request → Result NodeResult)
node_at nodes endpoint = elim (nodes endpoint) [ none ↦ err node_not_found | some node ↦ ok node ]

unfoldable pub request_of : Bytes → Action → Result Request
request_of region (send_event a) = ok (record {
  region_id = region;
  id_to = a.id_to;
  function_call = a.function_call;
  parameters = a.parameters;
  detailed_proof = true;
})
request_of region (create_object a) = ok (record {
  region_id = region;
  id_to = a.id;
  function_call = [];
  parameters = a.code;
  detailed_proof = true;
})
request_of region _ = err unsupported_action

-- attestations[0]
unfoldable pub first_attestation : List NodeAttestation → Result NodeAttestation
first_attestation [] = panic out_of_range
first_attestation (a ∷ rest) = ok a

-- mustParseTime
unfoldable pub must_parse : Option ℕ → Result ℕ
must_parse none = panic panicked
must_parse (some t) = ok t

unfoldable pub converted : (Bytes → Option ℕ) → NodeResult → Result TeeAttestation
unfolding first_attestation must_parse
converted parse_time r = then_try (first_attestation r.attestations) λ a.
    then_try (must_parse (parse_time a.timestamp)) λ t. ok (record {
      enclave_id = a.enclave_id;
      measurement = a.measurement;
      timestamp = t;
      payload = a.payload;
      signature = [];
      region_proof = a.region_proof;
    })

-- Without time and proof, as ValidateRegionalAction does.
unfoldable pub converted_briefly : NodeResult → Result TeeAttestation
unfolding first_attestation
converted_briefly r = then_try (first_attestation r.attestations) λ a. ok (record {
  enclave_id = a.enclave_id;
  measurement = a.measurement;
  timestamp = 0;
  payload = a.payload;
  signature = [];
  region_proof = [];
})

unfoldable pub both_converted :
    (NodeResult → Result TeeAttestation) → NodeResult → NodeResult → Result AttestationPair
both_converted convert sgx sev =
    then_try (convert sgx) λ a. then_try (convert sev) λ b. ok (record { first = a; second = b })

-- The two enclaves of a region, of the validator: the order of the checks is that of
-- ValidateRegionalAction.
unfoldable pub validate_results : Result Bytes → NodeResult → NodeResult → Result (Unit {0})
unfolding both_converted converted_briefly
validate_results random sgx sev =
    if not (same sgx.state_hash sev.state_hash)
    then err state_hash_mismatch
    else then_try (both_converted converted_briefly sgx sev) (verify_attestation_pair random)

unfoldable pub event_request : SendEvent → Request
event_request a = record {
  region_id = a.region_id;
  id_to = a.id_to;
  function_call = a.function_call;
  parameters = a.parameters;
  detailed_proof = false;
}

-- `tees` are the clients of the regions that were added.
unfoldable pub validate_regional_action :
    Result Bytes
    → Dict ((Request → Result NodeResult) × (Request → Result NodeResult))
    → SendEvent
    → Result (Unit {0})
unfolding validate_results event_request
validate_regional_action random tees a = elim (Dict.lookup a.region_id tees) [
  | none ↦ err region_not_found
  | some clients ↦
      then_try (clients.0 (event_request a))
        λ sgx. then_try (clients.1 (event_request a)) λ sev. validate_results random sgx sev
]

unfoldable pub validate_and_execute :
    Result Bytes
    → Dict ((Request → Result NodeResult) × (Request → Result NodeResult))
    → CodeValidator
    → Bytes
    → SendEvent
    → Result (Unit {0})
unfolding validate_regional_action
validate_and_execute random tees validator code a =
    then_try (validate_code validator code) λ u. validate_regional_action random tees a

-- The checks of one action of a transaction; `verify` is VerifyStateTransition.
unfoldable pub validate_action : ℕ → (Action → Result (Unit {0})) → Action → Result (Unit {0})
validate_action now verify (send_event a) =
    then_try (verify_tee_execution now a.attestations a.attestations.first.payload)
      λ u. verify (send_event a)
validate_action now verify action = verify action

unfoldable pub validate_actions : ℕ → (Action → Result (Unit {0})) → List Action → Result (Unit {0})
unfolding validate_action
validate_actions now verify [] = ok tt
validate_actions now verify (a ∷ rest) =
    then_try (validate_action now verify a) λ u. validate_actions now verify rest

-- `tx_verified` and `auth_verified` are what hypersdk's checks return.
unfoldable pub validate_transaction :
    Result (Unit {0})
    → Result (Unit {0})
    → ℕ
    → (Action → Result (Unit {0}))
    → List Action
    → Result (Unit {0})
unfolding validate_actions
validate_transaction tx_verified auth_verified now verify actions =
    then_try tx_verified λ u. then_try auth_verified λ v. validate_actions now verify actions

unfoldable pub result_of : Bytes → TeePair → NodeResult → AttestationPair → ExecutionResult
result_of region pair sgx attestations = record {
  state_hash = sgx.state_hash;
  output = sgx.result;
  attestations = attestations;
  timestamp = sgx.timestamp;
  id = pair.id;
  region_id = region;
}

-- The checks after both calls returned.
unfoldable pub compare_results :
    Result Bytes → NodeResult → NodeResult → AttestationPair → Result (Unit {0})
compare_results random sgx sev attestations =
    then_try (verify_attestation_pair random attestations)
      λ u. if not (same sgx.state_hash sev.state_hash) then err state_hash_mismatch else ok tt

module _ {S F : Type 0} (floats : Floats F) (state_store : StateStore S F) where
  -- math.Min(ms / 1000, 1)
  unfoldable pub calculate_load_factor : ℕ → F
  calculate_load_factor exec_time =
      let x = floats.div (floats.of_nat (exec_time / 1000000)) (floats.of_nat 1000) in
      let one = floats.of_nat 1 in if floats.lt x one then x else one

  -- UpdateMetrics of the region manager, whose error is printed.
  unfoldable pub report :
      Bytes → Bytes → (TeePairMetrics F → TeePairMetrics F) → ℕ → States S F → States S F
  unfolding update_metrics
  report region pair f now rm = (update_metrics floats state_store region pair f now rm).1

  unfoldable pub executed : Bytes → ℕ → ℕ → TeePairMetrics F → TeePairMetrics F
  executed pair exec_time now m = record m {
    pair_id = pair;
    execution_time = exec_time;
    last_healthy = now;
    success_rate = floats.of_nat 1;
  }

  unfoldable pub execution_failed : Bytes → ℕ → TeePairMetrics F → TeePairMetrics F
  execution_failed pair now m = record m {
    pair_id = pair;
    last_health_check = now;
    success_rate = floats.of_nat 0;
    execution_time = 0;
    consecutive_errors = (m.consecutive_errors + 1) % u64_mod;
  }

  unfoldable pub verification_failed : Bytes → ℕ → TeePairMetrics F → TeePairMetrics F
  verification_failed pair now m = record m {
    pair_id = pair;
    last_health_check = now;
    attestation_failures = (m.attestation_failures + 1) % u64_mod;
    consecutive_errors = (m.consecutive_errors + 1) % u64_mod;
  }

  unfoldable pub completed : TeePair → ℕ → ℕ → TeePairMetrics F → TeePairMetrics F
  unfolding calculate_load_factor
  completed pair exec_time now m = record m {
    pair_id = pair.id;
    sgx_endpoint = pair.sgx_endpoint;
    sev_endpoint = pair.sev_endpoint;
    load_factor = calculate_load_factor exec_time;
    success_rate = floats.of_nat 1;
    execution_time = exec_time;
    last_health_check = now;
    last_healthy = now;
    cpu_usage = floats.of_nat 0;
    memory_usage = floats.of_nat 0;
    network_latency = floats.of_nat 0;
    pending_tasks = 0;
  }

  unfoldable pub report_if_ok : Bytes → Bytes → ℕ → ℕ → Result NodeResult → States S F → States S F
  unfolding report executed
  report_if_ok region pair exec_time now (ok r) rm =
      report region pair (executed pair exec_time now) now rm
  report_if_ok region pair exec_time now (err e) rm = rm
  report_if_ok region pair exec_time now (panic c) rm = rm

  unfoldable pub settle :
      Bytes
      → TeePair
      → NodeResult
      → AttestationPair
      → ℕ
      → ℕ
      → Result (Unit {0})
      → Act (States S F) ExecutionResult
  unfolding report completed verification_failed result_of
  settle region pair sgx attestations exec_time now (ok u) rm = (
    ok (result_of region pair sgx attestations),
    report region pair.id (completed pair exec_time now) now rm,
  )
  settle region pair sgx attestations exec_time now (err e) rm =
      (err e, report region pair.id (verification_failed pair.id now) now rm)
  settle region pair sgx attestations exec_time now (panic c) rm = (panic c, rm)

  unfoldable pub report_failure : Bytes → Bytes → ℕ → Error → Act (States S F) ExecutionResult
  unfolding report execution_failed
  report_failure region pair now e rm =
      (err e, report region pair (execution_failed pair now) now rm)

  unfoldable pub finish :
      Result Bytes
      → (Bytes → Option ℕ)
      → Bytes
      → TeePair
      → ℕ
      → ℕ
      → Result NodeResult
      → Result NodeResult
      → Act (States S F) ExecutionResult
  unfolding report_failure both_converted converted compare_results settle
  finish random parse_time region pair exec_time now (ok sgx) (ok sev) = do
    attestations ← lift (both_converted (converted parse_time) sgx sev)
    settle region pair sgx attestations exec_time now (compare_results random sgx sev attestations)
  finish random parse_time region pair exec_time now (ok sgx) (err e) =
      report_failure region pair.id now e
  finish random parse_time region pair exec_time now (ok sgx) (panic c) = crash c
  finish random parse_time region pair exec_time now (err e) sev =
      report_failure region pair.id now e
  finish random parse_time region pair exec_time now (panic c) sev = crash c

  -- Both goroutines have returned: which of them reported its metrics first is open.
  unfoldable pub run_both :
      Result Bytes
      → (Bytes → Option ℕ)
      → Bool
      → Bytes
      → TeePair
      → ℕ
      → ℕ
      → Result NodeResult
      → Result NodeResult
      → Act (States S F) ExecutionResult
  unfolding report_if_ok finish
  run_both random parse_time sgx_first region pair exec_time now sgx sev rm =
      let reported : States S F =
        if sgx_first
        then report_if_ok region pair.id exec_time now sev
            (report_if_ok region pair.id exec_time now sgx rm)
        else report_if_ok region pair.id exec_time now sgx
            (report_if_ok region pair.id exec_time now sev rm) in
      finish random parse_time region pair exec_time now sgx sev reported

  unfoldable pub require_healthy : HealthStatus F → Result (Unit {0})
  require_healthy h = if same h.status (text "healthy") then ok tt else err unhealthy_region

  -- Every duration is `exec_time`.
  unfoldable pub execute_in_region :
      Result Bytes
      → (Bytes → Option ℕ)
      → Bool
      → Nodes
      → RegionBalancer F
      → ℕ
      → ℕ
      → Bytes
      → Action
      → Act (States S F) ExecutionResult
  unfolding get_region_health require_healthy select_optimal_pair node_at request_of run_both
  execute_in_region random parse_time sgx_first nodes balancer exec_time now region action = do
    health ← gets (get_region_health floats state_store region)
    lift (require_healthy health)
    pair ← lift (select_optimal_pair floats now region balancer)
    sgx ← lift (node_at nodes pair.sgx_endpoint)
    sev ← lift (node_at nodes pair.sev_endpoint)
    request ← lift (request_of region action)
    run_both random parse_time sgx_first region pair exec_time now (sgx request) (sev request)
