-- ===== src/Vm/Execution.antt =====
-- vm/core.go: the check of the attestations that a transaction's event carries. `now` is the clock.
pub mod Conflict
use aristo.Prelude.{
  ℕ, ◌+◌, [], ◌∷◌, List, Bool, not, ◌||◌, Bytes, same, is_empty, Result, ok, err, then_try, ltb,
  ◌==◌, if◌then◌else◌, timestamps_differ, timestamp_outside_window, wrong_measurement,
  attestation_data_mismatch, state_hash_mismatch,
}
use aristo.Core.Types.{TeeAttestation, AttestationPair}
use aristo.Actions.Shuttle.{CreateObject, SendEvent, SetInputObject}
use aristo.Actions.Region.{CreateRegion, UpdateRegion}
use aristo.Actions.Attestations.{max_drift}

-- The actions of a transaction that the node tells apart.
pub data Action : Type 0 where
  create_object : CreateObject → Action
  send_event : SendEvent → Action
  set_input_object : SetInputObject → Action
  create_region : CreateRegion → Action
  update_region : UpdateRegion → Action
  other_action : Action

abbrev pub expected_measurement : Bytes
expected_measurement = []

-- The checks of a signature are left to be written: they accept.
unfoldable pub verify_sgx_signature : Bytes → Bytes → Bytes → Result (Unit {0})
verify_sgx_signature enclave_id payload signature = ok tt

unfoldable pub verify_sev_signature : Bytes → Bytes → Bytes → Result (Unit {0})
verify_sev_signature enclave_id payload signature = ok tt

unfoldable pub verify_sgx_attestation : TeeAttestation → Result (Unit {0})
unfolding verify_sgx_signature
verify_sgx_attestation att =
    if not (same att.measurement expected_measurement)
    then err wrong_measurement
    else verify_sgx_signature att.enclave_id att.payload att.signature

unfoldable pub verify_sev_attestation : TeeAttestation → Result (Unit {0})
unfolding verify_sev_signature
verify_sev_attestation att =
    if not (same att.measurement expected_measurement)
    then err wrong_measurement
    else verify_sev_signature att.enclave_id att.payload att.signature

-- age > maxAge || age < -maxAge
unfoldable pub outside_range : ℕ → ℕ → Bool
outside_range now at = ltb (at + max_drift) now || ltb (now + max_drift) at

unfoldable pub verify_tee_execution : ℕ → AttestationPair → Bytes → Result (Unit {0})
unfolding outside_range verify_sgx_attestation verify_sev_attestation
verify_tee_execution now pair state_hash =
    let sgx = pair.first in
    let sev = pair.second in
    if not (sgx.timestamp == sev.timestamp)
    then err timestamps_differ
    else if outside_range now sgx.timestamp
    then err timestamp_outside_window
    else then_try (verify_sgx_attestation sgx) λ u. then_try (verify_sev_attestation sev) λ v.
      if not (same sgx.payload sev.payload)
      then err attestation_data_mismatch
      else if not (same state_hash sgx.payload) || not (same state_hash sev.payload)
      then err state_hash_mismatch
      else ok tt

unfoldable pub get_action_id : Action → Bytes
get_action_id (send_event a) = a.id_to
get_action_id (create_object a) = a.id
get_action_id _ = []

unfoldable pub get_action_function : Action → Bytes
get_action_function (send_event a) = a.function_call
get_action_function _ = []

unfoldable pub get_action_parameters : Action → Bytes
get_action_parameters (send_event a) = a.parameters
get_action_parameters (create_object a) = a.code
get_action_parameters _ = []
