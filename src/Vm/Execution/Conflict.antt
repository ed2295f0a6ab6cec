-- ===== src/Vm/Execution/Conflict.antt =====
-- vm/core.go and actions/shuttle.go: the two checks of the attestations of one event.
use aristo.Prelude.{ℕ, ◌+◌, ◌≤◌, ◌≡◌, ◌↔◌, Bytes, same_iff, [], ok, err, arith, missing_attestation}
use aristo.Core.Types.{AttestationPair}
use aristo.Actions.Attestations.{verify_attestation_pair, max_drift}
use aristo.Vm.Execution.{
  verify_tee_execution, verify_sgx_attestation, verify_sev_attestation, outside_range,
  verify_sgx_signature, verify_sev_signature,
}

-- With the first attestation's data as state hash, the node accepts a pair of attestations
-- exactly where their times are equal and now is within five minutes of it on either side, both
-- measurements are empty, and their data are equal.
pub verify_tee_execution_iff :
    (now : ℕ) (pair : AttestationPair)
    → (verify_tee_execution now pair pair.first.payload ≡ ok tt) ↔ (
        (pair.first.timestamp ≡ pair.second.timestamp)
        × ((now ≤ pair.first.timestamp + max_drift) × (pair.first.timestamp ≤ now + max_drift))
        × ((pair.first.measurement ≡ []) × (pair.second.measurement ≡ []))
        × (pair.first.payload ≡ pair.second.payload))
unfolding verify_tee_execution verify_sgx_attestation verify_sev_attestation outside_range
    verify_sgx_signature verify_sev_signature
verify_tee_execution_iff now pair = ground (
  arith,
  same_iff pair.first.measurement [],
  same_iff pair.second.measurement [],
  same_iff pair.first.payload pair.second.payload,
  same_iff pair.first.payload pair.first.payload,
)

-- A pair of attestations that the node accepts when it validates a transaction is refused for
-- want of an attestation when the event is executed.
pub verify_attestation_pair-validated :
    (now : ℕ) (pair : AttestationPair) (state_hash : Bytes)
    → verify_tee_execution now pair state_hash ≡ ok tt
    → verify_attestation_pair pair ≡ err missing_attestation
unfolding verify_tee_execution verify_sgx_attestation verify_sev_attestation verify_attestation_pair
verify_attestation_pair-validated now pair state_hash h =
    ground (arith, same_iff pair.first.measurement [], same_iff pair.second.measurement [])
