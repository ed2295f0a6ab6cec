-- ===== src/Coordination/Pairs/Operations.antt =====
-- Which regional operations and attestations the coordinator accepts.
use aristo.Prelude.{
  ℕ, ◌+◌, ◌≤◌, ◌≡◌, [], ◌∷◌, List, true, false, Bytes, is_empty, some, ok, length, ◌==◌, ==_iff,
  arith, ◌↔◌,
}
use aristo.Coordination.Types.{Attestation, TeePairInfo}
use aristo.Coordination.State.{Coordinator}
use aristo.Coordination.Pairs.{
  pairs_of, listed, outside_window, validate_regional_operation, verify_attestation,
}

listed_some :
    (sgx sev : Bytes) (pairs : List TeePairInfo)
    → listed sgx sev pairs ≡ true
    → (length pairs == 0) ≡ false
unfolding listed
listed_some sgx sev [] h = ground arith
listed_some sgx sev (pair ∷ pairs) h = ground arith

outside_window_iff :
    (now window at : ℕ)
    → (outside_window now window at ≡ false) ↔ ((now ≤ at + window) × (at ≤ now + window))
unfolding outside_window
outside_window_iff now window at = ((λ h. ground arith), (λ h. ground arith))

module _ {S : Type 0} where
  -- A regional operation is accepted exactly where the two enclaves are a pair of the region,
  -- their timestamps are equal, and now is within the attestation timeout of it on either side.
  pub validate_regional_operation_iff :
      (now : ℕ) (region : Bytes) (a b : Attestation) (c : Coordinator S)
      → (validate_regional_operation now region a b c ≡ ok tt) ↔ (
          (listed a.enclave_id b.enclave_id (pairs_of region c.tee_pairs) ≡ true)
          × (a.timestamp ≡ b.timestamp)
          × (now ≤ a.timestamp + c.config.attestation_timeout)
          × (a.timestamp ≤ now + c.config.attestation_timeout))
  unfolding validate_regional_operation
  validate_regional_operation_iff now region a b c = (
    (λ h. ground (
      arith,
      h,
      ==_iff a.timestamp b.timestamp,
      outside_window_iff now c.config.attestation_timeout a.timestamp,
    )),
    (λ (l, t, lo, hi). ground (
      arith,
      l,
      t,
      lo,
      hi,
      ==_iff a.timestamp b.timestamp,
      listed_some a.enclave_id b.enclave_id (pairs_of region c.tee_pairs),
      outside_window_iff now c.config.attestation_timeout a.timestamp,
      outside_window_iff now c.config.attestation_timeout b.timestamp,
    )),
  )

  -- An attestation is accepted exactly where now is within the attestation timeout of its
  -- timestamp on either side and it has a signature.
  pub verify_attestation_iff :
      (now : ℕ) (att : Attestation) (c : Coordinator S)
      → (verify_attestation now (some att) c ≡ ok tt) ↔ (
          (now ≤ att.timestamp + c.config.attestation_timeout)
          × (att.timestamp ≤ now + c.config.attestation_timeout)
          × (is_empty att.signature ≡ false))
  unfolding verify_attestation
  verify_attestation_iff now att c = (
    (λ h. ground (arith, h, outside_window_iff now c.config.attestation_timeout att.timestamp)),
    (λ h. ground (arith, h, outside_window_iff now c.config.attestation_timeout att.timestamp)),
  )
