-- ===== src/Verifier.antt =====
-- verifier/verifier.go: the checks of one action against the chain's state. `objects` and `regions` are
-- JSON encodings, `random` is what crypto/rand returns for the key of a channel, and `now` is the
-- clock.
pub mod Batch
use aristo.Prelude.{
  ℕ, ◌+◌, [], ◌∷◌, List, Bool, true, false, not, Bytes, text, same, is_empty, Option, none, some,
  Result, ok, err, panic, then_try, length, ltb, if◌then◌else◌, panicked, code_too_large,
  storage_too_large, object_exists, object_not_found, region_not_found, region_exists, invalid_tee,
  invalid_attestation, unknown_action, input_object_missing, missing_time_proof,
  insufficient_time_proofs, time_proof_too_old,
}
use aristo.Prelude.Dict
use aristo.Prelude.Dict.{Dict}
use aristo.Core.Types.{TeeAttestation, AttestationPair}
use aristo.Storage.State.{Mutable}
use aristo.Storage.Codec.{Codec, ObjectMap}
use aristo.Storage.Objects.{get_object, get_input_object, get_region}
use aristo.Actions.Attestations.{is_listed}
use aristo.Actions.Shuttle.{
  CreateObject, SendEvent, SetInputObject, max_code_size, max_storage_size,
}
use aristo.Actions.Region.{CreateRegion, UpdateRegion}
use aristo.Coordination.Channel.{new_secure_channel, establish_secure, send}
use aristo.TimeServer.Network.{VerifiedTimestamp}
use aristo.Vm.Execution.{
  Action, create_object, send_event, set_input_object, create_region, update_region, other_action,
}

-- if v, exists := obj[k]; exists { if len(v) > max ... }
unfoldable pub too_large : Bytes → ℕ → Dict Bytes → Bool
too_large k max obj = elim (Dict.lookup k obj) [ none ↦ false | some v ↦ ltb max (length v) ]

unfoldable pub verify_object_state : Dict Bytes → Result (Unit {0})
unfolding too_large
verify_object_state obj =
    if too_large (text "code") max_code_size obj
    then err code_too_large
    else if too_large (text "storage") max_storage_size obj
    then err storage_too_large
    else ok tt

-- `tees` is the region's entry, `none` where it is not a list of addresses.
unfoldable pub verify_attestation : Option (List Bytes) → TeeAttestation → Result (Unit {0})
unfolding is_listed
verify_attestation none att = panic panicked
verify_attestation (some tees) att =
    if is_listed att.enclave_id tees then ok tt else err invalid_attestation

-- The data of the first attestation is sent through a new channel between the two enclaves; the
-- region is not looked at.
unfoldable pub verify_attestation_pair : Result Bytes → AttestationPair → Result (Unit {0})
unfolding new_secure_channel establish_secure send
verify_attestation_pair random pair =
    then_try
      (establish_secure random (new_secure_channel pair.first.enclave_id pair.second.enclave_id))
      λ channel. (send pair.first.payload channel).0

unfoldable pub verify_function_exists : ObjectMap → Bytes → Result (Unit {0})
verify_function_exists obj function = ok tt

unfoldable pub nonempty_tees : List Bytes → Result (Unit {0})
nonempty_tees [] = ok tt
nonempty_tees (tee ∷ tees) =
    let rest = nonempty_tees tees in if is_empty tee then err invalid_tee else rest

-- 5 * time.Second
abbrev pub max_proof_age : ℕ
max_proof_age = 5000000000

unfoldable pub verify_time_proof : ℕ → Option VerifiedTimestamp → Result (Unit {0})
verify_time_proof now none = err missing_time_proof
verify_time_proof now (some proof) =
    if ltb (length proof.proofs) 2
    then err insufficient_time_proofs
    else if ltb (proof.time + max_proof_age) now
    then err time_proof_too_old
    else ok tt

unfoldable pub verify_execution :
    Result Bytes → ℕ → AttestationPair → Option VerifiedTimestamp → Result (Unit {0})
unfolding verify_attestation_pair verify_time_proof
verify_execution random now pair time_proof =
    then_try (verify_attestation_pair random pair) λ u. verify_time_proof now time_proof

module _ {S R : Type 0} (mu : Mutable S) (objects : Codec ObjectMap) (regions : Codec (Option R))
    (random : Result Bytes) where
  -- An input object without a region.
  unfoldable pub verify_system_state : S → Result (Unit {0})
  verify_system_state s = then_try (get_input_object mu s) λ id.
      if is_empty id
      then err input_object_missing
      else then_try (get_object mu objects id [] s)
          λ obj. elim obj [ none ↦ err input_object_missing | some m ↦ ok tt ]

  unfoldable pub verify_create_object : CreateObject → S → Result (Unit {0})
  unfolding verify_object_state
  verify_create_object a s = then_try (get_object mu objects a.id a.region_id s) λ obj. elim obj [
    | some m ↦ err object_exists
    | none ↦ verify_object_state ((text "code", a.code) ∷ (text "storage", a.storage) ∷ [])
  ]

  unfoldable pub verify_event_in : SendEvent → ObjectMap → S → Result (Unit {0})
  unfolding verify_attestation_pair verify_function_exists
  verify_event_in a obj s = then_try (get_region mu regions a.region_id s) λ region. elim region [
    | none ↦ err region_not_found
    | some r ↦ then_try (verify_attestation_pair random a.attestations) λ u.
        then_try (verify_function_exists obj a.function_call)
          λ v. if ltb max_storage_size (length a.parameters) then err storage_too_large else ok tt
  ]

  unfoldable pub verify_event : SendEvent → S → Result (Unit {0})
  unfolding verify_event_in
  verify_event a s =
      then_try (get_object mu objects a.id_to a.region_id s)
        λ obj. elim obj [ none ↦ err object_not_found | some m ↦ verify_event_in a (some m) s ]

  unfoldable pub verify_set_input : SetInputObject → S → Result (Unit {0})
  verify_set_input a s =
      then_try (get_object mu objects a.id a.region_id s)
        λ obj. elim obj [ none ↦ err object_not_found | some m ↦ ok tt ]

  unfoldable pub verify_create_region : CreateRegion → S → Result (Unit {0})
  unfolding nonempty_tees verify_attestation_pair
  verify_create_region a s = then_try (get_region mu regions a.region_id s) λ region. elim region [
    | some r ↦ err region_exists
    | none ↦ then_try (nonempty_tees a.tees) λ u. verify_attestation_pair random a.attestations
  ]

  unfoldable pub verify_update_region : UpdateRegion → S → Result (Unit {0})
  unfolding verify_attestation_pair
  verify_update_region a s = then_try (get_region mu regions a.region_id s) λ region. elim region [
    | none ↦ err region_not_found
    | some r ↦ verify_attestation_pair random a.attestations
  ]

  unfoldable pub verify_state_transition : Action → S → Result (Unit {0})
  unfolding verify_create_object verify_event verify_set_input
  verify_state_transition (create_object a) s = verify_create_object a s
  verify_state_transition (send_event a) s = verify_event a s
  verify_state_transition (set_input_object a) s = verify_set_input a s
  verify_state_transition (create_region a) s = err unknown_action
  verify_state_transition (update_region a) s = err unknown_action
  verify_state_transition other_action s = err unknown_action
