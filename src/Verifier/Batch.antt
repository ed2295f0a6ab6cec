-- ===== src/Verifier/Batch.antt =====
-- verifier/batch.go: the check of a batch of actions. `time_string` prints a time.
pub mod Sound
pub mod Order
pub mod Distinct
use aristo.Prelude.{
  ℕ, ◌+◌, ◌/◌, ◌%◌, ◌*◌, [], ◌∷◌, ◌++◌, List, Bool, true, false, not, ◌&&◌, ◌||◌, Bytes, text,
  is_empty, Option, none, some, Result, ok, err, panic, then_try, length, ltb, ◌==◌, if◌then◌else◌,
  batch_limit, duplicate_action, conflicting_action, invalid_timestamp_order, duplicate_attestation,
  timestamps_differ, timestamp_outside_window, missing_region_proof, wrong_attestation_count,
}
use aristo.Prelude.Dict
use aristo.Prelude.Dict.{Dict}
use aristo.Core.Types.{TeeAttestation, AttestationPair}
use aristo.Storage.State.{Mutable}
use aristo.Storage.Codec.{Codec, ObjectMap}
use aristo.Actions.Shuttle.{CreateObject, SendEvent, SetInputObject}
use aristo.Actions.Region.{CreateRegion, UpdateRegion}
use aristo.Vm.Execution.{
  Action, create_object, send_event, set_input_object, create_region, update_region, other_action,
  outside_range,
}
use aristo.Verifier.{verify_state_transition, verify_attestation_pair}

abbrev pub max_batch_size : ℕ
max_batch_size = 256

pub record ModificationInfo : Type 0 where
  pub created : Bool
  pub tee_updated : Bool
  pub coordinated : Bool

pub record EventInfo : Type 0 where
  pub timestamp : ℕ
  pub function_call : Bytes
  pub attestations : AttestationPair
  pub region_id : Bytes

-- What is tracked of a batch.
pub record Tracking : Type 0 where
  pub region_modifications : Dict ModificationInfo
  pub object_modifications : Dict ModificationInfo
  pub event_queue : Dict (List EventInfo)
  pub attestations_seen : Dict Bool

abbrev pub no_tracking : Tracking
no_tracking = record {
  region_modifications = [];
  object_modifications = [];
  event_queue = [];
  attestations_seen = [];
}

abbrev pub was_created : ModificationInfo
was_created = record { created = true; tee_updated = false; coordinated = false }

abbrev pub was_updated : ModificationInfo
was_updated = record { created = false; tee_updated = true; coordinated = false }

-- info, exists := m[k]; exists && info.created
unfoldable pub is_created : Bytes → Dict ModificationInfo → Bool
is_created k m = elim (Dict.lookup k m) [ none ↦ false | some info ↦ info.created ]

unfoldable pub is_updated : Bytes → Dict ModificationInfo → Bool
is_updated k m = elim (Dict.lookup k m) [ none ↦ false | some info ↦ info.tee_updated ]

-- exists && !info.created
unfoldable pub is_only_modified : Bytes → Dict ModificationInfo → Bool
is_only_modified k m = elim (Dict.lookup k m) [ none ↦ false | some info ↦ not info.created ]

unfoldable pub is_seen : Bytes → Dict Bool → Bool
is_seen k m = elim (Dict.lookup k m) [ none ↦ false | some b ↦ b ]

unfoldable pub queue_of : Bytes → Dict (List EventInfo) → List EventInfo
queue_of k m = elim (Dict.lookup k m) [ none ↦ [] | some events ↦ events ]

abbrev pub hex_digit : ℕ → ℕ
hex_digit n = if ltb n 10 then 48 + n else 87 + n

-- The verb `%x`.
unfoldable pub hex : Bytes → Bytes
hex [] = []
hex (b ∷ bs) = hex_digit (b / 16) ∷ hex_digit (b % 16) ∷ hex bs

unfoldable pub event_info : SendEvent → EventInfo
event_info a = record {
  timestamp = a.attestations.first.timestamp;
  function_call = a.function_call;
  attestations = a.attestations;
  region_id = a.region_id;
}

unfoldable pub queued : SendEvent → Tracking → Tracking
unfolding queue_of event_info
queued a t = record t {
  event_queue =
      Dict.insert a.id_to (queue_of a.id_to t.event_queue ++ event_info a ∷ []) t.event_queue;
}

module _ (time_string : ℕ → Bytes) where
  unfoldable pub attestation_id : TeeAttestation → Bytes
  unfolding hex
  attestation_id att = hex att.enclave_id ++ text ":" ++ time_string att.timestamp

  unfoldable pub use_attestation : TeeAttestation → Tracking → Result Tracking
  unfolding attestation_id is_seen
  use_attestation att t =
      if is_seen (attestation_id att) t.attestations_seen
      then err duplicate_attestation
      else ok (record t {
        attestations_seen = Dict.insert (attestation_id att) true t.attestations_seen;
      })

  unfoldable pub analyze_action : Action → Tracking → Result Tracking
  unfolding is_created is_updated is_only_modified use_attestation queued
  analyze_action (create_object a) t =
      if is_created a.id t.object_modifications
      then err duplicate_action
      else ok
          (record t { object_modifications = Dict.insert a.id was_created t.object_modifications })
  analyze_action (send_event a) t =
      then_try (use_attestation a.attestations.first t)
        λ t1. then_try (use_attestation a.attestations.second t1) λ t2. ok (queued a t2)
  analyze_action (set_input_object a) t =
      if is_only_modified a.id t.object_modifications then err conflicting_action else ok t
  analyze_action (create_region a) t =
      if is_created a.region_id t.region_modifications
      then err duplicate_action
      else ok (record t {
        region_modifications = Dict.insert a.region_id was_created t.region_modifications;
      })
  analyze_action (update_region a) t =
      if is_updated a.region_id t.region_modifications
      then err duplicate_action
      else if is_created a.region_id t.region_modifications
      then err conflicting_action
      else ok (record t {
        region_modifications = Dict.insert a.region_id was_updated t.region_modifications;
      })
  analyze_action other_action t = ok t

  unfoldable pub analyze_actions : List Action → Tracking → Result Tracking
  unfolding analyze_action
  analyze_actions [] t = ok t
  analyze_actions (a ∷ acts) t = then_try (analyze_action a t) λ u. analyze_actions acts u

-- The checks that follow the one of the action itself.
unfoldable pub verify_in_batch : Action → Tracking → Result (Unit {0})
unfolding is_created
verify_in_batch (create_object a) t =
    if is_created a.id t.object_modifications then err duplicate_action else ok tt
verify_in_batch (create_region a) t =
    if is_created a.region_id t.region_modifications then err conflicting_action else ok tt
verify_in_batch _ t = ok tt

-- `prev` starts at the zero time, which comes before every time.
unfoldable pub in_order : ℕ → List EventInfo → Bool
in_order prev [] = true
in_order prev (e ∷ es) =
    let rest = in_order e.timestamp es in if ltb e.timestamp prev then false else rest

unfoldable pub queues_in_order : Dict (List EventInfo) → Bool
unfolding in_order
queues_in_order [] = true
queues_in_order ((id, events) ∷ m) =
    let rest = queues_in_order m in if in_order 0 events then rest else false

unfoldable pub verify_batch_constraints : Tracking → Result (Unit {0})
unfolding queues_in_order
verify_batch_constraints t =
    if queues_in_order t.event_queue then ok tt else err invalid_timestamp_order

module _ {S R : Type 0} (mu : Mutable S) (objects : Codec ObjectMap) (regions : Codec (Option R))
    (random : Result Bytes) where
  unfoldable pub verify_action : Action → Tracking → S → Result (Unit {0})
  unfolding verify_in_batch
  verify_action a t s =
      then_try (verify_state_transition mu objects regions random a s) λ u. verify_in_batch a t

  unfoldable pub verify_actions : List Action → Tracking → S → Result (Unit {0})
  unfolding verify_action
  verify_actions [] t s = ok tt
  verify_actions (a ∷ acts) t s = then_try (verify_action a t s) λ u. verify_actions acts t s

  unfoldable pub verify_batch : (ℕ → Bytes) → List Action → S → Result (Unit {0})
  unfolding analyze_actions verify_actions verify_batch_constraints
  verify_batch time_string acts s =
      if ltb max_batch_size (length acts)
      then err batch_limit
      else then_try (analyze_actions time_string acts no_tracking)
          λ t. then_try (verify_actions acts t s) λ u. verify_batch_constraints t

-- verifyTimestampsHelper
unfoldable pub verify_timestamps : ℕ → AttestationPair → Result (Unit {0})
unfolding outside_range
verify_timestamps now pair =
    if not (pair.first.timestamp == pair.second.timestamp)
    then err timestamps_differ
    else if outside_range now pair.first.timestamp
    then err timestamp_outside_window
    else if outside_range now pair.second.timestamp
    then err timestamp_outside_window
    else ok tt

-- verifyRegionHelper
unfoldable pub verify_region_proofs : AttestationPair → Result (Unit {0})
verify_region_proofs pair =
    if is_empty pair.first.region_proof || is_empty pair.second.region_proof
    then err missing_region_proof
    else ok tt

-- An attestation of an execution's result; `timestamp` is still printed.
pub record ProtoAttestation : Type 0 where
  pub enclave_id : Bytes
  pub measurement : Bytes
  pub timestamp : Bytes
  pub payload : Bytes
  pub signature : Bytes
  pub region_proof : Bytes

-- `parse` is time.Parse with RFC 3339.
unfoldable pub to_core : (Bytes → Result ℕ) → ProtoAttestation → Result TeeAttestation
to_core parse att = then_try (parse att.timestamp) λ time. ok (record {
  enclave_id = att.enclave_id;
  measurement = att.measurement;
  timestamp = time;
  payload = att.payload;
  signature = att.signature;
  region_proof = att.region_proof;
})

unfoldable pub verify_converted : Result Bytes → ℕ → AttestationPair → Result (Unit {0})
unfolding verify_timestamps verify_region_proofs
verify_converted random now pair =
    then_try (verify_attestation_pair random pair)
      λ u. then_try (verify_timestamps now pair) λ v. verify_region_proofs pair

unfoldable pub verify_compute_execution :
    (Bytes → Result ℕ) → Result Bytes → ℕ → List ProtoAttestation → Result (Unit {0})
unfolding to_core verify_converted
verify_compute_execution parse random now (sgx ∷ sev ∷ []) = then_try (to_core parse sgx) λ first.
    then_try (to_core parse sev)
      λ second. verify_converted random now (record { first = first; second = second })
verify_compute_execution parse random now _ = err wrong_attestation_count
