-- ===== src/Examples/Batches.antt =====
-- Regions, queued events, attestations and batches of actions, over states in memory.
use aristo.Prelude.{
  ℕ, ◌+◌, ◌≤◌, ◌≡◌, ◌↔◌, ◌≢◌, refl, [], ◌∷◌, List, true, false, Bytes, text, same, Option, none,
  some, Result, ok, err, pure, arith, db_not_found, Error, All, missing_attestation, store,
}
use aristo.Prelude.Dict
use aristo.Prelude.Dict.{Dict}
use aristo.Core.Types.{TeeAttestation, AttestationPair}
use aristo.Storage.State.{memory, memory-IsMutable}
use aristo.Storage.Codec.{Codec}
use aristo.Storage.Objects.{QueuedEvent, get_event}
use aristo.Storage.Coordinated.{queue_event, empty_coordination}
use aristo.Storage.Coordinated.Tasks.{get_event-queue_event}
use aristo.Actions.Attestations
use aristo.Actions.Attestations.{max_drift}
use aristo.Storage.Keys.{make_object_key, region_key}
use aristo.Actions.Region.{
  RegionalStore, Values, CreateRegion, RegionResult, create_region, is_actions_not_found,
}
use aristo.Actions.Region.Absent.{ReadsDatabase, create_region-Fails}
use aristo.Vm.Execution.{Action, send_event, set_input_object, verify_tee_execution}
use aristo.Vm.Execution.Conflict.{verify_tee_execution_iff, verify_attestation_pair-validated}
use aristo.Storage.Objects
use aristo.Verifier.{verify_state_transition}
use aristo.Verifier.Batch.{verify_batch}
use aristo.Verifier.Batch.Sound.{verify_batch-creates, creates_nothing}
use aristo.Verifier.Batch.Order.{verify_batch-IsChronological, events_to, IsChronological}
use aristo.Verifier.Batch.Distinct.{verify_batch-IsDistinct, IsDistinct, attestation_ids}

-- A time is printed as one byte.
abbrev one_byte : ℕ → Bytes
one_byte t = t ∷ []

abbrev by : Bytes → ℕ → TeeAttestation
by enclave time = record {
  enclave_id = enclave;
  measurement = [];
  timestamp = time;
  payload = text "root";
  signature = text "s";
  region_proof = [];
}

abbrev pair_at : ℕ → AttestationPair
pair_at time = record { first = by (text "a") time; second = by (text "b") time }

-- Events and coordination states are stored as a byte.
abbrev as_byte : {A : Type 0} → A → Codec A
as_byte a = record { marshal = λ x. ok (1 ∷ []); unmarshal = λ b. ok a }

abbrev ping : QueuedEvent
ping = record { function_call = text "ping"; parameters = []; attestations = pair_at 7 }

get_event-queue_event_example :
    get_event memory
      (as_byte (some tt))
      (one_byte 7)
      (text "id")
      (queue_event memory
        (as_byte empty_coordination)
        one_byte
        one_byte
        (as_byte ping)
        (text "id")
        ping
        (some empty_coordination)
        (text "eu")
        []).1
    ≡ get_event memory (as_byte (some tt)) (one_byte 7) (text "id") []
get_event-queue_event_example =
    get_event-queue_event memory memory-IsMutable (as_byte empty_coordination) (as_byte ping)
      one_byte one_byte (as_byte (some tt)) (text "id") (text "eu") (one_byte 7) (text "id") ping
      (some empty_coordination) [] refl

-- A store whose database says what is missing.
abbrev value_or_missing : Option Bytes → Result (Option Bytes)
value_or_missing none = err db_not_found
value_or_missing (some v) = ok (some v)

abbrev store_in_memory : RegionalStore (Dict Bytes) Bytes
store_in_memory = record {
  open_store = λ region. pure tt;
  get = λ region key s. value_or_missing (Dict.lookup key s);
  insert = λ region key value. store (λ s. ok (Dict.insert key value s)) tt;
  get_proof = λ region key s. ok [];
}

store-not_nil : (o : Option Bytes) → value_or_missing o ≢ ok none
store-not_nil none e = cc
store-not_nil (some v) e = ground arith

store-not_actions :
    (o : Option Bytes) (e : Error) → value_or_missing o ≡ err e → is_actions_not_found e ≡ false
unfolding is_actions_not_found
store-not_actions none e h = ground arith
store-not_actions (some v) e h = cc

store_in_memory-ReadsDatabase : ReadsDatabase store_in_memory
store_in_memory-ReadsDatabase = record {
  not_nil = λ region key s. store-not_nil (Dict.lookup key s);
  not_actions = λ region key s e. store-not_actions (Dict.lookup key s) e;
}

abbrev as_bytes : Values Bytes
as_bytes = record { of_text = λ t. t; of_tees = λ l. []; of_attestations = λ p. [] }

abbrev new_region : CreateRegion
new_region = record { region_id = text "eu"; tees = text "tee" ∷ []; attestations = pair_at 7 }

abbrev region_created : RegionResult Bytes
region_created = record {
  region_id = text "eu";
  success = true;
  state_hash = text "root";
  timestamp = one_byte 7;
  proof = [];
}

create_region-Fails_example :
    (create_region store_in_memory (as_byte (some [])) as_bytes one_byte new_region []).0
    ≢ ok region_created
create_region-Fails_example =
    create_region-Fails store_in_memory store_in_memory-ReadsDatabase (as_byte (some [])) as_bytes
      one_byte new_region [] region_created

pair_validated : verify_tee_execution 8 (pair_at 7) (text "root") ≡ ok tt
unfolding verify_tee_execution same
pair_validated = refl

abbrev good : AttestationPair
good = pair_at 7

verify_tee_execution_iff_example : (verify_tee_execution 8 good (text "root") ≡ ok tt) ↔ (
    (good.first.timestamp ≡ good.second.timestamp)
    × ((8 ≤ good.first.timestamp + max_drift) × (good.first.timestamp ≤ 8 + max_drift))
    × ((good.first.measurement ≡ []) × (good.second.measurement ≡ []))
    × (good.first.payload ≡ good.second.payload))
verify_tee_execution_iff_example = verify_tee_execution_iff 8 good

verify_attestation_pair-validated_example :
    Attestations.verify_attestation_pair (pair_at 7) ≡ err missing_attestation
verify_attestation_pair-validated_example =
    verify_attestation_pair-validated 8 (pair_at 7) (text "root") pair_validated

-- A chain with an object and a region, which every key reads.
abbrev chain : Dict Bytes
chain =
    (make_object_key (text "eu") (text "o"), 1 ∷ [])
    ∷ (make_object_key (text "eu") (text "i"), 1 ∷ [])
    ∷ (region_key (text "eu"), 1 ∷ [])
    ∷ []

abbrev call_at : ℕ → Action
call_at time = send_event (record {
  id_to = text "o";
  function_call = text "ping";
  parameters = [];
  attestations = pair_at time;
  region_id = text "eu";
})

abbrev batch : List Action
batch =
    call_at 7 ∷ set_input_object (record { id = text "i"; region_id = text "eu" }) ∷ call_at 9 ∷ []

batch_accepted :
    verify_batch memory
      (as_byte (some []))
      (as_byte (some tt))
      (ok (text "key"))
      one_byte
      batch
      chain
    ≡ ok tt
unfolding verify_batch Dict.lookup Dict.insert same verify_state_transition Objects.get_object
    make_object_key Objects.get_region region_key
batch_accepted = refl

verify_batch-creates_example : All (λ a. creates_nothing a ≡ true) batch
verify_batch-creates_example =
    verify_batch-creates memory (as_byte (some [])) (as_byte (some tt)) (ok (text "key")) one_byte
      batch chain batch_accepted

verify_batch-IsChronological_example : (3 ≤ 256) × IsChronological (events_to (text "o") batch)
verify_batch-IsChronological_example =
    verify_batch-IsChronological memory (as_byte (some [])) (as_byte (some tt)) (ok (text "key"))
      one_byte batch chain (text "o") batch_accepted

verify_batch-IsDistinct_example : IsDistinct (attestation_ids one_byte batch)
verify_batch-IsDistinct_example =
    verify_batch-IsDistinct memory (as_byte (some [])) (as_byte (some tt)) (ok (text "key"))
      one_byte batch chain batch_accepted
