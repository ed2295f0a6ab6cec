-- ===== src/Actions/Shuttle.antt =====
-- actions/shuttle.go: the actions that create an object, send it an event and make it the input
-- object, over the state manager's interface, which a type assertion asks the
-- state for. `rfc3339` prints a time.
pub mod Guards
use aristo.Prelude.{
  ℕ, zero, suc, ◌+◌, ◌*◌, ◌/◌, [], ◌∷◌, ◌++◌, List, Bool, true, false, not, ◌||◌, Bytes, text, same,
  is_empty, Option, none, some, Result, ok, err, panic, then_try, Act, pure, fail, lift, reject_if,
  ◌>>=◌, ◌>>◌, length, ltb, ◌==◌, if◌then◌else◌, Error, object_exists, object_not_found, invalid_id,
  invalid_function, code_too_large, storage_too_large, region_required, region_not_found,
  region_mismatch, failed_after_retries, wrong_type,
}
use aristo.Core.Types.{TeeAttestation, AttestationPair, ObjectState, Event}
use aristo.Core.StateManager.{StateManager}
use aristo.Actions.Attestations.{verify_attestation_pair, validate_code}

abbrev pub max_code_size : ℕ
max_code_size = 1048576

abbrev pub max_storage_size : ℕ
max_storage_size = 1048576

abbrev pub max_id_length : ℕ
max_id_length = 256

pub record CreateObject : Type 0 where
  pub id : Bytes
  pub code : Bytes
  pub storage : Bytes
  pub region_id : Bytes

pub record SendEvent : Type 0 where
  pub id_to : Bytes
  pub function_call : Bytes
  pub parameters : Bytes
  pub attestations : AttestationPair
  pub region_id : Bytes

pub record SetInputObject : Type 0 where
  pub id : Bytes
  pub region_id : Bytes

pub record CreateObjectResult : Type 0 where
  pub id : Bytes
  pub region_id : Bytes

pub record SendEventResult : Type 0 where
  pub success : Bool
  pub id_to : Bytes
  pub event_id : Bytes
  pub state_hash : Bytes
  pub timestamp : Bytes
  pub region_id : Bytes

pub record SetInputObjectResult : Type 0 where
  pub id : Bytes
  pub success : Bool
  pub region_id : Bytes

-- len(s) == 0 || len(s) > MaxIDLength
unfoldable pub bad_length : Bytes → Bool
bad_length s = is_empty s || ltb max_id_length (length s)

-- time.Unix(timestamp, 0)
abbrev pub unix : ℕ → Option ℕ
unix seconds = some (seconds * 1000000000)

unfoldable pub fresh_object : CreateObject → ℕ → ObjectState
fresh_object c timestamp = record {
  code = c.code;
  storage = c.storage;
  region_id = c.region_id;
  events = [];
  last_updated = unix timestamp;
  status = text "active";
}

unfoldable pub input_object : SetInputObject → ℕ → ObjectState
input_object c timestamp = record {
  code = [];
  storage = [];
  region_id = c.region_id;
  events = [];
  last_updated = unix timestamp;
  status = text "input";
}

abbrev pub is_missing : {A : Type 0} → Option A → Bool
is_missing none = true
is_missing (some a) = false

unfoldable pub create_units : CreateObject → ℕ
create_units c = 1 + (length c.code + length c.storage) / 1024

unfoldable pub send_units : SendEvent → ℕ
send_units c = 1 + length c.parameters / 1024

-- mu.(vm.StateManager), which is `none` where the state is not a state manager.
unfoldable pub asserted :
    {S Region : Type 0} → Option (StateManager S Region) → Result (StateManager S Region)
asserted none = panic wrong_type
asserted (some manager) = ok manager

module _ {S Region : Type 0} (mu : Option (StateManager S Region)) where
  unfoldable pub create_object : CreateObject → ℕ → Act S CreateObjectResult
  unfolding asserted bad_length fresh_object
  create_object c timestamp = do
    reject_if (is_empty c.region_id) region_required
    manager ← lift (asserted mu)
    reject_if (bad_length c.id) invalid_id
    reject_if (ltb max_code_size (length c.code)) code_too_large
    reject_if (ltb max_storage_size (length c.storage)) storage_too_large
    region ← manager.get_region c.region_id
    reject_if (is_missing region) region_not_found
    exists ← manager.object_exists c.id c.region_id
    reject_if exists object_exists
    lift (validate_code c.code)
    manager.set_object c.id (fresh_object c timestamp)
    let result : CreateObjectResult = record { id = c.id; region_id = c.region_id }
    pure result

  -- getObjectState
  unfoldable pub found : Option ObjectState → Act S ObjectState
  found none = fail object_not_found
  found (some obj) = pure obj

  unfoldable pub get_object_state : Bytes → Bytes → Act S ObjectState
  unfolding asserted found
  get_object_state id region = do
    manager ← lift (asserted mu)
    obj ← manager.get_object id region
    found obj

  unfoldable pub set_input_object : SetInputObject → ℕ → Act S SetInputObjectResult
  unfolding asserted bad_length input_object
  set_input_object c timestamp = do
    manager ← lift (asserted mu)
    reject_if (bad_length c.id) invalid_id
    exists ← manager.object_exists c.id c.region_id
    reject_if (not exists) object_not_found
    manager.set_object (text "input:" ++ c.id) (input_object c timestamp)
    let result : SetInputObjectResult = record {
      id = c.id;
      success = true;
      region_id = c.region_id;
    }
    pure result

  module _ (rfc3339 : ℕ → Bytes) where
    unfoldable pub event_id : SendEvent → Bytes
    event_id c = c.id_to ++ text ":" ++ rfc3339 c.attestations.first.timestamp

    unfoldable pub event_of : SendEvent → Event
    event_of c = record {
      function_call = c.function_call;
      parameters = c.parameters;
      attestations = c.attestations;
      timestamp = rfc3339 c.attestations.first.timestamp;
      status = text "pending";
    }

    unfoldable pub with_event : Bytes → ℕ → ObjectState → ObjectState
    with_event id timestamp obj = record obj {
      events = obj.events ++ id ∷ [];
      last_updated = unix timestamp;
    }

    unfoldable pub send_event : SendEvent → ℕ → Act S SendEventResult
    unfolding asserted found bad_length event_id event_of with_event
    send_event c timestamp = do
      reject_if (is_empty c.region_id) region_required
      manager ← lift (asserted mu)
      stored ← manager.get_object c.id_to c.region_id
      obj ← found stored
      reject_if (bad_length c.function_call) invalid_function
      reject_if (ltb max_storage_size (length c.parameters)) storage_too_large
      reject_if (not (same obj.region_id c.region_id)) region_mismatch
      lift (verify_attestation_pair c.attestations)
      manager.set_event (event_id c) (event_of c) c.region_id
      manager.set_object c.id_to (with_event (event_id c) timestamp obj)
      let result : SendEventResult = record {
        success = true;
        id_to = c.id_to;
        event_id = event_id c;
        state_hash = c.attestations.first.payload;
        timestamp = rfc3339 c.attestations.first.timestamp;
        region_id = c.region_id;
      }
      pure result

-- submitTask: `submit` is one call of the coordinator.
unfoldable pub submit_task : {S : Type 0} → Act S (Unit {0}) → ℕ → Act S (Unit {0})
submit_task submit zero s = (err failed_after_retries, s)
submit_task submit (suc retries) s =
    let (r, t) = submit s in
    let rest = submit_task submit retries t in
    elim r [ ok u ↦ (ok u, t) | err e ↦ rest | panic c ↦ (panic c, t) ]
