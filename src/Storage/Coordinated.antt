-- ===== src/Storage/Coordinated.antt =====
-- storage/storage.go: the coordination state under its one key, and the writes of objects and events
-- that update it. `rfc3339` and `time_string` are the two ways in which a time is printed.
pub mod Tasks
use aristo.Prelude.{
  ℕ, [], ◌∷◌, ◌++◌, List, Bool, Bytes, text, Option, none, some, Result, ok, err, panic, Act, pure,
  gets, lift, crash, ◌>>=◌, ◌>>◌, length, ltb, ◌||◌, ◌==◌, if◌then◌else◌, nil_map,
  invalid_coordination,
}
use aristo.Prelude.Dict
use aristo.Prelude.Dict.{Dict}
use aristo.Storage.State.{Mutable, is_db_not_found}
use aristo.Storage.Codec.{Codec, ObjectMap}
use aristo.Storage.Keys.{coord_prefix, make_object_key, make_event_key}
use aristo.Storage.Objects.{QueuedEvent, insert_encoded}
use aristo.Core.Types.{AttestationPair}

pub record TaskState : Type 0 where
  pub status : Bytes
  pub workers : List Bytes
  pub attestations : List (Bytes × Bytes)
  pub timestamp : Bytes

-- `tasks` is `none` where the map is nil.
pub record CoordinationState : Type 0 where
  pub workers : List Bytes
  pub regions : List Bytes
  pub tasks : Option (Dict TaskState)

abbrev pub coordination_state_key : Bytes
coordination_state_key = coord_prefix ∷ []

-- string(timestampKey)
abbrev pub timestamp_key_text : Bytes
timestamp_key_text = 2 ∷ []

abbrev pub empty_coordination : CoordinationState
empty_coordination = record { workers = []; regions = []; tasks = some [] }

unfoldable pub decode_coordination :
    (Bytes → Result CoordinationState) → Result Bytes → Result CoordinationState
unfolding is_db_not_found
decode_coordination unmarshal (ok v) = unmarshal v
decode_coordination unmarshal (err e) = if is_db_not_found e then ok empty_coordination else err e
decode_coordination unmarshal (panic c) = panic c

-- A task is complete in itself: two workers and an attestation.
unfoldable pub task_lacks : TaskState → Bool
task_lacks task = ltb (length task.workers) 2 || length task.attestations == 0

unfoldable pub validate_tasks : Dict TaskState → Result (Unit {0})
unfolding task_lacks
validate_tasks [] = ok tt
validate_tasks ((id, task) ∷ m) =
    let rest = validate_tasks m in if task_lacks task then err invalid_coordination else rest

-- A nil map has no entries.
abbrev pub tasks_of : CoordinationState → Dict TaskState
tasks_of state = elim state.tasks [ none ↦ [] | some m ↦ m ]

unfoldable pub validate_coordination_state : Option CoordinationState → Result (Unit {0})
unfolding validate_tasks
validate_coordination_state none = err invalid_coordination
validate_coordination_state (some state) =
    if ltb (length state.workers) 2
    then err invalid_coordination
    else validate_tasks (tasks_of state)

module _ {S : Type 0} (mu : Mutable S) (states : Codec CoordinationState) where
  unfoldable pub get_coordination_state : S → Result CoordinationState
  unfolding decode_coordination
  get_coordination_state s =
      decode_coordination states.unmarshal (mu.get_value s coordination_state_key)

  unfoldable pub set_coordination_state : CoordinationState → Act S (Unit {0})
  unfolding insert_encoded
  set_coordination_state state = insert_encoded mu states coordination_state_key state

  -- An assignment to a nil map panics.
  unfoldable pub put_task : Bytes → TaskState → CoordinationState → Act S (Unit {0})
  unfolding set_coordination_state
  put_task id task state = elim state.tasks [
    | none ↦ crash nil_map
    | some m ↦ set_coordination_state (record state { tasks = some (Dict.insert id task m) })
  ]

  unfoldable pub update_task_state :
      Bytes → Bytes → List Bytes → List (Bytes × Bytes) → Act S (Unit {0})
  unfolding get_coordination_state put_task
  update_task_state id status workers attestations = do
    state ← gets get_coordination_state
    let task : TaskState = record {
      status = status;
      workers = workers;
      attestations = attestations;
      timestamp = timestamp_key_text;
    }
    put_task id task state

  -- if coordState != nil
  unfoldable pub set_given : Option CoordinationState → Act S (Unit {0})
  unfolding set_coordination_state
  set_given none = pure tt
  set_given (some state) = set_coordination_state state

  unfoldable pub set_object :
      Codec ObjectMap → Bytes → ObjectMap → Option CoordinationState → Bytes → Act S (Unit {0})
  unfolding insert_encoded set_given
  set_object objects id obj coord_state region = do
    insert_encoded mu objects (make_object_key region id) obj
    set_given coord_state

  module _ (rfc3339 time_string : ℕ → Bytes) where
    unfoldable pub event_task_id : Bytes → AttestationPair → Bytes
    event_task_id id pair = text "event:" ++ (id ++ text ":" ++ time_string pair.first.timestamp)

    -- The state that is given only says that there is one: the stored one is read again.
    unfoldable pub queue_task :
        Bytes → AttestationPair → Option CoordinationState → Act S (Unit {0})
    unfolding event_task_id update_task_state
    queue_task id pair none = pure tt
    queue_task id pair (some state) =
        let sgx = pair.first.enclave_id in
        let sev = pair.second.enclave_id in
        update_task_state (event_task_id id pair) (text "pending") (sgx ∷ sev ∷ [])
          ((sgx, sev) ∷ [])

    unfoldable pub queue_event :
        Codec QueuedEvent
        → Bytes
        → QueuedEvent
        → Option CoordinationState
        → Bytes
        → Act S (Unit {0})
    unfolding insert_encoded queue_task
    queue_event events id event coord_state region = do
      let timestamp = rfc3339 event.attestations.first.timestamp
      insert_encoded mu events (make_event_key region timestamp id) event
      queue_task id event.attestations coord_state
