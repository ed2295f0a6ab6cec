-- ===== src/Storage/Coordinated/Tasks.antt =====
-- storage/storage.go: what queued events and updated tasks leave in the chain's state.
use aristo.Prelude.{
  ℕ, ◌≡◌, refl, ap, List, false, Bytes, same, is_empty, Option, none, some, Result, Option-cases,
  inl, inr,
}
use aristo.Prelude.Preserves.{Preserves, preserves_rules}
use aristo.Storage.State.{Mutable, IsMutable}
use aristo.Storage.Balance.Frame.{Reads}
use aristo.Storage.Codec.{Codec}
use aristo.Storage.Keys.{make_key, make_event_key, event_key}
use aristo.Storage.Objects.{QueuedEvent, get_event, decode_found}
use aristo.Storage.Objects.Frame.{insert_encoded-Reads}
use aristo.Core.Types.{AttestationPair}
use aristo.Storage.Coordinated.{
  TaskState, CoordinationState, queue_event, queue_task, put_task, update_task_state,
  set_coordination_state, coordination_state_key,
}

-- The key of an event of a region starts with another byte than that of one without a region.
event_keys_differ :
    (region timestamp id stamp name : Bytes)
    → is_empty region ≡ false
    → same (make_event_key region timestamp id) (event_key stamp name) ≡ false
unfolding make_event_key make_key event_key same
event_keys_differ region timestamp id stamp name h = rw h refl

coordination_key_differs :
    (stamp name : Bytes) → same coordination_state_key (event_key stamp name) ≡ false
unfolding event_key same
coordination_key_differs stamp name = refl

module _ {S : Type 0} (mu : Mutable S) (laws : IsMutable mu) (states : Codec CoordinationState)
    (j : Bytes) (other : same coordination_state_key j ≡ false) (was : Result Bytes) where
  put_task-Reads :
      (id : Bytes) (task : TaskState) (state : CoordinationState)
      → Preserves (Reads mu j was) (put_task mu states id task state)
  unfolding put_task set_coordination_state
  put_task-Reads id task state = elim (Option-cases state.tasks) [
    | inl e ↦ rw e (search preserves_rules)
    | inr (m, e) ↦ rw e (insert_encoded-Reads mu laws coordination_state_key j other was states _)
  ]

  update_task_state-Reads :
      (id status : Bytes) (workers : List Bytes) (attestations : List (Bytes × Bytes))
      → Preserves (Reads mu j was) (update_task_state mu states id status workers attestations)
  unfolding update_task_state
  update_task_state-Reads id status workers attestations = search (preserves_rules, put_task-Reads)

  queue_task-Reads :
      (rfc3339 time_string : ℕ → Bytes) (id : Bytes) (pair : AttestationPair)
      (coord_state : Option CoordinationState)
      → Preserves (Reads mu j was) (queue_task mu states rfc3339 time_string id pair coord_state)
  unfolding queue_task
  queue_task-Reads rfc3339 time_string id pair none = search preserves_rules
  queue_task-Reads rfc3339 time_string id pair (some state) = search update_task_state-Reads

module _ {S : Type 0} (mu : Mutable S) (laws : IsMutable mu) (states : Codec CoordinationState)
    (events : Codec QueuedEvent) (rfc3339 time_string : ℕ → Bytes) where
  queue_event-Reads :
      (id region stamp name : Bytes) (event : QueuedEvent) (coord_state : Option CoordinationState)
      (was : Result Bytes)
      → is_empty region ≡ false
      → Preserves
          (Reads mu (event_key stamp name) was)
          (queue_event mu states rfc3339 time_string events id event coord_state region)
  unfolding queue_event
  queue_event-Reads id region stamp name event coord_state was h =
      let timestamp = rfc3339 event.attestations.first.timestamp in
      let other = event_keys_differ region timestamp id stamp name h in
      search (
        preserves_rules,
        insert_encoded-Reads mu laws (make_event_key region timestamp id) (event_key stamp name)
            other was events event,
        queue_task-Reads mu laws states (event_key stamp name) (coordination_key_differs stamp name)
            was rfc3339 time_string id event.attestations coord_state,
      )

  -- Queueing an event in a region, whatever comes of it, does not change what is read for any
  -- timestamp and name: an event of a region is not found again.
  pub get_event-queue_event :
      {A : Type 0} (decoder : Codec (Option A)) (id region stamp name : Bytes) (event : QueuedEvent)
      (coord_state : Option CoordinationState) (s : S)
      → is_empty region ≡ false
      → get_event mu decoder stamp name
          (queue_event mu states rfc3339 time_string events id event coord_state region s).1
        ≡ get_event mu decoder stamp name s
  unfolding get_event
  get_event-queue_event decoder id region stamp name event coord_state s h =
      ap (decode_found decoder.unmarshal) (
        (queue_event-Reads id region stamp name event coord_state
            (mu.get_value s (event_key stamp name)) h).step
          s refl)
