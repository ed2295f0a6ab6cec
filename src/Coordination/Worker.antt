-- ===== src/Coordination/Worker.antt =====
-- coordination/worker.go: one worker's life and messages.
pub mod Life
use aristo.Prelude.{
  ℕ, suc, ◌+◌, ◌%◌, [], ◌∷◌, ◌++◌, List, Bool, true, false, not, ◌&&◌, Bytes, same, is_empty,
  Option, none, some, Result, ok, err, panic, Act, pure, length, ltb, ◌==◌, if◌then◌else◌,
  close_nil, close_closed, worker_stopped, message_channel_full, not_for_this_worker,
  unknown_message_type,
}
use aristo.Prelude.Dict
use aristo.Coordination.Types.{
  Worker, WorkerStatus, idle, active, Message, SecureChannel, type_sync, type_data,
  type_attestation, type_verification, type_complete,
}
use aristo.Coordination.Channel.{new_secure_channel, establish_secure, send}
use aristo.Storage.Words.{u64_mod}

unfoldable pub new_worker : Bytes → Bytes → Bytes → ℕ → Worker
new_worker id enclave_id worker_type now = record {
  id = id;
  enclave_id = enclave_id;
  status = idle;
  worker_type = worker_type;
  region_id = [];
  channels = [];
  last_active = now;
  task_count = 0;
  success_count = 0;
  error_count = 0;
  msg_ch = some [];
  done_ch = some false;
}

-- The counters of UpdateMetrics; the load factor is (task_count - success_count) / task_count.
unfoldable pub update_metrics : Bool → ℕ → Worker → Worker
update_metrics success now w = record w {
  task_count = (w.task_count + 1) % u64_mod;
  success_count = if success then (w.success_count + 1) % u64_mod else w.success_count;
  error_count = if success then w.error_count else (w.error_count + 1) % u64_mod;
  last_active = now;
}

unfoldable pub assign_to_region : Bytes → ℕ → Worker → Worker
assign_to_region region now w = record w { region_id = region; status = active; last_active = now }

unfoldable pub unassign_from_region : Worker → Worker
unassign_from_region w = record w { region_id = []; status = idle }

unfoldable pub start : ℕ → Act Worker (Unit {0})
start now w = (ok tt, record w { status = active; last_active = now })

-- Closes the stop signal: of a nil or a closed channel that is a panic.
unfoldable pub stop : Act Worker (Unit {0})
stop w = elim w.done_ch [
  | none ↦ (panic close_nil, record w { status = idle })
  | some closed ↦
      if closed
      then (panic close_closed, record w { status = idle })
      else (ok tt, record w { status = idle; done_ch = some true; region_id = [] })
]

unfoldable pub has_room : Option (List Message) → Bool
has_room none = false
has_room (some queue) = ltb (length queue) 100

abbrev pub is_closed : Option Bool → Bool
is_closed none = false
is_closed (some closed) = closed

abbrev pub enqueued : Message → Option (List Message) → Option (List Message)
enqueued msg none = none
enqueued msg (some queue) = some (queue ++ msg ∷ [])

-- Where both the queue has room and the signal is closed, `select` takes either: `prefer_done`.
unfoldable pub send_message : Bool → Message → Act Worker (Unit {0})
unfolding has_room
send_message prefer_done msg w =
    if has_room w.msg_ch && not (is_closed w.done_ch && prefer_done)
    then (ok tt, record w { msg_ch = enqueued msg w.msg_ch })
    else if is_closed w.done_ch
    then (err worker_stopped, w)
    else (err message_channel_full, w)

-- GetChannel and `Send` on the channel that it returns.
unfoldable pub reply : Result Bytes → Bytes → Act Worker (Unit {0})
unfolding new_secure_channel establish_secure
reply random other w = elim (Dict.lookup other w.channels) [
  | some c ↦ let (r, c') = send [] c in (r, record w { channels = Dict.insert other c' w.channels })
  | none ↦ elim (establish_secure random (new_secure_channel w.id other)) [
    | ok c ↦ let (r, c') = send [] c in (r, record w { channels = Dict.insert other c' w.channels })
    | err e ↦ (err e, w)
    | panic x ↦ (panic x, w)
  ]
]

unfoldable pub handle_message : Result Bytes → ℕ → Message → Act Worker (Unit {0})
unfolding reply
handle_message random now msg w =
    let w' : Worker = record w { last_active = now } in
    if same msg.to w.id
    then (if msg.type == type_sync
        then reply random msg.from w'
        else if msg.type == type_data
        then reply random msg.from w'
        else if msg.type == type_complete
        then (ok tt, w')
        else if msg.type == type_attestation
        then (ok tt, w')
        else if msg.type == type_verification
        then (ok tt, w')
        else (err unknown_message_type, w'))
    else (err not_for_this_worker, w')
