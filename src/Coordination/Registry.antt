-- ===== src/Coordination/Registry.antt =====
-- coordination/coordinator.go: workers, regions and channels, which the coordinator keeps through the
-- storage wrapper, and the distribution of a task. A worker is kept under its own id. `random` is what
-- crypto/rand returns for the channel of two workers, and `view` what NewView of the database returns.
pub mod Silent
pub mod Idle
pub mod Never
use aristo.Prelude.{
  ℕ, zero, suc, ◌+◌, ◌%◌, [], ◌∷◌, ◌++◌, List, Bool, true, false, Bytes, text, same, is_empty,
  Option, none, some, Result, ok, err, panic, Act, Error, pure, fail, crash, lift, gets, continue,
  ◌>>=◌, ◌>>◌, length, ltb, ◌==◌, reject_if, if◌then◌else◌, worker_exists, worker_not_found,
  region_exists, invalid_region, geth_not_found, not_enough_workers, self_deadlock, map,
}
use aristo.Prelude.Dict
use aristo.Prelude.Dict.{Dict}
use aristo.Coordination.Types.{
  Worker, WorkerStatus, idle, active, Message, SecureChannel, Task, TaskStatus, TaskInfo,
  TeePairInfo, type_data,
}
use aristo.Coordination.State.{Coordinator}
use aristo.Coordination.Channel.{new_secure_channel, establish_secure, send}
use aristo.Coordination.Worker.{start, stop, send_message}
use aristo.Coordination.Pairs.{pairs_of, select_tee_pair, release_tee_pair}
use aristo.Coordination.Wrapper.{
  BaseStorage, Codecs, Region, save_worker, delete_worker, load_channel, save_channel, load_region,
  save_region, save_coordinator_state, load_coordinator_state,
}

abbrev pub has_key : {V : Type 0} → Bytes → Dict V → Bool
has_key id m = elim (Dict.lookup id m) [ none ↦ false | some v ↦ true ]

-- The literal of RegisterWorker, whose queue and stop signal are nil.
unfoldable pub registered : Bytes → Bytes → ℕ → Worker
registered id enclave_id now = record {
  id = id;
  enclave_id = enclave_id;
  status = idle;
  worker_type = [];
  region_id = [];
  channels = [];
  last_active = now;
  task_count = 0;
  success_count = 0;
  error_count = 0;
  msg_ch = none;
  done_ch = none;
}

unfoldable pub is_missing : Error → Bool
is_missing geth_not_found = true
is_missing e = false

-- The workers that exist among those named, by their names.
unfoldable pub present : List Bytes → Dict Worker → List Bytes
present [] ws = []
present (id ∷ ids) ws = let rest = present ids ws in if has_key id ws then id ∷ rest else rest

unfoldable pub put_changed : (Worker → Worker) → Bytes → Option Worker → Dict Worker → Dict Worker
put_changed f id none ws = ws
put_changed f id (some w) ws = Dict.insert id (f w) ws

-- A worker changes behind its pointer.
unfoldable pub change_worker : (Worker → Worker) → Bytes → Dict Worker → Dict Worker
unfolding put_changed
change_worker f id ws = put_changed f id (Dict.lookup id ws) ws

unfoldable pub with_channel : Bytes → SecureChannel → Worker → Worker
with_channel other c w = record w { channels = Dict.insert other c w.channels }

unfoldable pub activated : Worker → Worker
activated w = record w { status = active }

unfoldable pub pair_info : ℕ → Bytes → Bytes → SecureChannel → TeePairInfo
pair_info now sgx sev channel = record {
  id = sgx ++ text "-" ++ sev;
  sgx_worker = sgx;
  sev_worker = sev;
  channel = some channel;
  task_count = 0;
  last_used = now;
}

unfoldable pub get_worker_ids : {S : Type 0} → Coordinator S → List Bytes
get_worker_ids c = map (λ entry. entry.0) c.workers

unfoldable pub workers_at : ℕ → List TeePairInfo → List Bytes
workers_at i [] = []
workers_at zero (p ∷ ps) = p.sgx_worker ∷ p.sev_worker ∷ []
workers_at (suc i) (p ∷ ps) = workers_at i ps

unfoldable pub task_message : Task → Message
task_message task = record { type = type_data; from = []; to = []; payload = task.payload }

module _ {S M V : Type 0} (base : BaseStorage S) (codecs : Codecs M V)
    (random : Bytes → Bytes → Result Bytes) where
  unfoldable pub on_storage : {A : Type 0} → Act S A → Act (Coordinator S) A
  on_storage m c = let (r, s) = m c.store in (r, record c { store = s })

  unfoldable pub set_workers : (Dict Worker → Dict Worker) → Act (Coordinator S) (Unit {0})
  set_workers f c = (ok tt, record c { workers = f c.workers })

  -- Start of a new worker, which always succeeds.
  unfoldable pub started : ℕ → Worker → Worker
  unfolding start
  started now w = (start now w).1

  unfoldable pub register_worker : Bytes → Bytes → ℕ → Act (Coordinator S) (Unit {0})
  unfolding registered on_storage save_worker started set_workers
  register_worker id enclave_id now c =
      if has_key id c.workers
      then (err worker_exists, c)
      else (do
        on_storage (save_worker base codecs (registered id enclave_id now))
        set_workers (Dict.insert id (started now (registered id enclave_id now))))
          c

  -- The worker is a pointer: what Stop changed stays changed when it or the storage fails.
  unfoldable pub unregister_found : Bytes → Option Worker → Act (Coordinator S) (Unit {0})
  unfolding stop on_storage delete_worker set_workers
  unregister_found id none = fail worker_not_found
  unregister_found id (some w) = do
    set_workers (Dict.insert id (stop w).1)
    lift (stop w).0
    on_storage (delete_worker base codecs id)
    set_workers (Dict.remove id)

  unfoldable pub unregister_worker : Bytes → Act (Coordinator S) (Unit {0})
  unfolding unregister_found
  unregister_worker id c = unregister_found id (Dict.lookup id c.workers) c

  -- It calls RegisterWorker, which waits for the lock that it holds.
  unfoldable pub register_tee_pair : Bytes → Bytes → Bytes → Act (Coordinator S) (Unit {0})
  register_tee_pair region sgx sev = crash self_deadlock

  unfoldable pub established : Result SecureChannel → Act (Coordinator S) SecureChannel
  unfolding on_storage save_channel
  established (ok c) = on_storage (save_channel base codecs c) >> pure c
  established (err e) = fail e
  established (panic x) = crash x

  unfoldable pub channel_or_new :
      Bytes → Bytes → Result SecureChannel → Act (Coordinator S) SecureChannel
  unfolding is_missing established new_secure_channel establish_secure
  channel_or_new worker1 worker2 (ok c) = pure c
  channel_or_new worker1 worker2 (err e) =
      if is_missing e
      then established
          (establish_secure (random worker1 worker2) (new_secure_channel worker1 worker2))
      else fail e
  channel_or_new worker1 worker2 (panic x) = crash x

  unfoldable pub get_secure_channel : Bytes → Bytes → Act (Coordinator S) SecureChannel
  unfolding load_channel channel_or_new
  get_secure_channel worker1 worker2 c =
      channel_or_new worker1 worker2 (load_channel base codecs worker1 worker2 c.store) c

  -- Whether the region is stored: a region that is missing is told by geth's error.
  unfoldable pub no_region : Result Region → Result (Unit {0})
  unfolding is_missing
  no_region (ok r) = err region_exists
  no_region (err e) = if is_missing e then ok tt else err e
  no_region (panic x) = panic x

  unfoldable pub add_pair : Bytes → TeePairInfo → Act (Coordinator S) (Unit {0})
  unfolding pairs_of
  add_pair region info c = (
    ok tt,
    record c {
      tee_pairs = Dict.insert region (pairs_of region c.tee_pairs ++ info ∷ []) c.tee_pairs;
    },
  )

  unfoldable pub register_region : Bytes → Bytes → Bytes → ℕ → Act (Coordinator S) (Unit {0})
  unfolding no_region load_region on_storage save_region get_secure_channel add_pair pair_info
  register_region id sgx sev now = do
    reject_if (is_empty id) invalid_region
    gets (λ c. no_region (load_region base codecs id c.store))
    exists_sgx ← gets (λ c. ok (has_key sgx c.workers))
    reject_if (if exists_sgx then false else true) worker_not_found
    exists_sev ← gets (λ c. ok (has_key sev c.workers))
    reject_if (if exists_sev then false else true) worker_not_found
    on_storage
        (save_region base codecs (record { id = id; workers = (sgx, sev); created_at = now }))
    channel ← get_secure_channel sgx sev
    add_pair id (pair_info now sgx sev channel)

  -- The channel is loaded or made for this call, and nobody else holds it.
  unfoldable pub send_through : Message → Bool → Bool → Act (Coordinator S) (Unit {0})
  unfolding get_secure_channel set_workers change_worker activated send
  send_through msg from_exists to_exists = do
    reject_if (if from_exists then false else true) worker_not_found
    reject_if (if to_exists then false else true) worker_not_found
    channel ← get_secure_channel msg.from msg.to
    lift (send msg.payload channel).0
    set_workers (change_worker activated msg.from)
    set_workers (change_worker activated msg.to)

  unfoldable pub send_message_to : Message → Act (Coordinator S) (Unit {0})
  unfolding send_through
  send_message_to msg c = send_through msg (has_key msg.from c.workers) (has_key msg.to c.workers) c

  -- The channels between one worker and those after it.
  unfoldable pub connect_to : Bytes → List Bytes → Act (Coordinator S) (Unit {0})
  unfolding get_secure_channel set_workers change_worker with_channel
  connect_to id [] = pure tt
  connect_to id (other ∷ others) = do
    channel ← get_secure_channel id other
    set_workers (change_worker (with_channel other channel) id)
    set_workers (change_worker (with_channel id channel) other)
    connect_to id others

  unfoldable pub connect : List Bytes → Act (Coordinator S) (Unit {0})
  unfolding connect_to
  connect [] = pure tt
  connect (id ∷ ids) = connect_to id ids >> connect ids

  unfoldable pub deliver_to :
      Bool → Message → Bytes → Option Worker → Act (Coordinator S) (Unit {0})
  unfolding send_message set_workers
  deliver_to prefer_done msg id none = fail worker_not_found
  deliver_to prefer_done msg id (some w) = do
    set_workers (Dict.insert id (send_message prefer_done msg w).1)
    lift (send_message prefer_done msg w).0

  -- A worker's SendMessage; `prefer_done` as in Worker.
  unfoldable pub deliver : Bool → Message → Bytes → Act (Coordinator S) (Unit {0})
  unfolding deliver_to
  deliver prefer_done msg id c = deliver_to prefer_done msg id (Dict.lookup id c.workers) c

  unfoldable pub distribute : Bool → Message → List Bytes → Act (Coordinator S) (Unit {0})
  unfolding deliver
  distribute prefer_done msg [] = pure tt
  distribute prefer_done msg (id ∷ ids) =
      deliver prefer_done msg id >> distribute prefer_done msg ids

  unfoldable pub run_task :
      Result (Unit {0}) → Bool → Task → List Bytes → Act (Coordinator S) (Unit {0})
  unfolding connect distribute task_message
  run_task view prefer_done task ids = do
    lift view
    connect ids
    distribute prefer_done (task_message task) ids

  unfoldable pub handle_task : Result (Unit {0}) → Bool → Task → Act (Coordinator S) (Unit {0})
  unfolding present run_task
  handle_task view prefer_done task c =
      let ids = present task.worker_ids c.workers in
      if ltb (length ids) c.config.min_workers
      then (err not_enough_workers, c)
      else run_task view prefer_done task ids c

  -- The pair's workers take the task, and the pair is released whatever comes of it.
  unfoldable pub on_selected :
      Result (Unit {0}) → Bool → ℕ → Task → ℕ → Act (Coordinator S) (Unit {0})
  unfolding handle_task release_tee_pair workers_at pairs_of
  on_selected view prefer_done now task i c =
      let ids = workers_at i (pairs_of task.region_id c.tee_pairs) in
      let (r, d) = handle_task view prefer_done (record task { worker_ids = ids }) c in
      (r, release_tee_pair now task.region_id i d)

  unfoldable pub execute_task : Result (Unit {0}) → Bool → ℕ → Task → Act (Coordinator S) (Unit {0})
  unfolding on_selected handle_task select_tee_pair
  execute_task view prefer_done now task =
      if is_empty task.region_id
      then handle_task view prefer_done task
      else select_tee_pair now task.region_id >>= on_selected view prefer_done now task

  -- The state's map is made by `summary` of the two counts and the time.
  unfoldable pub save_state : (ℕ → ℕ → ℕ → V) → ℕ → Act (Coordinator S) (Unit {0})
  unfolding on_storage save_coordinator_state
  save_state summary now c =
      on_storage
        (save_coordinator_state base codecs (summary (length c.workers) (length c.task_status) now))
        c

  -- Workers and pairs are not restored: those parts are left open in the source.
  unfoldable pub restore_state : Act (Coordinator S) (Unit {0})
  unfolding load_coordinator_state
  restore_state = do gets (λ c. load_coordinator_state base codecs c.store); pure tt
