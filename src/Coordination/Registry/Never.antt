-- ===== src/Coordination/Registry/Never.antt =====
-- What a coordinator never does: deliver a task, stop a worker, or pair enclaves in a region.
use aristo.Prelude.{
  ◌≡◌, ◌≢◌, refl, sym, [], ◌∷◌, List, Bool, true, false, Bytes, none, some, Result, ok, err, panic,
  Error, lift, gets, reject_if, arith, ℕ, Bool-cases, Result-cases, inl, inr, if◌then◌else◌,
  close_nil, no_tee_pairs, is_empty, length, worker_not_found, ltb, ◌<◌,
}
use mathlib.Core.Path.{subst}
use aristo.Prelude.Dict
use aristo.Prelude.Success.{bind-ok, reject_if-ok}
use aristo.Prelude.Preserves.{Preserves, Preserves-bind, Preserves-lift, Preserves-reject_if}
use aristo.Coordination.Types.{Worker, Message, Task, Config, TeePairInfo}
use aristo.Coordination.State.{Coordinator, new_coordinator}
use aristo.Coordination.Pairs.{select_tee_pair, find_least, pairs_of, max_int32}
use aristo.Coordination.Channel.{send}
use aristo.Coordination.Wrapper.{BaseStorage, Codecs, Region, load_region, save_coordinator_state}
use aristo.Coordination.Registry.Silent.{AreSilent, IsIdle, activated-IsSilent}
use aristo.Coordination.Registry.Idle.{
  on_storage-IsIdle, change-IsIdle, register_worker-IsIdle, unregister_worker-IsIdle,
  get_secure_channel-IsIdle, run_task-IsIdle, run_task-Fails, unregister_found-panics,
}
use aristo.Coordination.Registry.{
  has_key, is_missing, register_worker, unregister_worker, get_secure_channel, no_region,
  register_region, send_through, send_message_to, run_task, handle_task, execute_task, present,
  save_state,
}

-- A storage whose errors are not those of the package that the coordinator imports as `storage`.
pub record IsForeign {S M V : Type 0} (base : BaseStorage S) (codecs : Codecs M V) : Type 0 where
  pub no_region_missing :
      (id : Bytes) (s : S) (e : Error) → load_region base codecs id s ≡ err e → is_missing e ≡ false

pub data Op : Type 0 where
  registers : Bytes → Bytes → ℕ → Op
  unregisters : Bytes → Op
  registers_region : Bytes → Bytes → Bytes → ℕ → Op
  opens_channel : Bytes → Bytes → Op
  sends : Message → Op
  executes : Result (Unit {0}) → Bool → ℕ → Task → Op
  saves : ℕ → Op

module _ {S M V : Type 0} (base : BaseStorage S) (codecs : Codecs M V)
    (foreign : IsForeign base codecs) (random : Bytes → Bytes → Result Bytes)
    (summary : ℕ → ℕ → ℕ → V) where
  unfoldable pub apply : Op → Coordinator S → Coordinator S
  apply (registers id enclave now) c = (register_worker base codecs random id enclave now c).1
  apply (unregisters id) c = (unregister_worker base codecs random id c).1
  apply (registers_region id sgx sev now) c =
      (register_region base codecs random id sgx sev now c).1
  apply (opens_channel a b) c = (get_secure_channel base codecs random a b c).1
  apply (sends msg) c = (send_message_to base codecs random msg c).1
  apply (executes view prefer_done now task) c =
      (execute_task base codecs random view prefer_done now task c).1
  apply (saves now) c = (save_state base codecs random summary now c).1

  unfoldable pub run : Coordinator S → List Op → Coordinator S
  unfolding apply
  run c [] = c
  run c (o ∷ os) = run (apply o c) os

  -- The check for a region that exists already ends every registration.
  no_region-Refuses :
      (id : Bytes) (r : Result Region)
      → ((e : Error) → r ≡ err e → is_missing e ≡ false)
      → (u : Unit {0}) → no_region base codecs random r ≢ ok u
  unfolding no_region
  no_region-Refuses id (ok r) h u k = cc
  no_region-Refuses id (err e) h u k = let f = h e refl in ground arith
  no_region-Refuses id (panic x) h u k = cc

  -- Over a storage that does not return go-ethereum's error for a missing region, registering a
  -- region never succeeds, whatever the region, its workers and the coordinator.
  pub register_region-Fails :
      (id sgx sev : Bytes) (now : ℕ) (c : Coordinator S) (u : Unit {0})
      → (register_region base codecs random id sgx sev now c).0 ≢ ok u
  unfolding register_region
  register_region-Fails id sgx sev now c u k =
      let (named, k1) = reject_if-ok (is_empty id) _ _ c u k in
      let (v, (absent, k2)) =
        bind-ok (gets (λ c. no_region base codecs random (load_region base codecs id c.store))) _ c
          u k1 in
      no_region-Refuses id (load_region base codecs id c.store)
        (foreign.no_region_missing id c.store) v absent

  register_region-keeps :
      (id sgx sev : Bytes) (now : ℕ) (c : Coordinator S)
      → (register_region base codecs random id sgx sev now c).1 ≡ c
  unfolding register_region
  register_region-keeps id sgx sev now c = elim (Bool-cases (is_empty id)) [
    | inl e ↦ rw e refl
    | inr e ↦
        rw e
          (elim (Result-cases (no_region base codecs random (load_region base codecs id c.store))) [
            | inl (u, f) ↦ absurd (
                no_region-Refuses id (load_region base codecs id c.store)
                  (foreign.no_region_missing id c.store) u f)
            | inr (inl (x, f)) ↦ rw f refl
            | inr (inr (x, f)) ↦ rw f refl
          ])
  ]

  register_region-IsIdle :
      (id sgx sev : Bytes) (now : ℕ)
      → Preserves IsIdle (register_region base codecs random id sgx sev now)
  register_region-IsIdle id sgx sev now = record {
    step = λ c h. subst IsIdle (sym (register_region-keeps id sgx sev now c)) h;
  }

  send_through-IsIdle :
      (msg : Message) (from_exists to_exists : Bool)
      → Preserves IsIdle (send_through base codecs random msg from_exists to_exists)
  unfolding send_through
  send_through-IsIdle msg from_exists to_exists =
      Preserves-bind (reject_if (if from_exists then false else true) worker_not_found) _
        (Preserves-reject_if (if from_exists then false else true) worker_not_found)
        λ u.
          Preserves-bind (reject_if (if to_exists then false else true) worker_not_found) _
            (Preserves-reject_if (if to_exists then false else true) worker_not_found)
            λ v.
              Preserves-bind _ _ (get_secure_channel-IsIdle base codecs random msg.from msg.to)
                λ channel.
                  Preserves-bind (lift (send msg.payload channel).0) _
                    (Preserves-lift (send msg.payload channel).0)
                    λ w.
                      Preserves-bind _ _
                        (change-IsIdle base codecs random _ msg.from activated-IsSilent)
                        λ x. change-IsIdle base codecs random _ msg.to activated-IsSilent

  send_message_to-IsIdle :
      (msg : Message) → Preserves IsIdle (send_message_to base codecs random msg)
  unfolding send_message_to
  send_message_to-IsIdle msg = record {
    step = λ c h.
        (send_through-IsIdle msg (has_key msg.from c.workers) (has_key msg.to c.workers)).step c h;
  }

  handle_task-IsIdle :
      (view : Result (Unit {0})) (prefer_done : Bool) (task : Task)
      → Preserves IsIdle (handle_task base codecs random view prefer_done task)
  unfolding handle_task
  handle_task-IsIdle view prefer_done task = record {
    step = λ c h.
        elim (Bool-cases (ltb (length (present task.worker_ids c.workers)) c.config.min_workers)) [
          | inl e ↦ rw e h
          | inr e ↦ rw e (
              (run_task-IsIdle base codecs random view prefer_done task
                  (present task.worker_ids c.workers)).step
                c h)
        ];
  }

  find_least-unpaired :
      (region : Bytes) (m : Dict.Dict (List TeePairInfo))
      → m ≡ []
      → find_least max_int32 none 0 (pairs_of region m) ≡ none
  unfolding find_least pairs_of Dict.lookup
  find_least-unpaired region m e =
      subst (λ t. find_least max_int32 none 0 (pairs_of region t) ≡ none) (sym e) refl

  select_tee_pair-unpaired :
      (now : ℕ) (region : Bytes) (c : Coordinator S)
      → c.tee_pairs ≡ []
      → select_tee_pair now region c ≡ (err no_tee_pairs, c)
  unfolding select_tee_pair
  select_tee_pair-unpaired now region c e =
      rw (find_least-unpaired region c.tee_pairs e, select_tee_pair) refl

  execute_task-IsIdle :
      (view : Result (Unit {0})) (prefer_done : Bool) (now : ℕ) (task : Task)
      → Preserves IsIdle (execute_task base codecs random view prefer_done now task)
  unfolding execute_task
  execute_task-IsIdle view prefer_done now task = record {
    step = λ c h. elim (Bool-cases (is_empty task.region_id)) [
      | inl e ↦ rw e ((handle_task-IsIdle view prefer_done task).step c h)
      | inr e ↦ rw (e, select_tee_pair-unpaired now task.region_id c h.unpaired) h
    ];
  }

  save_state-IsIdle : (now : ℕ) → Preserves IsIdle (save_state base codecs random summary now)
  unfolding save_state
  save_state-IsIdle now = record {
    step = λ c h.
        (on_storage-IsIdle base codecs random (
            save_coordinator_state base codecs
              (summary (length c.workers) (length c.task_status) now))).step
          c h;
  }

  apply-IsIdle : (o : Op) (c : Coordinator S) → IsIdle c → IsIdle (apply o c)
  unfolding apply
  apply-IsIdle (registers id enclave now) c h =
      (register_worker-IsIdle base codecs random id enclave now).step c h
  apply-IsIdle (unregisters id) c h = (unregister_worker-IsIdle base codecs random id).step c h
  apply-IsIdle (registers_region id sgx sev now) c h =
      (register_region-IsIdle id sgx sev now).step c h
  apply-IsIdle (opens_channel a b) c h = (get_secure_channel-IsIdle base codecs random a b).step c h
  apply-IsIdle (sends msg) c h = (send_message_to-IsIdle msg).step c h
  apply-IsIdle (executes view prefer_done now task) c h =
      (execute_task-IsIdle view prefer_done now task).step c h
  apply-IsIdle (saves now) c h = (save_state-IsIdle now).step c h

  run-IsIdle : (os : List Op) (c : Coordinator S) → IsIdle c → IsIdle (run c os)
  unfolding run
  run-IsIdle [] c h = h
  run-IsIdle (o ∷ os) c h = run-IsIdle os (apply o c) (apply-IsIdle o c h)

  new_coordinator-IsIdle :
      (config : Config) (s : S) → 0 < config.min_workers → IsIdle (new_coordinator config s)
  unfolding new_coordinator AreSilent Dict.lookup
  new_coordinator-IsIdle config s h = record { silent = λ id w e. cc; unpaired = refl; staffed = h }

  run_task-present :
      (view : Result (Unit {0})) (prefer_done : Bool) (task : Task) (ids : List Bytes)
      (c : Coordinator S) (u : Unit {0})
      → IsIdle c
      → 0 < length ids
      → (run_task base codecs random view prefer_done task ids c).0 ≢ ok u
  run_task-present view prefer_done task [] c u h some_present = absurd (omega arith)
  run_task-present view prefer_done task (id ∷ ids) c u h some_present =
      run_task-Fails base codecs random view prefer_done task id ids c u h

  handle_task-Fails :
      (view : Result (Unit {0})) (prefer_done : Bool) (task : Task) (c : Coordinator S)
      (u : Unit {0})
      → IsIdle c
      → (handle_task base codecs random view prefer_done task c).0 ≢ ok u
  unfolding handle_task
  handle_task-Fails view prefer_done task c u h =
      let ids : List Bytes = present task.worker_ids c.workers in
      elim (Bool-cases (ltb (length ids) c.config.min_workers)) [
        | inl e ↦ rw e (λ k. cc)
        | inr e ↦
            rw e (run_task-present view prefer_done task ids c u h (ground (arith, h.staffed)))
      ]

  execute_task-Fails :
      (view : Result (Unit {0})) (prefer_done : Bool) (now : ℕ) (task : Task) (c : Coordinator S)
      (u : Unit {0})
      → IsIdle c
      → (execute_task base codecs random view prefer_done now task c).0 ≢ ok u
  unfolding execute_task
  execute_task-Fails view prefer_done now task c u h = elim (Bool-cases (is_empty task.region_id)) [
    | inl e ↦ rw e (handle_task-Fails view prefer_done task c u h)
    | inr e ↦ rw (e, select_tee_pair-unpaired now task.region_id c h.unpaired) (λ k. cc)
  ]

  -- Over such a storage, after any registrations, removals, channels, messages, executions and
  -- saves on a new coordinator that wants at least one worker for a task, no execution of a task
  -- succeeds.
  pub execute_task-run :
      (config : Config) (s : S) (os : List Op) (view : Result (Unit {0})) (prefer_done : Bool)
      (now : ℕ) (task : Task) (u : Unit {0})
      → 0 < config.min_workers
      → (execute_task base codecs random view prefer_done now task
          (run (new_coordinator config s) os)).0
        ≢ ok u
  execute_task-run config s os view prefer_done now task u h =
      execute_task-Fails view prefer_done now task (run (new_coordinator config s) os) u
        (run-IsIdle os (new_coordinator config s) (new_coordinator-IsIdle config s h))

  unregister_found-run :
      (id : Bytes) (w : Worker) (c : Coordinator S)
      → IsIdle c
      → Dict.lookup id c.workers ≡ some w
      → (unregister_worker base codecs random id c).0 ≡ panic close_nil
  unfolding unregister_worker AreSilent
  unregister_found-run id w c h e =
      rw e (unregister_found-panics base codecs random id w c (h.silent id w e))

  -- Over such a storage, after any such calls on a new coordinator that wants at least one
  -- worker for a task, removing a worker that is registered panics on a channel that is nil.
  pub unregister_worker-run :
      (config : Config) (s : S) (os : List Op) (id : Bytes) (w : Worker)
      → 0 < config.min_workers
      → Dict.lookup id (run (new_coordinator config s) os).workers ≡ some w
      → (unregister_worker base codecs random id (run (new_coordinator config s) os)).0
        ≡ panic close_nil
  unregister_worker-run config s os id w h e =
      unregister_found-run id w (run (new_coordinator config s) os)
        (run-IsIdle os (new_coordinator config s) (new_coordinator-IsIdle config s h)) e
