-- ===== src/Coordination/Tasks/Timeouts.antt =====
-- What a tick of the cleanup and the timeout of a worker do to each task.
use aristo.Prelude.{
  ℕ, ◌≡◌, refl, [], ◌∷◌, false, ◌&&◌, ◌+◌, ltb, Bytes, none, some, if◌then◌else◌, arith,
  worker_timed_out,
}
use aristo.Prelude.Dict
use aristo.Prelude.Dict.{Dict}
use aristo.Coordination.Types.{TaskInfo, cleanup_interval}
use aristo.Coordination.State.{Coordinator}
use aristo.Coordination.Tasks.{
  update_all, is_finished, expired, drop_expired, cleanup_tasks, handle_worker_timeout, affected,
  contains, failed_info,
}

lookup-update_all :
    (f : TaskInfo → TaskInfo) (id : Bytes) (m : Dict TaskInfo)
    → Dict.lookup id (update_all f m)
      ≡ elim (Dict.lookup id m) [ none ↦ none | some info ↦ some (f info) ]
unfolding update_all Dict.lookup
lookup-update_all f id [] = refl
lookup-update_all f id ((j, info) ∷ m) = ground (arith, lookup-update_all f id m)

lookup-drop_expired :
    (now interval : ℕ) (id : Bytes) (info : TaskInfo) (m : Dict TaskInfo)
    → Dict.lookup id m ≡ some info
    → expired now interval info ≡ false
    → Dict.lookup id (drop_expired now interval m) ≡ some info
unfolding drop_expired Dict.lookup
lookup-drop_expired now interval id info [] e k = ground arith
lookup-drop_expired now interval id info ((j, w) ∷ m) e k =
    ground (arith, lookup-drop_expired now interval id info m)

drop_expired-recent :
    (now interval : ℕ) (id : Bytes) (info : TaskInfo) (m : Dict TaskInfo)
    → Dict.lookup id (drop_expired now interval m) ≡ some info
    → expired now interval info ≡ false
unfolding drop_expired Dict.lookup
drop_expired-recent now interval id info [] e = ground arith
drop_expired-recent now interval id info ((j, w) ∷ m) e =
    ground (arith, drop_expired-recent now interval id info m)

module _ {S : Type 0} where
  -- A tick of the cleanup keeps every task that is not finished or that ended no longer ago than
  -- the interval.
  pub cleanup_tasks_keeps :
      (now : ℕ) (id : Bytes) (info : TaskInfo) (c : Coordinator S)
      → Dict.lookup id c.task_status ≡ some info
      → (is_finished info.status && ltb (info.end_time + cleanup_interval c.config) now) ≡ false
      → Dict.lookup id (cleanup_tasks now c).task_status ≡ some info
  unfolding cleanup_tasks expired
  cleanup_tasks_keeps now id info c e k =
      lookup-drop_expired now (cleanup_interval c.config) id info c.task_status e k

  -- A task that is found after a tick of the cleanup is not finished, or ended no longer ago
  -- than the interval.
  pub cleanup_tasks_expires :
      (now : ℕ) (id : Bytes) (info : TaskInfo) (c : Coordinator S)
      → Dict.lookup id (cleanup_tasks now c).task_status ≡ some info
      → (is_finished info.status && ltb (info.end_time + cleanup_interval c.config) now) ≡ false
  unfolding cleanup_tasks expired
  cleanup_tasks_expires now id info c e =
      drop_expired-recent now (cleanup_interval c.config) id info c.task_status e

  -- When a worker times out, a task that names the worker is failed now with that error,
  -- whatever its status was, and a task that does not name it is as before.
  pub handle_worker_timeout_exact :
      (now : ℕ) (worker id : Bytes) (info : TaskInfo) (c : Coordinator S)
      → Dict.lookup id c.task_status ≡ some info
      → Dict.lookup id (handle_worker_timeout now worker c).task_status
        ≡ some (
            if contains worker info.task.worker_ids
            then failed_info now worker_timed_out info
            else info)
  unfolding handle_worker_timeout affected
  handle_worker_timeout_exact now worker id info c e =
      ground (arith, lookup-update_all (affected now worker) id c.task_status)
