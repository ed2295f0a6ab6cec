-- ===== src/Coordination/Tasks.antt =====
-- coordination/coordinator.go: the tasks. Each function is what one critical section does, so that
-- a run of the coordinator is a sequence of them; `submit_task` puts its own together.
pub mod Bounds
pub mod Submission
pub mod Timeouts
pub mod Results
use aristo.Prelude.{
  ℕ, suc, ◌+◌, [], ◌∷◌, ◌++◌, List, Bool, true, false, ◌&&◌, ◌||◌, Bytes, same, Option, none, some,
  Result, ok, err, panic, Act, ◌>>=◌, ◌>>◌, fail, pure, length, ltb, leb, ◌==◌, if◌then◌else◌,
  Error, nil_task, too_many_tasks, submission_cancelled, submission_timed_out, task_not_found,
  task_not_running, worker_timed_out, coordinator_stopped,
}
use aristo.Prelude.Dict
use aristo.Prelude.Dict.{Dict}
use aristo.Coordination.Types.{
  Task, TaskInfo, TaskStatus, pending, running, complete, failed, Worker, WorkerStatus, active,
  idle, failed_status, cleanup_interval,
}
use aristo.Coordination.State.{Coordinator}

abbrev pub is_running : TaskStatus → Bool
is_running running = true
is_running pending = false
is_running complete = false
is_running failed = false

abbrev pub is_finished : TaskStatus → Bool
is_finished complete = true
is_finished failed = true
is_finished pending = false
is_finished running = false

abbrev pub is_active : WorkerStatus → Bool
is_active active = true
is_active idle = false
is_active failed_status = false

-- What the `select` of SubmitTask takes.
pub data Selected : Type 0 where
  sent cancelled timed_out : Selected

abbrev pub pending_info : ℕ → Task → TaskInfo
pending_info now task = record {
  task = task;
  status = pending;
  start_time = now;
  end_time = 0;
  error = none;
  results = [];
}

abbrev pub failed_info : ℕ → Error → TaskInfo → TaskInfo
failed_info now e info = record info { status = failed; error = some e; end_time = now }

-- One entry after another of a `range` over the map.
unfoldable pub update_all : (TaskInfo → TaskInfo) → Dict TaskInfo → Dict TaskInfo
update_all f [] = []
update_all f ((id, info) ∷ m) = (id, f info) ∷ update_all f m

unfoldable pub contains : Bytes → List Bytes → Bool
contains id [] = false
contains id (w ∷ ws) = same w id || contains id ws

unfoldable pub expired : ℕ → ℕ → TaskInfo → Bool
expired now interval info = is_finished info.status && ltb (info.end_time + interval) now

-- One tick of cleanupTasks.
unfoldable pub drop_expired : ℕ → ℕ → Dict TaskInfo → Dict TaskInfo
unfolding expired
drop_expired now interval [] = []
drop_expired now interval ((id, info) ∷ m) =
    let rest = drop_expired now interval m in
    if expired now interval info then rest else (id, info) ∷ rest

unfoldable pub with_result : ℕ → Bytes → TaskInfo → TaskInfo
with_result now result info =
    let results = info.results ++ result ∷ [] in
    if length results == length info.task.worker_ids
    then record info { results = results; status = complete; end_time = now }
    else record info { results = results }

unfoldable pub affected : ℕ → Bytes → TaskInfo → TaskInfo
unfolding contains
affected now worker info =
    if contains worker info.task.worker_ids then failed_info now worker_timed_out info else info

-- The names of the workers that have been silent for too long.
unfoldable pub silent : ℕ → ℕ → Dict Worker → List Bytes
silent now timeout [] = []
silent now timeout ((id, w) ∷ m) =
    let rest = silent now timeout m in
    if is_active w.status && ltb (w.last_active + timeout) now then id ∷ rest else rest

unfoldable pub mark_silent : ℕ → ℕ → Dict Worker → Dict Worker
mark_silent now timeout [] = []
mark_silent now timeout ((id, w) ∷ m) =
    let rest = mark_silent now timeout m in
    if is_active w.status && ltb (w.last_active + timeout) now
    then (id, record w { status = failed_status }) ∷ rest
    else (id, w) ∷ rest

unfoldable pub fail_running : ℕ → TaskInfo → TaskInfo
fail_running now info =
    if is_running info.status then failed_info now coordinator_stopped info else info

module _ {S : Type 0} where
  unfoldable pub reserve : ℕ → Task → Act (Coordinator S) (Unit {0})
  reserve now task c =
      if leb c.config.max_tasks (length c.task_status) then (err too_many_tasks, c) else (
        ok tt,
        record c { task_status = Dict.insert task.id (pending_info now task) c.task_status },
      )

  unfoldable pub withdraw : Task → Coordinator S → Coordinator S
  withdraw task c = record c { task_status = Dict.remove task.id c.task_status }

  -- The queue has a place for `max_tasks` tasks; a send to a full one waits for the timer.
  unfoldable pub enqueue : Selected → Task → Act (Coordinator S) (Unit {0})
  unfolding withdraw
  enqueue sent task c =
      if ltb (length c.queue) c.config.max_tasks
      then (ok tt, record c { queue = c.queue ++ task ∷ [] })
      else (err submission_timed_out, withdraw task c)
  enqueue cancelled task c = (err submission_cancelled, withdraw task c)
  enqueue timed_out task c = (err submission_timed_out, withdraw task c)

  unfoldable pub submit_task : Selected → ℕ → Option Task → Act (Coordinator S) (Unit {0})
  unfolding reserve enqueue
  submit_task selected now none = fail nil_task
  submit_task selected now (some task) = do reserve now task; enqueue selected task

  unfoldable pub mark_running : Option TaskInfo → Bytes → Coordinator S → Coordinator S
  mark_running none id c = c
  mark_running (some info) id c = record c {
    task_status = Dict.insert id (record info { status = running }) c.task_status;
  }

  unfoldable pub begin_on : List Task → Coordinator S → Coordinator S
  unfolding mark_running
  begin_on [] c = c
  begin_on (task ∷ rest) c =
      mark_running (Dict.lookup task.id c.task_status) task.id (record c { queue = rest })

  -- The first half of a round of processTasks: the next task, if it was not withdrawn, runs.
  unfoldable pub begin_task : Coordinator S → Coordinator S
  unfolding begin_on
  begin_task c = begin_on c.queue c

  unfoldable pub ended : Option TaskInfo → ℕ → Bytes → Option Error → Coordinator S → Coordinator S
  ended none now id e c = c
  ended (some info) now id none c = record c {
    task_status = Dict.insert id (record info { status = complete; end_time = now }) c.task_status;
  }
  ended (some info) now id (some e) c = record c {
    task_status = Dict.insert id (failed_info now e info) c.task_status;
  }

  -- The second half: the result of executeTask is written down.
  unfoldable pub end_task : ℕ → Bytes → Option Error → Coordinator S → Coordinator S
  unfolding ended
  end_task now id e c = ended (Dict.lookup id c.task_status) now id e c

  unfoldable pub cleanup_tasks : ℕ → Coordinator S → Coordinator S
  unfolding drop_expired
  cleanup_tasks now c = record c {
    task_status = drop_expired now (cleanup_interval c.config) c.task_status;
  }

  unfoldable pub result_on : Option TaskInfo → ℕ → Bytes → Bytes → Act (Coordinator S) (Unit {0})
  unfolding with_result
  result_on none now id result c = (err task_not_found, c)
  result_on (some info) now id result c =
      if is_running info.status
      then (
        ok tt,
        record c { task_status = Dict.insert id (with_result now result info) c.task_status },
      )
      else (err task_not_running, c)

  unfoldable pub set_task_result : ℕ → Bytes → Bytes → Act (Coordinator S) (Unit {0})
  unfolding result_on
  set_task_result now id result c = result_on (Dict.lookup id c.task_status) now id result c

  unfoldable pub handle_worker_timeout : ℕ → Bytes → Coordinator S → Coordinator S
  unfolding affected update_all
  handle_worker_timeout now worker c = record c {
    task_status = update_all (affected now worker) c.task_status;
  }

  unfoldable pub time_out_all : ℕ → List Bytes → Coordinator S → Coordinator S
  unfolding handle_worker_timeout
  time_out_all now [] c = c
  time_out_all now (id ∷ ids) c = time_out_all now ids (handle_worker_timeout now id c)

  unfoldable pub check_worker_health : ℕ → Coordinator S → Coordinator S
  unfolding silent mark_silent time_out_all
  check_worker_health now c =
      let timeout = c.config.worker_timeout in
      let ids = silent now timeout c.workers in
      time_out_all now ids (record c { workers = mark_silent now timeout c.workers })

  -- The part of Stop that is about tasks.
  unfoldable pub stop_tasks : ℕ → Coordinator S → Coordinator S
  unfolding fail_running update_all
  stop_tasks now c = record c { task_status = update_all (fail_running now) c.task_status }
