-- ===== src/Coordination/Tasks/Bounds.antt =====
-- However the sections of the coordinator interleave, it holds at most `max_tasks` tasks.
use aristo.Prelude.{
  ℕ, ◌+◌, ◌≤◌, ◌≡◌, refl, [], ◌∷◌, List, Bytes, Option, none, some, length, length-append, arith,
  Error, ltb→lt, leb→le,
}
use aristo.Prelude.Dict
use aristo.Prelude.Dict.{Dict}
use aristo.Coordination.Types.{Task, TaskInfo, running, complete, Config, cleanup_interval}
use aristo.Coordination.State.{Coordinator, new_coordinator}
use aristo.Coordination.Tasks.{
  Selected, sent, cancelled, timed_out, reserve, withdraw, enqueue, mark_running, begin_on,
  begin_task, ended, end_task, cleanup_tasks, drop_expired, set_task_result, result_on,
  handle_worker_timeout, affected, update_all, check_worker_health, silent, mark_silent,
  time_out_all, stop_tasks, pending_info, failed_info, with_result, fail_running,
}

-- One critical section of some goroutine.
pub data Section : Type 0 where
  reserves : ℕ → Task → Section
  enqueues : Selected → Task → Section
  begins : Section
  ends : ℕ → Bytes → Option Error → Section
  cleans : ℕ → Section
  reports : ℕ → Bytes → Bytes → Section
  checks : ℕ → Section
  stops : ℕ → Section

pub record IsBounded {S : Type 0} (c : Coordinator S) : Type 0 where
  pub tasks : length c.task_status ≤ c.config.max_tasks
  pub waiting : length c.queue ≤ c.config.max_tasks

length-update_all :
    (f : TaskInfo → TaskInfo) (m : Dict TaskInfo) → length (update_all f m) ≡ length m
unfolding update_all
length-update_all f [] = refl
length-update_all f ((id, info) ∷ m) = omega (arith, length-update_all f m)

length-insert_old :
    (k : Bytes) (v w : TaskInfo) (m : Dict TaskInfo)
    → Dict.lookup k m ≡ some w
    → length (Dict.insert k v m) ≡ length m
length-insert_old k v w m e = ground (arith, Dict.length-insert k v m)

length-insert-le :
    (k : Bytes) (v : TaskInfo) (m : Dict TaskInfo) → length (Dict.insert k v m) ≤ length m + 1
length-insert-le k v m = ground (arith, Dict.length-insert k v m)

length-drop_expired-le :
    (now interval : ℕ) (m : Dict TaskInfo) → length (drop_expired now interval m) ≤ length m
unfolding drop_expired
length-drop_expired-le now interval [] = omega arith
length-drop_expired-le now interval ((id, info) ∷ m) =
    ground (arith, length-drop_expired-le now interval m)

module _ {S : Type 0} where
  unfoldable pub apply : Section → Coordinator S → Coordinator S
  unfolding reserve enqueue begin_task end_task cleanup_tasks set_task_result check_worker_health
      stop_tasks
  apply (reserves now task) c = (reserve now task c).1
  apply (enqueues selected task) c = (enqueue selected task c).1
  apply begins c = begin_task c
  apply (ends now id e) c = end_task now id e c
  apply (cleans now) c = cleanup_tasks now c
  apply (reports now id result) c = (set_task_result now id result c).1
  apply (checks now) c = check_worker_health now c
  apply (stops now) c = stop_tasks now c

  reserve-IsBounded :
      (now : ℕ) (task : Task) (c : Coordinator S) → IsBounded c → IsBounded (reserve now task c).1
  unfolding reserve
  reserve-IsBounded now task c h = record {
    tasks = ground (
      arith,
      h.tasks,
      length-insert-le task.id (pending_info now task) c.task_status,
      leb→le c.config.max_tasks (length c.task_status),
    );
    waiting = ground (arith, h.waiting);
  }

  enqueue-IsBounded :
      (selected : Selected) (task : Task) (c : Coordinator S)
      → IsBounded c
      → IsBounded (enqueue selected task c).1
  unfolding enqueue withdraw
  enqueue-IsBounded sent task c h = record {
    tasks = ground (arith, h.tasks, Dict.length-remove-le task.id c.task_status);
    waiting = ground (
      arith,
      h.waiting,
      length-append c.queue (task ∷ []),
      ltb→lt (length c.queue) c.config.max_tasks,
    );
  }
  enqueue-IsBounded cancelled task c h = record {
    tasks = omega (arith, h.tasks, Dict.length-remove-le task.id c.task_status);
    waiting = h.waiting;
  }
  enqueue-IsBounded timed_out task c h = record {
    tasks = omega (arith, h.tasks, Dict.length-remove-le task.id c.task_status);
    waiting = h.waiting;
  }

  update-IsBounded :
      (f : TaskInfo → TaskInfo) (c : Coordinator S)
      → IsBounded c
      → IsBounded (record c { task_status = update_all f c.task_status })
  update-IsBounded f c h = record {
    tasks = omega (arith, h.tasks, length-update_all f c.task_status);
    waiting = h.waiting;
  }

  time_out_all-IsBounded :
      (now : ℕ) (ids : List Bytes) (c : Coordinator S)
      → IsBounded c
      → IsBounded (time_out_all now ids c)
  unfolding time_out_all handle_worker_timeout
  time_out_all-IsBounded now [] c h = h
  time_out_all-IsBounded now (id ∷ ids) c h =
      time_out_all-IsBounded now ids (handle_worker_timeout now id c)
        (update-IsBounded (affected now id) c h)

  mark_running-IsBounded :
      (found : Option TaskInfo) (id : Bytes) (c : Coordinator S)
      → Dict.lookup id c.task_status ≡ found
      → IsBounded c
      → IsBounded (mark_running found id c)
  unfolding mark_running
  mark_running-IsBounded none id c e h = h
  mark_running-IsBounded (some info) id c e h = record {
    tasks = omega (
      arith,
      h.tasks,
      length-insert_old id (record info { status = running }) info c.task_status e,
    );
    waiting = h.waiting;
  }

  begin_on-IsBounded :
      (queue : List Task) (c : Coordinator S)
      → c.queue ≡ queue
      → IsBounded c
      → IsBounded (begin_on queue c)
  unfolding begin_on
  begin_on-IsBounded [] c e h = h
  begin_on-IsBounded (task ∷ rest) c e h =
      mark_running-IsBounded (Dict.lookup task.id c.task_status) task.id (record c { queue = rest })
        refl (record { tasks = h.tasks; waiting = ground (arith, h.waiting, e) })

  ended-IsBounded :
      (found : Option TaskInfo) (now : ℕ) (id : Bytes) (e : Option Error) (c : Coordinator S)
      → Dict.lookup id c.task_status ≡ found
      → IsBounded c
      → IsBounded (ended found now id e c)
  unfolding ended
  ended-IsBounded none now id e c q h = h
  ended-IsBounded (some info) now id none c q h = record {
    tasks = omega (
      arith,
      h.tasks,
      length-insert_old id (record info { status = complete; end_time = now }) info c.task_status q,
    );
    waiting = h.waiting;
  }
  ended-IsBounded (some info) now id (some e) c q h = record {
    tasks =
        omega (arith, h.tasks, length-insert_old id (failed_info now e info) info c.task_status q);
    waiting = h.waiting;
  }

  result_on-IsBounded :
      (found : Option TaskInfo) (now : ℕ) (id result : Bytes) (c : Coordinator S)
      → Dict.lookup id c.task_status ≡ found
      → IsBounded c
      → IsBounded (result_on found now id result c).1
  unfolding result_on
  result_on-IsBounded none now id result c q h = h
  result_on-IsBounded (some info) now id result c q h = record {
    tasks =
        ground
          (arith, h.tasks, length-insert_old id (with_result now result info) info c.task_status q);
    waiting = ground (arith, h.waiting);
  }

  apply-IsBounded :
      (section : Section) (c : Coordinator S) → IsBounded c → IsBounded (apply section c)
  unfolding apply begin_task end_task cleanup_tasks set_task_result check_worker_health stop_tasks
  apply-IsBounded (reserves now task) c h = reserve-IsBounded now task c h
  apply-IsBounded (enqueues selected task) c h = enqueue-IsBounded selected task c h
  apply-IsBounded begins c h = begin_on-IsBounded c.queue c refl h
  apply-IsBounded (ends now id e) c h =
      ended-IsBounded (Dict.lookup id c.task_status) now id e c refl h
  apply-IsBounded (cleans now) c h = record {
    tasks =
        omega
          (arith, h.tasks, length-drop_expired-le now (cleanup_interval c.config) c.task_status);
    waiting = h.waiting;
  }
  apply-IsBounded (reports now id result) c h =
      result_on-IsBounded (Dict.lookup id c.task_status) now id result c refl h
  apply-IsBounded (checks now) c h =
      time_out_all-IsBounded now (silent now c.config.worker_timeout c.workers)
        (record c { workers = mark_silent now c.config.worker_timeout c.workers })
        (record { tasks = h.tasks; waiting = h.waiting })
  apply-IsBounded (stops now) c h = update-IsBounded (fail_running now) c h

  unfoldable pub run : List Section → Coordinator S → Coordinator S
  unfolding apply
  run [] c = c
  run (section ∷ rest) c = run rest (apply section c)

  run_keeps :
      (sections : List Section) (c : Coordinator S) → IsBounded c → IsBounded (run sections c)
  unfolding run
  run_keeps [] c h = h
  run_keeps (section ∷ rest) c h = run_keeps rest (apply section c) (apply-IsBounded section c h)

  -- Whatever the order in which submissions, the task loop, results, cleanups, health checks and
  -- the stop enter the lock of a new coordinator, it holds at most `max_tasks` tasks and its
  -- queue at most `max_tasks` entries.
  pub run-IsBounded :
      (sections : List Section) (config : Config) (store : S)
      → IsBounded (run sections (new_coordinator config store))
  unfolding new_coordinator
  run-IsBounded sections config store =
      run_keeps sections (new_coordinator config store)
        (record { tasks = omega arith; waiting = omega arith })
