-- ===== src/Examples/Tasks.antt =====
-- A coordinator that takes at most two tasks.
use aristo.Prelude.{◌≡◌, refl, [], ◌∷◌, text, none, some, same}
use aristo.Prelude.Dict
use aristo.Coordination.Types.{Config, Task, TaskInfo, running, complete, cleanup_interval}
use aristo.Coordination.State.{Coordinator, new_coordinator}
use aristo.Coordination.Tasks.{sent, timed_out, submit_task, pending_info, cleanup_tasks}
use aristo.Coordination.Tasks.Bounds.{
  IsBounded, run, reserves, enqueues, begins, ends, run-IsBounded,
}
use aristo.Coordination.Tasks.Submission.{Outcome, submit_task_atomic}
use aristo.Coordination.Tasks.Results.{report_all, report_all_complete}

abbrev config : Config
config = record {
  min_workers = 2;
  max_tasks = 2;
  worker_timeout = 30;
  task_cleanup_interval = 60;
  attestation_timeout = 5;
}

abbrev task : Task
task = record {
  id = text "t1";
  worker_ids = text "sgx" ∷ text "sev" ∷ [];
  payload = [];
  region_id = [];
}

abbrev empty : Coordinator (Unit {0})
empty = new_coordinator config tt

run-IsBounded_example :
    IsBounded
      (run (reserves 1 task ∷ enqueues sent task ∷ begins ∷ ends 9 (text "t1") none ∷ []) empty)
run-IsBounded_example =
    run-IsBounded (reserves 1 task ∷ enqueues sent task ∷ begins ∷ ends 9 (text "t1") none ∷ [])
      config tt

submit_task_atomic_example : Outcome 1 task empty (submit_task timed_out 1 (some task) empty)
unfolding Dict.lookup new_coordinator
submit_task_atomic_example = submit_task_atomic timed_out 1 task empty refl

abbrev running_info : TaskInfo
running_info = record (pending_info 1 task) { status = running }

abbrev done_info : TaskInfo
done_info = record (pending_info 1 task) { status = complete; end_time = 20 }

abbrev with_info : TaskInfo → Coordinator (Unit {0})
with_info info = record empty { task_status = (text "t1", info) ∷ [] }

running_known : Dict.lookup (text "t1") (with_info running_info).task_status ≡ some running_info
unfolding Dict.lookup same
running_known = refl

done_known : Dict.lookup (text "t1") (with_info done_info).task_status ≡ some done_info
unfolding Dict.lookup same
done_known = refl

report_all_complete_example :
    Dict.lookup
      (text "t1")
      (report_all 30 (text "t1") (text "a" ∷ text "b" ∷ []) (with_info running_info)).task_status
    ≡ some (record running_info {
      results = text "a" ∷ text "b" ∷ [];
      status = complete;
      end_time = 30;
    })
report_all_complete_example =
    report_all_complete 30 (text "t1") (text "a") (text "b" ∷ []) running_info
      (with_info running_info) running_known refl refl

done_kept :
    Dict.lookup (text "t1") (cleanup_tasks 50 (with_info done_info)).task_status ≡ some done_info
unfolding cleanup_tasks new_coordinator Dict.lookup same cleanup_interval
done_kept = refl
