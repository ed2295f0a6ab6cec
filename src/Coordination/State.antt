-- ===== src/Coordination/State.antt =====
-- coordination/coordinator.go: the state of the coordinator that its lock guards. `store` is the state
-- of the base storage.
use aristo.Prelude.{[], List}
use aristo.Prelude.Dict.{Dict}
use aristo.Coordination.Types.{Config, cleanup_interval, Worker, Task, TaskInfo, TeePairInfo}

pub record Coordinator (S : Type 0) : Type 0 where
  pub config : Config
  pub workers : Dict Worker
  pub queue : List Task
  pub task_status : Dict TaskInfo
  pub tee_pairs : Dict (List TeePairInfo)
  pub store : S

unfoldable pub new_coordinator : {S : Type 0} → Config → S → Coordinator S
unfolding cleanup_interval
new_coordinator config store = record {
  config = record config { task_cleanup_interval = cleanup_interval config };
  workers = [];
  queue = [];
  task_status = [];
  tee_pairs = [];
  store = store;
}
