-- ===== src/Coordination/Types.antt =====
-- coordination/types.go, coordinator_types.go and config.go: the data of the coordinator. A Go
-- channel is `none` where it is nil. A time is a number of nanoseconds since 1970.
use aristo.Prelude.{ℕ, Bool, Bytes, Option, List, Error, ◌==◌, if◌then◌else◌}
use aristo.Prelude.Dict.{Dict}

pub data WorkerStatus : Type 0 where
  idle active failed_status : WorkerStatus

pub data TaskStatus : Type 0 where
  pending running complete failed : TaskStatus

abbrev pub type_sync : ℕ
type_sync = 0

abbrev pub type_data : ℕ
type_data = 1

abbrev pub type_attestation : ℕ
type_attestation = 2

abbrev pub type_verification : ℕ
type_verification = 3

abbrev pub type_complete : ℕ
type_complete = 4

pub record Message : Type 0 where
  pub type : ℕ
  pub from : Bytes
  pub to : Bytes
  pub payload : Bytes

-- `messages` holds what was sent and not yet received.
pub record SecureChannel : Type 0 where
  pub worker1 : Bytes
  pub worker2 : Bytes
  pub key : Bytes
  pub encrypted : Bool
  pub messages : List Bytes

pub record Worker : Type 0 where
  pub id : Bytes
  pub enclave_id : Bytes
  pub status : WorkerStatus
  -- "SGX" or "SEV"
  pub worker_type : Bytes
  pub region_id : Bytes
  pub channels : Dict SecureChannel
  pub last_active : ℕ
  pub task_count : ℕ
  pub success_count : ℕ
  pub error_count : ℕ
  -- the queue of messages, and whether the stop signal is closed
  pub msg_ch : Option (List Message)
  pub done_ch : Option Bool

pub record Task : Type 0 where
  pub id : Bytes
  pub worker_ids : List Bytes
  pub payload : Bytes
  pub region_id : Bytes

pub record TaskInfo : Type 0 where
  pub task : Task
  pub status : TaskStatus
  pub start_time : ℕ
  pub end_time : ℕ
  pub error : Option Error
  pub results : List Bytes

pub record TeePairInfo : Type 0 where
  pub id : Bytes
  pub sgx_worker : Bytes
  pub sev_worker : Bytes
  -- `none` where it is nil
  pub channel : Option SecureChannel
  pub task_count : ℕ
  pub last_used : ℕ

pub record Attestation : Type 0 where
  pub enclave_id : Bytes
  pub timestamp : ℕ
  pub signature : Bytes

pub record Config : Type 0 where
  pub min_workers : ℕ
  pub max_tasks : ℕ
  pub worker_timeout : ℕ
  pub task_cleanup_interval : ℕ
  pub attestation_timeout : ℕ

-- time.Minute
abbrev pub minute : ℕ
minute = 60000000000

-- An interval that is not set is a minute.
unfoldable pub cleanup_interval : Config → ℕ
cleanup_interval config =
    if config.task_cleanup_interval == 0 then minute else config.task_cleanup_interval
