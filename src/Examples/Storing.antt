-- ===== src/Examples/Storing.antt =====
-- The coordinator's storages over maps in memory.
use aristo.Prelude.{
  ℕ, ◌≡◌, ◌≢◌, refl, sym, ap, ◌∙◌, [], ◌∷◌, ◌++◌, List, Bool, true, false, Bytes, text, same,
  Option, none, some, Result, ok, err, panic, Error, db_not_found, close_nil, if◌then◌else◌,
  outside, then_try, arith,
}
use aristo.Prelude.Dict
use aristo.Prelude.Dict.{Dict, lookup-insert, lookup-remove}
use aristo.Storage.Codec.{Codec}
use aristo.Coordination.Types.{Config, Worker, WorkerStatus, idle, active, Task}
use aristo.Coordination.Worker.{new_worker}
use aristo.Coordination.State.{new_coordinator}
use aristo.Coordination.Wrapper.{
  BaseStorage, Codecs, Region, WorkerFields, ChannelFields, load_region,
}
use aristo.Coordination.Wrapper.Slots.{region_slot}
use aristo.Coordination.Wrapper.Refinement as Written
use aristo.Coordination.Registry.Never
use aristo.Coordination.Registry.{
  is_missing, register_region, execute_task, unregister_worker, register_worker,
}
use aristo.Coordination.MerkleStorage.{ViewDb, MerkleStorage, new_storage}
use aristo.Coordination.MerkleStorage as Merkle
use aristo.Coordination.MerkleStorage.Lost

abbrev read_of : Error → Option Bytes → Result Bytes
read_of missing none = err missing
read_of missing (some v) = ok v

abbrev in_memory : BaseStorage (Dict Bytes)
in_memory = record {
  get = λ s k. read_of db_not_found (Dict.lookup k s);
  put = λ s k v. ok (Dict.insert k v s);
  delete = λ s k. ok (Dict.remove k s);
  get_by_prefix = λ s p. ok [];
}

read_of-if :
    (b : Bool) (x y : Option Bytes)
    → read_of db_not_found (if b then x else y)
      ≡ (if b then read_of db_not_found x else read_of db_not_found y)
read_of-if true x y = refl
read_of-if false x y = refl

stored : {s t : Dict Bytes} → ok s ≡ ok t → s ≡ t
stored e = cc

in_memory-IsBaseStorage : Written.IsBaseStorage in_memory db_not_found
in_memory-IsBaseStorage = record {
  get-put = λ s t k v e j.
      ap (λ m. read_of db_not_found (Dict.lookup j m)) (sym (stored e))
      ∙ ap (read_of db_not_found) (lookup-insert k j v s)
      ∙ read_of-if (same k j) (some v) (Dict.lookup j s);
  get-delete = λ s t k e j.
      ap (λ m. read_of db_not_found (Dict.lookup j m)) (sym (stored e))
      ∙ ap (read_of db_not_found) (lookup-remove k j s)
      ∙ read_of-if (same k j) none (Dict.lookup j s);
}

-- Only a worker that is idle and has no channel and no enclave is written.
abbrev encode : WorkerStatus → Dict ChannelFields → Bytes → Bytes → Result Bytes
encode idle [] [] id = ok id
encode status channels enclave id = err outside

abbrev bare : Bytes → WorkerFields
bare id = record { id = id; enclave_id = []; status = idle; channels = [] }

abbrev workers_codec : Codec WorkerFields
workers_codec = record {
  marshal = λ f. encode f.status f.channels f.enclave_id f.id;
  unmarshal = λ b. ok (bare b);
}

abbrev region_of : Bytes → Region
region_of id = record { id = id; workers = ([], []); created_at = 7 }

abbrev regions_codec : Codec Region
regions_codec = record { marshal = λ r. ok r.id; unmarshal = λ b. ok (region_of b) }

abbrev codecs : Codecs Bytes Bytes
codecs = record {
  channel = record { marshal = λ c. ok c.key; unmarshal = λ b. err outside };
  worker = workers_codec;
  region = regions_codec;
  pair = record { marshal = λ p. ok p.id; unmarshal = λ b. err outside };
  metrics = record { marshal = ok; unmarshal = ok };
  state = record { marshal = ok; unmarshal = ok };
}

abbrev worker : Worker
worker = new_worker (text "w") [] [] 0

abbrev writes : List (Written.Op Bytes Bytes)
writes =
    Written.region_saved (region_of (text "eu"))
    ∷ Written.worker_deleted (text "w")
    ∷ Written.region_saved (region_of (text "us"))
    ∷ []

run-contents_example :
    Written.contents in_memory db_not_found in_memory-IsBaseStorage codecs
      (region_slot (text "eu"))
      (Written.run in_memory db_not_found in_memory-IsBaseStorage codecs writes [])
    ≡ Written.replay in_memory db_not_found in_memory-IsBaseStorage codecs writes []
        (region_slot (text "eu"))
        (err db_not_found)
unfolding Dict.lookup
run-contents_example =
    Written.run-contents in_memory db_not_found in_memory-IsBaseStorage codecs writes
      (region_slot (text "eu")) []

read_of-foreign :
    (o : Option Bytes) (e : Error)
    → then_try (read_of db_not_found o) regions_codec.unmarshal ≡ err e
    → is_missing e ≡ false
unfolding is_missing
read_of-foreign none e h = cc
read_of-foreign (some b) e h = cc

in_memory-IsForeign : Never.IsForeign in_memory codecs
unfolding load_region
in_memory-IsForeign = record {
  no_region_missing = λ id s e h. read_of-foreign (Dict.lookup (text "region/" ++ id) s) e h;
}

abbrev random : Bytes → Bytes → Result Bytes
random a b = ok (a ++ b)

abbrev summary : ℕ → ℕ → ℕ → Bytes
summary a b now = a ∷ b ∷ now ∷ []

abbrev config : Config
config = record {
  min_workers = 1;
  max_tasks = 2;
  worker_timeout = 30;
  task_cleanup_interval = 60;
  attestation_timeout = 5;
}

abbrev task : Task
task = record { id = text "t"; worker_ids = text "w" ∷ []; payload = []; region_id = [] }

abbrev calls : List Never.Op
calls = Never.registers (text "w") [] 3 ∷ Never.executes (ok tt) true 4 task ∷ []

register_region-Fails_example :
    (register_region in_memory codecs random
      (text "eu")
      (text "w")
      (text "v")
      5
      (new_coordinator config [])).0
    ≢ ok tt
register_region-Fails_example =
    Never.register_region-Fails in_memory codecs in_memory-IsForeign random summary (text "eu")
      (text "w") (text "v") 5 (new_coordinator config []) tt

execute_task-run_example :
    (execute_task in_memory codecs random (ok tt) true 6 task (
      Never.run in_memory codecs in_memory-IsForeign random summary
        (new_coordinator config [])
        calls)).0
    ≢ ok tt
execute_task-run_example =
    Never.execute_task-run in_memory codecs in_memory-IsForeign random summary config [] calls
      (ok tt) true 6 task tt (omega arith)

-- The worker that is registered.
abbrev registered_worker : Worker
registered_worker = record {
  id = text "w";
  enclave_id = [];
  status = active;
  worker_type = [];
  region_id = [];
  channels = [];
  last_active = 3;
  task_count = 0;
  success_count = 0;
  error_count = 0;
  msg_ch = none;
  done_ch = none;
}

is_registered :
    Dict.lookup
      (text "w")
      (Never.run in_memory codecs in_memory-IsForeign random summary
        (new_coordinator config [])
        (Never.registers (text "w") [] 3 ∷ [])).workers
    ≡ some registered_worker
unfolding Never.run new_coordinator Dict.lookup Dict.insert register_worker same
is_registered = refl

unregister_worker-run_example :
    (unregister_worker in_memory codecs random (text "w") (
      Never.run in_memory codecs in_memory-IsForeign random summary
        (new_coordinator config [])
        (Never.registers (text "w") [] 3 ∷ []))).0
    ≡ panic close_nil
unregister_worker-run_example =
    Never.unregister_worker-run in_memory codecs in_memory-IsForeign random summary config []
      (Never.registers (text "w") [] 3 ∷ []) (text "w") registered_worker (omega arith)
      is_registered

-- A view of one change, over a map.
abbrev first_change : Dict Bytes → List (Bytes × Option Bytes) → Bytes → Result Bytes
first_change d [] j = read_of db_not_found (Dict.lookup j d)
first_change d ((k, o) ∷ rest) j =
    if same k j then Lost.shown db_not_found o else first_change d rest j

abbrev views : ViewDb (Dict Bytes) (Bytes → Result Bytes)
views = record { new_view = λ d cs. ok (first_change d cs); get_value = λ v j. v j }

viewed : {v w : Bytes → Result Bytes} (j : Bytes) → ok v ≡ ok w → w j ≡ v j
viewed j e = cc

views-IsViewDb : Lost.IsViewDb views db_not_found (λ d j. read_of db_not_found (Dict.lookup j d))
views-IsViewDb = record { get_value-new_view = λ d k o v e j. viewed j e }

abbrev storage : MerkleStorage (Dict Bytes) (Bytes → Result Bytes)
storage = record { db = []; view = first_change [] []; channels = []; workers = [] }

storage_opened : new_storage views [] ≡ ok storage
unfolding new_storage
storage_opened = refl

saved_last :
    Merkle.save_region views codecs (region_of (text "us")) (
      Lost.run views db_not_found
        (λ d j. read_of db_not_found (Dict.lookup j d))
        views-IsViewDb
        codecs
        storage
        (Lost.region_saved (region_of (text "eu")) ∷ []))
    ≡ (ok tt, record storage { view = first_change [] ((text "region:us", some (text "us")) ∷ []) })
unfolding Merkle.save_region Lost.run
saved_last = refl

load_region-save_region_example :
    Merkle.load_region views codecs
      (text "eu")
      (record storage { view = first_change [] ((text "region:us", some (text "us")) ∷ []) })
    ≡ then_try
        (read_of db_not_found (Dict.lookup (text "region:" ++ text "eu") []))
        regions_codec.unmarshal
unfolding same
load_region-save_region_example =
    Lost.load_region-save_region views db_not_found (λ d j. read_of db_not_found (Dict.lookup j d))
      views-IsViewDb codecs [] storage
      (record storage { view = first_change [] ((text "region:us", some (text "us")) ∷ []) })
      (Lost.region_saved (region_of (text "eu")) ∷ []) (region_of (text "us")) (text "eu")
      storage_opened saved_last refl
