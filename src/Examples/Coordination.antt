-- ===== src/Examples/Coordination.antt =====
-- A region with two TEE pairs, a channel and a worker.
use aristo.Prelude.{
  none, ℕ, ◌≡◌, refl, true, [], ◌∷◌, ◌++◌, List, Bytes, text, ok, panic, same, close_closed,
}
use aristo.Prelude.Dict
use aristo.Coordination.Types.{Attestation, Config, TeePairInfo}
use aristo.Coordination.State.{Coordinator}
use aristo.Coordination.Pairs.{select_tee_pair, release_tee_pair, pairs_of}
use aristo.Coordination.Pairs.Selection.{
  IsLeast, task_counts, select_tee_pair-IsLeast, release-select_tee_pair,
}
use aristo.Coordination.Worker.{new_worker, stop}
use aristo.Coordination.Worker.Life.{IsSound, run, metrics, starts, worker_life}

abbrev config : Config
config = record {
  min_workers = 2;
  max_tasks = 2;
  worker_timeout = 30;
  task_cleanup_interval = 60;
  attestation_timeout = 5;
}

abbrev east : Bytes
east = text "east"

abbrev pair : Bytes → Bytes → ℕ → TeePairInfo
pair sgx sev n = record {
  id = sgx ++ sev;
  sgx_worker = sgx;
  sev_worker = sev;
  channel = none;
  task_count = n;
  last_used = 0;
}

abbrev pairs : List TeePairInfo
pairs = pair (text "x1") (text "v1") 3 ∷ pair (text "x2") (text "v2") 1 ∷ []

abbrev pub coordinator : Coordinator (Unit {0})
coordinator = record {
  config = config;
  workers = [];
  queue = [];
  task_status = [];
  tee_pairs = (east, pairs) ∷ [];
  store = tt;
}

selected : (select_tee_pair 9 east coordinator).0 ≡ ok 1
unfolding select_tee_pair Dict.lookup same
selected = refl

select_tee_pair-IsLeast_example : IsLeast 1 pairs
unfolding pairs_of Dict.lookup same
select_tee_pair-IsLeast_example = select_tee_pair-IsLeast 9 1 east coordinator selected

release-select_tee_pair_example :
    task_counts
      (pairs_of east (release_tee_pair 20 east 1 (select_tee_pair 9 east coordinator).1).tee_pairs)
    ≡ task_counts (pairs_of east coordinator.tee_pairs)
release-select_tee_pair_example = release-select_tee_pair 9 20 1 east east coordinator selected

abbrev attestation : Bytes → Attestation
attestation enclave = record { enclave_id = enclave; timestamp = 100; signature = 1 ∷ [] }

worker_life_example :
    IsSound (run (new_worker east (text "e") (text "SGX") 1) (starts 2 ∷ metrics true 3 ∷ []))
    × ((stop (run (new_worker east (text "e") (text "SGX") 1) (starts 2 ∷ metrics true 3 ∷ []))).0
        ≡ ok tt)
    × ((stop
          (stop
            (run (new_worker east (text "e") (text "SGX") 1) (starts 2 ∷ metrics true 3 ∷ []))).1).0
        ≡ panic close_closed)
worker_life_example = worker_life east (text "e") (text "SGX") 1 (starts 2 ∷ metrics true 3 ∷ [])
