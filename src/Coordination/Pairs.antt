-- ===== src/Coordination/Pairs.antt =====
-- coordination/coordinator.go: the TEE pairs of the regions, the check of a regional operation and
-- the queries. A pointer into the slice of a region's pairs is its index.
pub mod Selection
pub mod Operations
use aristo.Prelude.{
  ℕ, zero, suc, ◌+◌, ◌-◌, [], ◌∷◌, List, Bool, true, false, not, ◌&&◌, ◌||◌, Bytes, same, is_empty,
  Option, none, some, Result, ok, err, panic, Act, length, ltb, ◌==◌, if◌then◌else◌, Error,
  no_tee_pairs, region_not_found, unauthorized_tee_pair, timestamps_differ,
  timestamp_outside_window, missing_signature, nil_attestation, worker_not_found, task_not_found,
}
use aristo.Prelude.Dict
use aristo.Prelude.Dict.{Dict}
use aristo.Coordination.Types.{
  Attestation, Config, TaskInfo, TeePairInfo, Worker, WorkerStatus, active, idle,
}
use aristo.Coordination.State.{Coordinator}
use aristo.Coordination.Tasks.{is_active}

-- math.MaxInt32
abbrev pub max_int32 : ℕ
max_int32 = 2147483647

-- The loop of selectTEEPair: the least count so far, the pair that has it, and the next index.
unfoldable pub find_least : ℕ → Option ℕ → ℕ → List TeePairInfo → Option ℕ
find_least min_tasks selected i [] = selected
find_least min_tasks selected i (pair ∷ pairs) =
    let less = ltb pair.task_count min_tasks in
    find_least (if less then pair.task_count else min_tasks) (if less then some i else selected)
      (suc i) pairs

unfoldable pub update_at : (TeePairInfo → TeePairInfo) → ℕ → List TeePairInfo → List TeePairInfo
update_at f i [] = []
update_at f zero (pair ∷ pairs) = f pair ∷ pairs
update_at f (suc i) (pair ∷ pairs) = pair ∷ update_at f i pairs

unfoldable pub pairs_of : Bytes → Dict (List TeePairInfo) → List TeePairInfo
pairs_of region m = elim (Dict.lookup region m) [ none ↦ [] | some pairs ↦ pairs ]

unfoldable pub taken : ℕ → TeePairInfo → TeePairInfo
taken now pair = record pair { task_count = pair.task_count + 1; last_used = now }

unfoldable pub released : ℕ → TeePairInfo → TeePairInfo
released now pair = record pair { task_count = pair.task_count - 1; last_used = now }

unfoldable pub listed : Bytes → Bytes → List TeePairInfo → Bool
listed sgx sev [] = false
listed sgx sev (pair ∷ pairs) =
    same sgx pair.sgx_worker && same sev pair.sev_worker || listed sgx sev pairs

-- now.Sub(at) > window || now.Sub(at) < -window
unfoldable pub outside_window : ℕ → ℕ → ℕ → Bool
outside_window now window at = ltb (at + window) now || ltb (now + window) at

unfoldable pub first_pair : List TeePairInfo → Result (Bytes × Bytes)
first_pair [] = err region_not_found
first_pair (pair ∷ pairs) = ok (pair.sgx_worker, pair.sev_worker)

module _ {S : Type 0} where
  unfoldable pub on_pair : (TeePairInfo → TeePairInfo) → Bytes → ℕ → Coordinator S → Coordinator S
  unfolding pairs_of update_at
  on_pair f region i c = record c {
    tee_pairs = Dict.insert region (update_at f i (pairs_of region c.tee_pairs)) c.tee_pairs;
  }

  unfoldable pub select_tee_pair : ℕ → Bytes → Act (Coordinator S) ℕ
  unfolding on_pair find_least taken pairs_of
  select_tee_pair now region c = elim (find_least max_int32 none 0 (pairs_of region c.tee_pairs)) [
    | none ↦ (err no_tee_pairs, c)
    | some i ↦ (ok i, on_pair (taken now) region i c)
  ]

  -- What handleRegionalTask does to the pair once the task has ended.
  unfoldable pub release_tee_pair : ℕ → Bytes → ℕ → Coordinator S → Coordinator S
  unfolding on_pair released
  release_tee_pair now region i c = on_pair (released now) region i c

  unfoldable pub validate_regional_operation :
      ℕ → Bytes → Attestation → Attestation → Coordinator S → Result (Unit {0})
  unfolding pairs_of listed outside_window
  validate_regional_operation now region a b c =
      let pairs = pairs_of region c.tee_pairs in
      let window = c.config.attestation_timeout in
      if length pairs == 0
      then err region_not_found
      else if not (listed a.enclave_id b.enclave_id pairs)
      then err unauthorized_tee_pair
      else if not (a.timestamp == b.timestamp)
      then err timestamps_differ
      else if outside_window now window a.timestamp || outside_window now window b.timestamp
      then err timestamp_outside_window
      else ok tt

  unfoldable pub verify_attestation : ℕ → Option Attestation → Coordinator S → Result (Unit {0})
  unfolding outside_window
  verify_attestation now none c = err nil_attestation
  verify_attestation now (some att) c =
      if outside_window now c.config.attestation_timeout att.timestamp
      then err timestamp_outside_window
      else if is_empty att.signature
      then err missing_signature
      else ok tt

  unfoldable pub get_tee_pair : Bytes → Coordinator S → Result (Bytes × Bytes)
  unfolding pairs_of first_pair
  get_tee_pair region c = first_pair (pairs_of region c.tee_pairs)

  unfoldable pub get_worker : Bytes → Coordinator S → Option Worker
  get_worker id c = Dict.lookup id c.workers

  unfoldable pub get_worker_count : Coordinator S → ℕ
  get_worker_count c = length c.workers

  unfoldable pub get_task_status : Bytes → Coordinator S → Result TaskInfo
  get_task_status id c = elim (Dict.lookup id c.task_status) [
    | none ↦ err task_not_found
    | some info ↦ ok info
  ]

  unfoldable pub verify_worker_pair : Bytes → Bytes → Coordinator S → Result (Unit {0})
  verify_worker_pair a b c = elim (Dict.lookup a c.workers) [
    | none ↦ err worker_not_found
    | some x ↦ elim (Dict.lookup b c.workers) [ none ↦ err worker_not_found | some y ↦ ok tt ]
  ]

  unfoldable pub is_worker_active : Bytes → Coordinator S → Bool
  is_worker_active id c = elim (Dict.lookup id c.workers) [
    | none ↦ false
    | some w ↦ is_active w.status
  ]

unfoldable pub reset_workers : Dict Worker → Dict Worker
reset_workers [] = []
reset_workers ((id, w) ∷ m) = (id, record w { status = idle; channels = [] }) ∷ reset_workers m

unfoldable pub clear_pairs : Dict (List TeePairInfo) → Dict (List TeePairInfo)
clear_pairs [] = []
clear_pairs ((region, pairs) ∷ m) = (region, []) ∷ clear_pairs m

unfoldable pub cleanup : {S : Type 0} → Coordinator S → Coordinator S
unfolding reset_workers clear_pairs
cleanup c = record c {
  task_status = [];
  workers = reset_workers c.workers;
  tee_pairs = clear_pairs c.tee_pairs;
}
