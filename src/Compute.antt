-- ===== src/Compute.antt =====
-- compute/service.go: a compute node's handling of a request: the slots for tasks, the call of the
-- enclaves by the Rust bridge, the coordinator's task and the channel between the two enclaves.
-- MaxTasks is not below zero; `format` is Format of a time in RFC 3339, and `task_id` prints a task's id.
pub mod Slots
use aristo.Prelude.{
  ℕ, ◌+◌, ◌-◌, [], ◌∷◌, ◌++◌, List, Bool, true, false, not, Bytes, text, same, is_empty, Option,
  none, some, Result, ok, err, panic, then_try, Act, pure, fail, crash, lift, continue, ◌>>=◌, ◌>>◌,
  reject_if, leb, if◌then◌else◌, no_region, wrong_region, node_busy,
}
use aristo.Prelude.Split.{has_prefix}
use aristo.Core.Types.{TeeAttestation, AttestationPair}
use aristo.Coordination.Types.{Task}
use aristo.Coordination.State.{Coordinator}
use aristo.Coordination.Tasks.{Selected, submit_task}
use aristo.Coordination.Channel.{new_secure_channel, establish_secure, send}
use aristo.Vm.Regional.{Request, NodeAttestation, NodeResult}

-- core.ExecutionResult, what the bridge returns
pub record CoreResult : Type 0 where
  pub state_hash : Bytes
  pub output : Bytes
  pub attestations : AttestationPair

pub record ComputeNode (S : Type 0) : Type 0 where
  pub region_id : Bytes
  pub max_tasks : ℕ
  pub active_tasks : ℕ
  pub coordinator : Coordinator S

-- What the node uses of the time, the bridge and crypto/rand during one request.
pub record Outside : Type 0 where
  pub bridge : Request → Result CoreResult
  pub random : Result Bytes
  pub selected : Selected
  pub now : ℕ
  pub format : ℕ → Bytes
  pub task_id : Bytes → ℕ → Bytes

unfoldable pub determine_enclave_type : Bytes → Bytes
determine_enclave_type id =
    if has_prefix id (text "sgx-")
    then text "SGX"
    else if has_prefix id (text "sev-")
    then text "SEV"
    else text "UNKNOWN"

unfoldable pub convert_to_rust_request : Request → Request
convert_to_rust_request req = record req { detailed_proof = false }

unfoldable pub convert_attestation : (ℕ → Bytes) → TeeAttestation → NodeAttestation
convert_attestation format a = record {
  enclave_id = a.enclave_id;
  measurement = a.measurement;
  timestamp = format a.timestamp;
  payload = a.payload;
  region_proof = a.region_proof;
}

unfoldable pub convert_to_proto_result : Outside → CoreResult → NodeResult
unfolding convert_attestation
convert_to_proto_result o r = record {
  timestamp = o.format o.now;
  attestations =
      convert_attestation o.format r.attestations.first
      ∷ convert_attestation o.format r.attestations.second
      ∷ [];
  state_hash = r.state_hash;
  result = r.output;
}

unfoldable pub exchange : Outside → CoreResult → Result (Unit {0})
unfolding new_secure_channel establish_secure send
exchange o r =
    then_try
      (establish_secure o.random
        (new_secure_channel r.attestations.first.enclave_id r.attestations.second.enclave_id))
      λ channel. (send r.state_hash channel).0

unfoldable pub task_of : Outside → Bytes → Request → CoreResult → Task
task_of o region req r = record {
  id = o.task_id region o.now;
  worker_ids = r.attestations.first.enclave_id ∷ r.attestations.second.enclave_id ∷ [];
  payload = req.parameters;
  region_id = [];
}

module _ {S : Type 0} where
  unfoldable pub acquire_task_slot : ComputeNode S → Bool × ComputeNode S
  acquire_task_slot n =
      if leb n.max_tasks n.active_tasks
      then (false, n)
      else (true, record n { active_tasks = n.active_tasks + 1 })

  unfoldable pub release_task_slot : ComputeNode S → ComputeNode S
  release_task_slot n = record n { active_tasks = n.active_tasks - 1 }

  unfoldable pub take_slot : Bool × ComputeNode S → Result (Unit {0}) × ComputeNode S
  take_slot (true, n) = (ok tt, n)
  take_slot (false, n) = (err node_busy, n)

  -- Up to the slot.
  unfoldable pub admit : Request → Act (ComputeNode S) (Unit {0})
  unfolding acquire_task_slot take_slot
  admit req n =
      if is_empty req.region_id
      then (err no_region, n)
      else if not (same req.region_id n.region_id)
      then (err wrong_region, n)
      else take_slot (acquire_task_slot n)

  unfoldable pub on_coordinator : {A : Type 0} → Act (Coordinator S) A → Act (ComputeNode S) A
  on_coordinator m n = let (r, c) = m n.coordinator in (r, record n { coordinator = c })

  -- With a slot, up to its release.
  unfoldable pub serve : Outside → Request → Act (ComputeNode S) NodeResult
  unfolding convert_to_rust_request on_coordinator submit_task task_of exchange
      convert_to_proto_result
  serve o req n =
      (do
        r ← lift (o.bridge (convert_to_rust_request req))
        on_coordinator (submit_task o.selected o.now (some (task_of o n.region_id req r)))
        lift (exchange o r)
        pure (convert_to_proto_result o r))
        n

  -- The deferred release runs whatever came of the request.
  unfoldable pub released_after :
      Result NodeResult × ComputeNode S → Result NodeResult × ComputeNode S
  unfolding release_task_slot
  released_after (r, n) = (r, release_task_slot n)

  unfoldable pub served :
      Outside → Request → Result (Unit {0}) × ComputeNode S → Result NodeResult × ComputeNode S
  unfolding serve released_after
  served o req (ok u, n) = released_after (serve o req n)
  served o req (err e, n) = (err e, n)
  served o req (panic c, n) = (panic c, n)

  unfoldable pub execute : Outside → Request → Act (ComputeNode S) NodeResult
  unfolding admit served
  execute o req n = served o req (admit req n)
