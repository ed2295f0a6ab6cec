-- ===== src/Vm/Regional/Agreed.antt =====
-- vm/core.go: what stands behind the result of an execution in a region.
use aristo.Prelude.{
  ℕ, ◌≡◌, refl, sym, ap, ◌∙◌, Bool, Bytes, text, same→eq, Option, Result, ok, err, panic, then_try,
  gets, arith,
}
use aristo.Prelude.Success.{bind-ok, lift-ok, try-ok}
use aristo.Prelude.Floats.{Floats}
use aristo.Core.Types.{AttestationPair}
use aristo.Regions.Config.{TeePair}
use aristo.Regions.States.{States, StateStore, HealthStatus, get_region_health}
use aristo.Regions.Balancer.{RegionBalancer, select_optimal_pair}
use aristo.Verifier.{verify_attestation_pair}
use aristo.Vm.Execution.{Action}
use aristo.Vm.Regional.{
  Request, NodeResult, ExecutionResult, Nodes, node_at, request_of, converted, both_converted,
  compare_results, settle, finish, run_both, require_healthy, execute_in_region, result_of,
  report_failure,
}

-- Both enclaves of the pair ran the request, with one state hash, and the attestations that they gave
-- pass the verifier; the result is made of what the first one returned.
pub record IsAgreed (random : Result Bytes) (parse_time : Bytes → Option ℕ) (nodes : Nodes)
    (region : Bytes) (action : Action) (pair : TeePair) (r : ExecutionResult) : Type 0 where
  pub request : Request
  pub sgx : NodeResult
  pub sev : NodeResult
  pub requested : request_of region action ≡ ok request
  pub sgx_ran : then_try (node_at nodes pair.sgx_endpoint) (λ node. node request) ≡ ok sgx
  pub sev_ran : then_try (node_at nodes pair.sev_endpoint) (λ node. node request) ≡ ok sev
  pub same_hash : sgx.state_hash ≡ sev.state_hash
  pub attested : both_converted (converted parse_time) sgx sev ≡ ok r.attestations
  pub verified : verify_attestation_pair random r.attestations ≡ ok tt
  pub state_hash : r.state_hash ≡ sgx.state_hash
  pub output : r.output ≡ sgx.result

ok-injective : {A : Type 0} {a b : A} → ok a ≡ ok b → a ≡ b
ok-injective e = cc

compare_results-ok :
    (random : Result Bytes) (sgx sev : NodeResult) (a : AttestationPair) (u : Unit {0})
    → compare_results random sgx sev a ≡ ok u
    → (verify_attestation_pair random a ≡ ok tt) × (sgx.state_hash ≡ sev.state_hash)
unfolding compare_results
compare_results-ok random sgx sev a u h =
    let (v, (checked, rest)) = try-ok (verify_attestation_pair random a) _ u h in
    (checked, same→eq sgx.state_hash sev.state_hash (ground arith))

-- The same of what the two calls returned.
record Finished (random : Result Bytes) (parse_time : Bytes → Option ℕ) (x y : Result NodeResult)
    (r : ExecutionResult) : Type 0 where
  sgx : NodeResult
  sev : NodeResult
  sgx_ran : x ≡ ok sgx
  sev_ran : y ≡ ok sev
  same_hash : sgx.state_hash ≡ sev.state_hash
  attested : both_converted (converted parse_time) sgx sev ≡ ok r.attestations
  verified : verify_attestation_pair random r.attestations ≡ ok tt
  state_hash : r.state_hash ≡ sgx.state_hash
  output : r.output ≡ sgx.result

Finished-IsAgreed :
    (random : Result Bytes) (parse_time : Bytes → Option ℕ) (nodes : Nodes) (region : Bytes)
    (action : Action) (pair : TeePair) (request : Request) (sgx sev : Request → Result NodeResult)
    (r : ExecutionResult)
    → request_of region action ≡ ok request
    → node_at nodes pair.sgx_endpoint ≡ ok sgx
    → node_at nodes pair.sev_endpoint ≡ ok sev
    → Finished random parse_time (sgx request) (sev request) r
    → IsAgreed random parse_time nodes region action pair r
Finished-IsAgreed random parse_time nodes region action pair request sgx sev r requested a b f =
    record {
      request = request;
      sgx = f.sgx;
      sev = f.sev;
      requested = requested;
      sgx_ran = ap (λ x. then_try x (λ node. node request)) a ∙ f.sgx_ran;
      sev_ran = ap (λ x. then_try x (λ node. node request)) b ∙ f.sev_ran;
      same_hash = f.same_hash;
      attested = f.attested;
      verified = f.verified;
      state_hash = f.state_hash;
      output = f.output;
    }

module _ {S F : Type 0} (floats : Floats F) (state_store : StateStore S F) where
  settle-ok :
      (region : Bytes) (pair : TeePair) (sgx : NodeResult) (a : AttestationPair) (exec_time now : ℕ)
      (x : Result (Unit {0})) (rm : States S F) (r : ExecutionResult)
      → (settle floats state_store region pair sgx a exec_time now x rm).0 ≡ ok r
      → (x ≡ ok tt) × (result_of region pair sgx a ≡ r)
  unfolding settle
  settle-ok region pair sgx a exec_time now (ok u) rm r h = (refl, ok-injective h)
  settle-ok region pair sgx a exec_time now (err e) rm r h = cc
  settle-ok region pair sgx a exec_time now (panic c) rm r h = cc

  finish-ok :
      (random : Result Bytes) (parse_time : Bytes → Option ℕ) (region : Bytes) (pair : TeePair)
      (exec_time now : ℕ) (x y : Result NodeResult) (rm : States S F) (r : ExecutionResult)
      → (finish floats state_store random parse_time region pair exec_time now x y rm).0 ≡ ok r
      → Finished random parse_time x y r
  unfolding finish report_failure result_of
  finish-ok random parse_time region pair exec_time now (ok sgx) (ok sev) rm r h =
      let (a, (attested, h1)) = lift-ok (both_converted (converted parse_time) sgx sev) _ rm r h in
      let (compared, made) =
        settle-ok region pair sgx a exec_time now (compare_results random sgx sev a) rm r h1 in
      let (checked, agree) = compare_results-ok random sgx sev a tt compared in
      record {
        sgx = sgx;
        sev = sev;
        sgx_ran = refl;
        sev_ran = refl;
        same_hash = agree;
        attested = attested ∙ ap (λ x. ok x.attestations) made;
        verified = ap (λ x. verify_attestation_pair random x.attestations) (sym made) ∙ checked;
        state_hash = ap (λ x. x.state_hash) (sym made);
        output = ap (λ x. x.output) (sym made);
      }
  finish-ok random parse_time region pair exec_time now (ok sgx) (err e) rm r h = cc
  finish-ok random parse_time region pair exec_time now (ok sgx) (panic c) rm r h = cc
  finish-ok random parse_time region pair exec_time now (err e) y rm r h = cc
  finish-ok random parse_time region pair exec_time now (panic c) y rm r h = cc

  require_healthy-ok :
      (h : HealthStatus F) (u : Unit {0})
      → require_healthy floats state_store h ≡ ok u
      → h.status ≡ text "healthy"
  unfolding require_healthy
  require_healthy-ok h u e = same→eq h.status (text "healthy") (ground arith)

  -- An execution in a region that returns a result had a region whose health was read as
  -- healthy, and the pair that the balancer selects; both nodes of the pair ran the request made
  -- of the action and returned the same state hash, the attestations that they gave are the
  -- result's and pass the verifier, and state hash and output are those of the first node.
  pub execute_in_region-IsAgreed :
      (random : Result Bytes) (parse_time : Bytes → Option ℕ) (sgx_first : Bool) (nodes : Nodes)
      (balancer : RegionBalancer F) (exec_time now : ℕ) (region : Bytes) (action : Action)
      (rm : States S F) (r : ExecutionResult)
      → (execute_in_region floats state_store random parse_time sgx_first nodes balancer exec_time
          now region action rm).0
        ≡ ok r
      → (health : HealthStatus F) × (pair : TeePair) × (get_region_health floats state_store region
            rm
          ≡ ok health)
        × (health.status ≡ text "healthy")
        × (select_optimal_pair floats now region balancer ≡ ok pair)
        × IsAgreed random parse_time nodes region action pair r
  unfolding execute_in_region run_both
  execute_in_region-IsAgreed random parse_time sgx_first nodes balancer exec_time now region action
        rm r h =
      let (health, (found, h1)) =
        bind-ok (gets (get_region_health floats state_store region)) _ rm r h in
      let (u, (healthy, h2)) = lift-ok (require_healthy floats state_store health) _ rm r h1 in
      let (pair, (selected, h3)) =
        lift-ok (select_optimal_pair floats now region balancer) _ rm r h2 in
      let (sgx, (sgx_known, h4)) = lift-ok (node_at nodes pair.sgx_endpoint) _ rm r h3 in
      let (sev, (sev_known, h5)) = lift-ok (node_at nodes pair.sev_endpoint) _ rm r h4 in
      let (request, (requested, h6)) = lift-ok (request_of region action) _ rm r h5 in
      (
        health,
        pair,
        found,
        require_healthy-ok health u healthy,
        selected,
        Finished-IsAgreed random parse_time nodes region action pair request sgx sev r requested
            sgx_known sev_known
            (finish-ok random parse_time region pair exec_time now (sgx request) (sev request) _ r
              h6),
      )
