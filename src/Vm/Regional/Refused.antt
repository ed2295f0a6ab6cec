-- ===== src/Vm/Regional/Refused.antt =====
-- vm/core.go over regions/: an execution in a region whose health was only ever written by its checks.
use aristo.Prelude.{
  ap, then_try, [], ℕ, ◌≡◌, refl, ◌∙◌, List, Bool, true, Bytes, every, Option, Result, err, Error,
}
use aristo.Prelude.Floats.{Floats}
use aristo.Regions.States.{States, StateStore, get_region_health}
use aristo.Regions.Balancer.{RegionBalancer}
use aristo.Regions.Health.Unread.{IsStateStore}
use aristo.Regions.Health.Missing.{Op, is_named, run, get_region_health-run}
use aristo.Storage.State.{Mutable, IsMutable}
use aristo.Storage.RegionStates.{
  RegionCodecs, state_key_of, region_state_store, read_json, get_tee_state,
}
use aristo.Storage.RegionStates.Apart.{region_state_store-IsStateStore}
use aristo.Vm.Execution.{Action}
use aristo.Vm.Regional.{Nodes, execute_in_region}

module _ {S F : Type 0} (floats : Floats F) (state_store : StateStore S F)
    (laws : IsStateStore state_store) where
  missing-health :
      (region : Bytes) (rm : States S F) (e : Error)
      → state_store.get_tee_state region [] rm.stored ≡ err e
      → get_region_health floats state_store region rm ≡ err e
  unfolding get_region_health
  missing-health region rm e h = rw h refl

  refused :
      (random : Result Bytes) (parse_time : Bytes → Option ℕ) (sgx_first : Bool) (nodes : Nodes)
      (balancer : RegionBalancer F) (exec_time now : ℕ) (region : Bytes) (action : Action)
      (rm : States S F) (e : Error)
      → get_region_health floats state_store region rm ≡ err e
      → execute_in_region floats state_store random parse_time sgx_first nodes balancer exec_time
          now region action rm
        ≡ (err e, rm)
  unfolding execute_in_region
  refused random parse_time sgx_first nodes balancer exec_time now region action rm e h = rw h refl

  -- Over such a store, where it answers with an error for the pair without a name of a region,
  -- after any such calls every execution in the region returns that error and changes nothing in
  -- the manager.
  pub execute_in_region-run :
      (random : Result Bytes) (parse_time : Bytes → Option ℕ) (sgx_first : Bool) (nodes : Nodes)
      (balancer : RegionBalancer F) (exec_time now : ℕ) (region : Bytes) (action : Action)
      (os : List (Op F)) (rm : States S F) (e : Error)
      → every is_named os ≡ true
      → state_store.get_tee_state region [] rm.stored ≡ err e
      → execute_in_region floats state_store random parse_time sgx_first nodes balancer exec_time
          now region action
          (run floats state_store laws os rm)
        ≡ (err e, run floats state_store laws os rm)
  execute_in_region-run random parse_time sgx_first nodes balancer exec_time now region action os rm
        e named h =
      refused random parse_time sgx_first nodes balancer exec_time now region action
        (run floats state_store laws os rm) e
        (get_region_health-run floats state_store laws region os rm named
          ∙ missing-health region rm e h)

module _ {S F : Type 0} (floats : Floats F) (mu : Mutable S) (laws : IsMutable mu)
    (codecs : RegionCodecs F) where
  missing-state :
      (region : Bytes) (s : S) (e : Error)
      → mu.get_value s (state_key_of region []) ≡ err e
      → (region_state_store mu codecs).get_tee_state region [] s ≡ err e
  unfolding region_state_store get_tee_state read_json
  missing-state region s e h = ap (λ x. then_try x codecs.state.unmarshal) h

  -- Over the state store of storage/region_state_store.go on a state in which a read sees the
  -- last write, where the state has nothing under the key of the region and the empty pair,
  -- after any calls of RegisterTEEPair, UpdateTEEState, UpdateMetrics, UpdateRegionHealth and
  -- UpdateRegionMetrics and rounds of performHealthChecks, each of which saves states only under
  -- names that are not empty and do not end with a slash, every execution in the region returns
  -- the state's error for that key and changes nothing in the manager.
  pub execute_in_region-region_state_store :
      (random : Result Bytes) (parse_time : Bytes → Option ℕ) (sgx_first : Bool) (nodes : Nodes)
      (balancer : RegionBalancer F) (exec_time now : ℕ) (region : Bytes) (action : Action)
      (os : List (Op F)) (rm : States S F) (e : Error)
      → every is_named os ≡ true
      → mu.get_value rm.stored (state_key_of region []) ≡ err e
      → execute_in_region floats
          (region_state_store mu codecs)
          random
          parse_time
          sgx_first
          nodes
          balancer
          exec_time
          now
          region
          action
          (run floats
            (region_state_store mu codecs)
            (region_state_store-IsStateStore mu laws codecs)
            os
            rm)
        ≡ (
          err e,
          run floats
              (region_state_store mu codecs)
              (region_state_store-IsStateStore mu laws codecs)
              os
              rm,
        )
  execute_in_region-region_state_store random parse_time sgx_first nodes balancer exec_time now
        region action os rm e named h =
      execute_in_region-run floats (region_state_store mu codecs)
        (region_state_store-IsStateStore mu laws codecs) random parse_time sgx_first nodes balancer
        exec_time now region action os rm e named (missing-state region rm.stored e h)
