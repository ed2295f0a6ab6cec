-- ===== src/Prelude/Errors.antt =====
-- The errors that the program returns. A sentinel keeps its name; one made by `fmt.Errorf` with no
-- `%w` has a constructor of its own; wrapping by `%w` keeps the error that `errors.Is` finds.
-- A not-found error is told apart by the package that declares it, as `errors.Is` does.
pub data Error : Type 0 where
  -- avalanchego database.ErrNotFound, go-ethereum storage.ErrNotFound, actions.ErrNotFound
  db_not_found geth_not_found actions_not_found : Error
  -- any other failure of a store, a clock, a key generator or another outside service
  outside : Error
  -- storage
  insufficient_balance balance_overflow corrupt_balance invalid_coordination : Error
  invalid_region_id decode_failed : Error
  -- actions
  output_value_zero output_memo_too_large : Error
  -- core
  invalid_regional_key : Error
  -- vm
  invalid_format unsupported_format malformed_code code_exceeds_limit invalid_header : Error
  invalid_tee_format invalid_tee_type : Error
  -- timeserver
  region_id_required insufficient_servers insufficient_healthy_servers invalid_response : Error
  unknown_server bad_signature quorum_timeout context_done insufficient_responses : Error
  time_spread_too_large : Error
  -- coordination
  nil_task too_many_tasks submission_cancelled submission_timed_out task_not_found : Error
  task_not_running not_enough_workers worker_not_found worker_exists worker_stopped : Error
  message_channel_full not_for_this_worker unknown_message_type coordination_timeout : Error
  no_tee_pairs region_not_found region_exists unauthorized_tee_pair timestamps_differ : Error
  timestamp_outside_window missing_signature nil_attestation coordinator_stopped : Error
  worker_timed_out invalid_region : Error
  -- coordination/xregion
  missing_target missing_source no_transfer_out target_mismatch empty_signature : Error
  -- actions/cross_region.go
  nil_intent invalid_time_window empty_state_changes invalid_state_changes invalid_signature : Error
  nil_coordinator missing_proof not_covered : Error
  -- actions/shuttle.go and actions/region.go
  object_exists object_not_found invalid_id invalid_function code_too_large : Error
  storage_too_large region_required missing_attestation attestation_mismatch : Error
  region_mismatch wrong_tee_format invalid_attestation empty_code invalid_start_byte store_access
        proof_generation :
      Error
  region_config_exists too_many_tees invalid_tee failed_after_retries : Error
  -- verifier
  input_object_missing unknown_action batch_limit duplicate_action conflicting_action : Error
  invalid_timestamp_order duplicate_attestation missing_time_proof : Error
  insufficient_time_proofs time_proof_too_old missing_region_proof wrong_attestation_count : Error
  -- vm/core.go
  wrong_measurement attestation_data_mismatch state_hash_mismatch : Error
  node_not_found unhealthy_region unsupported_action : Error
  -- regions
  id_required invalid_config invalid_tee_pair duplicate_tee_pair invalid_limits : Error
  invalid_location invalid_distance config_not_found no_healthy_regions no_pairs : Error
  no_healthy_pairs pair_not_found : Error
  -- compute
  no_region wrong_region node_busy : Error
