-- ===== src/Lib.antt =====
-- Aristo: a verification library for the Go code of the repository.
--
-- The program is a chain of the hypersdk that runs code in pairs of enclaves. A transaction reads and
-- writes the chain's state (storage/, actions/); regions are served by pairs of enclaves, one SGX and
-- one SEV, which a coordinator (coordination/) gives tasks; a network of time servers (timeserver/)
-- signs the time; code is checked before it is accepted (vm/code_validator.go); and intents that span
-- regions are collected and checked in coordination/xregion/.
--
-- Which file models what:
--   Prelude        results with errors and panics, actions on a state, Go's maps and strings, and
--                  rules for invariants of actions
--   Storage        storage/storage.go and storage/state_manager.go: `Balance` (BalanceKey, AddBalance,
--                  SubBalance), `Fees` (Deduct, CanDeduct, SponsorStateKeys), `Keys` (makeKey and its
--                  kin), `Objects` and `Coordinated` (objects, events, regions and the coordination
--                  state in the chain's state); `State` is the interface to hypersdk's state.Mutable,
--                  `Words` its integers, `Codec` the JSON encoding; `Stores` is the MerkleStore of
--                  storage/region_store.go, `Manager` the objects, events and regions of
--                  storage/state_manager.go over it; `RegionStates` is storage/region_state_store.go, which
--                  fills `StateStore` of Regions
--   Actions        actions/transfer.go in `Transfer`: StateKeys and Execute; actions/cross_region.go in
--                  `CrossRegion`, with what it calls of coordination/xregion/coordinator.go;
--                  actions/shuttle.go in `Shuttle` (CreateObject, SendEvent, SetInputObject) and
--                  `Attestations`; actions/region.go in `Region`
--   Core           core/regional_helpers.go, the types of core/, and `StateManager`, the part of the
--                  interface of interfaces.go that the actions call after a type assertion, which the
--                  state manager of storage/ fails
--   Vm             vm/code_validator.go; vm/core.go's verifyTEEExecution in `Execution`, and in `Regional`
--                  its ExecuteInRegion, ValidateTransaction and ValidateAndExecute with
--                  ValidateRegionalAction of vm/tee_validator.go
--   Verifier       verifier/verifier.go, and verifier/batch.go in `Batch`
--   Regions        regions/config.go in `Config` (Validate) and `Manager` (the maps of configurations),
--                  regions/balancer.go in `Balancer`, the metrics of regions/types.go in `Metrics`,
--                  the states of pairs in regions/manager.go in `States` (over `StateStore`, the
--                  Storage interface), regions/health.go and regions/monitor.go in `Health`
--   Compute        compute/service.go: Execute and its helpers; `Compute.Slots` is the step relation of
--                  requests that overlap
--   TimeServer     timeserver/: `Server` is GetTimestamp, `Network` the rest, `Network.Lifecycle` Start
--                  and Stop
--   Coordination   coordination/: `Channel`, `Worker`, and the coordinator in `State`, `Tasks` (the
--                  task map and the queue) and `Pairs` (pairs of enclaves, attestations, queries);
--                  `RangeCache` is coordination/state/cache.go; `Wrapper` is storage_wrapper.go over
--                  `BaseStorage`, `MerkleStorage` is storage.go over `ViewDb`, and `Registry` the
--                  coordinator's workers, regions, channels and messages over `Wrapper`
--   Xregion        coordination/xregion/types.go
--   Examples       runs at concrete inputs
--
-- A method that changes its receiver is a function from the state before to a result and the state
-- after; an error does not undo what was written before it. Numbers are natural numbers; a word of 64
-- bits and the error count of a pair's state, an int, wrap where the source lets them; the int32 count
-- of a pair's tasks in the coordinator is not bounded. A time is a number of nanoseconds. A map is a list of entries,
-- and a range over it visits them in the list's order, which Go leaves open. What a goroutine does
-- under the coordinator's lock is one function, and a run of the coordinator is a list of them. The
-- events that a request for the time selects on are a list too. Every loop is a recursion on a list,
-- so no bound or fuel is chosen.
--
-- Code outside the repository is a parameter: the chain's state with the law that a read sees the last
-- write, merkledb with the same law, the JSON encoding with the law that a map is read back with its
-- fields, the text of an address and of a time, ed25519, avalanchego's checked addition, crypto/rand.
-- The Merkle stores take the coordinator's pair and channel through an interface. The storage wrapper's
-- base and the Merkle storage's views have laws of the same kind, and the compute nodes' replies, the
-- bridge to the enclaves and the parsing of a time are functions.
--
-- In `Coordination.Tasks` a task keeps the workers that it was submitted with; the pair that
-- handleRegionalTask puts in their place, and the sending of a task to its workers, are in
-- `Coordination.Registry`. An execution in a region takes what its two calls returned, and which of
-- them reported first.
--
-- Floats are a parameter with the law that their comparison is a strict order.
--
-- Not modelled: the inside of merkledb and of encodings, the load factors of workers, the
-- temporary files of a compute node, regions/pair_manager.go, the setting up of a node in vm/ and its
-- rounds over the health of compute nodes, gRPC, HTTP, the command lines, and generated code.
pub mod Prelude
pub mod Storage
pub mod Actions
pub mod Core
pub mod Vm
pub mod Xregion
pub mod TimeServer
pub mod Coordination
pub mod Verifier
pub mod Regions
pub mod Compute
pub mod Examples
