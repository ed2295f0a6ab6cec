-- ===== src/Xregion/Intent.antt =====
-- coordination/xregion/types.go: an intent, its dependencies and the check of its state changes.
-- A map that is nil reads as one with no entry, and each writer makes the map first.
pub mod Dependencies
pub mod Transfers
use aristo.Prelude.{
  ℕ, ◌+◌, [], ◌∷◌, ◌++◌, List, Bool, true, false, not, ◌&&◌, ◌||◌, Bytes, same, is_empty, Option,
  none, some, Result, ok, err, panic, then_try, if◌then◌else◌, missing_target, missing_source,
  no_transfer_out, target_mismatch,
}
use aristo.Prelude.Integers.{ℤ, pos, moved}
use aristo.Prelude.Dict
use aristo.Prelude.Dict.{Dict}

pub data IntentStatus : Type 0 where
  pending confirmed executing committed aborted failed : IntentStatus

pub data StateOperation : Type 0 where
  op_set op_delete transfer_out transfer_in op_lock op_unlock : StateOperation

pub record TimeWindow : Type 0 where
  pub start : ℕ
  pub duration : ℤ

abbrev pub window_end : TimeWindow → ℤ
window_end w = moved w.start w.duration

pub record StateChange : Type 0 where
  pub key : Bytes
  pub value : Bytes
  pub operation : StateOperation
  pub source : Bytes
  pub target : Bytes

pub record CrossRegionIntent : Type 0 where
  pub id : Bytes
  pub source_region : Bytes
  pub target_regions : List Bytes
  pub time_window : TimeWindow
  pub status : IntentStatus
  pub created_at : ℕ
  pub signatures : Dict Bytes
  pub state_changes : Dict (List StateChange)
  pub dependencies : Dict (List Bytes)
  pub data_bytes : Bytes

unfoldable pub new_cross_region_intent : Bytes → Bytes → List Bytes → ℕ → CrossRegionIntent
new_cross_region_intent id source_region target_regions now = record {
  id = id;
  source_region = source_region;
  target_regions = target_regions;
  time_window = record { start = 0; duration = pos 0 };
  status = pending;
  created_at = now;
  signatures = [];
  state_changes = [];
  dependencies = [];
  data_bytes = [];
}

-- m[k] of a map of slices: a key that is not there reads as the nil slice.
unfoldable pub slice_at : {A : Type 0} → Bytes → Dict (List A) → List A
slice_at k m = elim (Dict.lookup k m) [ none ↦ [] | some xs ↦ xs ]

unfoldable pub get_dependencies : Bytes → CrossRegionIntent → List Bytes
unfolding slice_at
get_dependencies region i = slice_at region i.dependencies

unfoldable pub get_state_changes : Bytes → CrossRegionIntent → List StateChange
unfolding slice_at
get_state_changes region i = slice_at region i.state_changes

unfoldable pub add_state_change : Bytes → StateChange → CrossRegionIntent → CrossRegionIntent
unfolding slice_at
add_state_change region change i = record i {
  state_changes =
      Dict.insert region (slice_at region i.state_changes ++ change ∷ []) i.state_changes;
}

unfoldable pub has_dependency : Bytes → List Bytes → Bool
has_dependency d [] = false
has_dependency d (e ∷ es) = same e d || has_dependency d es

unfoldable pub add_dependency : Bytes → Bytes → CrossRegionIntent → CrossRegionIntent
unfolding slice_at has_dependency
add_dependency region depends_on i =
    let deps = slice_at region i.dependencies in
    if has_dependency depends_on deps
    then i
    else record i { dependencies = Dict.insert region (deps ++ depends_on ∷ []) i.dependencies }

pub record Pending : Type 0 where
  pub source : Bytes
  pub target : Bytes
  pub key : Bytes

-- The transfers out that the loop has passed, by key.
unfoldable pub check_transfer : Option Pending → Bytes → Dict Pending → Result (Dict Pending)
check_transfer none region transfers = err no_transfer_out
check_transfer (some t) region transfers =
    if same t.target region then ok transfers else err target_mismatch

unfoldable pub check_operation :
    StateOperation → Bytes → StateChange → Dict Pending → Result (Dict Pending)
unfolding check_transfer
check_operation op_set region change transfers = ok transfers
check_operation op_delete region change transfers = ok transfers
check_operation op_lock region change transfers = ok transfers
check_operation op_unlock region change transfers = ok transfers
check_operation transfer_out region change transfers =
    if is_empty change.target
    then err missing_target
    else ok (
        Dict.insert change.key
          (record { source = region; target = change.target; key = change.key }) transfers)
check_operation transfer_in region change transfers =
    if is_empty change.source
    then err missing_source
    else check_transfer (Dict.lookup change.key transfers) region transfers

unfoldable pub check_region : Bytes → List StateChange → Dict Pending → Result (Dict Pending)
unfolding check_operation
check_region region [] transfers = ok transfers
check_region region (change ∷ changes) transfers =
    then_try (check_operation change.operation region change transfers)
      (check_region region changes)

unfoldable pub check_regions : Dict (List StateChange) → Dict Pending → Result (Dict Pending)
unfolding check_region
check_regions [] transfers = ok transfers
check_regions ((region, changes) ∷ m) transfers =
    then_try (check_region region changes transfers) (check_regions m)

unfoldable pub validate_state_changes : CrossRegionIntent → Result (Unit {0})
unfolding check_regions
validate_state_changes i = then_try (check_regions i.state_changes []) (λ transfers. ok tt)
