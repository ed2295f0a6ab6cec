-- ===== src/Examples/Intents.antt =====
-- An intent that moves a key from one region to another.
use aristo.Prelude.{◌≡◌, refl, same, true, false, [], ◌∷◌, Bytes, text, ok}
use aristo.Prelude.{Bool, List, Result, some, none, length, All, ◌<◌}
use aristo.Prelude.Dict
use aristo.Prelude.Dict.{Dict}
use aristo.Storage.State.{memory, memory-IsMutable}
use aristo.Actions.CrossRegion.{World, execute, validate_basic, apply_regions, state_keys}
use aristo.Actions.CrossRegion.Checks.{IsSigned, validate_basic-IsSigned}
use aristo.Prelude.Integers.{pos, is_positive}
use aristo.Actions.CrossRegion.Effects.{Fails, execute-Fails, apply_regions-state_keys}
use aristo.Xregion.Intent.{
  CrossRegionIntent, StateChange, op_set, new_cross_region_intent, validate_state_changes,
}
use aristo.Xregion.Intent.Transfers.{
  all_matched, one_transfer, validate_state_changes-matched, validate_state_changes_order,
}

abbrev east : Bytes
east = text "east"

abbrev west : Bytes
west = text "west"

abbrev empty_intent : CrossRegionIntent
empty_intent = new_cross_region_intent (text "tx") east (west ∷ []) 100

abbrev moving : CrossRegionIntent
moving = record empty_intent { state_changes = one_transfer true east west (text "door") }

abbrev writing : StateChange
writing = record {
  key = text "door";
  value = text "open";
  operation = op_set;
  source = [];
  target = [];
}

moving_is_valid : validate_state_changes moving ≡ ok tt
moving_is_valid = (validate_state_changes_order empty_intent east west (text "door") refl refl).0

validate_state_changes-matched_example :
    all_matched moving.state_changes moving.state_changes ≡ true
validate_state_changes-matched_example = validate_state_changes-matched moving moving_is_valid

-- The process before its first request, and after a request that was cut short.
abbrev world : Bool → World (Dict Bytes)
world once_done = record {
  once_done = once_done;
  coordinator_set = false;
  chain = (text "door", 1 ∷ []) ∷ [];
}

abbrev new_view : Bool → Result (Unit {0})
new_view db = ok tt

abbrev range_proof : Bytes → Bytes → Result (List Bytes)
range_proof start end = ok (start ∷ end ∷ [])

execute-Fails_example :
    Fails memory new_view
      (world false).chain
      (execute memory new_view range_proof (some moving) (world false))
execute-Fails_example =
    execute-Fails memory new_view (world false).chain range_proof (some moving) (world false)
      (record { unset = refl; same_chain = refl })

-- Both regions have signed.
abbrev signed : CrossRegionIntent
signed = record moving {
  time_window = record { start = 5; duration = pos 10 };
  signatures = (east, 1 ∷ []) ∷ (west, 2 ∷ []) ∷ [];
}

signed_accepted : (validate_basic memory new_view (some signed) (world true)).0 ≡ ok tt
unfolding validate_basic Dict.lookup same validate_state_changes Dict.insert new_cross_region_intent
signed_accepted = refl

validate_basic-IsSigned_example :
    (is_positive signed.time_window.duration ≡ true)
    × (0 < length signed.state_changes)
    × (all_matched signed.state_changes signed.state_changes ≡ true)
    × IsSigned signed.signatures signed.source_region
    × All (IsSigned signed.signatures) signed.target_regions
validate_basic-IsSigned_example =
    validate_basic-IsSigned memory new_view signed (world true) refl signed_accepted

sky_undeclared : Dict.lookup (text "sky") (state_keys true moving.state_changes) ≡ none
unfolding state_keys Dict.lookup Dict.insert same
sky_undeclared = refl

apply_regions-state_keys_example :
    memory.get_value (apply_regions memory moving.state_changes (world false).chain).1 (text "sky")
    ≡ memory.get_value (world false).chain (text "sky")
apply_regions-state_keys_example =
    apply_regions-state_keys memory memory-IsMutable true moving.state_changes (text "sky")
      (world false).chain sky_undeclared
