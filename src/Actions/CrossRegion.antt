-- ===== src/Actions/CrossRegion.antt =====
-- actions/cross_region.go: the action that applies an intent of several regions, with the parts of
-- coordination/xregion/coordinator.go that it calls. The global coordinator belongs to the process, so
-- it stands in the state beside the chain's. `new_view` is merkledb's, `range_proof` gives the keys of
-- a proof of the coordinator's store.
pub mod Checks
pub mod Effects
use aristo.Prelude.{
  ℕ, ◌+◌, ◌*◌, [], ◌∷◌, ◌++◌, List, Bool, true, false, not, ◌||◌, Bytes, same, is_empty, before,
  Option, none, some, Result, ok, err, panic, then_try, Act, pure, fail, gets, lift, store,
  reject_if, ◌>>=◌, ◌>>◌, length, map, take, ltb, ◌==◌, if◌then◌else◌, nil_pointer, panicked,
  out_of_range, nil_intent, invalid_time_window, empty_state_changes, invalid_state_changes,
  invalid_signature, missing_signature, empty_signature, nil_coordinator, missing_proof,
  not_covered,
}
use aristo.Prelude.Integers.{is_positive}
use aristo.Prelude.Dict
use aristo.Prelude.Dict.{Dict}
use aristo.Storage.State.{Mutable}
use aristo.Xregion.Intent.{
  CrossRegionIntent, StateChange, StateOperation, op_set, op_delete, transfer_out, transfer_in,
  op_lock, op_unlock, validate_state_changes,
}

-- Whether `initOnce` has run, and whether `globalCoordinator` is set.
pub record World (S : Type 0) : Type 0 where
  pub once_done : Bool
  pub coordinator_set : Bool
  pub chain : S

-- A nil database has no method that can be called.
unfoldable pub new_merkle_store :
    {Db : Type 0} → (Db → Result (Unit {0})) → Option Db → Result (Unit {0})
new_merkle_store new_view none = panic nil_pointer
new_merkle_store new_view (some db) = new_view db

-- A panic inside a `sync.Once` leaves it done.
unfoldable pub get_coordinator : {S Db : Type 0} → (Db → Result (Unit {0})) → Act (World S) Bool
unfolding new_merkle_store
get_coordinator new_view w =
    if w.once_done then (ok w.coordinator_set, w) else elim (new_merkle_store new_view none) [
      | ok u ↦ (ok true, record w { once_done = true; coordinator_set = true })
      | err e ↦ (panic panicked, record w { once_done = true })
      | panic c ↦ (panic c, record w { once_done = true })
    ]

-- VerifySignature reads nothing of its receiver, which may be nil.
unfoldable pub verify_signature : Bytes → Result (Unit {0})
verify_signature signature = if is_empty signature then err empty_signature else ok tt

unfoldable pub has_signature : Bytes → Dict Bytes → Bool
has_signature region signatures = elim (Dict.lookup region signatures) [
  | none ↦ false
  | some s ↦ true
]

unfoldable pub all_signed : List Bytes → Dict Bytes → Bool
unfolding has_signature
all_signed [] signatures = true
all_signed (region ∷ regions) signatures =
    if has_signature region signatures then all_signed regions signatures else false

unfoldable pub process_regions : List Bytes → Bytes → Result (Unit {0})
unfolding verify_signature
process_regions [] signature = ok tt
process_regions (region ∷ regions) signature =
    then_try (verify_signature signature) λ u. process_regions regions signature

-- The sort of groupChangesByPrefix.
unfoldable pub put_by_key : StateChange → List StateChange → List StateChange
put_by_key c [] = c ∷ []
put_by_key c (d ∷ ds) =
    let rest = put_by_key c ds in if before d.key c.key then d ∷ rest else c ∷ d ∷ ds

unfoldable pub sort_by_key : List StateChange → List StateChange
unfolding put_by_key
sort_by_key [] = []
sort_by_key (c ∷ cs) = put_by_key c (sort_by_key cs)

-- The ranges behind the one from `start` to `end`; a key of less than eight bytes cannot be sliced.
unfoldable pub ranges_from : Bytes → Bytes → List StateChange → Result (List (Bytes × Bytes))
ranges_from start end [] = ok ((start, end) ∷ [])
ranges_from start end (c ∷ cs) =
    let extends = same (take 8 c.key) (take 8 end) in
    let rest = ranges_from (if extends then start else c.key) c.key cs in
    if ltb (length c.key) 8 || ltb (length end) 8
    then panic out_of_range
    else if extends
    then rest
    else then_try rest λ ranges. ok ((start, end) ∷ ranges)

unfoldable pub group_changes_by_prefix : List StateChange → Result (List (Bytes × Bytes))
unfolding ranges_from
group_changes_by_prefix [] = ok []
group_changes_by_prefix (c ∷ cs) = ranges_from c.key c.key cs

unfoldable pub contains_key : Bytes → List Bytes → Bool
contains_key k [] = false
contains_key k (j ∷ js) = same j k || contains_key k js

unfoldable pub covers : List Bytes → List StateChange → Bool
unfolding contains_key
covers keys [] = true
covers keys (c ∷ cs) = if contains_key c.key keys then covers keys cs else false

unfoldable pub all_covered : Dict (List Bytes) → Dict (List StateChange) → Result (Unit {0})
unfolding covers
all_covered proofs [] = ok tt
all_covered proofs ((region, []) ∷ m) = all_covered proofs m
all_covered proofs ((region, c ∷ cs) ∷ m) =
    let rest = all_covered proofs m in
    elim (Dict.lookup region proofs) [
      | none ↦ err missing_proof
      | some keys ↦ if covers keys (c ∷ cs) then rest else err not_covered
    ]

abbrev pub in_region : Bytes → List (Bytes × Bytes) → List (Bytes × (Bytes × Bytes))
in_region region ranges = map (λ range. (region, range)) ranges

unfoldable pub get_required_ranges :
    Dict (List StateChange) → Result (List (Bytes × (Bytes × Bytes)))
unfolding group_changes_by_prefix
get_required_ranges [] = ok []
get_required_ranges ((region, changes) ∷ m) =
    then_try (group_changes_by_prefix changes)
      λ ranges. then_try (get_required_ranges m) λ rest. ok (in_region region ranges ++ rest)

-- The proof of a region's last range is the one that is kept.
unfoldable pub request_proofs :
    (Bytes → Bytes → Result (List Bytes))
    → List (Bytes × (Bytes × Bytes))
    → Dict (List Bytes)
    → Result (Dict (List Bytes))
request_proofs range_proof [] proofs = ok proofs
request_proofs range_proof ((region, (start, end)) ∷ ranges) proofs =
    then_try (range_proof start end)
      λ keys. request_proofs range_proof ranges (Dict.insert region keys proofs)

-- The regions that have a change.
unfoldable pub changed_regions : Dict (List StateChange) → List Bytes
changed_regions [] = []
changed_regions ((region, []) ∷ m) = changed_regions m
changed_regions ((region, c ∷ cs) ∷ m) = region ∷ changed_regions m

-- Sorting is in place, so what follows it sees each region's changes in the order of their keys.
unfoldable pub sort_changes : Dict (List StateChange) → Dict (List StateChange)
unfolding sort_by_key
sort_changes [] = []
sort_changes ((region, changes) ∷ m) = (region, sort_by_key changes) ∷ sort_changes m

module _ {S : Type 0} (mu : Mutable S) where
  unfoldable pub apply_change : StateOperation → StateChange → Act S (Unit {0})
  apply_change op_set c = store (λ s. mu.insert s c.key c.value) tt
  apply_change transfer_out c = store (λ s. mu.remove s c.key) tt
  apply_change op_delete c = pure tt
  apply_change transfer_in c = pure tt
  apply_change op_lock c = pure tt
  apply_change op_unlock c = pure tt

  unfoldable pub apply_changes : List StateChange → Act S (Unit {0})
  unfolding apply_change
  apply_changes [] = pure tt
  apply_changes (c ∷ cs) = apply_change c.operation c >> apply_changes cs

  unfoldable pub apply_regions : Dict (List StateChange) → Act S (Unit {0})
  unfolding apply_changes
  apply_regions [] = pure tt
  apply_regions ((region, changes) ∷ m) = apply_changes changes >> apply_regions m

  unfoldable pub on_chain : Act S (Unit {0}) → Act (World S) (Unit {0})
  on_chain m w = let (r, s) = m w.chain in (r, record w { chain = s })

  module _ {Db : Type 0} (new_view : Db → Result (Unit {0})) where
    unfoldable pub verify_each : Dict Bytes → Act (World S) (Unit {0})
    unfolding get_coordinator verify_signature
    verify_each [] = pure tt
    verify_each ((region, signature) ∷ m) = do
      coordinator ← get_coordinator new_view
      reject_if (is_empty signature) invalid_signature
      verify_each m

    unfoldable pub verify_signatures : CrossRegionIntent → Act (World S) (Unit {0})
    unfolding has_signature all_signed verify_each
    verify_signatures i = do
      reject_if (not (has_signature i.source_region i.signatures)) missing_signature
      reject_if (not (all_signed i.target_regions i.signatures)) missing_signature
      verify_each i.signatures

    unfoldable pub validate_basic : Option CrossRegionIntent → Act (World S) (Unit {0})
    unfolding verify_signatures
    validate_basic none = fail nil_intent
    validate_basic (some i) = do
      reject_if (not (is_positive i.time_window.duration)) invalid_time_window
      reject_if (length i.state_changes == 0) empty_state_changes
      reject_if (elim (validate_state_changes i) [ ok u ↦ false | _ ↦ true ]) invalid_state_changes
      verify_signatures i

    unfoldable pub execute_intent :
        (Bytes → Bytes → Result (List Bytes)) → Option CrossRegionIntent → Act (World S) (Unit {0})
    unfolding on_chain apply_regions
    execute_intent range_proof none = fail nil_intent
    execute_intent range_proof (some i) = do
      let changes = sort_changes i.state_changes
      ranges ← lift (get_required_ranges changes)
      proofs ← lift (request_proofs range_proof ranges [])
      lift (process_regions (changed_regions changes) (1 ∷ []))
      lift (all_covered proofs changes)
      on_chain (apply_regions changes)

    unfoldable pub execute :
        (Bytes → Bytes → Result (List Bytes)) → Option CrossRegionIntent → Act (World S) (Unit {0})
    unfolding validate_basic get_coordinator execute_intent
    execute range_proof intent = do
      validate_basic intent
      coordinator ← get_coordinator new_view
      reject_if (not coordinator) nil_coordinator
      execute_intent range_proof intent

-- StateKeys; `write` is hypersdk's permission.
unfoldable pub change_keys :
    {Permission : Type 0} → Permission → List StateChange → Dict Permission → Dict Permission
change_keys write [] keys = keys
change_keys write (c ∷ cs) keys =
    let rest = change_keys write cs keys in
    elim c.operation [
      | op_set ↦ Dict.insert c.key write rest
      | transfer_out ↦ Dict.insert c.key write rest
      | _ ↦ rest
    ]

unfoldable pub state_keys :
    {Permission : Type 0} → Permission → Dict (List StateChange) → Dict Permission
unfolding change_keys
state_keys write [] = []
state_keys write ((region, changes) ∷ m) = change_keys write changes (state_keys write m)
