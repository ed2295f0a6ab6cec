-- ===== src/Actions/CrossRegion/Checks.antt =====
-- Which intents the action accepts, once the coordinator of the process has been asked for.
use aristo.Prelude.{
  ◌≡◌, ◌<◌, ◌↔◌, refl, [], ◌∷◌, Bool, true, not, ◌&&◌, Bytes, is_empty, some, Result, ok, err,
  arith, if◌then◌else◌, length, false, invalid_signature, List, Option-cases, inl, inr, All,
}
use aristo.Prelude.Integers.{is_positive}
use aristo.Prelude.Dict
use aristo.Prelude.Dict.{Dict}
use aristo.Xregion.Intent.Transfers.{all_matched, validate_state_changes-matched}
use aristo.Storage.State.{Mutable}
use aristo.Xregion.Intent.{CrossRegionIntent, validate_state_changes}
use aristo.Actions.CrossRegion.{
  World, get_coordinator, has_signature, all_signed, verify_each, verify_signatures, validate_basic,
}

-- Whether no signature is empty.
abbrev pub none_empty : Dict Bytes → Bool
none_empty [] = true
none_empty ((region, signature) ∷ m) = not (is_empty signature) && none_empty m

-- The region has a signature, which is not empty.
abbrev pub IsSigned : Dict Bytes → Bytes → Type 0
IsSigned m region = (s : Bytes) × ((Dict.lookup region m ≡ some s) × (is_empty s ≡ false))

lookup-nonempty :
    (m : Dict Bytes) (region s : Bytes)
    → none_empty m ≡ true
    → Dict.lookup region m ≡ some s
    → is_empty s ≡ false
unfolding Dict.lookup
lookup-nonempty [] region s h e = cc
lookup-nonempty ((r, t) ∷ m) region s h e = ground (arith, lookup-nonempty m region s)

has_signature-IsSigned :
    (m : Dict Bytes) (region : Bytes)
    → none_empty m ≡ true
    → has_signature region m ≡ true
    → IsSigned m region
unfolding has_signature
has_signature-IsSigned m region h k = elim (Option-cases (Dict.lookup region m)) [
  | inl e ↦ absurd (ground arith)
  | inr (s, e) ↦ (s, (e, lookup-nonempty m region s h e))
]

all_signed-IsSigned :
    (regions : List Bytes) (m : Dict Bytes)
    → none_empty m ≡ true
    → all_signed regions m ≡ true
    → All (IsSigned m) regions
unfolding all_signed
all_signed-IsSigned [] m h k = tt
all_signed-IsSigned (r ∷ rs) m h k =
    (has_signature-IsSigned m r h (ground arith), all_signed-IsSigned rs m h (ground arith))

module _ {S Db : Type 0} (mu : Mutable S) (new_view : Db → Result (Unit {0})) where
  verify_each_done :
      (m : Dict Bytes) (w : World S)
      → w.once_done ≡ true
      → verify_each mu new_view m w ≡ ((if none_empty m then ok tt else err invalid_signature), w)
  unfolding verify_each get_coordinator
  verify_each_done [] w h = refl
  verify_each_done ((region, signature) ∷ m) w h = ground (arith, verify_each_done m w h)

  validate_basic_iff :
      (i : CrossRegionIntent) (w : World S)
      → w.once_done ≡ true
      → ((validate_basic mu new_view (some i) w).0 ≡ ok tt) ↔ (
          (is_positive i.time_window.duration ≡ true)
          × (0 < length i.state_changes)
          × (validate_state_changes i ≡ ok tt)
          × (has_signature i.source_region i.signatures ≡ true)
          × (all_signed i.target_regions i.signatures ≡ true)
          × (none_empty i.signatures ≡ true))
  unfolding validate_basic verify_signatures
  validate_basic_iff i w done = (
    (λ h. ground (arith, h, verify_each_done i.signatures w done)),
    (λ (d, n, v, s, t, e). ground (arith, d, n, v, s, t, e, verify_each_done i.signatures w done)),
  )

  -- Once the coordinator of the process has been asked for, an intent that passes the basic
  -- check has a time window of a positive duration and state changes, its source and every
  -- target have a signature that is not empty, every transfer out of its changes names its
  -- target, and every transfer in names a source and has a transfer out of the same key to its
  -- region.
  pub validate_basic-IsSigned :
      (i : CrossRegionIntent) (w : World S)
      → w.once_done ≡ true
      → (validate_basic mu new_view (some i) w).0 ≡ ok tt
      → (is_positive i.time_window.duration ≡ true)
        × (0 < length i.state_changes)
        × (all_matched i.state_changes i.state_changes ≡ true)
        × IsSigned i.signatures i.source_region
        × All (IsSigned i.signatures) i.target_regions
  validate_basic-IsSigned i w done h =
      let (d, n, v, s, t, e) = (validate_basic_iff i w done).0 h in
      (
        d,
        n,
        validate_state_changes-matched i v,
        has_signature-IsSigned i.signatures i.source_region e s,
        all_signed-IsSigned i.target_regions i.signatures e t,
      )
