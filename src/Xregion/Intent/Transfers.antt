-- ===== src/Xregion/Intent/Transfers.antt =====
-- What the check of an intent's state changes guarantees, and what the order of the map has to do
-- with it.
use aristo.Prelude.{
  ◌≡◌, refl, [], ◌∷◌, List, Bool, true, false, not, ◌&&◌, ◌||◌, Bytes, same, same_iff, same_refl,
  is_empty, Option, none, some, Result-cases, ok, err, if◌then◌else◌, arith, inl, inr,
  no_transfer_out,
}
use aristo.Prelude.Dict
use aristo.Prelude.Dict.{Dict}
use aristo.Xregion.Intent.{
  CrossRegionIntent, StateChange, StateOperation, op_set, op_delete, op_lock, op_unlock,
  transfer_out, transfer_in, Pending, check_transfer, check_operation, check_region, check_regions,
  validate_state_changes,
}

-- Whether a change moves `k` out to the region `t`.
unfoldable sends_by : StateOperation → Bytes → Bytes → StateChange → Bool
sends_by transfer_out k t change = same change.key k && same change.target t
sends_by transfer_in k t change = false
sends_by op_set k t change = false
sends_by op_delete k t change = false
sends_by op_lock k t change = false
sends_by op_unlock k t change = false

unfoldable region_sends : Bytes → Bytes → List StateChange → Bool
unfolding sends_by
region_sends k t [] = false
region_sends k t (change ∷ changes) =
    sends_by change.operation k t change || region_sends k t changes

-- Whether some region of the map moves `k` out to the region `t`.
unfoldable pub sends : Bytes → Bytes → Dict (List StateChange) → Bool
unfolding region_sends
sends k t [] = false
sends k t ((region, changes) ∷ m) = region_sends k t changes || sends k t m

unfoldable matched_by : StateOperation → Dict (List StateChange) → Bytes → StateChange → Bool
unfolding sends
matched_by transfer_out all region change = not (is_empty change.target)
matched_by transfer_in all region change =
    not (is_empty change.source) && sends change.key region all
matched_by op_set all region change = true
matched_by op_delete all region change = true
matched_by op_lock all region change = true
matched_by op_unlock all region change = true

unfoldable region_matched : Dict (List StateChange) → Bytes → List StateChange → Bool
unfolding matched_by
region_matched all region [] = true
region_matched all region (change ∷ changes) =
    matched_by change.operation all region change && region_matched all region changes

-- Every transfer names its other region, and every transfer in has a transfer out of the same key
-- to its region somewhere in `all`.
unfoldable pub all_matched : Dict (List StateChange) → Dict (List StateChange) → Bool
unfolding region_matched
all_matched all [] = true
all_matched all ((region, changes) ∷ m) = region_matched all region changes && all_matched all m

abbrev Known : Dict (List StateChange) → Dict Pending → Type 0
Known all transfers =
    (k : Bytes) (t : Pending) → Dict.lookup k transfers ≡ some t → sends k t.target all ≡ true

check_transfer-Known :
    (all : Dict (List StateChange)) (found : Option Pending) (region k : Bytes)
    (transfers after : Dict Pending)
    → Known all transfers
    → Dict.lookup k transfers ≡ found
    → check_transfer found region transfers ≡ ok after
    → (transfers ≡ after) × (sends k region all ≡ true)
unfolding check_transfer
check_transfer-Known all none region k transfers after known e h = ground arith
check_transfer-Known all (some t) region k transfers after known e h =
    ground (arith, known k t e, same_iff t.target region)

Known-insert :
    (all : Dict (List StateChange)) (k₀ : Bytes) (p : Pending) (transfers : Dict Pending)
    → Known all transfers
    → sends k₀ p.target all ≡ true
    → Known all (Dict.insert k₀ p transfers)
Known-insert all k₀ p transfers known sent k t e =
    ground (arith, Dict.lookup-insert k₀ k p transfers, known k t, same_iff k₀ k)

Known-same :
    (all : Dict (List StateChange)) (transfers after : Dict Pending)
    → Known all transfers
    → transfers ≡ after
    → Known all after
Known-same all transfers after known same_map k t e = known k t (ground arith)

ok-injective : {A : Type 0} (a b : A) → ok a ≡ ok b → a ≡ b
ok-injective a b h = ground arith

sent-Known :
    (all : Dict (List StateChange)) (region : Bytes) (change : StateChange)
    (transfers after : Dict Pending)
    → Known all transfers
    → sends change.key change.target all ≡ true
    → check_operation transfer_out region change transfers ≡ ok after
    → Known all after
unfolding check_operation
sent-Known all region change transfers after known sent h =
    let p : Pending = record { source = region; target = change.target; key = change.key } in
    Known-same all (Dict.insert change.key p transfers) after
      (Known-insert all change.key p transfers known sent) (ground arith)

check_operation-Known :
    (all : Dict (List StateChange)) (op : StateOperation) (region : Bytes) (change : StateChange)
    → (transfers after : Dict Pending) → Known all transfers
    → ((k t : Bytes) → sends_by op k t change ≡ true → sends k t all ≡ true)
    → check_operation op region change transfers ≡ ok after
    → Known all after × (matched_by op all region change ≡ true)
unfolding check_operation sends_by matched_by
check_operation-Known all op_set region change transfers after known has h =
    (Known-same all transfers after known (ok-injective transfers after h), refl)
check_operation-Known all op_delete region change transfers after known has h =
    (Known-same all transfers after known (ok-injective transfers after h), refl)
check_operation-Known all op_lock region change transfers after known has h =
    (Known-same all transfers after known (ok-injective transfers after h), refl)
check_operation-Known all op_unlock region change transfers after known has h =
    (Known-same all transfers after known (ok-injective transfers after h), refl)
check_operation-Known all transfer_out region change transfers after known has h = (
  sent-Known all region change transfers after known
      (has change.key change.target (ground (arith, same_refl change.key, same_refl change.target)))
      h,
  ground arith,
)
check_operation-Known all transfer_in region change transfers after known has h =
    let found = Dict.lookup change.key transfers in
    let (e, sent) =
      check_transfer-Known all found region change.key transfers after known refl (ground arith) in
    (Known-same all transfers after known e, ground arith)

check_region-Known :
    (all : Dict (List StateChange)) (region : Bytes) (changes : List StateChange)
    → (transfers after : Dict Pending) → Known all transfers
    → ((k t : Bytes) → region_sends k t changes ≡ true → sends k t all ≡ true)
    → check_region region changes transfers ≡ ok after
    → Known all after × (region_matched all region changes ≡ true)
unfolding check_region region_sends region_matched
check_region-Known all region [] transfers after known has h =
    (Known-same all transfers after known (ok-injective transfers after h), refl)
check_region-Known all region (change ∷ changes) transfers after known has h =
    elim (Result-cases (check_operation change.operation region change transfers)) [
      | inl (next, e) ↦
          let (known', matched) =
            check_operation-Known all change.operation region change transfers next known
              (λ k t s. has k t (ground arith)) e in
          let (known'', rest) =
            check_region-Known all region changes next after known'
              (λ k t s. has k t (ground arith)) (ground arith) in
          (known'', ground arith)
      | inr (inl (x, e)) ↦ absurd (ground arith)
      | inr (inr (x, e)) ↦ absurd (ground arith)
    ]

check_regions-Known :
    (all m : Dict (List StateChange)) (transfers after : Dict Pending)
    → Known all transfers
    → ((k t : Bytes) → sends k t m ≡ true → sends k t all ≡ true)
    → check_regions m transfers ≡ ok after
    → all_matched all m ≡ true
unfolding check_regions sends all_matched
check_regions-Known all [] transfers after known has h = refl
check_regions-Known all ((region, changes) ∷ m) transfers after known has h =
    elim (Result-cases (check_region region changes transfers)) [
      | inl (next, e) ↦
          let (known', matched) =
            check_region-Known all region changes transfers next known
              (λ k t s. has k t (ground arith)) e in
          let rest =
            check_regions-Known all m next after known' (λ k t s. has k t (ground arith))
              (ground arith) in
          ground arith
      | inr (inl (x, e)) ↦ absurd (ground arith)
      | inr (inr (x, e)) ↦ absurd (ground arith)
    ]

none_known :
    (k : Bytes) (t : Pending) (all : Dict (List StateChange))
    → Dict.lookup {V = Pending} k [] ≡ some t
    → sends k t.target all ≡ true
unfolding Dict.lookup
none_known k t all e = absurd (ground arith)

lookup_nothing : (k : Bytes) → Dict.lookup {V = Pending} k [] ≡ none
unfolding Dict.lookup
lookup_nothing k = refl

-- In an intent that passes the check, every transfer out names its target, and every transfer in
-- names a source and has a transfer out of the same key to its region.
pub validate_state_changes-matched :
    (i : CrossRegionIntent)
    → validate_state_changes i ≡ ok tt
    → all_matched i.state_changes i.state_changes ≡ true
unfolding validate_state_changes
validate_state_changes-matched i h = elim (Result-cases (check_regions i.state_changes [])) [
  | inl (after, e) ↦
      check_regions-Known i.state_changes i.state_changes [] after
        (λ k t. none_known k t i.state_changes) (λ k t s. s) e
  | inr (inl (x, e)) ↦ absurd (ground arith)
  | inr (inr (x, e)) ↦ absurd (ground arith)
]

abbrev pub one_transfer : Bool → Bytes → Bytes → Bytes → Dict (List StateChange)
one_transfer out_first from to key =
    let out : List StateChange =
      record { key = key; value = []; operation = transfer_out; source = from; target = to } ∷ [] in
    let into : List StateChange =
      record { key = key; value = []; operation = transfer_in; source = from; target = to } ∷ [] in
    if out_first then (from, out) ∷ (to, into) ∷ [] else (to, into) ∷ (from, out) ∷ []

-- An intent that moves one key between two regions with names passes the check where the sending
-- region is visited first, and is refused for want of a transfer out where the receiving one is.
pub validate_state_changes_order :
    (i : CrossRegionIntent) (from to key : Bytes)
    → is_empty from ≡ false
    → is_empty to ≡ false
    → (validate_state_changes (record i { state_changes = one_transfer true from to key }) ≡ ok tt)
      × (validate_state_changes (record i { state_changes = one_transfer false from to key })
          ≡ err no_transfer_out)
unfolding validate_state_changes check_regions check_region check_operation check_transfer
validate_state_changes_order i from to key f t = (
  ground (
    arith,
    same_refl to,
    Dict.lookup-insert {V = Pending} key key (record { source = from; target = to; key = key }) [],
    same_refl key,
  ),
  ground (arith, lookup_nothing key),
)
