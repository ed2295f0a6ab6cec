-- ===== src/Verifier/Batch/Distinct.antt =====
-- verifier/batch.go: no attestation is used twice in a batch that is accepted.
use aristo.Prelude.{
  ℕ, ◌≡◌, sym, ap, [], ◌∷◌, List, Bool, true, false, Bytes, same, All, Option, Result, ok, arith,
  if◌then◌else◌,
}
use aristo.Prelude.Success.{try-ok}
use aristo.Prelude.Dict
use aristo.Prelude.Dict.{Dict}
use aristo.Core.Types.{TeeAttestation}
use aristo.Storage.State.{Mutable}
use aristo.Storage.Codec.{Codec, ObjectMap}
use aristo.Vm.Execution.{
  Action, create_object, send_event, set_input_object, create_region, update_region, other_action,
}
use aristo.Verifier.Batch.{
  Tracking, no_tracking, attestation_id, use_attestation, is_seen, queued, analyze_action,
  analyze_actions, verify_batch,
}
use aristo.Verifier.Batch.Sound.{send_event-uses, verify_batch-stages}

abbrev pub IsDistinct : List Bytes → Type 0
IsDistinct [] = Unit
IsDistinct (k ∷ ks) = All (λ j. same k j ≡ false) ks × IsDistinct ks

Unseen : Dict Bool → List Bytes → Type 0
Unseen m ks = All (λ k. is_seen k m ≡ false) ks

is_seen-insert :
    (k j : Bytes) (m : Dict Bool)
    → is_seen j (Dict.insert k true m) ≡ (if same k j then true else is_seen j m)
unfolding is_seen
is_seen-insert k j m = ground (arith, Dict.lookup-insert k j true m)

Unseen-insert :
    (k : Bytes) (ks : List Bytes) (m : Dict Bool)
    → Unseen (Dict.insert k true m) ks
    → All (λ j. same k j ≡ false) ks × Unseen m ks
unfolding Unseen
Unseen-insert k [] m h = (tt, tt)
Unseen-insert k (j ∷ js) m (h, hs) =
    let (differ, unseen) = Unseen-insert k js m hs in
    let (one, two) = seen_before (is_seen-insert k j m) in ((one, differ), (two, unseen))
  where
    seen_before :
        is_seen j (Dict.insert k true m) ≡ (if same k j then true else is_seen j m)
        → (same k j ≡ false) × (is_seen j m ≡ false)
    seen_before e = ground (arith, e, h)

module _ (time_string : ℕ → Bytes) where
  -- The ids of the attestations of a batch's events, in order.
  abbrev pub attestation_ids : List Action → List Bytes
  attestation_ids [] = []
  attestation_ids (send_event a ∷ acts) =
      attestation_id time_string a.attestations.first
      ∷ attestation_id time_string a.attestations.second
      ∷ attestation_ids acts
  attestation_ids (create_object a ∷ acts) = attestation_ids acts
  attestation_ids (set_input_object a ∷ acts) = attestation_ids acts
  attestation_ids (create_region a ∷ acts) = attestation_ids acts
  attestation_ids (update_region a ∷ acts) = attestation_ids acts
  attestation_ids (other_action ∷ acts) = attestation_ids acts

  use_attestation-seen :
      (att : TeeAttestation) (t u : Tracking)
      → use_attestation time_string att t ≡ ok u
      → (is_seen (attestation_id time_string att) t.attestations_seen ≡ false)
        × (u.attestations_seen
            ≡ Dict.insert (attestation_id time_string att) true t.attestations_seen)
  unfolding use_attestation
  use_attestation-seen att t u h = ground arith

  -- What is distinct after an attestation was used is distinct with it.
  use_attestation-IsDistinct :
      (att : TeeAttestation) (t u : Tracking) (ks : List Bytes)
      → use_attestation time_string att t ≡ ok u
      → IsDistinct ks × Unseen u.attestations_seen ks
      → IsDistinct (attestation_id time_string att ∷ ks)
        × Unseen t.attestations_seen (attestation_id time_string att ∷ ks)
  unfolding Unseen
  use_attestation-IsDistinct att t u ks h (distinct, unseen) =
      let k = attestation_id time_string att in
      let (fresh, e) = use_attestation-seen att t u h in
      let (differ, before) = Unseen-insert k ks t.attestations_seen (rw⁻¹ e unseen) in
      ((differ, distinct), (fresh, before))

  kept_seen :
      (acts : List Action) (t u : Tracking)
      → u.attestations_seen ≡ t.attestations_seen
      → IsDistinct (attestation_ids acts) × Unseen u.attestations_seen (attestation_ids acts)
      → IsDistinct (attestation_ids acts) × Unseen t.attestations_seen (attestation_ids acts)
  kept_seen acts t u e h = rw⁻¹ e h

  analyze_action-IsDistinct :
      (a : Action) (acts : List Action) (t u : Tracking)
      → analyze_action time_string a t ≡ ok u
      → IsDistinct (attestation_ids acts) × Unseen u.attestations_seen (attestation_ids acts)
      → IsDistinct (attestation_ids (a ∷ acts))
        × Unseen t.attestations_seen (attestation_ids (a ∷ acts))
  unfolding analyze_action queued
  analyze_action-IsDistinct (send_event a) acts t u h k =
      let (t1, (first, (t2, (second, e)))) = send_event-uses time_string a t u h in
      let after = kept_seen acts t2 u (ap (λ (x : Tracking). x.attestations_seen) (sym e)) k in
      use_attestation-IsDistinct a.attestations.first t t1
        (attestation_id time_string a.attestations.second ∷ attestation_ids acts) first
        (use_attestation-IsDistinct a.attestations.second t1 t2 (attestation_ids acts) second after)
  analyze_action-IsDistinct (create_object a) acts t u h k = kept_seen acts t u (ground arith) k
  analyze_action-IsDistinct (set_input_object a) acts t u h k = kept_seen acts t u (ground arith) k
  analyze_action-IsDistinct (create_region a) acts t u h k = kept_seen acts t u (ground arith) k
  analyze_action-IsDistinct (update_region a) acts t u h k = kept_seen acts t u (ground arith) k
  analyze_action-IsDistinct other_action acts t u h k = kept_seen acts t u (ground arith) k

  analyze_actions-IsDistinct :
      (acts : List Action) (t u : Tracking)
      → analyze_actions time_string acts t ≡ ok u
      → IsDistinct (attestation_ids acts) × Unseen t.attestations_seen (attestation_ids acts)
  unfolding analyze_actions Unseen
  analyze_actions-IsDistinct [] t u h = (tt, tt)
  analyze_actions-IsDistinct (a ∷ acts) t u h =
      let (v, (one, rest)) = try-ok (analyze_action time_string a t) _ u h in
      analyze_action-IsDistinct a acts t v one (analyze_actions-IsDistinct acts v u rest)

module _ {S R : Type 0} (mu : Mutable S) (objects : Codec ObjectMap) (regions : Codec (Option R))
    (random : Result Bytes) where
  -- In a batch that is accepted no two attestations of the events have the same text of enclave
  -- and time.
  pub verify_batch-IsDistinct :
      (time_string : ℕ → Bytes) (acts : List Action) (s : S)
      → verify_batch mu objects regions random time_string acts s ≡ ok tt
      → IsDistinct (attestation_ids time_string acts)
  verify_batch-IsDistinct time_string acts s h =
      let (few, (t, (analyzed, (each, constraints)))) =
        verify_batch-stages mu objects regions random time_string acts s h in
      (analyze_actions-IsDistinct time_string acts no_tracking t analyzed).0
