-- ===== src/Verifier/Batch/Sound.antt =====
-- verifier/batch.go: what kinds of actions a batch that is accepted has.
use aristo.Prelude.{
  ℕ, ◌≤◌, ◌≡◌, refl, ap, [], ◌∷◌, List, Bool, true, false, Bytes, same_refl, All, Option, Result,
  ok, arith, ltb, length,
}
use aristo.Prelude.Success.{try-ok, if-ok}
use aristo.Prelude.Dict
use aristo.Prelude.Dict.{Dict}
use aristo.Core.Types.{TeeAttestation}
use aristo.Storage.State.{Mutable}
use aristo.Storage.Codec.{Codec, ObjectMap}
use aristo.Actions.Shuttle.{SendEvent}
use aristo.Vm.Execution.{
  Action, create_object, send_event, set_input_object, create_region, update_region, other_action,
}
use aristo.Verifier.{verify_state_transition}
use aristo.Verifier.Batch.{
  Tracking, ModificationInfo, no_tracking, was_created, is_created, use_attestation, queued,
  analyze_action, analyze_actions, verify_in_batch, verify_action, verify_actions, verify_batch,
  verify_batch_constraints, max_batch_size,
}

-- Events and the choice of the input object.
abbrev pub creates_nothing : Action → Bool
creates_nothing (send_event a) = true
creates_nothing (set_input_object a) = true
creates_nothing _ = false

-- The object of a creation is tracked as created.
Marked : Tracking → Action → Type 0
Marked t (create_object a) = is_created a.id t.object_modifications ≡ true
Marked t _ = Unit

is_created-insert :
    (k j : Bytes) (m : Dict ModificationInfo)
    → is_created j m ≡ true
    → is_created j (Dict.insert k was_created m) ≡ true
unfolding is_created
is_created-insert k j m h = ground (arith, Dict.lookup-insert k j was_created m)

is_created_here :
    (k : Bytes) (m : Dict ModificationInfo) → is_created k (Dict.insert k was_created m) ≡ true
unfolding is_created
is_created_here k m = ground (arith, Dict.lookup-insert k k was_created m, same_refl k)

module _ (time_string : ℕ → Bytes) where
  use_attestation-objects :
      (att : TeeAttestation) (t u : Tracking)
      → use_attestation time_string att t ≡ ok u
      → u.object_modifications ≡ t.object_modifications
  unfolding use_attestation
  use_attestation-objects att t u h = ground arith

  -- An event that is analyzed uses both of its attestations and is queued.
  pub send_event-uses :
      (a : SendEvent) (t u : Tracking)
      → analyze_action time_string (send_event a) t ≡ ok u
      → (t1 : Tracking) × ((use_attestation time_string a.attestations.first t ≡ ok t1)
          × ((t2 : Tracking) × ((use_attestation time_string a.attestations.second t1 ≡ ok t2)
                × (queued a t2 ≡ u))))
  unfolding analyze_action
  send_event-uses a t u h =
      let (t1, (first, h1)) = try-ok (use_attestation time_string a.attestations.first t) _ u h in
      let (t2, (second, h2)) =
        try-ok (use_attestation time_string a.attestations.second t1) _ u h1 in
      (t1, (first, (t2, (second, ground (arith, h2)))))

  send_event-objects :
      (a : SendEvent) (t u : Tracking)
      → analyze_action time_string (send_event a) t ≡ ok u
      → u.object_modifications ≡ t.object_modifications
  unfolding queued
  send_event-objects a t u h =
      let (t1, (first, (t2, (second, e)))) = send_event-uses a t u h in
      ground (
        arith,
        ap (λ (x : Tracking). x.object_modifications) e,
        use_attestation-objects a.attestations.first t t1 first,
        use_attestation-objects a.attestations.second t1 t2 second,
      )

  -- What is tracked as created stays so.
  analyze_action-created :
      (a : Action) (t u : Tracking) (k : Bytes)
      → analyze_action time_string a t ≡ ok u
      → is_created k t.object_modifications ≡ true
      → is_created k u.object_modifications ≡ true
  unfolding analyze_action
  analyze_action-created (create_object a) t u k h c =
      ground (arith, is_created-insert a.id k t.object_modifications c)
  analyze_action-created (send_event a) t u k h c = ground (arith, send_event-objects a t u h)
  analyze_action-created (set_input_object a) t u k h c = ground arith
  analyze_action-created (create_region a) t u k h c = ground arith
  analyze_action-created (update_region a) t u k h c = ground arith
  analyze_action-created other_action t u k h c = ground arith

  analyze_actions-created :
      (acts : List Action) (t u : Tracking) (k : Bytes)
      → analyze_actions time_string acts t ≡ ok u
      → is_created k t.object_modifications ≡ true
      → is_created k u.object_modifications ≡ true
  unfolding analyze_actions
  analyze_actions-created [] t u k h c = ground arith
  analyze_actions-created (a ∷ acts) t u k h c =
      let (v, (one, rest)) = try-ok (analyze_action time_string a t) _ u h in
      analyze_actions-created acts v u k rest (analyze_action-created a t v k one c)

  analyze_action-Marked :
      (a : Action) (acts : List Action) (t u v : Tracking)
      → analyze_action time_string a t ≡ ok u
      → analyze_actions time_string acts u ≡ ok v
      → Marked v a
  unfolding Marked analyze_action
  analyze_action-Marked (create_object a) acts t u v h k =
      analyze_actions-created acts u v a.id k
        (ground (arith, is_created_here a.id t.object_modifications))
  analyze_action-Marked (send_event a) acts t u v h k = tt
  analyze_action-Marked (set_input_object a) acts t u v h k = tt
  analyze_action-Marked (create_region a) acts t u v h k = tt
  analyze_action-Marked (update_region a) acts t u v h k = tt
  analyze_action-Marked other_action acts t u v h k = tt

  analyze_actions-Marked :
      (acts : List Action) (t u : Tracking)
      → analyze_actions time_string acts t ≡ ok u
      → All (Marked u) acts
  unfolding analyze_actions
  analyze_actions-Marked [] t u h = tt
  analyze_actions-Marked (a ∷ acts) t u h =
      let (v, (one, rest)) = try-ok (analyze_action time_string a t) _ u h in
      (analyze_action-Marked a acts t v u one rest, analyze_actions-Marked acts v u rest)

module _ {S R : Type 0} (mu : Mutable S) (objects : Codec ObjectMap) (regions : Codec (Option R))
    (random : Result Bytes) where
  verify_action-creates :
      (a : Action) (t : Tracking) (s : S)
      → Marked t a
      → verify_action mu objects regions random a t s ≡ ok tt
      → creates_nothing a ≡ true
  unfolding Marked verify_action verify_in_batch verify_state_transition
  verify_action-creates (create_object a) t s m h =
      let (u, (one, rest)) =
        try-ok (verify_state_transition mu objects regions random (create_object a) s)
          (λ u. verify_in_batch (create_object a) t) tt h in
      ground arith
  verify_action-creates (send_event a) t s m h = refl
  verify_action-creates (set_input_object a) t s m h = refl
  verify_action-creates (create_region a) t s m h = cc
  verify_action-creates (update_region a) t s m h = cc
  verify_action-creates other_action t s m h = cc

  verify_actions-creates :
      (acts : List Action) (t : Tracking) (s : S)
      → All (Marked t) acts
      → verify_actions mu objects regions random acts t s ≡ ok tt
      → All (λ a. creates_nothing a ≡ true) acts
  unfolding verify_actions
  verify_actions-creates [] t s m h = tt
  verify_actions-creates (a ∷ acts) t s (m, ms) h =
      let (u, (one, rest)) = try-ok (verify_action mu objects regions random a t s) _ tt h in
      (verify_action-creates a t s m one, verify_actions-creates acts t s ms rest)

  -- The three stages of a batch that is accepted.
  pub verify_batch-stages :
      (time_string : ℕ → Bytes) (acts : List Action) (s : S)
      → verify_batch mu objects regions random time_string acts s ≡ ok tt
      → (length acts ≤ 256)
        × ((t : Tracking) × ((analyze_actions time_string acts no_tracking ≡ ok t)
              × ((verify_actions mu objects regions random acts t s ≡ ok tt)
                  × (verify_batch_constraints t ≡ ok tt))))
  unfolding verify_batch
  verify_batch-stages time_string acts s h =
      let (few, h1) = if-ok (ltb max_batch_size (length acts)) _ _ tt h in
      let (t, (analyzed, h2)) = try-ok (analyze_actions time_string acts no_tracking) _ tt h1 in
      let (u, (each, constraints)) =
        try-ok (verify_actions mu objects regions random acts t s) _ tt h2 in
      (ground (arith, few), (t, (analyzed, (each, constraints))))

  -- A batch that is accepted holds events and choices of the input object only: every batch in
  -- which an object or a region is created or a region is updated is refused.
  pub verify_batch-creates :
      (time_string : ℕ → Bytes) (acts : List Action) (s : S)
      → verify_batch mu objects regions random time_string acts s ≡ ok tt
      → All (λ a. creates_nothing a ≡ true) acts
  unfolding verify_batch
  verify_batch-creates time_string acts s h =
      let (few, (t, (analyzed, (each, constraints)))) = verify_batch-stages time_string acts s h in
      verify_actions-creates acts t s
        (analyze_actions-Marked time_string acts no_tracking t analyzed) each
