-- ===== src/Verifier/Batch/Order.antt =====
-- verifier/batch.go: the times and the attestations of the events in a batch that is accepted.
use mathlib.Core.List.{append_assoc}
use aristo.Prelude.{
  ℕ, ◌≤◌, ◌≡◌, refl, ap, sym, ◌∙◌, [], ◌∷◌, ◌++◌, List, true, Bytes, same, same→eq, inl, inr,
  Bool-cases, All, Option, Result, ok, arith, if◌then◌else◌, length,
}
use aristo.Prelude.Success.{try-ok}
use aristo.Prelude.Dict
use aristo.Prelude.Dict.{Dict}
use aristo.Core.Types.{TeeAttestation}
use aristo.Storage.State.{Mutable}
use aristo.Storage.Codec.{Codec, ObjectMap}
use aristo.Actions.Shuttle.{SendEvent}
use aristo.Vm.Execution.{
  Action, create_object, send_event, set_input_object, create_region, update_region, other_action,
}
use aristo.Verifier.Batch.{
  Tracking, EventInfo, no_tracking, use_attestation, queued, queue_of, event_info, analyze_action,
  analyze_actions, verify_batch, verify_batch_constraints, in_order, queues_in_order,
}
use aristo.Verifier.Batch.Sound.{send_event-uses, verify_batch-stages}

-- The events of a batch for one object, in the batch's order.
abbrev pub events_to : Bytes → List Action → List EventInfo
events_to id [] = []
events_to id (send_event a ∷ acts) =
    let rest = events_to id acts in if same a.id_to id then event_info a ∷ rest else rest
events_to id (create_object a ∷ acts) = events_to id acts
events_to id (set_input_object a ∷ acts) = events_to id acts
events_to id (create_region a ∷ acts) = events_to id acts
events_to id (update_region a ∷ acts) = events_to id acts
events_to id (other_action ∷ acts) = events_to id acts

-- No event is earlier than one in front of it.
abbrev pub IsChronological : List EventInfo → Type 0
IsChronological [] = Unit
IsChronological (e ∷ es) = All (λ f. e.timestamp ≤ f.timestamp) es × IsChronological es

All-ge :
    (x y : ℕ) (es : List EventInfo)
    → x ≤ y
    → All (λ f. y ≤ f.timestamp) es
    → All (λ f. x ≤ f.timestamp) es
All-ge x y [] h k = tt
All-ge x y (e ∷ es) h (k, ks) = (omega arith, All-ge x y es h ks)

in_order-ge :
    (prev : ℕ) (es : List EventInfo)
    → in_order prev es ≡ true
    → All (λ f. prev ≤ f.timestamp) es × IsChronological es
unfolding in_order
in_order-ge prev [] h = (tt, tt)
in_order-ge prev (e ∷ es) h =
    let (later, rest) = in_order-ge e.timestamp es (ground arith) in
    let first : prev ≤ e.timestamp = ground arith in
    ((first, All-ge prev e.timestamp es first later), (later, rest))

queue_of-in_order :
    (id : Bytes) (m : Dict (List EventInfo))
    → queues_in_order m ≡ true
    → in_order 0 (queue_of id m) ≡ true
unfolding queues_in_order queue_of Dict.lookup in_order
queue_of-in_order id [] h = refl
queue_of-in_order id ((j, es) ∷ m) h = ground (arith, queue_of-in_order id m)

queue_of-insert :
    (id j : Bytes) (es : List EventInfo) (m : Dict (List EventInfo))
    → queue_of j (Dict.insert id es m) ≡ (if same id j then es else queue_of j m)
unfolding queue_of
queue_of-insert id j es m = ground (arith, Dict.lookup-insert id j es m)

append_nil : {A : Type 0} (xs : List A) → xs ++ [] ≡ xs
append_nil [] = refl
append_nil (x ∷ xs) = ap (λ l. x ∷ l) (append_nil xs)

queue_grows :
    (a : SendEvent) (id : Bytes) (m : Dict (List EventInfo))
    → (if same a.id_to id then queue_of a.id_to m ++ event_info a ∷ [] else queue_of id m)
      ≡ queue_of id m ++ events_to id (send_event a ∷ [])
queue_grows a id m = elim (Bool-cases (same a.id_to id)) [
  | inl e ↦ rw (e, same→eq a.id_to id e) refl
  | inr e ↦ rw e (sym (append_nil (queue_of id m)))
]

unchanged :
    (id : Bytes) (t u : Tracking)
    → u.event_queue ≡ t.event_queue
    → queue_of id u.event_queue ≡ queue_of id t.event_queue ++ []
unchanged id t u e = rw e (sym (append_nil (queue_of id t.event_queue)))

events_to-cons :
    (id : Bytes) (a : Action) (acts : List Action)
    → events_to id (a ∷ acts) ≡ events_to id (a ∷ []) ++ events_to id acts
events_to-cons id (send_event a) acts = ground arith
events_to-cons id (create_object a) acts = refl
events_to-cons id (set_input_object a) acts = refl
events_to-cons id (create_region a) acts = refl
events_to-cons id (update_region a) acts = refl
events_to-cons id other_action acts = refl

module _ (time_string : ℕ → Bytes) where
  use_attestation-queue :
      (att : TeeAttestation) (t u : Tracking)
      → use_attestation time_string att t ≡ ok u
      → u.event_queue ≡ t.event_queue
  unfolding use_attestation
  use_attestation-queue att t u h = ground arith

  send_event-queue :
      (a : SendEvent) (t u : Tracking) (id : Bytes)
      → analyze_action time_string (send_event a) t ≡ ok u
      → queue_of id u.event_queue ≡ queue_of id t.event_queue ++ events_to id (send_event a ∷ [])
  unfolding queued
  send_event-queue a t u id h =
      let (t1, (first, (t2, (second, e)))) = send_event-uses time_string a t u h in
      let same_queue : t2.event_queue ≡ t.event_queue =
        use_attestation-queue a.attestations.second t1 t2 second
        ∙ use_attestation-queue a.attestations.first t t1 first in
      ap (λ (x : Tracking). queue_of id x.event_queue) (sym e)
      ∙ queue_of-insert a.id_to id (queue_of a.id_to t2.event_queue ++ event_info a ∷ [])
          t2.event_queue
      ∙ rw same_queue (queue_grows a id t.event_queue)

  analyze_action-queue :
      (a : Action) (t u : Tracking) (id : Bytes)
      → analyze_action time_string a t ≡ ok u
      → queue_of id u.event_queue ≡ queue_of id t.event_queue ++ events_to id (a ∷ [])
  unfolding analyze_action
  analyze_action-queue (create_object a) t u id h = unchanged id t u (ground arith)
  analyze_action-queue (send_event a) t u id h = send_event-queue a t u id h
  analyze_action-queue (set_input_object a) t u id h = unchanged id t u (ground arith)
  analyze_action-queue (create_region a) t u id h = unchanged id t u (ground arith)
  analyze_action-queue (update_region a) t u id h = unchanged id t u (ground arith)
  analyze_action-queue other_action t u id h = unchanged id t u (ground arith)

  -- The queue of an object holds the events that were analyzed for it.
  analyze_actions-queue :
      (acts : List Action) (t u : Tracking) (id : Bytes)
      → analyze_actions time_string acts t ≡ ok u
      → queue_of id u.event_queue ≡ queue_of id t.event_queue ++ events_to id acts
  unfolding analyze_actions
  analyze_actions-queue [] t u id h = unchanged id t u (ground arith)
  analyze_actions-queue (a ∷ acts) t u id h =
      let (v, (one, rest)) = try-ok (analyze_action time_string a t) _ u h in
      analyze_actions-queue acts v u id rest
      ∙ ap (λ l. l ++ events_to id acts) (analyze_action-queue a t v id one)
      ∙ append_assoc (queue_of id t.event_queue) (events_to id (a ∷ [])) (events_to id acts)
      ∙ ap (λ l. queue_of id t.event_queue ++ l) (sym (events_to-cons id a acts))

module _ {S R : Type 0} (mu : Mutable S) (objects : Codec ObjectMap) (regions : Codec (Option R))
    (random : Result Bytes) where
  -- A batch that is accepted has at most 256 actions, and no event for an object is earlier than
  -- an event for it in front of it.
  pub verify_batch-IsChronological :
      (time_string : ℕ → Bytes) (acts : List Action) (s : S) (id : Bytes)
      → verify_batch mu objects regions random time_string acts s ≡ ok tt
      → (length acts ≤ 256) × IsChronological (events_to id acts)
  unfolding queue_of Dict.lookup verify_batch_constraints
  verify_batch-IsChronological time_string acts s id h =
      let (few, (t, (analyzed, (each, constraints)))) =
        verify_batch-stages mu objects regions random time_string acts s h in
      let ordered : queues_in_order t.event_queue ≡ true = ground arith in
      let queue = analyze_actions-queue time_string acts no_tracking t id analyzed in
      (
        few,
        (in_order-ge 0 (events_to id acts)
            (ap (λ es. in_order 0 es) (sym queue) ∙ queue_of-in_order id t.event_queue ordered)).1,
      )
