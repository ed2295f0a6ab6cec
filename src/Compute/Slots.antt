-- ===== src/Compute/Slots.antt =====
-- compute/service.go: the slots of a compute node under requests that overlap.
use aristo.Prelude.{
  ℕ, suc, ◌+◌, ◌≤◌, ◌≡◌, refl, sym, ap, ◌∙◌, Bool, true, false, not, same, is_empty, some, Result,
  ok, err, Error, lift, arith, leb, no_region, wrong_region, if◌then◌else◌,
}
use aristo.Prelude.Preserves.{Preserves, Preserves-bind, Preserves-lift, Preserves-pure}
use aristo.Coordination.Tasks.{submit_task}
use aristo.Vm.Regional.{Request}
use aristo.Compute.{
  ComputeNode, Outside, admit, serve, on_coordinator, release_task_slot, acquire_task_slot,
  take_slot, task_of, exchange, convert_to_rust_request, convert_to_proto_result,
}

-- A node, and the number of requests that hold a slot.
pub record System (S : Type 0) : Type 0 where
  pub node : ComputeNode S
  pub in_flight : ℕ

-- One request enters, works or leaves while others are on their way.
pub data Step {S : Type 0} : System S → System S → Type 0 where
  enters :
      (s : System S) (req : Request) (n : ComputeNode S)
      → admit req s.node ≡ (ok tt, n)
      → Step s (record { node = n; in_flight = s.in_flight + 1 })
  turned_away :
      (s : System S) (req : Request) (e : Error) (n : ComputeNode S)
      → admit req s.node ≡ (err e, n)
      → Step s (record { node = n; in_flight = s.in_flight })
  works :
      (s : System S) (o : Outside) (req : Request)
      → Step s (record { node = (serve o req s.node).1; in_flight = s.in_flight })
  leaves :
      (s : System S) (k : ℕ)
      → s.in_flight ≡ suc k
      → Step s (record { node = release_task_slot s.node; in_flight = k })

pub data Reach {S : Type 0} (s : System S) : System S → Type 0 where
  here : Reach s s
  next : {t u : System S} → Reach s t → Step t u → Reach s u

-- The counter is the number of the requests that hold a slot, which are not more than the limit.
pub record IsCounted {S : Type 0} (max : ℕ) (s : System S) : Type 0 where
  pub counted : s.node.active_tasks ≡ s.in_flight
  pub within : s.in_flight ≤ max
  pub limit : s.node.max_tasks ≡ max

-- A node with this counter and this limit.
record HasSlots {S : Type 0} (active max : ℕ) (n : ComputeNode S) : Type 0 where
  pub active_is : n.active_tasks ≡ active
  pub max_is : n.max_tasks ≡ max

module _ {S : Type 0} where
  serve-HasSlots :
      (active max : ℕ) (o : Outside) (req : Request)
      → Preserves (HasSlots active max) (serve {S = S} o req)
  unfolding serve on_coordinator
  serve-HasSlots active max o req = record {
    step = λ n h.
        (Preserves-bind {P = HasSlots active max} (lift (o.bridge (convert_to_rust_request req))) _
            (Preserves-lift _)
            λ r.
              Preserves-bind
                (on_coordinator (submit_task o.selected o.now (some (task_of o n.region_id req r))))
                _ (record { step = λ m k. record { active_is = k.active_is; max_is = k.max_is } })
                λ u.
                  Preserves-bind (lift (exchange o r)) _ (Preserves-lift _)
                    λ v. Preserves-pure (convert_to_proto_result o r)).step
          n h;
  }

  -- By the three tests in turn: the region, whose region, and whether a slot is left.
  admit_case : (a b full : Bool) → ComputeNode S → Result (Unit {0}) × ComputeNode S
  admit_case a b full n =
      if a
      then (err no_region, n)
      else if b
      then (err wrong_region, n)
      else take_slot
          (if full then (false, n) else (true, record n { active_tasks = n.active_tasks + 1 }))

  admit-admit_case :
      (req : Request) (n : ComputeNode S)
      → admit req n
        ≡ admit_case
            (is_empty req.region_id)
            (not (same req.region_id n.region_id))
            (leb n.max_tasks n.active_tasks)
            n
  unfolding admit acquire_task_slot admit_case
  admit-admit_case req n = refl

  admit_case-enters :
      (a b full : Bool) (n m : ComputeNode S)
      → admit_case a b full n ≡ (ok tt, m)
      → (full ≡ false) × HasSlots (n.active_tasks + 1) n.max_tasks m
  unfolding admit_case take_slot
  admit_case-enters true b full n m h = cc
  admit_case-enters false true full n m h = cc
  admit_case-enters false false true n m h = cc
  admit_case-enters false false false n m h = (
    refl,
    record {
      active_is = sym (ap (λ p. p.1.active_tasks) h);
      max_is = sym (ap (λ p. p.1.max_tasks) h);
    },
  )

  admit_case-turned_away :
      (a b full : Bool) (n m : ComputeNode S) (e : Error)
      → admit_case a b full n ≡ (err e, m)
      → HasSlots n.active_tasks n.max_tasks m
  unfolding admit_case take_slot
  admit_case-turned_away true b full n m e h = record {
    active_is = sym (ap (λ p. p.1.active_tasks) h);
    max_is = sym (ap (λ p. p.1.max_tasks) h);
  }
  admit_case-turned_away false true full n m e h = record {
    active_is = sym (ap (λ p. p.1.active_tasks) h);
    max_is = sym (ap (λ p. p.1.max_tasks) h);
  }
  admit_case-turned_away false false true n m e h = record {
    active_is = sym (ap (λ p. p.1.active_tasks) h);
    max_is = sym (ap (λ p. p.1.max_tasks) h);
  }
  admit_case-turned_away false false false n m e h = cc

  Step-IsCounted : {max : ℕ} {s t : System S} → IsCounted max s → Step s t → IsCounted max t
  unfolding release_task_slot
  Step-IsCounted h (enters s req n e) =
      let (free, slots) =
        admit_case-enters _ _ _ s.node n (sym (admit-admit_case req s.node) ∙ e) in
      record {
        counted = slots.active_is ∙ ap (λ k. k + 1) h.counted;
        within = ground (arith, h.counted, h.limit);
        limit = slots.max_is ∙ h.limit;
      }
  Step-IsCounted h (turned_away s req x n e) =
      let slots = admit_case-turned_away _ _ _ s.node n x (sym (admit-admit_case req s.node) ∙ e) in
      record {
        counted = slots.active_is ∙ h.counted;
        within = h.within;
        limit = slots.max_is ∙ h.limit;
      }
  Step-IsCounted h (works s o req) =
      let slots =
        (serve-HasSlots s.node.active_tasks s.node.max_tasks o req).step s.node
          (record { active_is = refl; max_is = refl }) in
      record {
        counted = slots.active_is ∙ h.counted;
        within = h.within;
        limit = slots.max_is ∙ h.limit;
      }
  Step-IsCounted h (leaves s k e) = record {
    counted = let c = h.counted in omega arith;
    within = let w = h.within in omega arith;
    limit = h.limit;
  }

  Reach-IsCounted : {max : ℕ} {s t : System S} → IsCounted max s → Reach s t → IsCounted max t
  Reach-IsCounted h here = h
  Reach-IsCounted h (next r step) = Step-IsCounted (Reach-IsCounted h r) step

  -- However requests to a compute node that starts without tasks overlap, its counter of tasks
  -- is the number of the requests that hold a slot, and that is at most its limit, which no
  -- request changes.
  pub slots-IsCounted :
      (n : ComputeNode S) (t : System S)
      → n.active_tasks ≡ 0
      → Reach (record { node = n; in_flight = 0 }) t
      → IsCounted n.max_tasks t
  slots-IsCounted n t none_active r =
      Reach-IsCounted (record { counted = none_active; within = omega arith; limit = refl }) r
