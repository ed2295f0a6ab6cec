-- ===== src/Actions/CrossRegion/Effects.antt =====
-- What the action does to the chain.
use aristo.Prelude.{
  ◌≡◌, ◌≢◌, refl, [], ◌∷◌, List, false, not, Bytes, same, Option, none, some, Result, ok, err,
  panic, Act, reject_if, ◌>>=◌, ◌>>◌, nil_coordinator, arith, continue,
}
use aristo.Prelude.Dict
use aristo.Prelude.Dict.{Dict}
use aristo.Prelude.Preserves.{
  Preserves, Preserves-store, Preserves-pure, Preserves-bind, Preserves-reject_if, preserves_rules,
}
use aristo.Storage.State.{Mutable, IsMutable}
use aristo.Storage.Balance.Frame.{Reads}
use aristo.Xregion.Intent.{
  CrossRegionIntent, StateChange, StateOperation, op_set, op_delete, transfer_out, transfer_in,
  op_lock, op_unlock,
}
use aristo.Actions.CrossRegion.{
  World, get_coordinator, verify_each, verify_signatures, validate_basic, execute, execute_intent,
  apply_change, apply_changes, apply_regions, change_keys, state_keys,
}

-- No coordinator is set, and the chain is `s`.
pub record IsIdle {S : Type 0} (s : S) (w : World S) : Type 0 where
  pub unset : w.coordinator_set ≡ false
  pub same_chain : w.chain ≡ s

module _ {S Db : Type 0} (mu : Mutable S) (new_view : Db → Result (Unit {0})) (s : S) where
  get_coordinator-IsIdle : Preserves (IsIdle s) (get_coordinator {S = S} new_view)
  unfolding get_coordinator
  get_coordinator-IsIdle = record {
    step = λ w h. record {
      unset = ground (arith, h.unset);
      same_chain = ground (arith, h.same_chain);
    };
  }

  verify_each-IsIdle : (m : Dict Bytes) → Preserves (IsIdle s) (verify_each mu new_view m)
  unfolding verify_each
  verify_each-IsIdle [] = search preserves_rules
  verify_each-IsIdle ((region, signature) ∷ m) =
      Preserves-bind _ _ get_coordinator-IsIdle
        (λ c. Preserves-bind _ _ (Preserves-reject_if _ _) (λ u. verify_each-IsIdle m))

  verify_signatures-IsIdle :
      (i : CrossRegionIntent) → Preserves (IsIdle s) (verify_signatures mu new_view i)
  unfolding verify_signatures
  verify_signatures-IsIdle i = search (preserves_rules, verify_each-IsIdle)

  validate_basic-IsIdle :
      (intent : Option CrossRegionIntent) → Preserves (IsIdle s) (validate_basic mu new_view intent)
  unfolding validate_basic
  validate_basic-IsIdle none = search preserves_rules
  validate_basic-IsIdle (some i) = search (preserves_rules, verify_signatures-IsIdle) depth 9

  pub record Fails (r : Result (Unit {0}) × World S) : Type 0 where
    pub refused : r.0 ≢ ok tt
    pub idle : IsIdle s r.1

  no_coordinator :
      (next : Act (World S) (Unit {0})) (w : World S)
      → IsIdle s w
      → Fails ((get_coordinator new_view >>= λ c. reject_if (not c) nil_coordinator >> next) w)
  unfolding get_coordinator
  no_coordinator next w h = record {
    refused = λ e. ground (arith, h.unset);
    idle = record {
      unset = ground (arith, h.unset);
      same_chain = ground (arith, h.unset, h.same_chain);
    };
  }

  checked_first :
      (checked : Result (Unit {0}) × World S) (next : Act (World S) (Unit {0}))
      → IsIdle s checked.1
      → Fails (
          continue checked.0
            (λ u. get_coordinator new_view >>= λ c. reject_if (not c) nil_coordinator >> next)
            checked.1)
  checked_first (ok u, w) next h = no_coordinator next w h
  checked_first (err e, w) next h = record { refused = λ e'. ground arith; idle = h }
  checked_first (panic c, w) next h = record { refused = λ e'. ground arith; idle = h }

  -- In a process that has no global coordinator set, the action of an intent of several regions
  -- never succeeds, whatever the intent: it leaves the chain as it was and sets no coordinator.
  pub execute-Fails :
      (range_proof : Bytes → Bytes → Result (List Bytes)) (intent : Option CrossRegionIntent)
      (w : World S)
      → IsIdle s w
      → Fails (execute mu new_view range_proof intent w)
  unfolding execute
  execute-Fails range_proof intent w h =
      checked_first (validate_basic mu new_view intent w)
        (execute_intent mu new_view range_proof intent) ((validate_basic-IsIdle intent).step w h)

module _ {S : Type 0} (mu : Mutable S) (laws : IsMutable mu) {Permission : Type 0}
    (write : Permission) (k : Bytes) (was : Result Bytes) where
  insert-Reads :
      (c : StateChange) (s t : S)
      → same c.key k ≡ false
      → Reads mu k was s
      → mu.insert s c.key c.value ≡ ok t
      → Reads mu k was t
  insert-Reads c s t other h e = rw (laws.get-insert s t _ _ k e, other) h

  remove-Reads :
      (c : StateChange) (s t : S)
      → same c.key k ≡ false
      → Reads mu k was s
      → mu.remove s c.key ≡ ok t
      → Reads mu k was t
  remove-Reads c s t other h e = rw (laws.get-remove s t _ k e, other) h

  undeclared :
      (c : StateChange) (keys : Dict Permission)
      → Dict.lookup k (Dict.insert c.key write keys) ≡ none
      → (same c.key k ≡ false) × (Dict.lookup k keys ≡ none)
  undeclared c keys h = ground (arith, Dict.lookup-insert c.key k write keys)

  apply_change-Reads :
      (op : StateOperation) (c : StateChange) (cs : List StateChange) (keys : Dict Permission)
      → c.operation ≡ op
      → Dict.lookup k (change_keys write (c ∷ cs) keys) ≡ none
      → Preserves (Reads mu k was) (apply_change mu op c)
        × (Dict.lookup k (change_keys write cs keys) ≡ none)
  unfolding apply_change change_keys
  apply_change-Reads op_set c cs keys e h =
      let (other, rest) = undeclared c (change_keys write cs keys) (ground (arith, e)) in
      (Preserves-store (λ s. mu.insert s c.key c.value) tt (λ s t. insert-Reads c s t other), rest)
  apply_change-Reads transfer_out c cs keys e h =
      let (other, rest) = undeclared c (change_keys write cs keys) (ground (arith, e)) in
      (Preserves-store (λ s. mu.remove s c.key) tt (λ s t. remove-Reads c s t other), rest)
  apply_change-Reads op_delete c cs keys e h = (Preserves-pure tt, ground (arith, e))
  apply_change-Reads transfer_in c cs keys e h = (Preserves-pure tt, ground (arith, e))
  apply_change-Reads op_lock c cs keys e h = (Preserves-pure tt, ground (arith, e))
  apply_change-Reads op_unlock c cs keys e h = (Preserves-pure tt, ground (arith, e))

  apply_changes-Reads :
      (cs : List StateChange) (keys : Dict Permission)
      → Dict.lookup k (change_keys write cs keys) ≡ none
      → Preserves (Reads mu k was) (apply_changes mu cs) × (Dict.lookup k keys ≡ none)
  unfolding apply_changes change_keys
  apply_changes-Reads [] keys h = (Preserves-pure tt, h)
  apply_changes-Reads (c ∷ cs) keys h =
      let (first, later) = apply_change-Reads c.operation c cs keys refl h in
      let (rest, before) = apply_changes-Reads cs keys later in
      (Preserves-bind _ _ first (λ u. rest), before)

  apply_regions-Reads :
      (m : Dict (List StateChange))
      → Dict.lookup k (state_keys write m) ≡ none
      → Preserves (Reads mu k was) (apply_regions mu m)
  unfolding apply_regions state_keys
  apply_regions-Reads [] h = Preserves-pure tt
  apply_regions-Reads ((region, changes) ∷ m) h =
      let (first, later) = apply_changes-Reads changes (state_keys write m) h in
      Preserves-bind _ _ first (λ u. apply_regions-Reads m later)

-- Over a state that keeps its writes, applying the state changes of an intent, whatever comes of
-- it, changes no key that is not among the keys the action declares.
pub apply_regions-state_keys :
    {S : Type 0} (mu : Mutable S) (laws : IsMutable mu) {Permission : Type 0} (write : Permission)
    (m : Dict (List StateChange)) (k : Bytes) (s : S)
    → Dict.lookup k (state_keys write m) ≡ none
    → mu.get_value (apply_regions mu m s).1 k ≡ mu.get_value s k
apply_regions-state_keys mu laws write m k s h =
    (apply_regions-Reads mu laws write k (mu.get_value s k) m h).step s refl
