-- ===== src/Regions/States/Changes.antt =====
-- regions/manager.go: what a change of a state does to the map of the states.
use aristo.Prelude.{
  ℕ, ◌≡◌, refl, ap, ◌∙◌, true, ◌&&◌, Bytes, same, same_iff, same→eq, ◌⊎◌, ◌↔◌, fail, pair_not_found,
  Option, none, some, ok, Act, arith, Bool-cases, Result-cases, inl, inr, if◌then◌else◌,
}
use aristo.Prelude.Floats.{Floats}
use aristo.Prelude.Dict
use aristo.Prelude.Dict.{Dict}
use aristo.Regions.Config.{RegionConfig}
use aristo.Regions.States.{
  PairState, StateStore, States, inner, entry, set_entry, has_pair, on_store, put_state,
  known_config, state_or_new, seen_active, change_state, update_tee_state, found_in, ignoring,
}

pub entry-set_entry :
    {V : Type 0} (region pair r p : Bytes) (v : V) (m : Dict (Dict V))
    → entry r p (set_entry region pair v m)
      ≡ (if same region r && same pair p then some v else entry r p m)
unfolding entry set_entry
entry-set_entry region pair r p v m = elim (Bool-cases (same region r)) [
  | inl e ↦
      rw (Dict.lookup-insert region r (Dict.insert pair v (inner (Dict.lookup region m))) m, e)
        (Dict.lookup-insert pair p v (inner (Dict.lookup region m))
          ∙ ap (λ k. if same pair p then some v else Dict.lookup p (inner (Dict.lookup k m)))
              (same→eq region r e))
  | inr e ↦
      rw (Dict.lookup-insert region r (Dict.insert pair v (inner (Dict.lookup region m))) m, e) refl
]

pub found_in-entry :
    {V : Type 0} (q : Bytes) (o : Option (Dict V)) (v : V)
    → Dict.lookup q (inner o) ≡ some v
    → found_in q o ≡ ok v
unfolding found_in inner Dict.lookup
found_in-entry q none v h = cc
found_in-entry q (some m) v h = rw (h, found_in) refl

pub found_in-some :
    {V : Type 0} (q : Bytes) (o : Option (Dict V)) (v : V)
    → found_in q o ≡ ok v
    → Dict.lookup q (inner o) ≡ some v
unfolding found_in inner
found_in-some q none v h = cc
found_in-some q (some m) v h = ground arith

pub both_same : (a b c d : Bytes) → ((same a b && same c d) ≡ true) ↔ ((a ≡ b) × (c ≡ d))
both_same a b c d = ground (arith, same_iff a b, same_iff c d)

module _ {S F : Type 0} (floats : Floats F) (state_store : StateStore S F) where
  pub ignoring-state :
      (m : Act (States S F) (Unit {0})) (rm : States S F)
      → (ignoring floats state_store m rm).1 ≡ (m rm).1
  unfolding ignoring
  ignoring-state m rm = elim (Result-cases (m rm).0) [
    | inl (u, e) ↦ rw (e, ignoring) refl
    | inr (inl (x, e)) ↦ rw (e, ignoring) refl
    | inr (inr (x, e)) ↦ rw (e, ignoring) refl
  ]

  unfoldable pub changed : ℕ → (PairState F → PairState F) → Option (PairState F) → PairState F
  changed now f o = seen_active floats state_store now (f (state_or_new floats state_store o now))

  pub change_state-states :
      (r q : Bytes) (f : PairState F → PairState F) (now : ℕ) (rm : States S F)
      → (change_state floats state_store r q f now rm).1.states
        ≡ set_entry r q (changed now f (entry r q rm.states)) rm.states
  unfolding change_state changed on_store put_state
  change_state-states r q f now rm = refl

  pub known-states :
      (r q : Bytes) (f : PairState F → PairState F) (now : ℕ) (rm : States S F)
      (o : Option (RegionConfig F))
      → ((known_config floats state_store o
            (λ config.
              if has_pair q config.tee_pairs
              then change_state floats state_store r q f now
              else fail pair_not_found)
            rm).1.states
          ≡ rm.states)
        ⊎ ((known_config floats state_store o
              (λ config.
                if has_pair q config.tee_pairs
                then change_state floats state_store r q f now
                else fail pair_not_found)
              rm).1.states
            ≡ set_entry r q (changed now f (entry r q rm.states)) rm.states)
  unfolding known_config
  known-states r q f now rm none = inl refl
  known-states r q f now rm (some config) = elim (Bool-cases (has_pair q config.tee_pairs)) [
    | inl e ↦ inr (rw e (change_state-states r q f now rm))
    | inr e ↦ inl (rw e refl)
  ]

  pub update_tee_state-states :
      (r q : Bytes) (f : PairState F → PairState F) (now : ℕ) (rm : States S F)
      → ((update_tee_state floats state_store r q f now rm).1.states ≡ rm.states)
        ⊎ ((update_tee_state floats state_store r q f now rm).1.states
            ≡ set_entry r q (changed now f (entry r q rm.states)) rm.states)
  unfolding update_tee_state
  update_tee_state-states r q f now rm = known-states r q f now rm (Dict.lookup r rm.configs)

  known-configs :
      (r q : Bytes) (f : PairState F → PairState F) (now : ℕ) (rm : States S F)
      (o : Option (RegionConfig F))
      → (known_config floats state_store o
          (λ config.
            if has_pair q config.tee_pairs
            then change_state floats state_store r q f now
            else fail pair_not_found)
          rm).1.configs
        ≡ rm.configs
  unfolding known_config change_state on_store put_state
  known-configs r q f now rm none = refl
  known-configs r q f now rm (some config) = elim (Bool-cases (has_pair q config.tee_pairs)) [
    | inl e ↦ rw e refl
    | inr e ↦ rw e refl
  ]

  pub update_tee_state-configs :
      (r q : Bytes) (f : PairState F → PairState F) (now : ℕ) (rm : States S F)
      → (update_tee_state floats state_store r q f now rm).1.configs ≡ rm.configs
  unfolding update_tee_state
  update_tee_state-configs r q f now rm = known-configs r q f now rm (Dict.lookup r rm.configs)
