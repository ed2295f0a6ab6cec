-- ===== src/Regions/Health/Missing.antt =====
-- The health of a region is not found, whatever the checks of it wrote.
use aristo.Prelude.{
  ℕ, ◌≡◌, refl, ap, [], ◌∷◌, List, Bool, true, Bytes, every, Option, none, some, Result, ok,
  then_try, ◌&&◌, arith,
}
use aristo.Prelude.Floats.{Floats}
use aristo.Prelude.Preserves.{Preserves, Preserves-bind, Preserves-pure}
use aristo.Prelude.Dict
use aristo.Regions.Config.{TeePair, RegionConfig}
use aristo.Regions.Metrics.{TeePairMetrics}
use aristo.Regions.States.{
  PairState, HealthStatus, StateStore, update_region_health, update_region_metrics, States,
  register_tee_pair, update_tee_state, rated, rate_state, change_metrics, update_metrics,
  metrics_or_new, entry, get_region_health, as_health,
}
use aristo.Regions.Health.{perform_health_checks}
use aristo.Regions.Health.Unread.{
  IsStateStore, is_name, Unread, perform_health_checks-Unread, register_tee_pair-Unread,
  update_tee_state-Unread, known_config-Unread, state-Unread, metrics-Unread, save-Unread,
  save_metrics-Unread, update_region_health-Unread,
}

-- A call of RegisterTEEPair, UpdateTEEState, UpdateMetrics, UpdateRegionHealth or UpdateRegionMetrics, or
-- a round of performHealthChecks.
pub data Op (F : Type 0) : Type 0 where
  registers : Bytes → RegionConfig F → ℕ → Op F
  changes_state : Bytes → Bytes → (PairState F → PairState F) → ℕ → Op F
  changes_metrics : Bytes → Bytes → (TeePairMetrics F → TeePairMetrics F) → ℕ → Op F
  changes_health : Bytes → HealthStatus F → Op F
  changes_region_metrics : Bytes → TeePairMetrics F → Op F
  checks : (Bytes → Result (List TeePair)) → ℕ → List Bytes → Op F

-- The name under which it saves a state is not empty and does not end with a slash.
abbrev pub is_named : {F : Type 0} → Op F → Bool
is_named (registers r config now) = is_name config.id
is_named (changes_state r p f now) = is_name p
is_named (changes_metrics r p f now) = is_name p
is_named (changes_health r h) = is_name h.status
is_named (changes_region_metrics r m) = true
is_named (checks pairs_of now rs) = true

every_split : (a b : Bool) → (a && b) ≡ true → (a ≡ true) × (b ≡ true)
every_split a b h = ground arith

module _ {S F : Type 0} (floats : Floats F) (state_store : StateStore S F)
    (laws : IsStateStore state_store) where
  rate_state-Unread :
      (region : Bytes) (was : Result (PairState F)) (r p : Bytes) (config : RegionConfig F)
      (m : TeePairMetrics F) (o : Option (PairState F))
      → is_name p ≡ true
      → Preserves
          (Unread floats state_store laws region was)
          (rate_state floats state_store r p config m o)
  unfolding rate_state
  rate_state-Unread region was r p config m none named = Preserves-pure tt
  rate_state-Unread region was r p config m (some state) named =
      Preserves-bind _ _ (state-Unread floats state_store laws region was r p _) λ u.
        save-Unread floats state_store laws region was r p (rated floats state_store config m state)
          named

  change_metrics-Unread :
      (region : Bytes) (was : Result (PairState F)) (r p : Bytes)
      (f : TeePairMetrics F → TeePairMetrics F) (now : ℕ) (config : RegionConfig F)
      → is_name p ≡ true
      → Preserves
          (Unread floats state_store laws region was)
          (change_metrics floats state_store r p f now config)
  unfolding change_metrics
  change_metrics-Unread region was r p f now config named = record {
    step = λ rm h.
        let m : TeePairMetrics F =
          f (metrics_or_new floats state_store (entry r p rm.metrics) now) in
        (Preserves-bind _ _ (metrics-Unread floats state_store laws region was r p m) λ u.
            Preserves-bind _ _
              (rate_state-Unread region was r p config m (entry r p rm.states) named)
              λ v. save_metrics-Unread floats state_store laws region was r p m).step
          rm h;
  }

  update_metrics-Unread :
      (region : Bytes) (was : Result (PairState F)) (r p : Bytes)
      (f : TeePairMetrics F → TeePairMetrics F) (now : ℕ)
      → is_name p ≡ true
      → Preserves
          (Unread floats state_store laws region was)
          (update_metrics floats state_store r p f now)
  unfolding update_metrics
  update_metrics-Unread region was r p f now named = record {
    step = λ rm h.
        (known_config-Unread floats state_store laws region was (Dict.lookup r rm.configs) _
            λ config. change_metrics-Unread region was r p f now config named).step
          rm h;
  }

  unfoldable pub apply : Op F → States S F → States S F
  apply (registers r config now) rm = (register_tee_pair floats state_store r config now rm).1
  apply (changes_state r p f now) rm = (update_tee_state floats state_store r p f now rm).1
  apply (changes_metrics r p f now) rm = (update_metrics floats state_store r p f now rm).1
  apply (changes_health r h) rm = (update_region_health floats state_store r h rm).1
  apply (changes_region_metrics r m) rm = (update_region_metrics floats state_store r m rm).1
  apply (checks pairs_of now rs) rm =
      (perform_health_checks floats state_store pairs_of now rs rm).1

  unfoldable pub run : List (Op F) → States S F → States S F
  unfolding apply
  run [] rm = rm
  run (o ∷ os) rm = run os (apply o rm)

  apply-Unread :
      (region : Bytes) (was : Result (PairState F)) (o : Op F) (rm : States S F)
      → is_named o ≡ true
      → Unread floats state_store laws region was rm
      → Unread floats state_store laws region was (apply o rm)
  unfolding apply update_region_metrics
  apply-Unread region was (registers r config now) rm named h =
      (register_tee_pair-Unread floats state_store laws region was r config now named).step rm h
  apply-Unread region was (changes_state r p f now) rm named h =
      (update_tee_state-Unread floats state_store laws region was r p f now named).step rm h
  apply-Unread region was (changes_metrics r p f now) rm named h =
      (update_metrics-Unread region was r p f now named).step rm h
  apply-Unread region was (changes_health r h') rm named h =
      (update_region_health-Unread floats state_store laws region was r h' named).step rm h
  apply-Unread region was (changes_region_metrics r m) rm named h =
      (save_metrics-Unread floats state_store laws region was r [] m).step rm h
  apply-Unread region was (checks pairs_of now rs) rm named h =
      (perform_health_checks-Unread floats state_store laws region was pairs_of now rs).step rm h

  run-Unread :
      (region : Bytes) (was : Result (PairState F)) (os : List (Op F)) (rm : States S F)
      → every is_named os ≡ true
      → Unread floats state_store laws region was rm
      → Unread floats state_store laws region was (run os rm)
  unfolding run
  run-Unread region was [] rm named h = h
  run-Unread region was (o ∷ os) rm named h =
      let (first, rest) = every_split (is_named o) (every is_named os) named in
      run-Unread region was os (apply o rm) rest (apply-Unread region was o rm first h)

  -- Over a store in which what is saved under a name that is not empty and does not end with a
  -- slash is not the state of the empty pair, nor are configurations and metrics, any calls of
  -- RegisterTEEPair, UpdateTEEState, UpdateMetrics, UpdateRegionHealth and UpdateRegionMetrics
  -- and rounds of performHealthChecks, each of which saves states only under such names, leave
  -- what is answered for the health of any region as it was.
  pub get_region_health-run :
      (region : Bytes) (os : List (Op F)) (rm : States S F)
      → every is_named os ≡ true
      → get_region_health floats state_store region (run os rm)
        ≡ get_region_health floats state_store region rm
  unfolding get_region_health Unread
  get_region_health-run region os rm named =
      ap (λ x. then_try x λ state. ok (as_health floats state_store state))
        (run-Unread region (state_store.get_tee_state region [] rm.stored) os rm named refl)
