-- ===== src/Regions/Health/Unread.antt =====
-- Where the health of a region is kept, and where it is looked for.
use mathlib.Core.Path.{subst}
use aristo.Prelude.Success.{try-ok}
use aristo.Prelude.{
  true, not, ◌==◌, Bool, ℕ, ◌≡◌, refl, ap, ◌∙◌, [], ◌∷◌, List, false, Bytes, same, Option, none,
  some, Result, ok, err, panic, Act, Bool-cases, Option-cases, inl, inr, pair_not_found,
  region_not_found,
}
use aristo.Prelude.Split.{slash}
use aristo.Prelude.Floats.{Floats}
use aristo.Prelude.Preserves.{
  Preserves, Preserves-bind, Preserves-fail, Preserves-pure, Preserves-crash, Preserves-if,
}
use aristo.Prelude.Dict
use aristo.Prelude.Dict.{Dict}
use aristo.Regions.Config.{TeePair, RegionConfig}
use aristo.Regions.Metrics.{TeePairMetrics}
use aristo.Regions.States.Changes.{ignoring-state, changed}
use aristo.Regions.States.{
  PairState, HealthStatus, StateStore, States, has_pair, on_store, put_config, put_state,
  put_metrics, new_state, with_maps, assign_metrics, new_metrics, register_tee_pair, known_config,
  change_state, update_tee_state, ignoring, get_tee_state, get_metrics, update_region_health, entry,
}
use aristo.Regions.Health.{
  is_healthy, judged, measured, check_tee_pair, update_checked, check_each, check_region,
  perform_health_checks,
}

-- It is not empty and does not end with a slash.
abbrev pub is_name : Bytes → Bool
is_name [] = false
is_name (b ∷ []) = not (b == slash)
is_name (b ∷ c ∷ bs) = is_name (c ∷ bs)

-- A state that is saved for a pair with such a name is not that of the empty name, and what else is
-- saved is none.
pub record IsStateStore {S F : Type 0} (state_store : StateStore S F) : Type 0 where
  pub saved_elsewhere :
      (r p region : Bytes) (st : PairState F) (s : S)
      → is_name p ≡ true
      → state_store.get_tee_state region [] (state_store.save_tee_state r p st s).1
        ≡ state_store.get_tee_state region [] s
  pub config_apart :
      (r region : Bytes) (c : RegionConfig F) (s : S)
      → state_store.get_tee_state region [] (state_store.set_region_config r c s).1
        ≡ state_store.get_tee_state region [] s
  pub metrics_apart :
      (r p region : Bytes) (m : TeePairMetrics F) (s : S)
      → state_store.get_tee_state region [] (state_store.save_metrics r p m s).1
        ≡ state_store.get_tee_state region [] s

ok-injective : {A : Type 0} {a b : A} → ok a ≡ ok b → a ≡ b
ok-injective e = cc

module _ {S F : Type 0} (floats : Floats F) (state_store : StateStore S F)
    (laws : IsStateStore state_store) where
  -- The store answers for the region, and for a pair with no name, as it did.
  unfoldable pub Unread : Bytes → Result (PairState F) → States S F → Type 0
  Unread region was rm = state_store.get_tee_state region [] rm.stored ≡ was

  on_store-Unread :
      (region : Bytes) (was : Result (PairState F)) (m : Act S (Unit {0}))
      → ((s : S)
          → state_store.get_tee_state region [] (m s).1 ≡ state_store.get_tee_state region [] s)
      → Preserves (Unread region was) (on_store floats state_store m)
  unfolding on_store Unread
  on_store-Unread region was m keep = record { step = λ rm h. keep rm.stored ∙ h }

  pub save-Unread :
      (region : Bytes) (was : Result (PairState F)) (r p : Bytes) (st : PairState F)
      → is_name p ≡ true
      → Preserves
          (Unread region was)
          (on_store floats state_store (state_store.save_tee_state r p st))
  save-Unread region was r p st named =
      on_store-Unread region was (state_store.save_tee_state r p st)
        λ s. laws.saved_elsewhere r p region st s named

  ignoring-Unread :
      (region : Bytes) (was : Result (PairState F)) (m : Act (States S F) (Unit {0}))
      → Preserves (Unread region was) m
      → Preserves (Unread region was) (ignoring floats state_store m)
  unfolding Unread
  ignoring-Unread region was m keep = record {
    step = λ rm h.
        ap (λ (x : States S F). state_store.get_tee_state region [] x.stored)
          (ignoring-state floats state_store m rm)
        ∙ keep.step rm h;
  }

  judged-named : (h : HealthStatus F) → is_name (judged floats state_store h).status ≡ true
  unfolding judged
  judged-named h = elim (Bool-cases (is_healthy floats state_store h)) [
    | inl e ↦ rw e refl
    | inr e ↦ rw e refl
  ]

  update_checked-Unread :
      (region : Bytes) (was : Result (PairState F)) (r : Bytes) (h : HealthStatus F)
      → is_name h.status ≡ true
      → Preserves (Unread region was) (update_checked floats state_store r (ok h))
  unfolding update_checked update_region_health
  update_checked-Unread region was r h named =
      ignoring-Unread region was _ (save-Unread region was r h.status _ named)

  check_tee_pair-named :
      (r p : Bytes) (now : ℕ) (rm : States S F) (h : HealthStatus F)
      → check_tee_pair floats state_store r p now rm ≡ ok h
      → is_name h.status ≡ true
  unfolding check_tee_pair
  check_tee_pair-named r p now rm h e =
      let (m, (found, e1)) = try-ok (get_metrics floats state_store r p rm) _ h e in
      let (state, (known, e2)) = try-ok (get_tee_state floats state_store r p rm) _ h e1 in
      subst (λ x. is_name x.status ≡ true) (ok-injective e2)
        (judged-named (measured floats state_store now m state))

  checked-Unread :
      (region : Bytes) (was : Result (PairState F)) (r : Bytes) (x : Result (HealthStatus F))
      → ((h : HealthStatus F) → x ≡ ok h → is_name h.status ≡ true)
      → Preserves (Unread region was) (update_checked floats state_store r x)
  unfolding update_checked
  checked-Unread region was r (ok h) named = update_checked-Unread region was r h (named h refl)
  checked-Unread region was r (err e) named = Preserves-pure tt
  checked-Unread region was r (panic c) named = Preserves-crash c

  check_each-Unread :
      (region : Bytes) (was : Result (PairState F)) (r : Bytes) (now : ℕ) (ps : List TeePair)
      → Preserves (Unread region was) (check_each floats state_store r now ps)
  unfolding check_each
  check_each-Unread region was r now [] = Preserves-pure tt
  check_each-Unread region was r now (p ∷ ps) =
      Preserves-bind _ _
        (record {
          step = λ rm h.
              (checked-Unread region was r (check_tee_pair floats state_store r p.id now rm)
                  (check_tee_pair-named r p.id now rm)).step
                rm h;
        })
        λ u. check_each-Unread region was r now ps

  check_region-Unread :
      (region : Bytes) (was : Result (PairState F)) (r : Bytes) (now : ℕ)
      (pairs : Result (List TeePair))
      → Preserves (Unread region was) (check_region floats state_store r now pairs)
  unfolding check_region
  check_region-Unread region was r now (ok ps) = check_each-Unread region was r now ps
  check_region-Unread region was r now (err e) = Preserves-fail e
  check_region-Unread region was r now (panic c) = Preserves-crash c

  pub perform_health_checks-Unread :
      (region : Bytes) (was : Result (PairState F)) (pairs_of : Bytes → Result (List TeePair))
      (now : ℕ) (rs : List Bytes)
      → Preserves (Unread region was) (perform_health_checks floats state_store pairs_of now rs)
  unfolding perform_health_checks
  perform_health_checks-Unread region was pairs_of now [] = Preserves-pure tt
  perform_health_checks-Unread region was pairs_of now (r ∷ rs) =
      Preserves-bind _ _
        (ignoring-Unread region was (check_region floats state_store r now (pairs_of r))
          (check_region-Unread region was r now (pairs_of r)))
        λ u. perform_health_checks-Unread region was pairs_of now rs

  config-Unread :
      (region : Bytes) (was : Result (PairState F)) (r : Bytes) (config : RegionConfig F)
      → Preserves (Unread region was) (put_config floats state_store r config)
  unfolding put_config Unread
  config-Unread region was r config = record { step = λ rm h. h }

  pub state-Unread :
      (region : Bytes) (was : Result (PairState F)) (r p : Bytes) (st : PairState F)
      → Preserves (Unread region was) (put_state floats state_store r p st)
  unfolding put_state Unread
  state-Unread region was r p st = record { step = λ rm h. h }

  pub metrics-Unread :
      (region : Bytes) (was : Result (PairState F)) (r p : Bytes) (m : TeePairMetrics F)
      → Preserves (Unread region was) (put_metrics floats state_store r p m)
  unfolding put_metrics Unread
  metrics-Unread region was r p m = record { step = λ rm h. h }

  with_maps-Unread :
      (region : Bytes) (was : Result (PairState F)) (r : Bytes)
      → Preserves (Unread region was) (with_maps floats state_store r)
  unfolding with_maps Unread
  with_maps-Unread region was r = record {
    step = λ rm h. elim (Option-cases (Dict.lookup r rm.states)) [
      | inl e ↦ rw (e, with_maps) h
      | inr (m, e) ↦ rw (e, with_maps) h
    ];
  }

  assign_metrics-Unread :
      (region : Bytes) (was : Result (PairState F)) (r p : Bytes) (m : TeePairMetrics F)
      → Preserves (Unread region was) (assign_metrics floats state_store r p m)
  unfolding assign_metrics
  assign_metrics-Unread region was r p m = record {
    step = λ rm h. elim (Option-cases (Dict.lookup r rm.metrics)) [
      | inl e ↦ rw (e, assign_metrics) h
      | inr (ms, e) ↦ rw (e, assign_metrics) ((metrics-Unread region was r p m).step rm h)
    ];
  }

  pub update_region_health-Unread :
      (region : Bytes) (was : Result (PairState F)) (r : Bytes) (h : HealthStatus F)
      → is_name h.status ≡ true
      → Preserves (Unread region was) (update_region_health floats state_store r h)
  unfolding update_region_health
  update_region_health-Unread region was r h named = save-Unread region was r h.status _ named

  pub save_metrics-Unread :
      (region : Bytes) (was : Result (PairState F)) (r p : Bytes) (m : TeePairMetrics F)
      → Preserves (Unread region was) (on_store floats state_store (state_store.save_metrics r p m))
  save_metrics-Unread region was r p m =
      on_store-Unread region was (state_store.save_metrics r p m)
        λ s. laws.metrics_apart r p region m s

  pub register_tee_pair-Unread :
      (region : Bytes) (was : Result (PairState F)) (r : Bytes) (config : RegionConfig F) (now : ℕ)
      → is_name config.id ≡ true
      → Preserves (Unread region was) (register_tee_pair floats state_store r config now)
  unfolding register_tee_pair
  register_tee_pair-Unread region was r config now named =
      let state : PairState F = new_state floats state_store (floats.of_nat 1) now in
      let m : TeePairMetrics F = new_metrics floats state_store now in
      Preserves-bind _ _ (with_maps-Unread region was r) λ z.
        Preserves-bind _ _ (config-Unread region was r config) λ u.
          Preserves-bind _ _ (state-Unread region was r config.id state) λ v.
            Preserves-bind _ _ (assign_metrics-Unread region was r config.id m) λ w.
              Preserves-bind _ _
                (on_store-Unread region was (state_store.set_region_config r config)
                  λ s. laws.config_apart r region config s)
                λ x.
                  Preserves-bind _ _ (save-Unread region was r config.id state named)
                    λ y. save_metrics-Unread region was r config.id m

  pub known_config-Unread :
      (region : Bytes) (was : Result (PairState F)) (o : Option (RegionConfig F))
      (f : RegionConfig F → Act (States S F) (Unit {0}))
      → ((config : RegionConfig F) → Preserves (Unread region was) (f config))
      → Preserves (Unread region was) (known_config floats state_store o f)
  unfolding known_config
  known_config-Unread region was none f keep = Preserves-fail region_not_found
  known_config-Unread region was (some config) f keep = keep config

  change_state-Unread :
      (region : Bytes) (was : Result (PairState F)) (r p : Bytes) (f : PairState F → PairState F)
      (now : ℕ)
      → is_name p ≡ true
      → Preserves (Unread region was) (change_state floats state_store r p f now)
  unfolding change_state changed same
  change_state-Unread region was r p f now named = record {
    step = λ rm h.
        let state : PairState F = changed floats state_store now f (entry r p rm.states) in
        (Preserves-bind _ _ (state-Unread region was r p state)
            λ u. save-Unread region was r p state named).step
          rm h;
  }

  pub update_tee_state-Unread :
      (region : Bytes) (was : Result (PairState F)) (r p : Bytes) (f : PairState F → PairState F)
      (now : ℕ)
      → is_name p ≡ true
      → Preserves (Unread region was) (update_tee_state floats state_store r p f now)
  unfolding update_tee_state
  update_tee_state-Unread region was r p f now named = record {
    step = λ rm h.
        (known_config-Unread region was (Dict.lookup r rm.configs) _ λ config.
            Preserves-if (has_pair p config.tee_pairs) _ _
              (λ e. change_state-Unread region was r p f now named)
              λ e. Preserves-fail pair_not_found).step
          rm h;
  }
