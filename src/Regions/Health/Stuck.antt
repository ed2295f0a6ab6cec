-- ===== src/Regions/Health/Stuck.antt =====
-- regions/manager.go: a pair that was unhealthy three times.
use mathlib.Core.Path.{subst}
use aristo.Prelude.{
  ℕ, suc, ◌+◌, ◌≤◌, ◌≡◌, refl, sym, ap, ◌∙◌, [], ◌∷◌, List, true, false, ◌&&◌, Bytes, same,
  same_refl, length, Option, none, some, Result, ok, err, panic, arith, Bool-cases, inl, inr,
}
use aristo.Prelude.Integers.{pos, at_most, successor, max_int}
use aristo.Prelude.Floats.{Floats}
use aristo.Prelude.Preserves.{bind-lands}
use aristo.Prelude.Dict
use aristo.Prelude.Dict.{Dict}
use aristo.Regions.Config.{TeePair, RegionConfig}
use aristo.Regions.States.{
  PairState, StateStore, States, entry, known_config, state_or_new, seen_active, update_tee_state,
  get_tee_state, marked, update_health_status, is_pair_healthy, check_found, check_pairs,
  check_region_health,
}
use aristo.Regions.States.Changes.{
  entry-set_entry, found_in-entry, found_in-some, both_same, ignoring-state, changed,
  update_tee_state-states, update_tee_state-configs,
}

successor-pos : (n k : ℕ) → n + suc k ≤ max_int → successor (pos n) ≡ pos (suc n)
successor-pos n k h = ground arith

-- The pairs that a check of the region looks at.
abbrev pub pair_count : {F : Type 0} → Option (RegionConfig F) → ℕ
pair_count none = 0
pair_count (some config) = length config.tee_pairs

-- How many times the rounds look at a pair, with these configurations.
abbrev pub looks : {F : Type 0} → List (Bytes × ℕ) → Dict (RegionConfig F) → ℕ
looks [] configs = 0
looks ((r, now) ∷ rs) configs = pair_count (Dict.lookup r configs) + looks rs configs

-- The pair has three errors or more in memory, and `spare` more do not overflow.
pub record IsStuck {S F : Type 0} (region pair : Bytes) (configs : Dict (RegionConfig F))
    (spare : ℕ) (rm : States S F) : Type 0 where
  pub state : PairState F
  pub errors : ℕ
  pub kept : entry region pair rm.states ≡ some state
  pub counted : state.error_count ≡ pos errors
  pub many : 3 ≤ errors
  pub room : errors + spare ≤ max_int
  pub same_configs : rm.configs ≡ configs

module _ {S F : Type 0} (floats : Floats F) (state_store : StateStore S F) where
  spend :
      (region pair : Bytes) (cs : Dict (RegionConfig F)) (a b : ℕ) (rm : States S F)
      → b ≤ a
      → IsStuck region pair cs a rm
      → IsStuck region pair cs b rm
  spend region pair cs a b rm less h = record {
    state = h.state;
    errors = h.errors;
    kept = h.kept;
    counted = h.counted;
    many = h.many;
    room = let r = h.room in omega arith;
    same_configs = h.same_configs;
  }

  -- A change of another pair.
  update_tee_state-elsewhere :
      (region pair r q : Bytes) (f : PairState F → PairState F) (now : ℕ)
      (cs : Dict (RegionConfig F)) (k : ℕ) (rm : States S F)
      → (same r region && same q pair) ≡ false
      → IsStuck region pair cs k rm
      → IsStuck region pair cs k (update_tee_state floats state_store r q f now rm).1
  update_tee_state-elsewhere region pair r q f now cs k rm other h = record {
    state = h.state;
    errors = h.errors;
    kept = elim (update_tee_state-states floats state_store r q f now rm) [
      | inl e ↦ ap (entry region pair) e ∙ h.kept
      | inr e ↦
          ap (entry region pair) e
          ∙ entry-set_entry r q region pair (changed floats state_store now f (entry r q rm.states))
              rm.states
          ∙ rw other h.kept
    ];
    counted = h.counted;
    many = h.many;
    room = h.room;
    same_configs = update_tee_state-configs floats state_store r q f now rm ∙ h.same_configs;
  }

  changed-errors :
      (now : ℕ) (state : PairState F) (n k : ℕ)
      → state.error_count ≡ pos n
      → n + suc k ≤ max_int
      → (changed floats state_store now
          (marked floats state_store false now)
          (some state)).error_count
        ≡ pos (suc n)
  unfolding changed seen_active state_or_new marked same
  changed-errors now state n k e room = ap successor e ∙ successor-pos n k room

  update_tee_state-here :
      (region pair : Bytes) (now : ℕ) (cs : Dict (RegionConfig F)) (k : ℕ) (rm : States S F)
      → IsStuck region pair cs (suc k) rm
      → IsStuck region pair cs k
          (update_tee_state floats state_store region pair
            (marked floats state_store false now)
            now
            rm).1
  update_tee_state-here region pair now cs k rm h =
      let mark : PairState F → PairState F = marked floats state_store false now in
      let configs =
        update_tee_state-configs floats state_store region pair mark now rm ∙ h.same_configs in
      elim (update_tee_state-states floats state_store region pair mark now rm) [
        | inl e ↦ spend region pair cs (suc k) k _ (omega arith) (record {
          state = h.state;
          errors = h.errors;
          kept = ap (entry region pair) e ∙ h.kept;
          counted = h.counted;
          many = h.many;
          room = h.room;
          same_configs = configs;
        })
        | inr e ↦ record {
          state = changed floats state_store now mark (some h.state);
          errors = suc h.errors;
          kept =
              ap (entry region pair) e
              ∙ entry-set_entry region pair region pair _ rm.states
              ∙ rw (same_refl region, same_refl pair, h.kept) refl;
          counted = changed-errors now h.state h.errors k h.counted h.room;
          many = let m = h.many in omega arith;
          room = let r = h.room in omega arith;
          same_configs = configs;
        }
      ]

  stuck-unhealthy :
      (now : ℕ) (state : PairState F) (n : ℕ)
      → state.error_count ≡ pos n
      → 3 ≤ n
      → is_pair_healthy floats state_store now state ≡ false
  unfolding is_pair_healthy
  stuck-unhealthy now state n e h =
      let many : at_most (pos 3) state.error_count ≡ true = rw e (ground arith) in ground arith

  check_found-unhealthy :
      (region pair : Bytes) (now : ℕ) (cs : Dict (RegionConfig F)) (k : ℕ) (rm : States S F)
      (state : PairState F)
      → is_pair_healthy floats state_store now state ≡ false
      → IsStuck region pair cs (suc k) rm
      → IsStuck region pair cs k (check_found floats state_store region pair now (ok state) rm).1
  unfolding check_found update_health_status
  check_found-unhealthy region pair now cs k rm state e h = rw e (
      subst (IsStuck region pair cs k)
        (sym (
          ignoring-state floats state_store
            (update_tee_state floats state_store region pair (marked floats state_store false now)
              now)
            rm))
        (update_tee_state-here region pair now cs k rm h))

  check_found-here :
      (region pair : Bytes) (now : ℕ) (cs : Dict (RegionConfig F)) (k : ℕ) (rm : States S F)
      → IsStuck region pair cs (suc k) rm
      → IsStuck region pair cs k
          (check_found floats state_store region pair now
            (get_tee_state floats state_store region pair rm)
            rm).1
  unfolding get_tee_state entry
  check_found-here region pair now cs k rm h =
      rw (found_in-entry pair (Dict.lookup region rm.states) h.state h.kept) (
        check_found-unhealthy region pair now cs k rm h.state
          (stuck-unhealthy now h.state h.errors h.counted h.many) h)

  check_found-elsewhere :
      (region pair r q : Bytes) (now : ℕ) (cs : Dict (RegionConfig F)) (k : ℕ)
      (x : Result (PairState F)) (rm : States S F)
      → (same r region && same q pair) ≡ false
      → IsStuck region pair cs k rm
      → IsStuck region pair cs k (check_found floats state_store r q now x rm).1
  unfolding check_found update_health_status
  check_found-elsewhere region pair r q now cs k (ok state) rm other h =
      let mark : PairState F → PairState F =
        marked floats state_store (is_pair_healthy floats state_store now state) now in
      subst (IsStuck region pair cs k)
        (sym
          (ignoring-state floats state_store (update_tee_state floats state_store r q mark now) rm))
        (update_tee_state-elsewhere region pair r q mark now cs k rm other h)
  check_found-elsewhere region pair r q now cs k (err e) rm other h = h
  check_found-elsewhere region pair r q now cs k (panic c) rm other h = h

  check_found-IsStuck :
      (region pair r q : Bytes) (now : ℕ) (cs : Dict (RegionConfig F)) (k : ℕ) (rm : States S F)
      → IsStuck region pair cs (suc k) rm
      → IsStuck region pair cs k
          (check_found floats state_store r q now (get_tee_state floats state_store r q rm) rm).1
  check_found-IsStuck region pair r q now cs k rm h =
      elim (Bool-cases (same r region && same q pair)) [
        | inl e ↦
            let (a, b) = (both_same r region q pair).0 e in
            subst
              (λ (x : Bytes × Bytes).
                IsStuck region pair cs k
                  (check_found floats state_store x.0 x.1 now
                    (get_tee_state floats state_store x.0 x.1 rm) rm).1)
              (λ i. (sym a i, sym b i)) (check_found-here region pair now cs k rm h)
        | inr e ↦ spend region pair cs (suc k) k _ (omega arith) (
            check_found-elsewhere region pair r q now cs (suc k)
              (get_tee_state floats state_store r q rm) rm e h)
      ]

  check_pairs-IsStuck :
      (region pair r : Bytes) (now : ℕ) (cs : Dict (RegionConfig F)) (k : ℕ) (ps : List TeePair)
      (rm : States S F)
      → IsStuck region pair cs (length ps + k) rm
      → IsStuck region pair cs k (check_pairs floats state_store r now ps rm).1
  unfolding check_pairs
  check_pairs-IsStuck region pair r now cs k [] rm h = spend region pair cs _ k rm (omega arith) h
  check_pairs-IsStuck region pair r now cs k (p ∷ ps) rm h =
      bind-lands
        (λ s.
          check_found floats state_store r p.id now (get_tee_state floats state_store r p.id s) s)
        (λ u. check_pairs floats state_store r now ps)
        (check_found-IsStuck region pair r p.id now cs (length ps + k))
        (λ u s q. check_pairs-IsStuck region pair r now cs k ps s q)
        (λ s q. spend region pair cs (length ps + k) k s (omega arith) q) rm
        (spend region pair cs (length (p ∷ ps) + k) (suc (length ps + k)) rm (omega arith) h)

  known_config-IsStuck :
      (region pair r : Bytes) (now : ℕ) (cs : Dict (RegionConfig F)) (k : ℕ)
      (o : Option (RegionConfig F)) (rm : States S F)
      → IsStuck region pair cs (pair_count o + k) rm
      → IsStuck region pair cs k
          (known_config floats state_store o
            (λ config. check_pairs floats state_store r now config.tee_pairs)
            rm).1
  unfolding known_config
  known_config-IsStuck region pair r now cs k none rm h =
      spend region pair cs _ k rm (omega arith) h
  known_config-IsStuck region pair r now cs k (some config) rm h =
      check_pairs-IsStuck region pair r now cs k config.tee_pairs rm h

  check_region_health-IsStuck :
      (region pair r : Bytes) (now : ℕ) (cs : Dict (RegionConfig F)) (k : ℕ) (rm : States S F)
      → IsStuck region pair cs (pair_count (Dict.lookup r cs) + k) rm
      → IsStuck region pair cs k (check_region_health floats state_store r now rm).1
  unfolding check_region_health
  check_region_health-IsStuck region pair r now cs k rm h =
      subst
        (λ (c : Dict (RegionConfig F)).
          IsStuck region pair cs k
            (known_config floats state_store (Dict.lookup r c)
              (λ config. check_pairs floats state_store r now config.tee_pairs) rm).1)
        (sym h.same_configs) (known_config-IsStuck region pair r now cs k (Dict.lookup r cs) rm h)

  -- The rounds of the check, each of a region at a time.
  unfoldable pub rounds : List (Bytes × ℕ) → States S F → States S F
  rounds [] rm = rm
  rounds ((r, now) ∷ rs) rm = rounds rs (check_region_health floats state_store r now rm).1

  rounds-IsStuck :
      (region pair : Bytes) (cs : Dict (RegionConfig F)) (rs : List (Bytes × ℕ)) (rm : States S F)
      → IsStuck region pair cs (looks rs cs) rm
      → IsStuck region pair cs 0 (rounds rs rm)
  unfolding rounds
  rounds-IsStuck region pair cs [] rm h = h
  rounds-IsStuck region pair cs ((r, now) ∷ rs) rm h =
      rounds-IsStuck region pair cs rs (check_region_health floats state_store r now rm).1
        (check_region_health-IsStuck region pair r now cs (looks rs cs) rm h)

  -- A pair whose state in memory has three errors or more still has a state there after any
  -- rounds of checkRegionHealth, of whatever regions at whatever times, and is not healthy by it
  -- at any time, as long as the errors and the number of times that the rounds look at a pair of
  -- a configured region are together at most 2^63 - 1.
  pub is_pair_healthy-rounds :
      (region pair : Bytes) (rm : States S F) (state : PairState F) (errors : ℕ)
      (rs : List (Bytes × ℕ)) (now : ℕ)
      → get_tee_state floats state_store region pair rm ≡ ok state
      → state.error_count ≡ pos errors
      → 3 ≤ errors
      → errors + looks rs rm.configs ≤ max_int
      → (after : PairState F) × ((get_tee_state floats state_store region pair (rounds rs rm)
            ≡ ok after)
          × (is_pair_healthy floats state_store now after ≡ false))
  unfolding get_tee_state entry
  is_pair_healthy-rounds region pair rm state errors rs now known counted many room =
      let h = rounds-IsStuck region pair rm.configs rs rm (record {
        state = state;
        errors = errors;
        kept = found_in-some pair (Dict.lookup region rm.states) state known;
        counted = counted;
        many = many;
        room = room;
        same_configs = refl;
      }) in
      (
        h.state,
        (
          found_in-entry pair (Dict.lookup region (rounds rs rm).states) h.state h.kept,
          stuck-unhealthy now h.state h.errors h.counted h.many,
        ),
      )
