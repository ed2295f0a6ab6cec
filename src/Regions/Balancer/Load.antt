-- ===== src/Regions/Balancer/Load.antt =====
-- regions/balancer.go: the region that is selected by load.
use mathlib.Core.Path.{subst}
use aristo.Prelude.{
  All, ◌≡◌, refl, sym, ◌∙◌, ap, ◌⊎◌, inl, inr, [], ◌∷◌, ℕ, true, false, Bytes, is_empty, Option,
  none, some, ok, err, arith, Option-cases, Bool-cases, no_healthy_regions,
}
use aristo.Prelude.Floats.{Floats, IsOrdered}
use aristo.Prelude.Dict.{Dict}
use aristo.Regions.Balancer.{
  Region, RegionMetrics, RegionBalancer, eligible, lowest_load, select_region_by_load,
  or_none_healthy,
}

-- An entry of a map.
pub Listed : {V : Type 0} → Bytes → V → Dict V → Type 0
Listed id v [] = ⊥
Listed id v ((j, w) ∷ m) = ((j ≡ id) × (w ≡ v)) ⊎ Listed id v m

module _ {F : Type 0} (floats : Floats F) (laws : IsOrdered floats) (now : ℕ)
    (b : RegionBalancer F) where
  pub NotLower : F → Option (RegionMetrics F) → Type 0
  NotLower x none = Unit
  NotLower x (some m) = floats.lt m.load_factor x ≡ false

  -- No region that may be selected has a load below `x`.
  pub NoneLower : F → Dict (Region F) → Type 0
  NoneLower x [] = Unit
  NoneLower x ((id, region) ∷ m) = NotLower x (eligible floats now id region b) × NoneLower x m

  -- The region `id` may be selected, its load is below `x`, and no other's is below its own.
  pub Best : F → Bytes → Dict (Region F) → Type 0
  Best x id regions =
      (region : Region F) × (Listed id region regions
        × ((m : RegionMetrics F) × ((eligible floats now id region b ≡ some m)
              × ((floats.lt m.load_factor x ≡ true) × NoneLower m.load_factor regions))))

  asymmetric : (x y : F) → floats.lt x y ≡ true → floats.lt y x ≡ false
  asymmetric x y h = elim (Bool-cases (floats.lt y x)) [
    | inl e ↦ absurd (ground (arith, laws.lt_irrefl x, laws.lt_trans x y x h e))
    | inr e ↦ e
  ]

  not_between : (x y z : F) → floats.lt x z ≡ false → floats.lt y z ≡ true → floats.lt x y ≡ false
  not_between x y z h k = elim (Bool-cases (floats.lt x y)) [
    | inl e ↦ absurd (ground (arith, h, laws.lt_trans x y z e k))
    | inr e ↦ e
  ]

  -- What the loop returns.
  Outcome : Bytes → F → Dict (Region F) → Bytes → Type 0
  Outcome selected lowest regions id =
      ((id ≡ selected) × NoneLower lowest regions) ⊎ Best lowest id regions

  Best-behind :
      (id j : Bytes) (region : Region F) (rest : Dict (Region F)) (x : F)
      → ((y : F) → floats.lt y x ≡ true → NotLower y (eligible floats now id region b))
      → Best x j rest
      → Best x j ((id, region) ∷ rest)
  unfolding Best Listed NoneLower
  Best-behind id j region rest x f (r, (listed, (m, (e, (below, none_lower))))) =
      (r, (inr listed, (m, (e, (below, (f m.load_factor below, none_lower))))))

  skipped :
      (id j selected : Bytes) (region : Region F) (rest : Dict (Region F)) (x : F)
      → ((y : F) → floats.lt y x ≡ true → NotLower y (eligible floats now id region b))
      → NotLower x (eligible floats now id region b)
      → Outcome selected x rest j
      → Outcome selected x ((id, region) ∷ rest) j
  unfolding Outcome NoneLower
  skipped id j selected region rest x f not_lower (inl (e, none_lower)) =
      inl (e, (not_lower, none_lower))
  skipped id j selected region rest x f not_lower (inr best) =
      inr (Best-behind id j region rest x f best)

  step_taken :
      (id j : Bytes) (region : Region F) (rest : Dict (Region F)) (x : F) (m : RegionMetrics F)
      → eligible floats now id region b ≡ some m
      → floats.lt m.load_factor x ≡ true
      → Outcome id m.load_factor rest j
      → Best x j ((id, region) ∷ rest)
  unfolding Outcome Best Listed NoneLower NotLower
  step_taken id j region rest x m e less (inl (same_id, none_lower)) =
      subst (λ i. Best x i ((id, region) ∷ rest)) (sym same_id)
        (
          region,
          (
            inl (refl, refl),
            (
              m,
              (
                e,
                (
                  less,
                  (
                    subst (NotLower m.load_factor) (sym e) (laws.lt_irrefl m.load_factor),
                    none_lower,
                  ),
                ),
              ),
            ),
          ),
        )
  step_taken id j region rest x m e less (inr (r, (listed, (n, (el, (below, none_lower)))))) = (
    r,
    (
      inr listed,
      (
        n,
        (
          el,
          (
            laws.lt_trans n.load_factor m.load_factor x below less,
            (
              subst (NotLower n.load_factor) (sym e) (asymmetric n.load_factor m.load_factor below),
              none_lower,
            ),
          ),
        ),
      ),
    ),
  )

  -- The loop by its cases.
  loop_skips :
      (id selected : Bytes) (region : Region F) (rest : Dict (Region F)) (x : F)
      → eligible floats now id region b ≡ none
      → lowest_load floats now b selected x ((id, region) ∷ rest)
        ≡ lowest_load floats now b selected x rest
  unfolding lowest_load
  loop_skips id selected region rest x e = ground (arith, e)

  loop_keeps :
      (id selected : Bytes) (region : Region F) (rest : Dict (Region F)) (x : F)
      (m : RegionMetrics F)
      → eligible floats now id region b ≡ some m
      → floats.lt m.load_factor x ≡ false
      → lowest_load floats now b selected x ((id, region) ∷ rest)
        ≡ lowest_load floats now b selected x rest
  unfolding lowest_load
  loop_keeps id selected region rest x m e more = ground (arith, e, more)

  loop_takes :
      (id selected : Bytes) (region : Region F) (rest : Dict (Region F)) (x : F)
      (m : RegionMetrics F)
      → eligible floats now id region b ≡ some m
      → floats.lt m.load_factor x ≡ true
      → lowest_load floats now b selected x ((id, region) ∷ rest)
        ≡ lowest_load floats now b id m.load_factor rest
  unfolding lowest_load
  loop_takes id selected region rest x m e less = ground (arith, e, less)

  lowest_load-Outcome :
      (selected : Bytes) (x : F) (regions : Dict (Region F))
      → Outcome selected x regions (lowest_load floats now b selected x regions)
  unfolding Outcome NoneLower NotLower lowest_load
  lowest_load-Outcome selected x [] = inl (refl, tt)
  lowest_load-Outcome selected x ((id, region) ∷ rest) =
      let whole : Bytes → Type 0 = λ j. Outcome selected x ((id, region) ∷ rest) j in
      elim (Option-cases (eligible floats now id region b)) [
        | inl e ↦ subst whole (sym (loop_skips id selected region rest x e)) (
            skipped id _ selected region rest x (λ y h. rw e tt) (rw e tt)
              (lowest_load-Outcome selected x rest))
        | inr (m, e) ↦ elim (Bool-cases (floats.lt m.load_factor x)) [
          | inl less ↦ subst whole (sym (loop_takes id selected region rest x m e less)) (
              inr (
                step_taken id _ region rest x m e less (lowest_load-Outcome id m.load_factor rest)))
          | inr more ↦ subst whole (sym (loop_keeps id selected region rest x m e more)) (
              skipped id _ selected region rest x
                (λ y h. rw e (not_between m.load_factor y x more h)) (rw e more)
                (lowest_load-Outcome selected x rest))
        ]
      ]

  or_none_healthy-ok :
      (selected id : Bytes)
      → or_none_healthy floats selected ≡ ok id
      → (selected ≡ id) × (is_empty id ≡ false)
  unfolding or_none_healthy
  or_none_healthy-ok [] id h = cc
  or_none_healthy-ok (c ∷ cs) id h = ground arith

  or_none_healthy-err :
      (selected : Bytes) → or_none_healthy floats selected ≡ err no_healthy_regions → selected ≡ []
  unfolding or_none_healthy
  or_none_healthy-err [] h = refl
  or_none_healthy-err (c ∷ cs) h = cc

  chosen :
      (j : Bytes) (x : F) (regions : Dict (Region F))
      → Outcome [] x regions j
      → is_empty j ≡ false
      → Best x j regions
  unfolding Outcome
  chosen j x regions (inl (e, none_lower)) h = absurd (ground (arith, ap is_empty e))
  chosen j x regions (inr best) h = best

  Listed-named :
      (regions : Dict (Region F)) (j : Bytes) (region : Region F)
      → Listed j region regions
      → All (λ entry. is_empty entry.0 ≡ false) regions
      → is_empty j ≡ false
  unfolding Listed
  Listed-named [] j region h named = elim h [ ]
  Listed-named ((id, r) ∷ rest) j region (inl (e, f)) (named, others) = ap is_empty (sym e) ∙ named
  Listed-named ((id, r) ∷ rest) j region (inr h) (named, others) =
      Listed-named rest j region h others

  left_out :
      (j : Bytes) (x : F) (regions : Dict (Region F))
      → Outcome [] x regions j
      → j ≡ []
      → All (λ entry. is_empty entry.0 ≡ false) regions
      → NoneLower x regions
  unfolding Outcome Best
  left_out j x regions (inl (e, none_lower)) h named = none_lower
  left_out j x regions (inr (r, (listed, more))) h named =
      absurd (ground (arith, ap is_empty h, Listed-named regions j r listed named))

  -- The region that is selected by load is listed, is healthy and within the thresholds, has a
  -- load below one, and no region that is healthy and within the thresholds has a lower load,
  -- whatever the order in which the regions are visited, for floats of which the comparison is a
  -- strict order.
  pub select_region_by_load-Best :
      (id : Bytes)
      → select_region_by_load floats now b ≡ ok id
      → Best (floats.of_nat 1) id b.regions
  unfolding select_region_by_load
  select_region_by_load-Best id h =
      let (same_id, named) =
        or_none_healthy-ok (lowest_load floats now b [] (floats.of_nat 1) b.regions) id h in
      subst (λ i. Best (floats.of_nat 1) i b.regions) same_id
        (chosen (lowest_load floats now b [] (floats.of_nat 1) b.regions) (floats.of_nat 1)
          b.regions (lowest_load-Outcome [] (floats.of_nat 1) b.regions)
          (subst (λ i. is_empty i ≡ false) (sym same_id) named))

  -- Where every region has a name and the selection by load finds none, no region that is
  -- healthy and within the thresholds has a load below one.
  pub select_region_by_load-NoneLower :
      select_region_by_load floats now b ≡ err no_healthy_regions
      → All (λ entry. is_empty entry.0 ≡ false) b.regions
      → NoneLower (floats.of_nat 1) b.regions
  unfolding select_region_by_load
  select_region_by_load-NoneLower h named =
      left_out (lowest_load floats now b [] (floats.of_nat 1) b.regions) (floats.of_nat 1) b.regions
        (lowest_load-Outcome [] (floats.of_nat 1) b.regions)
        (or_none_healthy-err (lowest_load floats now b [] (floats.of_nat 1) b.regions) h) named
