-- ===== src/Regions/Config/Valid.antt =====
-- regions/config.go: which configurations are accepted.
use aristo.Prelude.{
  ◌≤◌, ◌≡◌, ◌↔◌, refl, [], ◌∷◌, List, true, false, ◌&&◌, Bytes, same, is_empty, All, ok, arith,
  length,
}
use aristo.Prelude.Integers.{is_positive}
use aristo.Prelude.Floats.{Floats}
use aristo.Regions.Config.{
  LoadBalancerConfig, GeoLocation, TeePair, RegionConfig, pair_key, contains_key, validate_pairs,
  validate_load_balancer, validate_location, validate,
}

-- No pair has the ids of one behind it.
abbrev pub AreDistinct : List TeePair → Type 0
AreDistinct [] = Unit
AreDistinct (pair ∷ pairs) =
    All (λ p. same (pair_key pair) (pair_key p) ≡ false) pairs × AreDistinct pairs

abbrev pub HasIds : TeePair → Type 0
HasIds pair = (is_empty pair.sgx_id ≡ false) × (is_empty pair.sev_id ≡ false)

abbrev pub IsUnseen : List Bytes → TeePair → Type 0
IsUnseen seen pair = contains_key (pair_key pair) seen ≡ false

IsUnseen-iff :
    (k : Bytes) (seen : List Bytes) (pair : TeePair)
    → IsUnseen (k ∷ seen) pair ↔ ((same k (pair_key pair) ≡ false) × IsUnseen seen pair)
unfolding contains_key
IsUnseen-iff k seen pair = ground arith

All-IsUnseen_iff :
    (k : Bytes) (seen : List Bytes) (pairs : List TeePair)
    → All (IsUnseen (k ∷ seen)) pairs
      ↔ (All (λ p. same k (pair_key p) ≡ false) pairs × All (IsUnseen seen) pairs)
All-IsUnseen_iff k seen [] = (λ h. (tt, tt), λ h. tt)
All-IsUnseen_iff k seen (pair ∷ pairs) =
    let (to, from) = IsUnseen-iff k seen pair in
    let (all_to, all_from) = All-IsUnseen_iff k seen pairs in
    (
      λ h. let (d, u) = to h.0 in let (ds, us) = all_to h.1 in ((d, ds), (u, us)),
      λ h. (from (h.0.0, h.1.0), all_from (h.0.1, h.1.1)),
    )

All-IsUnseen_nil : (pairs : List TeePair) → All (IsUnseen []) pairs
unfolding contains_key
All-IsUnseen_nil [] = tt
All-IsUnseen_nil (pair ∷ pairs) = (refl, All-IsUnseen_nil pairs)

first_pair_iff :
    (seen : List Bytes) (pair : TeePair) (pairs : List TeePair)
    → (validate_pairs seen (pair ∷ pairs) ≡ ok tt)
      ↔ (HasIds pair × IsUnseen seen pair × (validate_pairs (pair_key pair ∷ seen) pairs ≡ ok tt))
unfolding validate_pairs
first_pair_iff seen pair pairs = ground arith

pairs_iff :
    (seen : List Bytes) (pairs : List TeePair)
    → (validate_pairs seen pairs ≡ ok tt)
      ↔ (All HasIds pairs × All (IsUnseen seen) pairs × AreDistinct pairs)
unfolding validate_pairs
pairs_iff seen [] = (λ h. (tt, tt, tt), λ h. refl)
pairs_iff seen (pair ∷ pairs) =
    let (to, from) = first_pair_iff seen pair pairs in
    let (rest_to, rest_from) = pairs_iff (pair_key pair ∷ seen) pairs in
    let (all_to, all_from) = All-IsUnseen_iff (pair_key pair) seen pairs in
    (
      λ h.
          let (ids, unseen, rest) = to h in
          let (all_ids, all_unseen, distinct) = rest_to rest in
          let (differ, others) = all_to all_unseen in
          ((ids, all_ids), (unseen, others), (differ, distinct)),
      λ h.
          let ((ids, all_ids), (unseen, others), (differ, distinct)) = h in
          from (ids, unseen, rest_from (all_ids, all_from (differ, others), distinct)),
    )

module _ {F : Type 0} (floats : Floats F) where
  -- What the check asks of the balancer's settings.
  abbrev pub IsBalanced : LoadBalancerConfig F → Type 0
  IsBalanced lb =
      ((floats.le lb.max_load_factor (floats.of_nat 0) ≡ false)
        × (floats.lt (floats.of_nat 1) lb.max_load_factor ≡ false))
      × (floats.le lb.max_latency_ms (floats.of_nat 0) ≡ false)
      × ((floats.lt lb.max_error_rate (floats.of_nat 0) ≡ false)
          × (floats.lt (floats.of_nat 1) lb.max_error_rate ≡ false))
      × (is_positive lb.min_active_workers ≡ true)
      × (is_positive lb.max_pending_tasks ≡ true)
      × (is_positive lb.health_check_window ≡ true)
      × ((lb.geo_preference && floats.le lb.max_distance (floats.of_nat 0)) ≡ false)

  abbrev pub IsPlaced : GeoLocation F → Type 0
  IsPlaced l =
      ((floats.lt l.latitude (floats.neg (floats.of_nat 90)) ≡ false)
        × (floats.lt (floats.of_nat 90) l.latitude ≡ false))
      × ((floats.lt l.longitude (floats.neg (floats.of_nat 180)) ≡ false)
          × (floats.lt (floats.of_nat 180) l.longitude ≡ false))
      × (is_empty l.data_center ≡ false)
      × (is_empty l.region ≡ false)

  balancer_iff :
      (lb : LoadBalancerConfig F) → (validate_load_balancer floats lb ≡ ok tt) ↔ IsBalanced lb
  unfolding validate_load_balancer
  balancer_iff lb = ground arith

  location_iff : (l : GeoLocation F) → (validate_location floats l ≡ ok tt) ↔ IsPlaced l
  unfolding validate_location
  location_iff l = ground arith

  stages_iff :
      (c : RegionConfig F)
      → (validate floats c ≡ ok tt) ↔ (
          (is_empty c.id ≡ false)
          × (1 ≤ length c.tee_pairs)
          × (validate_pairs [] c.tee_pairs ≡ ok tt)
          × ((is_positive c.max_objects ≡ true) × (is_positive c.max_events ≡ true))
          × (validate_load_balancer floats c.load_balancer ≡ ok tt)
          × (validate_location floats c.location ≡ ok tt))
  unfolding validate
  stages_iff c = ground arith

  -- A region's configuration is accepted exactly where it has an id and pairs, every pair has
  -- both ids, no two pairs print the same ids, the limits are positive, the balancer's settings
  -- and the location are in their ranges and named.
  pub validate_iff :
      (c : RegionConfig F)
      → (validate floats c ≡ ok tt) ↔ (
          (is_empty c.id ≡ false)
          × (1 ≤ length c.tee_pairs)
          × (All HasIds c.tee_pairs × AreDistinct c.tee_pairs)
          × ((is_positive c.max_objects ≡ true) × (is_positive c.max_events ≡ true))
          × IsBalanced c.load_balancer
          × IsPlaced c.location)
  validate_iff c =
      let (to, from) = stages_iff c in
      let (pairs_to, pairs_from) = pairs_iff [] c.tee_pairs in
      let (lb_to, lb_from) = balancer_iff c.load_balancer in
      let (at_to, at_from) = location_iff c.location in
      (
        λ h.
            let (id, some_pairs, pairs, limits, lb, at) = to h in
            let (ids, unseen, distinct) = pairs_to pairs in
            (id, some_pairs, (ids, distinct), limits, lb_to lb, at_to at),
        λ h.
            let (id, some_pairs, (ids, distinct), limits, lb, at) = h in
            from (
              id,
              some_pairs,
              pairs_from (ids, All-IsUnseen_nil c.tee_pairs, distinct),
              limits,
              lb_from lb,
              at_from at,
            ),
      )
