-- ===== src/Regions/Balancer.antt =====
-- regions/balancer.go: the balancer's maps, the choice of a region by load or by place, and the choice
-- of a pair in a region. `now` is the clock; a range over a map visits it in the order of the entries.
pub mod Load
use aristo.Prelude.{
  ℕ, [], ◌∷◌, ◌++◌, List, Bool, true, false, not, ◌&&◌, ◌||◌, Bytes, text, same, is_empty, Option,
  none, some, Result, ok, err, ltb, length, if◌then◌else◌, map, no_healthy_regions, no_pairs,
  no_healthy_pairs, pair_not_found, region_not_found,
}
use aristo.Prelude.Integers.{ℤ, at_most, older_than, younger_than}
use aristo.Prelude.Floats.{Floats}
use aristo.Prelude.Dict
use aristo.Prelude.Dict.{Dict}
use aristo.Regions.Config.{GeoLocation, TeePair}

pub record Region (F : Type 0) : Type 0 where
  pub id : Bytes
  pub worker_ids : List Bytes
  pub is_healthy : Bool
  pub last_updated : ℕ
  pub location : Option (GeoLocation F)
  pub tee_pairs : List (Bytes × Bytes)

-- The fields that the balancer reads.
pub record RegionMetrics (F : Type 0) : Type 0 where
  pub load_factor : F
  pub latency_ms : F
  pub error_rate : F
  pub active_workers : ℤ
  pub pending_tasks : ℤ
  pub last_health_check : ℕ

pub record PairMetrics (F : Type 0) : Type 0 where
  pub pair_id : Bytes
  pub sgx_endpoint : Bytes
  pub sev_endpoint : Bytes
  pub success_rate : F
  pub load_factor : F
  pub last_healthy : ℕ

pub record BalancerConfig (F : Type 0) : Type 0 where
  pub max_load_factor : F
  pub max_latency_ms : F
  pub max_error_rate : F
  pub min_success_rate : F
  pub min_active_workers : ℤ
  pub max_pending_tasks : ℤ
  pub health_check_window : ℤ
  pub geo_preference : Bool
  pub max_distance : F

pub record RegionBalancer (F : Type 0) : Type 0 where
  pub regions : Dict (Region F)
  pub metrics : Dict (RegionMetrics F)
  pub pair_metrics : Dict (List (PairMetrics F))
  pub thresholds : BalancerConfig F

module _ {F : Type 0} (floats : Floats F) where
  unfoldable pub update_metrics : Bytes → RegionMetrics F → RegionBalancer F → RegionBalancer F
  update_metrics id m b = record b { metrics = Dict.insert id m b.metrics }

  unfoldable pub add_region : Region F → RegionBalancer F → RegionBalancer F
  add_region region b = record b { regions = Dict.insert region.id region b.regions }

  unfoldable pub remove_region : Bytes → RegionBalancer F → RegionBalancer F
  remove_region id b = record b {
    regions = Dict.remove id b.regions;
    metrics = Dict.remove id b.metrics;
  }

  unfoldable pub is_region_healthy : ℕ → Bytes → Region F → RegionBalancer F → Bool
  is_region_healthy now id region b =
      if not region.is_healthy then false else elim (Dict.lookup id b.metrics) [
        | none ↦ false
        | some m ↦ not (older_than now m.last_health_check b.thresholds.health_check_window)
      ]

  unfoldable pub get_region_health : ℕ → Bytes → RegionBalancer F → Result Bool
  unfolding is_region_healthy
  get_region_health now id b = elim (Dict.lookup id b.regions) [
    | none ↦ err region_not_found
    | some region ↦ ok (is_region_healthy now id region b)
  ]

  unfoldable pub is_region_within_thresholds : RegionMetrics F → RegionBalancer F → Bool
  is_region_within_thresholds m b =
      floats.le m.load_factor b.thresholds.max_load_factor
      && (floats.le m.latency_ms b.thresholds.max_latency_ms
          && (floats.le m.error_rate b.thresholds.max_error_rate
              && (at_most b.thresholds.min_active_workers m.active_workers
                  && at_most m.pending_tasks b.thresholds.max_pending_tasks)))

  -- The metrics of a region that the loops do not skip.
  unfoldable pub eligible : ℕ → Bytes → Region F → RegionBalancer F → Option (RegionMetrics F)
  unfolding is_region_healthy is_region_within_thresholds
  eligible now id region b =
      if not (is_region_healthy now id region b) then none else elim (Dict.lookup id b.metrics) [
        | none ↦ none
        | some m ↦ if is_region_within_thresholds m b then some m else none
      ]

  -- The loop of selectRegionByLoad: the region selected so far and the lowest load.
  unfoldable pub lowest_load : ℕ → RegionBalancer F → Bytes → F → Dict (Region F) → Bytes
  lowest_load now b selected lowest [] = selected
  lowest_load now b selected lowest ((id, region) ∷ regions) = elim (eligible now id region b) [
    | none ↦ lowest_load now b selected lowest regions
    | some m ↦ elim (floats.lt m.load_factor lowest) [
      | true ↦ lowest_load now b id m.load_factor regions
      | false ↦ lowest_load now b selected lowest regions
    ]
  ]

  unfoldable pub or_none_healthy : Bytes → Result Bytes
  or_none_healthy selected = if is_empty selected then err no_healthy_regions else ok selected

  unfoldable pub select_region_by_load : ℕ → RegionBalancer F → Result Bytes
  unfolding eligible lowest_load or_none_healthy
  select_region_by_load now b = or_none_healthy (lowest_load now b [] (floats.of_nat 1) b.regions)

  -- The source leaves the distance to be computed.
  unfoldable pub calculate_distance : GeoLocation F → Option (GeoLocation F) → F
  calculate_distance l1 l2 = floats.of_nat 0

  unfoldable pub calculate_region_score : RegionMetrics F → F → BalancerConfig F → F
  calculate_region_score m distance thresholds =
      let one = floats.of_nat 1 in
      let load = floats.sub one m.load_factor in
      let latency = floats.sub one (floats.div m.latency_ms thresholds.max_latency_ms) in
      let place = floats.sub one (floats.div distance thresholds.max_distance) in
      floats.add
        (floats.add (floats.mul load floats.two_fifths) (floats.mul latency floats.three_tenths))
        (floats.mul place floats.three_tenths)

  -- The score of a region that the loop by place does not skip.
  unfoldable pub score_of : ℕ → GeoLocation F → Bytes → Region F → RegionBalancer F → Option F
  unfolding eligible calculate_distance calculate_region_score
  score_of now place id region b = elim (eligible now id region b) [
    | none ↦ none
    | some m ↦
        let distance = calculate_distance place region.location in
        if floats.lt b.thresholds.max_distance distance
        then none
        else some (calculate_region_score m distance b.thresholds)
  ]

  unfoldable pub best_score :
      ℕ → GeoLocation F → RegionBalancer F → Bytes → F → Dict (Region F) → Bytes
  unfolding score_of
  best_score now place b selected best [] = selected
  best_score now place b selected best ((id, region) ∷ regions) =
      elim (score_of now place id region b) [
        | none ↦ best_score now place b selected best regions
        | some score ↦ elim (floats.lt best score) [
          | true ↦ best_score now place b id score regions
          | false ↦ best_score now place b selected best regions
        ]
      ]

  unfoldable pub select_region_with_location :
      ℕ → Option (GeoLocation F) → RegionBalancer F → Result Bytes
  unfolding select_region_by_load best_score or_none_healthy
  select_region_with_location now none b = select_region_by_load now b
  select_region_with_location now (some place) b =
      if not b.thresholds.geo_preference
      then select_region_by_load now b
      else or_none_healthy (best_score now place b [] (floats.neg (floats.of_nat 1)) b.regions)

  unfoldable pub pairs_in : Bytes → RegionBalancer F → List (PairMetrics F)
  pairs_in region b = elim (Dict.lookup region b.pair_metrics) [ none ↦ [] | some ps ↦ ps ]

  unfoldable pub is_fresh : ℕ → PairMetrics F → RegionBalancer F → Bool
  is_fresh now m b =
      floats.lt b.thresholds.min_success_rate m.success_rate
      && younger_than now m.last_healthy b.thresholds.health_check_window

  unfoldable pub healthy_ids : ℕ → RegionBalancer F → List (PairMetrics F) → List Bytes
  unfolding is_fresh
  healthy_ids now b [] = []
  healthy_ids now b (m ∷ ms) =
      let rest = healthy_ids now b ms in
      if is_fresh now m b && floats.lt m.load_factor b.thresholds.max_load_factor
      then m.pair_id ∷ rest
      else rest

  unfoldable pub get_healthy_pairs : ℕ → Bytes → RegionBalancer F → List Bytes
  unfolding healthy_ids pairs_in
  get_healthy_pairs now region b = healthy_ids now b (pairs_in region b)

  unfoldable pub as_pair : PairMetrics F → TeePair
  as_pair m = record {
    id = m.pair_id;
    sgx_id = [];
    sev_id = [];
    sgx_endpoint = m.sgx_endpoint;
    sev_endpoint = m.sev_endpoint;
    status = text "active";
  }

  unfoldable pub least_loaded :
      ℕ → RegionBalancer F → Option TeePair → F → List (PairMetrics F) → Option TeePair
  unfolding is_fresh as_pair
  least_loaded now b selected least [] = selected
  least_loaded now b selected least (m ∷ ms) =
      elim (floats.lt m.load_factor least && is_fresh now m b) [
        | true ↦ least_loaded now b (some (as_pair m)) m.load_factor ms
        | false ↦ least_loaded now b selected least ms
      ]

  unfoldable pub select_optimal_pair : ℕ → Bytes → RegionBalancer F → Result TeePair
  unfolding pairs_in least_loaded
  select_optimal_pair now region b = elim (pairs_in region b) [
    | [] ↦ err no_pairs
    | m ∷ ms ↦ elim (least_loaded now b none floats.max_float (m ∷ ms)) [
      | none ↦ err no_healthy_pairs
      | some pair ↦ ok pair
    ]
  ]

  -- The first entry of the pair is replaced, or a new one is put at the end.
  unfoldable pub put_pair : Bytes → PairMetrics F → List (PairMetrics F) → List (PairMetrics F)
  put_pair id m [] = m ∷ []
  put_pair id m (n ∷ ns) =
      let rest = put_pair id m ns in if same n.pair_id id then m ∷ ns else n ∷ rest

  unfoldable pub update_pair_metrics :
      Bytes → Bytes → PairMetrics F → RegionBalancer F → RegionBalancer F
  unfolding put_pair pairs_in
  update_pair_metrics region id m b = record b {
    pair_metrics = Dict.insert region (put_pair id m (pairs_in region b)) b.pair_metrics;
  }

  unfoldable pub change_pair :
      Bytes → (PairMetrics F → PairMetrics F) → List (PairMetrics F) → Option (List (PairMetrics F))
  change_pair id f [] = none
  change_pair id f (n ∷ ns) =
      let rest = change_pair id f ns in
      if same n.pair_id id
      then some (f n ∷ ns)
      else elim rest [ none ↦ none | some changed ↦ some (n ∷ changed) ]

  unfoldable pub update_specific_pair_metrics :
      Bytes → Bytes → (PairMetrics F → PairMetrics F) → RegionBalancer F → Result (RegionBalancer F)
  unfolding change_pair
  update_specific_pair_metrics region id f b = elim (Dict.lookup region b.pair_metrics) [
    | none ↦ err region_not_found
    | some ps ↦ elim (change_pair id f ps) [
      | none ↦ err pair_not_found
      | some changed ↦ ok (record b { pair_metrics = Dict.insert region changed b.pair_metrics })
    ]
  ]
