-- ===== src/Regions/Config.antt =====
-- regions/config.go: the check of a region's configuration, and the region manager's two maps of
-- configurations. Floats are a parameter. A pointer to a configuration is the configuration.
pub mod Valid
use aristo.Prelude.{
  ℕ, ◌+◌, [], ◌∷◌, ◌++◌, List, Bool, true, false, not, ◌&&◌, ◌||◌, Bytes, text, same, is_empty,
  Option, none, some, Result, ok, err, panic, then_try, Act, pure, fail, crash, gets, lift, store,
  ◌>>=◌, ◌>>◌, reject_if, length, ltb, ◌==◌, if◌then◌else◌, Error, self_deadlock, id_required,
  invalid_config, invalid_tee_pair, duplicate_tee_pair, invalid_limits, invalid_location,
  invalid_distance, config_not_found, region_not_found,
}
use aristo.Prelude.Integers.{ℤ, is_positive}
use aristo.Prelude.Floats.{Floats}
use aristo.Prelude.Dict
use aristo.Prelude.Dict.{Dict}
use aristo.Verifier.Batch.{hex}

pub record LoadBalancerConfig (F : Type 0) : Type 0 where
  pub max_load_factor : F
  pub max_latency_ms : F
  pub max_error_rate : F
  pub min_active_workers : ℤ
  pub max_pending_tasks : ℤ
  pub health_check_window : ℤ
  pub geo_preference : Bool
  pub max_distance : F

pub record GeoLocation (F : Type 0) : Type 0 where
  pub latitude : F
  pub longitude : F
  pub data_center : Bytes
  pub country : Bytes
  pub region : Bytes

pub record TeePair : Type 0 where
  pub id : Bytes
  pub sgx_id : Bytes
  pub sev_id : Bytes
  pub sgx_endpoint : Bytes
  pub sev_endpoint : Bytes
  pub status : Bytes

pub record RegionConfig (F : Type 0) : Type 0 where
  pub id : Bytes
  pub tee_pairs : List TeePair
  pub max_objects : ℤ
  pub max_events : ℤ
  pub load_balancer : LoadBalancerConfig F
  pub location : GeoLocation F

-- fmt.Sprintf("%x:%x", pair.SGXID, pair.SEVID)
unfoldable pub pair_key : TeePair → Bytes
unfolding hex
pair_key pair = hex pair.sgx_id ++ text ":" ++ hex pair.sev_id

unfoldable pub contains_key : Bytes → List Bytes → Bool
contains_key k [] = false
contains_key k (j ∷ js) = let rest = contains_key k js in if same j k then true else rest

unfoldable pub validate_pairs : List Bytes → List TeePair → Result (Unit {0})
unfolding pair_key contains_key
validate_pairs seen [] = ok tt
validate_pairs seen (pair ∷ pairs) =
    let rest = validate_pairs (pair_key pair ∷ seen) pairs in
    if is_empty pair.sgx_id
    then err invalid_tee_pair
    else if is_empty pair.sev_id
    then err invalid_tee_pair
    else if contains_key (pair_key pair) seen
    then err duplicate_tee_pair
    else rest

module _ {F : Type 0} (floats : Floats F) where
  unfoldable pub validate_load_balancer : LoadBalancerConfig F → Result (Unit {0})
  validate_load_balancer lb =
      let zero = floats.of_nat 0 in
      let one = floats.of_nat 1 in
      if floats.le lb.max_load_factor zero || floats.lt one lb.max_load_factor
      then err invalid_config
      else if floats.le lb.max_latency_ms zero
      then err invalid_config
      else if floats.lt lb.max_error_rate zero || floats.lt one lb.max_error_rate
      then err invalid_config
      else if not (is_positive lb.min_active_workers)
      then err invalid_config
      else if not (is_positive lb.max_pending_tasks)
      then err invalid_config
      else if not (is_positive lb.health_check_window)
      then err invalid_config
      else if lb.geo_preference && floats.le lb.max_distance zero
      then err invalid_distance
      else ok tt

  unfoldable pub validate_location : GeoLocation F → Result (Unit {0})
  validate_location l =
      let outside_of = λ (x : F) (n : ℕ).
        floats.lt x (floats.neg (floats.of_nat n)) || floats.lt (floats.of_nat n) x in
      if outside_of l.latitude 90
      then err invalid_location
      else if outside_of l.longitude 180
      then err invalid_location
      else if is_empty l.data_center
      then err invalid_location
      else if is_empty l.region
      then err invalid_location
      else ok tt

  unfoldable pub validate : RegionConfig F → Result (Unit {0})
  unfolding validate_pairs validate_load_balancer validate_location
  validate c =
      if is_empty c.id
      then err id_required
      else if length c.tee_pairs == 0
      then err invalid_config
      else then_try (validate_pairs [] c.tee_pairs) λ u.
        if not (is_positive c.max_objects) || not (is_positive c.max_events)
        then err invalid_limits
        else then_try (validate_load_balancer c.load_balancer) λ v. validate_location c.location
