-- ===== src/Regions/Manager.antt =====
-- regions/config.go: the region manager's configurations. `store` keeps them; `configs` and `cache` are
-- two maps in memory, of which UpdateConfig writes the first and UpdateCache the second.
pub mod Cached
use aristo.Prelude.{
  ◌∷◌, ◌++◌, [], List, Bool, true, false, not, ◌&&◌, Bytes, same, Option, none, some, Result, ok,
  err, panic, Act, pure, fail, gets, lift, store, ◌>>=◌, ◌>>◌, reject_if, if◌then◌else◌,
  self_deadlock, crash, invalid_config, invalid_tee_pair, config_not_found, region_not_found, map,
}
use aristo.Prelude.Floats.{Floats}
use aristo.Prelude.Dict
use aristo.Prelude.Dict.{Dict}
use aristo.Regions.Config.{TeePair, RegionConfig, validate}

pub record ConfigStore (S F : Type 0) : Type 0 where
  pub set_region_config : Bytes → RegionConfig F → Act S (Unit {0})
  pub get_region_config : Bytes → Act S (Option (RegionConfig F))
  pub delete_region_config : Bytes → Act S (Unit {0})

pub record RegionManager (S F : Type 0) : Type 0 where
  pub stored : S
  pub configs : Dict (RegionConfig F)
  pub cache : Dict (RegionConfig F)

unfoldable pub find_pair : Bytes → Bytes → List TeePair → Option TeePair
find_pair sgx sev [] = none
find_pair sgx sev (pair ∷ pairs) =
    let rest = find_pair sgx sev pairs in
    if same pair.sgx_id sgx && same pair.sev_id sev then some pair else rest

unfoldable pub keys : {V : Type 0} → Dict V → List Bytes
keys m = map (λ entry. entry.0) m

module _ {S F : Type 0} (floats : Floats F) (config_store : ConfigStore S F) where
  unfoldable pub on_store : {A : Type 0} → Act S A → Act (RegionManager S F) A
  on_store m rm = let (r, s) = m rm.stored in (r, record rm { stored = s })

  unfoldable pub set_config : Bytes → RegionConfig F → Act (RegionManager S F) (Unit {0})
  set_config id config rm = (ok tt, record rm { configs = Dict.insert id config rm.configs })

  unfoldable pub update_config : Bytes → RegionConfig F → Act (RegionManager S F) (Unit {0})
  unfolding on_store set_config
  update_config id config = do
    lift (validate floats config)
    reject_if (not (same config.id id)) invalid_config
    on_store (config_store.set_region_config id config)
    set_config id config

  unfoldable pub keep_loaded :
      Bytes → Option (RegionConfig F) → Act (RegionManager S F) (RegionConfig F)
  unfolding set_config
  keep_loaded id none = fail config_not_found
  keep_loaded id (some config) = set_config id config >> pure config

  unfoldable pub load_config : Bytes → Act (RegionManager S F) (RegionConfig F)
  unfolding on_store keep_loaded
  load_config id = do config ← on_store (config_store.get_region_config id); keep_loaded id config

  unfoldable pub get_config : Bytes → Act (RegionManager S F) (RegionConfig F)
  unfolding load_config
  get_config id rm = elim (Dict.lookup id rm.configs) [
    | none ↦ load_config id rm
    | some config ↦ pure config rm
  ]

  -- The maps in memory keep the configuration.
  unfoldable pub delete_region : Bytes → Act (RegionManager S F) (Unit {0})
  unfolding on_store
  delete_region id = on_store (config_store.delete_region_config id)

  unfoldable pub found_pair : Option TeePair → Act (RegionManager S F) TeePair
  found_pair none = fail invalid_tee_pair
  found_pair (some pair) = pure pair

  unfoldable pub find_tee_pair : Bytes → Bytes → Bytes → Act (RegionManager S F) TeePair
  unfolding get_config found_pair find_pair
  find_tee_pair id sgx sev = do
    config ← get_config id
    found_pair (find_pair sgx sev config.tee_pairs)

  unfoldable pub validate_tee_pair : Bytes → Bytes → Bytes → Act (RegionManager S F) (Unit {0})
  unfolding find_tee_pair
  validate_tee_pair id sgx sev = find_tee_pair id sgx sev >> pure tt

  unfoldable pub with_pair : TeePair → RegionConfig F → RegionConfig F
  with_pair pair config = record config { tee_pairs = config.tee_pairs ++ pair ∷ [] }

  unfoldable pub update_cache : Bytes → RegionConfig F → Act (RegionManager S F) (Unit {0})
  update_cache id config rm = (ok tt, record rm { cache = Dict.insert id config rm.cache })

  -- The pair stays in the cache when the store fails.
  unfoldable pub add_to : Bytes → TeePair → RegionConfig F → Act (RegionManager S F) (Unit {0})
  unfolding with_pair update_cache on_store
  add_to id pair config = do
    update_cache id (with_pair pair config)
    on_store (config_store.set_region_config id (with_pair pair config))

  unfoldable pub add_tee_pair : Bytes → TeePair → Act (RegionManager S F) (Unit {0})
  unfolding add_to
  add_tee_pair id pair rm = elim (Dict.lookup id rm.cache) [
    | none ↦ fail region_not_found rm
    | some config ↦ add_to id pair config rm
  ]

  unfoldable pub get_tee_pairs : Bytes → RegionManager S F → Result (List TeePair)
  get_tee_pairs id rm = elim (Dict.lookup id rm.cache) [
    | none ↦ err region_not_found
    | some config ↦ ok config.tee_pairs
  ]

  -- On a miss the write lock is waited for while the read lock is held.
  unfoldable pub get_region_config : Bytes → RegionManager S F → Result (RegionConfig F)
  get_region_config id rm = elim (Dict.lookup id rm.cache) [
    | none ↦ panic self_deadlock
    | some config ↦ ok config
  ]

  unfoldable pub clear_cache : RegionManager S F → RegionManager S F
  clear_cache rm = record rm { cache = [] }

  unfoldable pub invalidate_cache : Bytes → RegionManager S F → RegionManager S F
  invalidate_cache id rm = record rm { cache = Dict.remove id rm.cache }

  unfoldable pub list_regions : RegionManager S F → List Bytes
  unfolding keys
  list_regions rm = keys rm.configs
