-- ===== src/Storage/RegionStates.antt =====
-- storage/region_state_store.go: the region manager's Storage over the state manager, of which it uses
-- GetValue, Insert and Remove. The JSON encodings are parameters.
pub mod Apart
use aristo.Prelude.{◌≡◌, [], Bytes, text, Result, Act, store, then_try}
use aristo.Storage.State.{Mutable}
use aristo.Storage.Codec.{Codec}
use aristo.Storage.Keys.{make_region_key}
use aristo.Regions.Config.{RegionConfig, LoadBalancerConfig}
use aristo.Prelude.Integers.{ℤ}
use aristo.Regions.Metrics.{TeePairMetrics}
use aristo.Regions.States.{PairState, StateStore}

-- Its balancer's limits are those of the configuration but the last two.
pub record RegionSettings (F : Type 0) : Type 0 where
  pub max_objects : ℤ
  pub max_events : ℤ
  pub load_balancer : LoadBalancerConfig F

pub record RegionCodecs (F : Type 0) : Type 0 where
  pub config : Codec (RegionConfig F)
  pub settings : Codec (RegionSettings F)
  pub state : Codec (PairState F)
  pub metrics : Codec (TeePairMetrics F)

abbrev pub config_key_of : Bytes → Bytes
config_key_of region = make_region_key (text "config") region []

abbrev pub settings_key_of : Bytes → Bytes
settings_key_of region = make_region_key (text "settings") region []

abbrev pub state_key_of : Bytes → Bytes → Bytes
state_key_of region pair = make_region_key (text "state") region pair

abbrev pub metrics_key_of : Bytes → Bytes → Bytes
metrics_key_of region pair = make_region_key (text "metrics") region pair

module _ {S F : Type 0} (mu : Mutable S) (codecs : RegionCodecs F) where
  -- json.Marshal, then Insert
  unfoldable pub insert_json : {A : Type 0} → Codec A → Bytes → A → Act S (Unit {0})
  insert_json codec key a = store (λ s. then_try (codec.marshal a) (mu.insert s key)) tt

  -- GetValue, then json.Unmarshal
  unfoldable pub read_json : {A : Type 0} → Codec A → Bytes → S → Result A
  read_json codec key s = then_try (mu.get_value s key) codec.unmarshal

  unfoldable pub get_region_config : Bytes → S → Result (RegionConfig F)
  unfolding read_json
  get_region_config region = read_json codecs.config (config_key_of region)

  unfoldable pub set_region_config : Bytes → RegionConfig F → Act S (Unit {0})
  unfolding insert_json
  set_region_config region config = insert_json codecs.config (config_key_of region) config

  unfoldable pub delete_region_config : Bytes → Act S (Unit {0})
  delete_region_config region = store (λ s. mu.remove s (config_key_of region)) tt

  unfoldable pub get_region_settings : Bytes → S → Result (RegionSettings F)
  unfolding read_json
  get_region_settings region = read_json codecs.settings (settings_key_of region)

  unfoldable pub save_region_settings : Bytes → RegionSettings F → Act S (Unit {0})
  unfolding insert_json
  save_region_settings region settings =
      insert_json codecs.settings (settings_key_of region) settings

  unfoldable pub get_tee_state : Bytes → Bytes → S → Result (PairState F)
  unfolding read_json
  get_tee_state region pair = read_json codecs.state (state_key_of region pair)

  unfoldable pub save_tee_state : Bytes → Bytes → PairState F → Act S (Unit {0})
  unfolding insert_json
  save_tee_state region pair state = insert_json codecs.state (state_key_of region pair) state

  unfoldable pub get_metrics : Bytes → Bytes → S → Result (TeePairMetrics F)
  unfolding read_json
  get_metrics region pair = read_json codecs.metrics (metrics_key_of region pair)

  unfoldable pub save_metrics : Bytes → Bytes → TeePairMetrics F → Act S (Unit {0})
  unfolding insert_json
  save_metrics region pair m = insert_json codecs.metrics (metrics_key_of region pair) m

  -- As the region manager's Storage.
  unfoldable pub region_state_store : StateStore S F
  unfolding set_region_config save_tee_state get_tee_state save_metrics
  region_state_store = record {
    set_region_config = set_region_config;
    save_tee_state = save_tee_state;
    get_tee_state = get_tee_state;
    save_metrics = save_metrics;
  }
