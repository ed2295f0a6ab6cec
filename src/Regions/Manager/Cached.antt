-- ===== src/Regions/Manager/Cached.antt =====
-- regions/config.go: what an accepted configuration changes.
use mathlib.Core.Path.{subst}
use aristo.Prelude.{
  List, same→eq, invalid_config, region_not_found, ◌≡◌, refl, ap, not, Bytes, same, same_refl, none,
  some, Result, ok, err, Act, lift, reject_if, arith,
}
use aristo.Prelude.Success.{bind-returns, reject_if-returns}
use aristo.Prelude.Preserves.{Preserves, Preserves-bind, Preserves-lift, Preserves-reject_if}
use aristo.Prelude.Floats.{Floats}
use aristo.Prelude.Dict
use aristo.Prelude.Dict.{Dict}
use aristo.Regions.Config.{TeePair, RegionConfig, validate}
use aristo.Regions.Manager.{
  ConfigStore, RegionManager, on_store, set_config, update_config, get_config, get_tee_pairs,
}

module _ {S F : Type 0} (floats : Floats F) (config_store : ConfigStore S F) where
  HasCache : Dict (RegionConfig F) → RegionManager S F → Type 0
  HasCache cache rm = rm.cache ≡ cache

  on_store-HasCache :
      {A : Type 0} (m : Act S A) (cache : Dict (RegionConfig F))
      → Preserves (HasCache cache) (on_store floats config_store m)
  unfolding on_store HasCache
  on_store-HasCache m cache = record { step = λ rm h. h }

  set_config-HasCache :
      (id : Bytes) (config : RegionConfig F) (cache : Dict (RegionConfig F))
      → Preserves (HasCache cache) (set_config floats config_store id config)
  unfolding set_config HasCache
  set_config-HasCache id config cache = record { step = λ rm h. h }

  update_config-HasCache :
      (id : Bytes) (config : RegionConfig F) (cache : Dict (RegionConfig F))
      → Preserves (HasCache cache) (update_config floats config_store id config)
  unfolding update_config
  update_config-HasCache id config cache =
      Preserves-bind (lift (validate floats config)) _ (Preserves-lift (validate floats config))
        λ u.
          Preserves-bind (reject_if (not (same config.id id)) invalid_config) _
            (Preserves-reject_if (not (same config.id id)) invalid_config)
            λ v.
              Preserves-bind
                (on_store floats config_store (config_store.set_region_config id config)) _
                (on_store-HasCache (config_store.set_region_config id config) cache)
                λ w. set_config-HasCache id config cache

  get_tee_pairs-cache :
      (region : Bytes) (a b : RegionManager S F)
      → a.cache ≡ b.cache
      → get_tee_pairs floats config_store region a ≡ get_tee_pairs floats config_store region b
  unfolding get_tee_pairs
  get_tee_pairs-cache region a b e =
      ap
        (λ (m : Dict (RegionConfig F)).
          elim (Dict.lookup region m) as (λ o. Result (List TeePair)) [
            | none ↦ err region_not_found
            | some config ↦ ok config.tee_pairs
          ])
        e

  get_config-set_config :
      (id : Bytes) (config : RegionConfig F) (s : RegionManager S F)
      → get_config floats config_store id (set_config floats config_store id config s).1
        ≡ (ok config, (set_config floats config_store id config s).1)
  unfolding get_config set_config
  get_config-set_config id config s =
      ground (arith, Dict.lookup-insert id id config s.configs, same_refl id)

  -- Updating the configuration of a region, whatever comes of it, does not change which pairs
  -- the region manager reports for any region.
  pub get_tee_pairs-update_config :
      (id region : Bytes) (config : RegionConfig F) (rm : RegionManager S F)
      → get_tee_pairs floats config_store region (update_config floats config_store id config rm).1
        ≡ get_tee_pairs floats config_store region rm
  unfolding HasCache
  get_tee_pairs-update_config id region config rm =
      get_tee_pairs-cache region (update_config floats config_store id config rm).1 rm
        ((update_config-HasCache id config rm.cache).step rm refl)

  -- PROP
  pub get_config-update_config :
      (id : Bytes) (config : RegionConfig F) (rm t : RegionManager S F)
      → update_config floats config_store id config rm ≡ (ok tt, t)
      → (validate floats config ≡ ok tt)
        × (config.id ≡ id)
        × (get_config floats config_store id t ≡ (ok config, t))
  unfolding update_config
  get_config-update_config id config rm t h =
      let (u, (valid, h1)) = bind-returns (lift (validate floats config)) _ rm t tt h in
      let (matches, h2) = reject_if-returns (not (same config.id id)) _ _ rm t tt h1 in
      let (v, (done, h3)) =
        bind-returns (on_store floats config_store (config_store.set_region_config id config)) _ rm
          t tt h2 in
      let s1 = (on_store floats config_store (config_store.set_region_config id config) rm).1 in
      (
        valid,
        same→eq config.id id (ground (arith, matches)),
        subst (λ x. get_config floats config_store id x ≡ (ok config, x)) (ap (λ p. p.1) h3)
            (get_config-set_config id config s1),
      )
