-- ===== src/Actions/Region/Absent.antt =====
-- actions/region.go: regions that the store does not have.
use aristo.Prelude.{
  ℕ, ◌≡◌, ◌≢◌, refl, true, false, ◌||◌, ◌==◌, ltb, length, Bytes, Option, none, some, Result, ok,
  err, panic, Error, store_access, arith,
}
use aristo.Prelude.Success.{bind-ok, reject_if-ok, lift-ok}
use aristo.Prelude.Dict.{Dict}
use aristo.Storage.Codec.{Codec}
use aristo.Actions.Region.{
  RegionalStore, Values, CreateRegion, RegionResult, create_region, existing_value,
  is_actions_not_found, replace_error, config_key, bad_region_id, max_tees_per_region, is_present,
}

-- What the database under a store returns: a value that is there, or `database.ErrNotFound` or
-- another failure, none of which is the error that the actions declare.
pub record ReadsDatabase {S Proof : Type 0} (regional : RegionalStore S Proof) : Type 0 where
  pub not_nil : (region key : Bytes) (s : S) → regional.get region key s ≢ ok none
  pub not_actions :
      (region key : Bytes) (s : S) (e : Error)
      → regional.get region key s ≡ err e
      → is_actions_not_found e ≡ false

existing_value-present :
    (r : Result (Option Bytes)) (v : Option Bytes)
    → r ≢ ok none
    → ((e : Error) → r ≡ err e → is_actions_not_found e ≡ false)
    → existing_value r ≡ ok v
    → is_present v ≡ true
unfolding existing_value
existing_value-present (ok none) v h k e = absurd (h refl)
existing_value-present (ok (some x)) v h k e = ground arith
existing_value-present (err x) v h k e = ground (arith, k x refl)
existing_value-present (panic c) v h k e = cc

module _ {S Proof V : Type 0} (regional : RegionalStore S Proof) (reads : ReadsDatabase regional)
    (codec : Codec (Option (Dict V))) (values : Values V) (rfc3339 : ℕ → Bytes) where
  -- Over a store whose database reads a missing key as an error other than the actions' own, and
  -- no value as nil, the action that creates a region never succeeds.
  pub create_region-Fails :
      (c : CreateRegion) (s : S) (r : RegionResult Proof)
      → (create_region regional codec values rfc3339 c s).0 ≢ ok r
  unfolding create_region
  create_region-Fails c s r h =
      let (id, h1) = reject_if-ok (bad_region_id c.region_id) _ _ s r h in
      let (few, h2) =
        reject_if-ok (length c.tees == 0 || ltb max_tees_per_region (length c.tees)) _ _ s r h1 in
      let open_it = replace_error store_access (regional.open_store c.region_id) in
      let (u, (opened, h3)) = bind-ok open_it _ s r h2 in
      let t = (open_it s).1 in
      let found = regional.get c.region_id (config_key c.region_id) t in
      let (existing, (was, h4)) = lift-ok (existing_value found) _ t r h3 in
      let (absent, h5) = reject_if-ok (is_present existing) _ _ t r h4 in
      ground (
        arith,
        absent,
        existing_value-present found existing (reads.not_nil c.region_id (config_key c.region_id) t)
            (reads.not_actions c.region_id (config_key c.region_id) t) was,
      )
