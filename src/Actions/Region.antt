-- ===== src/Actions/Region.antt =====
-- actions/region.go: the actions that create and update the configuration of a region, over the
-- region's store. `V` is a value of a decoded `map[string]interface{}`, `rfc3339` prints a time and
-- `now` is the clock.
pub mod Absent
use aristo.Prelude.{
  ℕ, [], ◌∷◌, ◌++◌, List, Bool, true, false, ◌||◌, Bytes, text, is_empty, Option, none, some,
  Result, ok, err, panic, Act, pure, crash, lift, gets, reject_if, ◌>>=◌, ◌>>◌, length, ltb, ◌==◌,
  nil_map, if◌then◌else◌, Error, actions_not_found, invalid_region_id, too_many_tees, invalid_tee,
  store_access, proof_generation, region_config_exists, region_not_found,
}
use aristo.Prelude.Split.{slash}
use aristo.Prelude.Dict
use aristo.Prelude.Dict.{Dict}
use aristo.Core.Types.{AttestationPair}
use aristo.Storage.Codec.{Codec}
use aristo.Storage.Stores.{or_nil}
use aristo.Actions.Attestations.{verify_attestation_pair}

-- core.RegionalStore as the actions use it: `open_store` is the state manager's GetRegionalStore.
pub record RegionalStore (S Proof : Type 0) : Type 0 where
  pub open_store : Bytes → Act S (Unit {0})
  pub get : Bytes → Bytes → S → Result (Option Bytes)
  pub insert : Bytes → Bytes → Bytes → Act S (Unit {0})
  pub get_proof : Bytes → Bytes → S → Result Proof

pub record Values (V : Type 0) : Type 0 where
  pub of_text : Bytes → V
  pub of_tees : List Bytes → V
  pub of_attestations : AttestationPair → V

pub record CreateRegion : Type 0 where
  pub region_id : Bytes
  pub tees : List Bytes
  pub attestations : AttestationPair

pub record UpdateRegion : Type 0 where
  pub region_id : Bytes
  pub sgx_endpoint : Bytes
  pub sev_endpoint : Bytes
  pub attestations : AttestationPair

pub record RegionResult (Proof : Type 0) : Type 0 where
  pub region_id : Bytes
  pub success : Bool
  pub state_hash : Bytes
  pub timestamp : Bytes
  pub proof : Proof

abbrev pub max_tees_per_region : ℕ
max_tees_per_region = 32

-- makeRegionKey: `<prefix>/<region>`, with a suffix behind another slash where there is one.
unfoldable pub make_region_key : Bytes → Bytes → Bytes → Bytes
make_region_key prefix region suffix =
    if is_empty suffix
    then prefix ++ slash ∷ region
    else prefix ++ slash ∷ (region ++ slash ∷ suffix)

abbrev pub config_key : Bytes → Bytes
config_key region = make_region_key (text "config") region []

-- len(id) == 0 || len(id) > 256
unfoldable pub bad_region_id : Bytes → Bool
bad_region_id id = is_empty id || ltb 256 (length id)

unfoldable pub validate_tees : List Bytes → Result (Unit {0})
validate_tees [] = ok tt
validate_tees (tee ∷ tees) =
    let rest = validate_tees tees in
    if is_empty tee || ltb 64 (length tee) then err invalid_tee else rest

-- The test `errors.Is(err, ErrNotFound)` for the error that the actions package declares.
unfoldable pub is_actions_not_found : Error → Bool
is_actions_not_found actions_not_found = true
is_actions_not_found _ = false

-- What the store has under the key, where an error other than the actions' own is passed on.
unfoldable pub existing_value : Result (Option Bytes) → Result (Option Bytes)
unfolding is_actions_not_found
existing_value (ok v) = ok v
existing_value (err e) = if is_actions_not_found e then ok none else err e
existing_value (panic c) = panic c

-- The value of an update, for which a missing region is an error.
unfoldable pub required_value : Result (Option Bytes) → Result Bytes
unfolding is_actions_not_found
required_value (ok v) = ok (or_nil v)
required_value (err e) = if is_actions_not_found e then err region_not_found else err e
required_value (panic c) = panic c

-- fmt.Errorf with `%w` for `e` and `%v` for the error of the call.
unfoldable pub replaced : {A : Type 0} → Error → Result A → Result A
replaced e (ok a) = ok a
replaced e (err x) = err e
replaced e (panic c) = panic c

unfoldable pub replace_error : {S A : Type 0} → Error → Act S A → Act S A
unfolding replaced
replace_error e m s = let (r, t) = m s in (replaced e r, t)

abbrev pub is_present : Option Bytes → Bool
is_present none = false
is_present (some v) = true

module _ {S Proof V : Type 0} (regional : RegionalStore S Proof) (codec : Codec (Option (Dict V)))
    (values : Values V) (rfc3339 : ℕ → Bytes) where
  unfoldable pub region_data : CreateRegion → Dict V
  region_data c =
      let created = values.of_text (rfc3339 c.attestations.first.timestamp) in
      (text "tees", values.of_tees c.tees)
      ∷ (text "attestations", values.of_attestations c.attestations)
      ∷ (text "created_at", created)
      ∷ (text "last_updated", created)
      ∷ []

  unfoldable pub finish : Bytes → AttestationPair → ℕ → Option (Dict V) → Act S (RegionResult Proof)
  unfolding replaced
  finish region pair time data_map = do
    let key = config_key region
    bytes ← lift (codec.marshal data_map)
    regional.insert region key bytes
    proof ← gets (λ s. replaced proof_generation (regional.get_proof region key s))
    let result : RegionResult Proof = record {
      region_id = region;
      success = true;
      state_hash = pair.first.payload;
      timestamp = rfc3339 time;
      proof = proof;
    }
    pure result

  unfoldable pub create_region : CreateRegion → Act S (RegionResult Proof)
  unfolding bad_region_id replace_error existing_value validate_tees finish region_data
  create_region c = do
    reject_if (bad_region_id c.region_id) invalid_region_id
    reject_if (length c.tees == 0 || ltb max_tees_per_region (length c.tees)) too_many_tees
    replace_error store_access (regional.open_store c.region_id)
    existing ← gets (λ s. existing_value (regional.get c.region_id (config_key c.region_id) s))
    reject_if (is_present existing) region_config_exists
    lift (validate_tees c.tees)
    lift (verify_attestation_pair c.attestations)
    finish c.region_id c.attestations c.attestations.first.timestamp (some (region_data c))

  -- A text that is not empty replaces the entry.
  unfoldable pub set_text : Bytes → Bytes → Dict V → Dict V
  set_text k v m = if is_empty v then m else Dict.insert k (values.of_text v) m

  unfoldable pub updated : UpdateRegion → ℕ → Dict V → Dict V
  unfolding set_text
  updated u now m = Dict.insert (text "last_updated") (values.of_text (rfc3339 now)) (
      Dict.insert (text "attestations") (values.of_attestations u.attestations) (
        set_text (text "sev_endpoint") u.sev_endpoint
          (set_text (text "sgx_endpoint") u.sgx_endpoint m)))

  unfoldable pub store_updated : UpdateRegion → ℕ → Option (Dict V) → Act S (RegionResult Proof)
  unfolding updated finish
  store_updated u now none = crash nil_map
  store_updated u now (some m) = finish u.region_id u.attestations now (some (updated u now m))

  unfoldable pub update_region : UpdateRegion → ℕ → Act S (RegionResult Proof)
  unfolding bad_region_id replace_error required_value store_updated
  update_region u now = do
    reject_if (bad_region_id u.region_id) invalid_region_id
    replace_error store_access (regional.open_store u.region_id)
    lift (verify_attestation_pair u.attestations)
    existing ← gets (λ s. required_value (regional.get u.region_id (config_key u.region_id) s))
    region ← lift (codec.unmarshal existing)
    store_updated u now region
