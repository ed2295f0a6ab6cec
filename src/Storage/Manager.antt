-- ===== src/Storage/Manager.antt =====
-- storage/state_manager.go: objects, events and regions of the state manager, each kept in its region's
-- Merkle store, and the enclaves and measurements, kept in the chain's state. `objects`, `events` and
-- `regions` are JSON encodings.
pub mod Keys
pub mod Writes
pub mod Refinement
use aristo.Prelude.{
  ℕ, ◌∷◌, ◌++◌, [], Bool, true, false, not, Bytes, text, is_empty, Option, none, some, Result, ok,
  err, panic, Act, pure, fail, lift, gets, store, reject_if, ◌>>=◌, ◌>>◌, invalid_region_id,
  if◌then◌else◌,
}
use aristo.Prelude.Dict.{Dict}
use aristo.Core.Types.{ObjectState, Event}
use aristo.Storage.State.{Mutable, is_db_not_found}
use aristo.Storage.Codec.{Codec, ObjectMap, field}
use aristo.Storage.Keys.{make_region_key, region_key}
use aristo.Storage.Objects.{decode_found, insert_encoded}
use aristo.Storage.Stores.{MerkleDb, MerkleStore, TeeLink, World, or_nil, get_regional_store}
use aristo.Storage.Stores

abbrev pub object_map : Bytes → Bytes → Bytes → Dict Bytes
object_map code storage status =
    (text "code", code) ∷ (text "storage", storage) ∷ (text "status", status) ∷ []

abbrev pub object_key : Bytes → Bytes → Bytes
object_key region id = make_region_key region (text "object") id

abbrev pub event_key : Bytes → Bytes → Bytes
event_key region id = make_region_key region (text "event") id

-- The object that GetObject makes of what it read: no events, and no time of the last update.
unfoldable pub object_of : Bytes → ObjectMap → ObjectState
unfolding field
object_of region obj = record {
  code = field (text "code") obj;
  storage = field (text "storage") obj;
  region_id = region;
  events = [];
  last_updated = none;
  status = field (text "status") obj;
}

unfoldable pub decode_object : Bytes → Result ObjectMap → Result (Option ObjectState)
unfolding object_of
decode_object region (ok obj) = ok (some (object_of region obj))
decode_object region (err e) = err e
decode_object region (panic c) = panic c

unfoldable pub read_object :
    Codec ObjectMap → Bytes → Result (Option Bytes) → Result (Option ObjectState)
unfolding is_db_not_found decode_object
read_object objects region (ok value) = decode_object region (objects.unmarshal (or_nil value))
read_object objects region (err e) = if is_db_not_found e then ok none else err e
read_object objects region (panic c) = panic c

-- value != nil
unfoldable pub read_exists : Result (Option Bytes) → Result Bool
unfolding is_db_not_found
read_exists (ok none) = ok false
read_exists (ok (some v)) = ok true
read_exists (err e) = if is_db_not_found e then ok false else err e
read_exists (panic c) = panic c

-- GetRegion of storage.go, which gets what the store reads.
unfoldable pub read_region :
    {R : Type 0} → Codec (Option R) → Result (Option Bytes) → Result (Option R)
unfolding is_db_not_found
read_region regions (ok value) = regions.unmarshal (or_nil value)
read_region regions (err e) = if is_db_not_found e then ok none else err e
read_region regions (panic c) = panic c

module _ {D W C : Type 0} (db : MerkleDb D) (link : TeeLink W C) where
  -- The value is encoded once there is a store to put it into.
  unfoldable pub put_encoded :
      {A : Type 0} → Codec A → Bytes → Bytes → A → Act (World D W) (Unit {0})
  put_encoded codec region key a = do
    reject_if (is_empty region) invalid_region_id
    ms ← get_regional_store db link region
    value ← lift (codec.marshal a)
    Stores.insert db link region ms key value

  unfoldable pub stored_object :
      Codec ObjectMap → Bytes → Bytes → World D W → Result (Option ObjectState)
  unfolding read_object
  stored_object objects id region w =
      read_object objects region (Stores.get db link region (object_key region id) w)

  unfoldable pub get_object : Codec ObjectMap → Bytes → Bytes → Act (World D W) (Option ObjectState)
  unfolding stored_object
  get_object objects id region = do
    reject_if (is_empty region) invalid_region_id
    ms ← get_regional_store db link region
    gets (stored_object objects id region)

  unfoldable pub set_object : Codec ObjectMap → Bytes → ObjectState → Act (World D W) (Unit {0})
  unfolding put_encoded
  set_object objects id obj =
      put_encoded objects obj.region_id (object_key obj.region_id id)
        (some (object_map obj.code obj.storage obj.status))

  unfoldable pub object_exists : Bytes → Bytes → Act (World D W) Bool
  unfolding read_exists
  object_exists id region = do
    reject_if (is_empty region) invalid_region_id
    ms ← get_regional_store db link region
    gets (λ w. read_exists (Stores.get db link region (object_key region id) w))

  unfoldable pub set_event : Codec Event → Bytes → Event → Bytes → Act (World D W) (Unit {0})
  unfolding put_encoded
  set_event events id event region = put_encoded events region (event_key region id) event

  module _ {R : Type 0} where
    unfoldable pub get_region : Codec (Option R) → Bytes → Act (World D W) (Option R)
    unfolding read_region
    get_region regions region = do
      reject_if (is_empty region) invalid_region_id
      ms ← get_regional_store db link region
      gets (λ w. read_region regions (Stores.get db link region (region_key region) w))

    unfoldable pub set_region : Codec (Option R) → Bytes → Option R → Act (World D W) (Unit {0})
    unfolding put_encoded
    set_region regions region r = put_encoded regions region (region_key region) r

    unfoldable pub region_exists : Codec (Option R) → Bytes → Act (World D W) Bool
    unfolding get_region
    region_exists regions region = do
      r ← get_region regions region
      pure (elim r [ none ↦ false | some x ↦ true ])

-- The enclaves and the measurements of the regions.
pub record EnclaveInfo : Type 0 where
  pub measurement : Bytes
  pub valid_from : Option ℕ
  pub valid_until : Option ℕ
  pub enclave_type : Bytes
  pub region_id : Bytes

module _ {S : Type 0} (mu : Mutable S) where
  abbrev pub enclave_key : Bytes → Bytes
  enclave_key id = text "valid_enclaves/" ++ id

  abbrev pub measurement_key : Bytes → Bytes
  measurement_key region = text "region_measurements/" ++ region

  unfoldable pub get_valid_enclave :
      Codec (Option EnclaveInfo) → Bytes → S → Result (Option EnclaveInfo)
  unfolding decode_found
  get_valid_enclave codec id s = decode_found codec.unmarshal (mu.get_value s (enclave_key id))

  unfoldable pub set_valid_enclave :
      Codec (Option EnclaveInfo) → Bytes → EnclaveInfo → Act S (Unit {0})
  unfolding insert_encoded
  set_valid_enclave codec id info = insert_encoded mu codec (enclave_key id) (some info)

  unfoldable pub get_region_measurement : Bytes → S → Result Bytes
  get_region_measurement region s = mu.get_value s (measurement_key region)

  unfoldable pub set_region_measurement : Bytes → Bytes → Act S (Unit {0})
  set_region_measurement region measurement =
      store (λ s. mu.insert s (measurement_key region) measurement) tt
