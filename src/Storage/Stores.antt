-- ===== src/Storage/Stores.antt =====
-- storage/region_store.go and storage/state_manager.go: the Merkle store of a region. All of a state
-- manager's stores share its database and its coordinator; a store's region is its key among them.
-- `D` is merkledb's database and `W` the coordinator's state, of which a store uses the pair of a
-- region and the channel between the two.
pub mod Outcome
use aristo.Prelude.{
  ℕ, ◌+◌, ◌%◌, [], ◌∷◌, ◌++◌, Bytes, text, same, Option, none, some, Result, ok, err, panic, Act,
  pure, lift, store, gets, ◌>>=◌, ◌>>◌, ◌≡◌, if◌then◌else◌,
}
use aristo.Prelude.Split.{slash}
use aristo.Prelude.Dict
use aristo.Prelude.Dict.{Dict}
use aristo.Storage.Words.{u64_mod}

-- A value that was stored empty may be read as nil, which is `none`.
pub record MerkleDb (D : Type 0) : Type 0 where
  pub get : D → Bytes → Result (Option Bytes)
  pub put : D → Bytes → Bytes → Result D
  pub delete : D → Bytes → Result D
  pub merkle_root : D → Result Bytes

abbrev pub or_nil : Option Bytes → Bytes
or_nil none = []
or_nil (some v) = v

-- A read sees the last write of its key, and the root can be computed.
pub record IsMerkleDb {D : Type 0} (db : MerkleDb D) : Type 0 where
  pub get-put :
      (d e : D) (k v : Bytes)
      → db.put d k v ≡ ok e
      → (o : Option Bytes) × ((or_nil o ≡ v)
          × ((j : Bytes) → db.get e j ≡ (if same k j then ok o else db.get d j)))
  pub merkle_root_total : (d : D) → (root : Bytes) × (db.merkle_root d ≡ ok root)

pub record TeeLink (W C : Type 0) : Type 0 where
  pub get_tee_pair : Bytes → W → Result (Bytes × Bytes)
  pub get_secure_channel : Bytes → Bytes → Act W C
  pub marshal_message : Bytes → Bytes → Bytes → Result Bytes
  pub send : C → Bytes → Act W (Unit {0})

pub record MerkleStore : Type 0 where
  pub last_hash : Bytes
  pub update_count : ℕ
  pub workers : Bytes × Bytes

pub record World (D W : Type 0) : Type 0 where
  pub merkle : D
  pub coordinator : W
  pub region_stores : Dict MerkleStore

-- makeRegionalKey
unfoldable pub make_regional_key : Bytes → Bytes → Bytes
make_regional_key region key = text "r" ++ slash ∷ (region ++ slash ∷ key)

module _ {D W C : Type 0} (db : MerkleDb D) (link : TeeLink W C) where
  unfoldable pub on_coordinator : {A : Type 0} → Act W A → Act (World D W) A
  on_coordinator m w = let (r, c) = m w.coordinator in (r, record w { coordinator = c })

  unfoldable pub with_merkle : World D W → Result D → Result (World D W)
  with_merkle w (ok d) = ok (record w { merkle = d })
  with_merkle w (err e) = err e
  with_merkle w (panic c) = panic c

  unfoldable pub set_store : Bytes → (MerkleStore → MerkleStore) → World D W → World D W
  set_store region f w = elim (Dict.lookup region w.region_stores) [
    | none ↦ w
    | some ms ↦ record w { region_stores = Dict.insert region (f ms) w.region_stores }
  ]

  unfoldable pub counted : MerkleStore → MerkleStore
  counted ms = record ms { update_count = (ms.update_count + 1) % u64_mod }

  unfoldable pub rooted : Bytes → MerkleStore → MerkleStore
  rooted root ms = record ms { last_hash = root }

  unfoldable pub update_merkle_root : Bytes → Act (World D W) (Unit {0})
  unfolding set_store rooted
  update_merkle_root region = do
    root ← gets (λ w. db.merkle_root w.merkle)
    store (λ w. ok (set_store region (rooted root) w)) tt

  -- The value is sent from one TEE of the pair to the other before it is stored.
  unfoldable pub deliver : Bytes × Bytes → Bytes → Act W (Unit {0})
  deliver workers value = do
    channel ← link.get_secure_channel workers.0 workers.1
    message ← lift (link.marshal_message workers.0 workers.1 value)
    link.send channel message

  unfoldable pub put_counted : Bytes → Bytes → Bytes → Act (World D W) (Unit {0})
  unfolding with_merkle set_store counted update_merkle_root
  put_counted region key value = do
    store (λ w. with_merkle w (db.put w.merkle (make_regional_key region key) value)) tt
    store (λ w. ok (set_store region counted w)) tt
    update_merkle_root region

  unfoldable pub insert : Bytes → MerkleStore → Bytes → Bytes → Act (World D W) (Unit {0})
  unfolding on_coordinator deliver put_counted
  insert region ms key value = do
    on_coordinator (deliver ms.workers value)
    put_counted region key value

  unfoldable pub delete : Bytes → Bytes → Act (World D W) (Unit {0})
  unfolding with_merkle update_merkle_root
  delete region key = do
    store (λ w. with_merkle w (db.delete w.merkle (make_regional_key region key))) tt
    update_merkle_root region

  unfoldable pub get : Bytes → Bytes → World D W → Result (Option Bytes)
  get region key w = db.get w.merkle (make_regional_key region key)

  abbrev pub new_merkle_store : Bytes × Bytes → MerkleStore
  new_merkle_store pair = record { last_hash = []; update_count = 0; workers = pair }

  unfoldable pub add_store : Bytes → Act (World D W) MerkleStore
  add_store region = do
    pair ← gets (λ w. link.get_tee_pair region w.coordinator)
    let ms = new_merkle_store pair
    store (λ w. ok (record w { region_stores = Dict.insert region ms w.region_stores })) ms

  -- getRegionalStoreInternal
  unfoldable pub get_regional_store : Bytes → Act (World D W) MerkleStore
  unfolding add_store
  get_regional_store region w = elim (Dict.lookup region w.region_stores) [
    | none ↦ add_store region w
    | some ms ↦ pure ms w
  ]
