-- ===== src/Coordination/MerkleStorage.antt =====
-- coordination/storage.go: the storage over merkledb, of which `D` is the database and `N` a view of it,
-- with a cache of channels and workers. A write makes a new view of the database with that one change.
pub mod Lost
use aristo.Prelude.{
  ◌++◌, [], ◌∷◌, List, Bytes, text, Option, none, some, Result, ok, err, panic, Act, fail, crash,
  pure, gets, store, continue, then_try, ◌>>=◌, ◌>>◌,
}
use aristo.Prelude.Dict
use aristo.Prelude.Dict.{Dict}
use aristo.Storage.Codec.{Codec}
use aristo.Coordination.Types.{Worker, SecureChannel, TeePairInfo}
use aristo.Coordination.Channel.{make_channel_key}
use aristo.Coordination.Wrapper.{
  Codecs, ChannelFields, WorkerFields, LoadedWorker, Region, exported, worker_fields, loaded_worker,
}

-- A change is a new value, or `none` where the key is deleted.
pub record ViewDb (D N : Type 0) : Type 0 where
  pub new_view : D → List (Bytes × Option Bytes) → Result N
  pub get_value : N → Bytes → Result Bytes

-- A channel that was saved, or one that was read, whose Go channels are nil.
pub data CachedChannel : Type 0 where
  held : SecureChannel → CachedChannel
  read : ChannelFields → CachedChannel

pub data CachedWorker : Type 0 where
  saved : Worker → CachedWorker
  restored : LoadedWorker → CachedWorker

pub record MerkleStorage (D N : Type 0) : Type 0 where
  pub db : D
  pub view : N
  pub channels : Dict CachedChannel
  pub workers : Dict CachedWorker

module _ {D N : Type 0} (views : ViewDb D N) where
  unfoldable pub new_storage : D → Result (MerkleStorage D N)
  new_storage db =
      then_try (views.new_view db [])
        λ view. ok (record { db = db; view = view; channels = []; workers = [] })

  unfoldable pub with_view : MerkleStorage D N → Result N → Result (MerkleStorage D N)
  with_view s (ok view) = ok (record s { view = view })
  with_view s (err e) = err e
  with_view s (panic c) = panic c

  unfoldable pub set_view : List (Bytes × Option Bytes) → Act (MerkleStorage D N) (Unit {0})
  unfolding with_view
  set_view changes = store (λ s. with_view s (views.new_view s.db changes)) tt

  unfoldable pub put : Bytes → Bytes → Act (MerkleStorage D N) (Unit {0})
  unfolding set_view
  put key value = set_view ((key, some value) ∷ [])

  unfoldable pub delete : Bytes → Act (MerkleStorage D N) (Unit {0})
  unfolding set_view
  delete key = set_view ((key, none) ∷ [])

  unfoldable pub get : Bytes → MerkleStorage D N → Result Bytes
  get key s = views.get_value s.view key

  unfoldable pub put_json : Bytes → Result Bytes → Act (MerkleStorage D N) (Unit {0})
  unfolding put
  put_json key (ok b) = put key b
  put_json key (err e) = fail e
  put_json key (panic c) = crash c

  unfoldable pub cache_channel : Bytes → CachedChannel → Act (MerkleStorage D N) (Unit {0})
  cache_channel key c s = (ok tt, record s { channels = Dict.insert key c s.channels })

  unfoldable pub cache_worker : Bytes → CachedWorker → Act (MerkleStorage D N) (Unit {0})
  cache_worker id w s = (ok tt, record s { workers = Dict.insert id w s.workers })

  module _ {M V : Type 0} (codecs : Codecs M V) where
    unfoldable pub save_region : Region → Act (MerkleStorage D N) (Unit {0})
    unfolding put_json
    save_region r = put_json (text "region:" ++ r.id) (codecs.region.marshal r)

    unfoldable pub load_region : Bytes → MerkleStorage D N → Result Region
    unfolding get
    load_region id s = then_try (get (text "region:" ++ id) s) codecs.region.unmarshal

    unfoldable pub delete_region : Bytes → Act (MerkleStorage D N) (Unit {0})
    unfolding delete
    delete_region id = delete (text "region:" ++ id)

    unfoldable pub save_tee_pair_info : TeePairInfo → Act (MerkleStorage D N) (Unit {0})
    unfolding put_json
    save_tee_pair_info info = put_json (text "tee:pair:" ++ info.id) (codecs.pair.marshal info)

    unfoldable pub get_tee_pair_info : Bytes → MerkleStorage D N → Result TeePairInfo
    unfolding get
    get_tee_pair_info id s = then_try (get (text "tee:pair:" ++ id) s) codecs.pair.unmarshal

    unfoldable pub save_tee_metrics : Bytes → M → Act (MerkleStorage D N) (Unit {0})
    unfolding put_json
    save_tee_metrics id m = put_json (text "tee:metrics:" ++ id) (codecs.metrics.marshal m)

    unfoldable pub get_tee_metrics : Bytes → MerkleStorage D N → Result M
    unfolding get
    get_tee_metrics id s = then_try (get (text "tee:metrics:" ++ id) s) codecs.metrics.unmarshal

    unfoldable pub save_coordinator_state : V → Act (MerkleStorage D N) (Unit {0})
    unfolding put_json
    save_coordinator_state v = put_json (text "coordinator:state") (codecs.state.marshal v)

    unfoldable pub load_coordinator_state : MerkleStorage D N → Result V
    unfolding get
    load_coordinator_state s = then_try (get (text "coordinator:state") s) codecs.state.unmarshal

    -- The cache takes the channel before the storage does, and keeps it when that fails.
    unfoldable pub save_channel : SecureChannel → Act (MerkleStorage D N) (Unit {0})
    unfolding cache_channel put_json exported
    save_channel c = do
      cache_channel (make_channel_key c.worker1 c.worker2) (held c)
      put_json (make_channel_key c.worker1 c.worker2) (codecs.channel.marshal (exported c))

    unfoldable pub read_channel : Bytes → Act (MerkleStorage D N) CachedChannel
    unfolding get cache_channel
    read_channel key = do
      fields ← gets (λ s. then_try (get key s) codecs.channel.unmarshal)
      cache_channel key (read fields)
      pure (read fields)

    unfoldable pub cached_channel :
        Bytes → Option CachedChannel → Act (MerkleStorage D N) CachedChannel
    unfolding read_channel
    cached_channel key none = read_channel key
    cached_channel key (some c) = pure c

    unfoldable pub load_channel : Bytes → Bytes → Act (MerkleStorage D N) CachedChannel
    unfolding cached_channel
    load_channel worker1 worker2 s =
        cached_channel (make_channel_key worker1 worker2)
          (Dict.lookup (make_channel_key worker1 worker2) s.channels) s

    unfoldable pub delete_channel : Bytes → Bytes → Act (MerkleStorage D N) (Unit {0})
    unfolding delete
    delete_channel worker1 worker2 s =
        delete (make_channel_key worker1 worker2)
          (record s { channels = Dict.remove (make_channel_key worker1 worker2) s.channels })

    unfoldable pub save_worker : Worker → Act (MerkleStorage D N) (Unit {0})
    unfolding cache_worker put_json worker_fields
    save_worker w = do
      cache_worker w.id (saved w)
      put_json w.id (codecs.worker.marshal (worker_fields w))

    unfoldable pub read_worker : Bytes → Act (MerkleStorage D N) CachedWorker
    unfolding get cache_worker loaded_worker
    read_worker id = do
      fields ← gets (λ s. then_try (get id s) codecs.worker.unmarshal)
      cache_worker id (restored (loaded_worker fields))
      pure (restored (loaded_worker fields))

    unfoldable pub cached_worker :
        Bytes → Option CachedWorker → Act (MerkleStorage D N) CachedWorker
    unfolding read_worker
    cached_worker id none = read_worker id
    cached_worker id (some w) = pure w

    unfoldable pub load_worker : Bytes → Act (MerkleStorage D N) CachedWorker
    unfolding cached_worker
    load_worker id s = cached_worker id (Dict.lookup id s.workers) s

    unfoldable pub delete_worker : Bytes → Act (MerkleStorage D N) (Unit {0})
    unfolding delete
    delete_worker id s = delete id (record s { workers = Dict.remove id s.workers })
