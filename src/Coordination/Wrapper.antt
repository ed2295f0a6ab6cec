-- ===== src/Coordination/Wrapper.antt =====
-- coordination/storage_wrapper.go: what the coordinator keeps in a base storage, which is a parameter with
-- the JSON encodings. A worker's JSON form, of MarshalJSON and UnmarshalJSON in coordination/worker.go,
-- has four of its fields.
pub mod Slots
pub mod Refinement
use aristo.Prelude.{
  ◌≡◌, ◌++◌, [], ◌∷◌, List, Bool, false, ℕ, Bytes, text, same, Option, some, Result, ok, err, panic,
  Act, Error, fail, crash, then_try, store, if◌then◌else◌,
}
use aristo.Prelude.Dict.{Dict}
use aristo.Storage.Codec.{Codec}
use aristo.Coordination.Types.{Worker, WorkerStatus, SecureChannel, TeePairInfo, Message}
use aristo.Coordination.Channel.{make_channel_key}

pub record BaseStorage (S : Type 0) : Type 0 where
  pub get : S → Bytes → Result Bytes
  pub put : S → Bytes → Bytes → Result S
  pub delete : S → Bytes → Result S
  pub get_by_prefix : S → Bytes → Result (List Bytes)

-- The fields of a channel that are exported.
pub record ChannelFields : Type 0 where
  pub worker1 : Bytes
  pub worker2 : Bytes
  pub key : Bytes
  pub encrypted : Bool

pub record WorkerFields : Type 0 where
  pub id : Bytes
  pub enclave_id : Bytes
  pub status : WorkerStatus
  pub channels : Dict ChannelFields

-- Its status and its limits are set by no operation.
pub record Region : Type 0 where
  pub id : Bytes
  pub workers : Bytes × Bytes
  pub created_at : ℕ

-- A worker that was loaded: its JSON form, with a new queue and a new stop signal.
pub record LoadedWorker : Type 0 where
  pub fields : WorkerFields
  pub msg_ch : Option (List Message)
  pub done_ch : Option Bool

pub record Codecs (M V : Type 0) : Type 0 where
  pub channel : Codec ChannelFields
  pub worker : Codec WorkerFields
  pub region : Codec Region
  pub pair : Codec TeePairInfo
  pub metrics : Codec M
  pub state : Codec V

unfoldable pub exported : SecureChannel → ChannelFields
exported c = record {
  worker1 = c.worker1;
  worker2 = c.worker2;
  key = c.key;
  encrypted = c.encrypted;
}

unfoldable pub exported_all : Dict SecureChannel → Dict ChannelFields
unfolding exported
exported_all [] = []
exported_all ((id, c) ∷ cs) = (id, exported c) ∷ exported_all cs

-- MarshalJSON
unfoldable pub worker_fields : Worker → WorkerFields
unfolding exported_all
worker_fields w = record {
  id = w.id;
  enclave_id = w.enclave_id;
  status = w.status;
  channels = exported_all w.channels;
}

-- UnmarshalJSON, and LoadWorker
unfoldable pub loaded_worker : WorkerFields → LoadedWorker
loaded_worker fields = record { fields = fields; msg_ch = some []; done_ch = some false }

unfoldable pub loaded_channel : ChannelFields → SecureChannel
loaded_channel c = record {
  worker1 = c.worker1;
  worker2 = c.worker2;
  key = c.key;
  encrypted = c.encrypted;
  messages = [];
}

abbrev pub channel_prefix : Bytes
channel_prefix = text "channel/"

abbrev pub worker_prefix : Bytes
worker_prefix = text "worker/"

abbrev pub region_prefix : Bytes
region_prefix = text "region/"

abbrev pub tee_prefix : Bytes
tee_prefix = text "tee/"

abbrev pub metrics_prefix : Bytes
metrics_prefix = text "metrics/"

abbrev pub state_key : Bytes
state_key = text "coordinator_state"

abbrev pub channel_at : Bytes → Bytes → Bytes
channel_at worker1 worker2 = channel_prefix ++ make_channel_key worker1 worker2

module _ {S : Type 0} (base : BaseStorage S) where
  unfoldable pub put : Bytes → Bytes → Act S (Unit {0})
  put key value = store (λ s. base.put s key value) tt

  unfoldable pub get : Bytes → S → Result Bytes
  get key s = base.get s key

  unfoldable pub delete : Bytes → Act S (Unit {0})
  delete key = store (λ s. base.delete s key) tt

  unfoldable pub put_result : Bytes → Result Bytes → Act S (Unit {0})
  unfolding put
  put_result key (ok b) = put key b
  put_result key (err e) = fail e
  put_result key (panic c) = crash c

  -- json.Marshal, then Put
  unfoldable pub put_json : {A : Type 0} → Codec A → Bytes → A → Act S (Unit {0})
  unfolding put_result
  put_json codec key a = put_result key (codec.marshal a)

  -- Get, then json.Unmarshal
  unfoldable pub get_json : {A : Type 0} → Codec A → Bytes → S → Result A
  unfolding get
  get_json codec key s = then_try (get key s) codec.unmarshal

  module _ {M V : Type 0} (codecs : Codecs M V) where
    unfoldable pub save_channel : SecureChannel → Act S (Unit {0})
    unfolding exported put_json
    save_channel c = put_json codecs.channel (channel_at c.worker1 c.worker2) (exported c)

    unfoldable pub load_channel : Bytes → Bytes → S → Result SecureChannel
    unfolding get_json loaded_channel
    load_channel worker1 worker2 s =
        then_try (get_json codecs.channel (channel_at worker1 worker2) s) λ c. ok (loaded_channel c)

    unfoldable pub delete_channel : Bytes → Bytes → Act S (Unit {0})
    unfolding delete
    delete_channel worker1 worker2 = delete (channel_at worker1 worker2)

    unfoldable pub save_worker : Worker → Act S (Unit {0})
    unfolding worker_fields put_json
    save_worker w = put_json codecs.worker (worker_prefix ++ w.id) (worker_fields w)

    unfoldable pub load_worker : Bytes → S → Result LoadedWorker
    unfolding get_json loaded_worker
    load_worker id s =
        then_try (get_json codecs.worker (worker_prefix ++ id) s)
          λ fields. ok (loaded_worker fields)

    unfoldable pub delete_worker : Bytes → Act S (Unit {0})
    unfolding delete
    delete_worker id = delete (worker_prefix ++ id)

    unfoldable pub save_region : Region → Act S (Unit {0})
    unfolding put_json
    save_region r = put_json codecs.region (region_prefix ++ r.id) r

    unfoldable pub load_region : Bytes → S → Result Region
    unfolding get_json
    load_region id s = get_json codecs.region (region_prefix ++ id) s

    unfoldable pub delete_region : Bytes → Act S (Unit {0})
    unfolding delete
    delete_region id = delete (region_prefix ++ id)

    unfoldable pub save_coordinator_state : V → Act S (Unit {0})
    unfolding put_json
    save_coordinator_state v = put_json codecs.state state_key v

    unfoldable pub load_coordinator_state : S → Result V
    unfolding get_json
    load_coordinator_state s = get_json codecs.state state_key s

    unfoldable pub save_tee_pair_info : TeePairInfo → Act S (Unit {0})
    unfolding put_json
    save_tee_pair_info info = put_json codecs.pair (tee_prefix ++ info.id) info

    unfoldable pub get_tee_pair_info : Bytes → S → Result TeePairInfo
    unfolding get_json
    get_tee_pair_info id s = get_json codecs.pair (tee_prefix ++ id) s

    unfoldable pub decode_pairs : List Bytes → Result (List TeePairInfo)
    decode_pairs [] = ok []
    decode_pairs (b ∷ bs) =
        then_try (codecs.pair.unmarshal b)
          λ info. then_try (decode_pairs bs) λ infos. ok (info ∷ infos)

    unfoldable pub list_tee_pair_info : S → Result (List TeePairInfo)
    unfolding decode_pairs
    list_tee_pair_info s = then_try (base.get_by_prefix s tee_prefix) decode_pairs

    unfoldable pub save_tee_metrics : Bytes → M → Act S (Unit {0})
    unfolding put_json
    save_tee_metrics id m = put_json codecs.metrics (metrics_prefix ++ id) m

    unfoldable pub get_tee_metrics : Bytes → S → Result M
    unfolding get_json
    get_tee_metrics id s = get_json codecs.metrics (metrics_prefix ++ id) s
