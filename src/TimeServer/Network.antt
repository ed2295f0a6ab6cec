-- ===== src/TimeServer/Network.antt =====
-- timeserver/network.go: the network of servers. `verify` is ed25519's, `sign` its counterpart. The
-- events that a request selects on, in the order in which it selects them, are a list: at its end
-- the timer fires. A nonce is what crypto/rand returns.
pub mod Sorting
pub mod Quorum
pub mod Median
pub mod Lifecycle
use aristo.Prelude.{
  ℕ, zero, suc, ◌+◌, ◌-◌, ◌/◌, ◌%◌, [], ◌∷◌, ◌++◌, List, Bool, true, false, Bytes, same, is_empty,
  Option, none, some, Result, ok, err, panic, out_of_range, length, keep, get_or, map, ltb,
  if◌then◌else◌, then_try, region_id_required, insufficient_servers, insufficient_healthy_servers,
  invalid_response, unknown_server, bad_signature, quorum_timeout, context_done,
  insufficient_responses, time_spread_too_large,
}
use aristo.Prelude.Dict
use aristo.Prelude.Dict.{Dict}
use aristo.Storage.Words.{u64_mod, put_u64}
use aristo.TimeServer.Server.{
  TimeServer, SignedTimestamp, VerificationResponse, signed_message, get_timestamp,
}
use Sorting.{sort}

pub record TimeNetwork : Type 0 where
  pub servers : Dict (List TimeServer)
  pub quorum_size : ℕ
  pub max_latency : ℕ

abbrev pub or_empty {ℓ} : {A : Type ℓ} → Option (List A) → List A
or_empty none = []
or_empty (some xs) = xs

unfoldable pub get_regional_servers : TimeNetwork → Bytes → List TimeServer
get_regional_servers tn region = or_empty (Dict.lookup region tn.servers)

unfoldable pub add_server : TimeServer → TimeNetwork → Result TimeNetwork
unfolding get_regional_servers
add_server server tn =
    if is_empty server.region_id
    then err region_id_required
    else ok (record tn {
      servers =
          Dict.insert server.region_id (get_regional_servers tn server.region_id ++ server ∷ [])
            tn.servers;
    })

unfoldable pub find_in : Bytes → List TimeServer → Option TimeServer
find_in id [] = none
find_in id (s ∷ ss) = if same s.id id then some s else find_in id ss

abbrev pub or_else {ℓ} : {A : Type ℓ} → Option A → Option A → Option A
or_else (some a) o = some a
or_else none o = o

unfoldable pub find_server : Bytes → Dict (List TimeServer) → Option TimeServer
find_server id [] = none
find_server id ((region, ss) ∷ m) = or_else (find_in id ss) (find_server id m)

-- What a proof of time consists of.
pub record TimestampProof : Type 0 where
  pub server_id : Bytes
  pub signature : Bytes
  pub delay : ℕ

pub record VerifiedTimestamp : Type 0 where
  pub time : ℕ
  pub proofs : List TimestampProof
  pub region_id : Bytes
  pub quorum_size : ℕ

-- Of a nil timestamp the program reads no field: a response is verified first.
abbrev pub no_timestamp : SignedTimestamp
no_timestamp = record { server_id = []; time = 0; signature = []; nonce = [] }

abbrev pub stamp : VerificationResponse → SignedTimestamp
stamp r = elim r.timestamp [ none ↦ no_timestamp | some t ↦ t ]

abbrev pub time_of : VerificationResponse → ℕ
time_of r = (stamp r).time

abbrev pub proof_of : VerificationResponse → TimestampProof
proof_of r = record {
  server_id = (stamp r).server_id;
  signature = (stamp r).signature;
  delay = r.delay;
}

module _ (verify : Bytes → Bytes → Bytes → Bool) where
  unfoldable pub verify_signature : TimeServer → SignedTimestamp → Bytes → Bool
  verify_signature server timestamp nonce =
      verify server.public_key (signed_message timestamp.time nonce) timestamp.signature

  unfoldable pub verify_response : TimeNetwork → VerificationResponse → Bytes → Result (Unit {0})
  unfolding verify_signature
  verify_response tn resp nonce = elim resp.timestamp [
    | none ↦ err invalid_response
    | some t ↦ elim (find_server t.server_id tn.servers) [
      | none ↦ err unknown_server
      | some server ↦ if verify_signature server t nonce then ok tt else err bad_signature
    ]
  ]

  -- A server answers its test nonce at the time that its clock shows.
  unfoldable pub check_server_health :
      (Bytes → Bytes → Bytes)
      → (TimeServer → ℕ)
      → (TimeServer → Result Bytes)
      → TimeServer
      → Result (Unit {0})
  unfolding get_timestamp verify_signature
  check_server_health sign clock test_nonce server = then_try (test_nonce server) λ nonce.
      let resp = get_timestamp sign server nonce (clock server) (clock server) in
      if verify_signature server (stamp resp) nonce then ok tt else err bad_signature

pub data Event : Type 0 where
  response : VerificationResponse → Event
  failure timeout cancelled : Event

abbrev pub is_ok {ℓ} : {A : Type ℓ} → Result A → Bool
is_ok (ok a) = true
is_ok (err e) = false
is_ok (panic c) = false

-- The loop of GetVerifiedTimestamp: `accepts` is the check of one response.
unfoldable pub collect :
    (VerificationResponse → Bool)
    → ℕ
    → List VerificationResponse
    → List Event
    → Result (List VerificationResponse)
collect accepts quorum got [] = if ltb (length got) quorum then err quorum_timeout else ok got
collect accepts quorum got (response r ∷ es) =
    let next = collect accepts quorum (if accepts r then got ++ r ∷ [] else got) es in
    if ltb (length got) quorum then next else ok got
collect accepts quorum got (failure ∷ es) =
    let next = collect accepts quorum got es in if ltb (length got) quorum then next else ok got
collect accepts quorum got (timeout ∷ es) =
    if ltb (length got) quorum then err quorum_timeout else ok got
collect accepts quorum got (cancelled ∷ es) =
    if ltb (length got) quorum then err context_done else ok got

-- The earliest and the latest time of a response behind the first one.
unfoldable pub min_time : ℕ → List VerificationResponse → ℕ
min_time m [] = m
min_time m (r ∷ rs) = min_time (if ltb (time_of r) m then time_of r else m) rs

unfoldable pub max_time : ℕ → List VerificationResponse → ℕ
max_time m [] = m
max_time m (r ∷ rs) = max_time (if ltb m (time_of r) then time_of r else m) rs

unfoldable pub spread : List VerificationResponse → ℕ
unfolding min_time max_time
spread [] = 0
spread (r ∷ rs) = max_time (time_of r) rs - min_time (time_of r) rs

unfoldable pub validate_responses : TimeNetwork → List VerificationResponse → Result (Unit {0})
unfolding spread
validate_responses tn responses =
    if ltb (length responses) tn.quorum_size
    then err insufficient_responses
    else if ltb tn.max_latency (spread responses)
    then err time_spread_too_large
    else ok tt

-- The median time of the responses `r ∷ rs`, with a proof from each.
abbrev pub timestamp_of :
    TimeNetwork → VerificationResponse → List VerificationResponse → VerifiedTimestamp
timestamp_of tn r rs =
    let timestamps = sort (map time_of (r ∷ rs)) in
    record {
      time = get_or timestamps (length timestamps / 2) 0;
      proofs = map proof_of (r ∷ rs);
      region_id = (stamp r).server_id;
      quorum_size = tn.quorum_size;
    }

unfoldable pub create_verified_timestamp :
    TimeNetwork → List VerificationResponse → Result VerifiedTimestamp
unfolding sort
create_verified_timestamp tn responses =
    if ltb (length responses) tn.quorum_size
    then err insufficient_responses
    else elim responses [ [] ↦ panic out_of_range | r ∷ rs ↦ ok (timestamp_of tn r rs) ]

module _ (verify : Bytes → Bytes → Bytes → Bool) (sign : Bytes → Bytes → Bytes)
    (clock : TimeServer → ℕ) where
  unfoldable pub get_verified_timestamp :
      TimeNetwork
      → Bytes
      → (TimeServer → Result Bytes)
      → Result Bytes
      → List Event
      → Result VerifiedTimestamp
  unfolding get_regional_servers
  get_verified_timestamp tn region test_nonce random events =
      let servers = get_regional_servers tn region in
      let healthy =
        keep (λ s. is_ok (check_server_health verify sign clock test_nonce s)) servers in
      if ltb (length servers) tn.quorum_size
      then err insufficient_servers
      else if ltb (length healthy) tn.quorum_size
      then err insufficient_healthy_servers
      else then_try random λ nonce.
        then_try (collect (λ r. is_ok (verify_response verify tn r nonce)) tn.quorum_size [] events)
          λ responses.
            then_try (validate_responses tn responses) λ _. create_verified_timestamp tn responses
