-- ===== src/Examples/Time.antt =====
-- A region with three time servers, one of them wrong, and a signature that repeats the message.
use aristo.Prelude.{
  ℕ, ◌≡◌, ◌≤◌, refl, Bool, [], ◌∷◌, ◌++◌, List, Bytes, text, same, ok, err, length, map, All, ◌⊎◌,
  arith, time_spread_too_large,
}
use aristo.Prelude.Dict
use aristo.Storage.Words.{put_u64}
use aristo.TimeServer.Server.{TimeServer, VerificationResponse, get_timestamp}
use aristo.TimeServer.Network.{
  TimeNetwork, check_server_health, collect, find_server, find_in, validate_responses,
  VerifiedTimestamp, Event, response, timeout, get_verified_timestamp, timestamp_of, proof_of,
  verify_response, create_verified_timestamp, get_regional_servers,
}
use aristo.TimeServer.Network.Median.{create_verified_timestamp-majority}
use aristo.TimeServer.Network.Quorum.{
  Near, get_verified_timestamp_sound, get_verified_timestamp_total,
}

-- A signature of the key and the message.
abbrev sign : Bytes → Bytes → Bytes
sign key message = key ++ message

unfoldable verify : Bytes → Bytes → Bytes → Bool
unfolding same
verify key message signature = same (key ++ message) signature

abbrev server : ℕ → TimeServer
server n = record { id = n ∷ []; region_id = text "east"; public_key = n ∷ []; priv_key = n ∷ [] }

abbrev network : TimeNetwork
network = record {
  servers = (text "east", server 1 ∷ server 2 ∷ server 3 ∷ []) ∷ [];
  quorum_size = 2;
  max_latency = 10;
}

abbrev nonce : Bytes
nonce = 7 ∷ []

abbrev answer : ℕ → ℕ → VerificationResponse
answer n time = get_timestamp sign (server n) nonce time time

abbrev clock : TimeServer → ℕ
clock s = 100

abbrev events : List Event
events = response (answer 2 105) ∷ response (answer 1 100) ∷ timeout ∷ []

abbrev verified : VerifiedTimestamp
verified = timestamp_of network (answer 2 105) (answer 1 100 ∷ [])

get_verified :
    get_verified_timestamp verify sign clock network (text "east") (λ s. ok nonce) (ok nonce) events
    ≡ ok verified
unfolding get_verified_timestamp same Dict.lookup check_server_health verify put_u64 collect
    verify_response find_server find_in validate_responses create_verified_timestamp
get_verified = refl

get_verified_timestamp_sound_example :
    (responses : List VerificationResponse) × (length responses ≡ 2)
    × (verified.proofs ≡ map proof_of responses)
    × All (λ r. verify_response verify network r nonce ≡ ok tt) responses
    × Near 10 verified.time responses
get_verified_timestamp_sound_example =
    get_verified_timestamp_sound verify sign clock network (text "east") nonce (λ s. ok nonce)
      events verified get_verified

get_verified_timestamp_total_example :
    ((v : VerifiedTimestamp) × (get_verified_timestamp verify sign clock network
          (text "east")
          (λ s. ok nonce)
          (ok nonce)
          events
        ≡ ok v))
    ⊎ (get_verified_timestamp verify sign clock network
          (text "east")
          (λ s. ok nonce)
          (ok nonce)
          events
        ≡ err time_spread_too_large)
unfolding get_regional_servers same Dict.lookup check_server_health verify put_u64 verify_response
    find_server find_in
get_verified_timestamp_total_example =
    get_verified_timestamp_total verify sign clock network (text "east") nonce (λ s. ok nonce)
      events (omega arith) (omega arith) (omega arith)

abbrev answers : List VerificationResponse
answers = answer 2 9999 ∷ answer 1 100 ∷ answer 3 102 ∷ []

median_of :
    create_verified_timestamp network answers
    ≡ ok (timestamp_of network (answer 2 9999) (answer 1 100 ∷ answer 3 102 ∷ []))
unfolding create_verified_timestamp
median_of = refl

abbrev median_time : ℕ
median_time = (timestamp_of network (answer 2 9999) (answer 1 100 ∷ answer 3 102 ∷ [])).time

create_verified_timestamp-majority_example : (95 ≤ median_time) × (median_time ≤ 110)
unfolding get_timestamp
create_verified_timestamp-majority_example =
    create_verified_timestamp-majority network answers
      (timestamp_of network (answer 2 9999) (answer 1 100 ∷ answer 3 102 ∷ [])) 95 110 median_of
      (omega arith)
