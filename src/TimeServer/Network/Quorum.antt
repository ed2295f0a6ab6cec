-- ===== src/TimeServer/Network/Quorum.antt =====
-- What a verified timestamp rests on, and when there is one.
use aristo.Prelude.{
  ℕ, ◌+◌, ◌-◌, ◌≤◌, ◌<◌, ◌≡◌, refl, [], ◌∷◌, ◌++◌, List, Bool, true, Bytes, Result, ok, err, panic,
  length, length-append, map, ltb, arith, if◌then◌else◌, All, All-append, Bool-cases, inl, inr,
  then_try, keep, Result-cases, ◌⊎◌, time_spread_too_large, le→ltb_false,
}
use aristo.TimeServer.Server.{TimeServer, VerificationResponse}
use aristo.TimeServer.Network.{
  TimeNetwork, VerifiedTimestamp, timestamp_of, Event, response, failure, timeout, cancelled,
  collect, create_verified_timestamp, validate_responses, verify_response, get_verified_timestamp,
  min_time, max_time, spread, time_of, proof_of, is_ok, get_regional_servers, check_server_health,
}
use aristo.TimeServer.Network.Sorting.{count}
use aristo.TimeServer.Network.Median.{outside, median_between}

module _ (accepts : VerificationResponse → Bool) where
  abbrev pub Accepted : List VerificationResponse → Type 0
  Accepted = All (λ r. accepts r ≡ true)

  collect_sound :
      (q : ℕ) (got out : List VerificationResponse) (es : List Event)
      → length got ≤ q
      → Accepted got
      → collect accepts q got es ≡ ok out
      → (length out ≡ q) × Accepted out
  unfolding collect
  collect_sound q got out [] h a e = ground arith
  collect_sound q got out (response r ∷ es) h a e = elim (Bool-cases (accepts r)) [
    | inl yes_ ↦ ground (
      arith,
      collect_sound q (got ++ r ∷ []) out es,
      length-append got (r ∷ []),
      All-append (λ r. accepts r ≡ true) got (r ∷ []) a (yes_, tt),
    )
    | inr no_ ↦ ground (arith, collect_sound q got out es h a)
  ]
  collect_sound q got out (failure ∷ es) h a e = ground (arith, collect_sound q got out es h a)
  collect_sound q got out (timeout ∷ es) h a e = ground arith
  collect_sound q got out (cancelled ∷ es) h a e = ground arith

  -- The accepted responses that arrive before the timer fires or the caller gives up.
  abbrev pub in_time : List Event → ℕ
  in_time [] = 0
  in_time (response r ∷ es) = (if accepts r then 1 else 0) + in_time es
  in_time (failure ∷ es) = in_time es
  in_time (timeout ∷ es) = 0
  in_time (cancelled ∷ es) = 0

  pub collect_total :
      (q : ℕ) (got : List VerificationResponse) (es : List Event)
      → q ≤ length got + in_time es
      → (out : List VerificationResponse) × (collect accepts q got es ≡ ok out)
  unfolding collect
  collect_total q got [] h = (got, ground arith)
  collect_total q got (response r ∷ es) h = elim (Bool-cases (ltb (length got) q)) [
    | inl more ↦
        let (out, e) =
          collect_total q (if accepts r then got ++ r ∷ [] else got) es
            (ground (arith, length-append got (r ∷ []))) in
        (out, rw more e)
    | inr enough ↦ (got, rw enough)
  ]
  collect_total q got (failure ∷ es) h = elim (Bool-cases (ltb (length got) q)) [
    | inl more ↦ let (out, e) = collect_total q got es h in (out, rw more e)
    | inr enough ↦ (got, rw enough)
  ]
  collect_total q got (timeout ∷ es) h = (got, ground arith)
  collect_total q got (cancelled ∷ es) h = (got, ground arith)

min_time-le :
    (m : ℕ) (rs : List VerificationResponse)
    → (min_time m rs ≤ m) × All (λ r. min_time m rs ≤ time_of r) rs
unfolding min_time
min_time-le m [] = (omega arith, tt)
min_time-le m (r ∷ rs) = ground (arith, min_time-le (if ltb (time_of r) m then time_of r else m) rs)

max_time-ge :
    (m : ℕ) (rs : List VerificationResponse)
    → (m ≤ max_time m rs) × All (λ r. time_of r ≤ max_time m rs) rs
unfolding max_time
max_time-ge m [] = (omega arith, tt)
max_time-ge m (r ∷ rs) = ground (arith, max_time-ge (if ltb m (time_of r) then time_of r else m) rs)

none_outside :
    (lo hi : ℕ) (rs : List VerificationResponse)
    → All (λ r. lo ≤ time_of r) rs
    → All (λ r. time_of r ≤ hi) rs
    → count (outside lo hi) (map time_of rs) ≡ 0
none_outside lo hi [] a b = refl
none_outside lo hi (r ∷ rs) a b = ground (arith, none_outside lo hi rs a.1 b.1)

-- The time `t` and that of each response differ by `d` at most.
abbrev pub Near : ℕ → ℕ → List VerificationResponse → Type 0
Near d t = All (λ r. (t ≤ time_of r + d) × (time_of r ≤ t + d))

All-Near :
    (lo hi d t : ℕ) (rs : List VerificationResponse)
    → All (λ r. lo ≤ time_of r) rs
    → All (λ r. time_of r ≤ hi) rs
    → lo ≤ t
    → t ≤ hi
    → hi - lo ≤ d
    → Near d t rs
All-Near lo hi d t [] a b l h s = tt
All-Near lo hi d t (r ∷ rs) a b l h s = (omega arith, All-Near lo hi d t rs a.1 b.1 l h s)

create-Near :
    (tn : TimeNetwork) (responses : List VerificationResponse) (v : VerifiedTimestamp)
    → validate_responses tn responses ≡ ok tt
    → create_verified_timestamp tn responses ≡ ok v
    → (v.proofs ≡ map proof_of responses) × Near tn.max_latency v.time responses
unfolding validate_responses create_verified_timestamp
create-Near tn [] v valid made = ground arith
create-Near tn (r ∷ rs) v valid made =
    let lo = min_time (time_of r) rs in
    let hi = max_time (time_of r) rs in
    let above : All (λ r. lo ≤ time_of r) (r ∷ rs) = min_time-le (time_of r) rs in
    let below : All (λ r. time_of r ≤ hi) (r ∷ rs) = max_time-ge (time_of r) rs in
    let mid =
      median_between lo hi (map time_of (r ∷ rs))
        (omega (arith, none_outside lo hi (r ∷ rs) above below)) in
    let time_mid : (lo ≤ v.time) × (v.time ≤ hi) = ground (arith, mid) in
    let close : hi - lo ≤ tn.max_latency = ground arith in
    (
      ground arith,
      All-Near lo hi tn.max_latency v.time (r ∷ rs) above below time_mid.0 time_mid.1 close,
    )

is_ok→ok : (r : Result (Unit {0})) → is_ok r ≡ true → r ≡ ok tt
is_ok→ok (ok a) h = refl
is_ok→ok (err e) h = cc
is_ok→ok (panic c) h = cc

All-ok :
    (f : VerificationResponse → Result (Unit {0})) (rs : List VerificationResponse)
    → All (λ r. is_ok (f r) ≡ true) rs
    → All (λ r. f r ≡ ok tt) rs
All-ok f [] a = tt
All-ok f (r ∷ rs) a = (is_ok→ok (f r) a.0, All-ok f rs a.1)

length-keep-le : (p : TimeServer → Bool) (xs : List TimeServer) → length (keep p xs) ≤ length xs
length-keep-le p [] = omega arith
length-keep-le p (x ∷ xs) = ground (arith, length-keep-le p xs)

module _ (verify : Bytes → Bytes → Bytes → Bool) (sign : Bytes → Bytes → Bytes)
    (clock : TimeServer → ℕ) (tn : TimeNetwork) (region nonce : Bytes)
    (test_nonce : TimeServer → Result Bytes) (events : List Event) where
  abbrev accepts : VerificationResponse → Bool
  accepts r = is_ok (verify_response verify tn r nonce)

  abbrev healthy : List TimeServer
  healthy =
      keep (λ s. is_ok (check_server_health verify sign clock test_nonce s))
        (get_regional_servers tn region)

  collected_ok :
      (v : VerifiedTimestamp)
      → get_verified_timestamp verify sign clock tn region test_nonce (ok nonce) events ≡ ok v
      → (responses : List VerificationResponse) × (collect accepts tn.quorum_size [] events
          ≡ ok responses)
        × (validate_responses tn responses ≡ ok tt)
        × (create_verified_timestamp tn responses ≡ ok v)
  unfolding get_verified_timestamp
  collected_ok v e = elim (Result-cases (collect accepts tn.quorum_size [] events)) [
    | inl (responses, got) ↦ (responses, got, ground arith, ground arith)
    | inr other ↦ absurd (ground arith)
  ]

  -- A verified timestamp rests on as many responses as the quorum asks for, with one proof each:
  -- every one passes the check against the known servers and the nonce, and its time differs
  -- from the timestamp by the maximal latency at most.
  pub get_verified_timestamp_sound :
      (v : VerifiedTimestamp)
      → get_verified_timestamp verify sign clock tn region test_nonce (ok nonce) events ≡ ok v
      → (responses : List VerificationResponse) × (length responses ≡ tn.quorum_size)
        × (v.proofs ≡ map proof_of responses)
        × All (λ r. verify_response verify tn r nonce ≡ ok tt) responses
        × Near tn.max_latency v.time responses
  get_verified_timestamp_sound v e =
      let (responses, got, valid, made) = collected_ok v e in
      let (size, fine) =
        collect_sound accepts tn.quorum_size [] responses events (omega arith) tt got in
      let (proofs, near) = create-Near tn responses v valid made in
      (
        responses,
        size,
        proofs,
        All-ok (λ r. verify_response verify tn r nonce) responses fine,
        near,
      )

  made_or_spread :
      (responses : List VerificationResponse)
      → length responses ≡ tn.quorum_size
      → 0 < tn.quorum_size
      → ((v : VerifiedTimestamp) × (then_try
              (validate_responses tn responses)
              (λ _. create_verified_timestamp tn responses)
            ≡ ok v))
        ⊎ (then_try (validate_responses tn responses) (λ _. create_verified_timestamp tn responses)
            ≡ err time_spread_too_large)
  unfolding validate_responses create_verified_timestamp
  made_or_spread [] size positive = absurd (omega arith)
  made_or_spread (r ∷ rs) size positive = elim (Bool-cases (ltb tn.max_latency (spread (r ∷ rs)))) [
    | inl wide ↦ inr (ground arith)
    | inr near ↦ inl (timestamp_of tn r rs, ground arith)
  ]

  -- For a quorum that is not zero, with as many healthy servers in the region and as many
  -- acceptable responses in time, a request returns a timestamp or reports that the times are
  -- too far apart.
  pub get_verified_timestamp_total :
      0 < tn.quorum_size
      → tn.quorum_size ≤ length healthy
      → tn.quorum_size ≤ in_time accepts events
      → ((v : VerifiedTimestamp) × (get_verified_timestamp verify sign clock tn region test_nonce
              (ok nonce)
              events
            ≡ ok v))
        ⊎ (get_verified_timestamp verify sign clock tn region test_nonce (ok nonce) events
            ≡ err time_spread_too_large)
  unfolding get_verified_timestamp
  get_verified_timestamp_total positive enough answers =
      let (responses, got) = collect_total accepts tn.quorum_size [] events (omega arith) in
      let (size, fine) =
        collect_sound accepts tn.quorum_size [] responses events (omega arith) tt got in
      let servers =
        length-keep-le (λ s. is_ok (check_server_health verify sign clock test_nonce s))
          (get_regional_servers tn region) in
      rw
        (
          got,
          le→ltb_false _ _ enough,
          le→ltb_false (length (get_regional_servers tn region)) tn.quorum_size (omega arith),
        )
        (made_or_spread responses size positive)
