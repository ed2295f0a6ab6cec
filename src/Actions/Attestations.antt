-- ===== src/Actions/Attestations.antt =====
-- actions/shuttle.go: the checks of a pair of attestations, of code and of a timestamp that the
-- actions share.
use aristo.Prelude.{
  ℕ, ◌+◌, [], ◌∷◌, List, Bool, true, false, not, ◌||◌, Bytes, same, is_empty, Option, none, some,
  Result, ok, err, ltb, ◌==◌, if◌then◌else◌, missing_attestation, attestation_mismatch, empty_code,
  invalid_start_byte, wrong_tee_format, invalid_attestation, decode_failed,
  timestamp_outside_window,
}
use aristo.Core.Types.{AttestationPair}

abbrev pub either_empty : Bytes → Bytes → Bool
either_empty a b = is_empty a || is_empty b

unfoldable pub verify_attestation_pair : AttestationPair → Result (Unit {0})
verify_attestation_pair pair =
    if either_empty pair.first.enclave_id pair.second.enclave_id
    then err missing_attestation
    else if not (pair.first.timestamp == pair.second.timestamp)
    then err attestation_mismatch
    else if not (same pair.first.payload pair.second.payload)
    then err attestation_mismatch
    else if either_empty pair.first.measurement pair.second.measurement
    then err missing_attestation
    else if either_empty pair.first.signature pair.second.signature
    then err missing_attestation
    else ok tt

unfoldable pub validate_code : Bytes → Result (Unit {0})
validate_code [] = err empty_code
validate_code (b ∷ bs) = if b == 0 then err invalid_start_byte else ok tt

unfoldable pub validate_function_exists : Bytes → Bytes → Result (Unit {0})
validate_function_exists code function_name = if is_empty code then err empty_code else ok tt

unfoldable pub is_listed : Bytes → List Bytes → Bool
is_listed id [] = false
is_listed id (tee ∷ tees) = let rest = is_listed id tees in if same tee id then true else rest

-- `none` where the region's entry `tees` is not a list of addresses.
unfoldable pub verify_region_tees : Option (List Bytes) → AttestationPair → Result (Unit {0})
unfolding is_listed
verify_region_tees none pair = err wrong_tee_format
verify_region_tees (some tees) pair =
    if not (is_listed pair.first.enclave_id tees)
    then err invalid_attestation
    else if not (is_listed pair.second.enclave_id tees)
    then err invalid_attestation
    else ok tt

-- 5 * time.Minute
abbrev pub max_drift : ℕ
max_drift = 300000000000

-- `parsed` is what time.Parse reads, `now` the clock.
unfoldable pub validate_timestamp : Option ℕ → ℕ → Result (Unit {0})
validate_timestamp none now = err decode_failed
validate_timestamp (some ts) now =
    if ltb (ts + max_drift) now || ltb (now + max_drift) ts
    then err timestamp_outside_window
    else ok tt
