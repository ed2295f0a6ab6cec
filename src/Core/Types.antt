-- ===== src/Core/Types.antt =====
-- core/tee_types.go and core/state_types.go: attestations, objects and events. A time is a number of
-- nanoseconds since 1970 in UTC, `none` the zero time.
use aristo.Prelude.{ℕ, List, Bytes, Option}

pub record TeeAttestation : Type 0 where
  pub enclave_id : Bytes
  pub measurement : Bytes
  pub timestamp : ℕ
  pub payload : Bytes
  pub signature : Bytes
  pub region_proof : Bytes

-- [2]TEEAttestation
pub record AttestationPair : Type 0 where
  pub first : TeeAttestation
  pub second : TeeAttestation

pub record ObjectState : Type 0 where
  pub code : Bytes
  pub storage : Bytes
  pub region_id : Bytes
  pub events : List Bytes
  pub last_updated : Option ℕ
  pub status : Bytes

pub record Event : Type 0 where
  pub function_call : Bytes
  pub parameters : Bytes
  pub attestations : AttestationPair
  pub timestamp : Bytes
  pub status : Bytes
