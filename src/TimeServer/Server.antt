-- ===== src/TimeServer/Server.antt =====
-- timeserver/types.go and timeserver/server.go: a server signs its clock with the caller's nonce.
-- A time is the number of nanoseconds since 1970. `sign` is ed25519's.
use aristo.Prelude.{ℕ, ◌-◌, ◌%◌, ◌++◌, Bytes, Option, some}
use aristo.Storage.Words.{u64_mod, put_u64}

pub record TimeServer : Type 0 where
  pub id : Bytes
  pub region_id : Bytes
  pub public_key : Bytes
  pub priv_key : Bytes

pub record SignedTimestamp : Type 0 where
  pub server_id : Bytes
  pub time : ℕ
  pub signature : Bytes
  pub nonce : Bytes

-- `timestamp` is a pointer, which may be nil.
pub record VerificationResponse : Type 0 where
  pub timestamp : Option SignedTimestamp
  pub server_proof : Bytes
  pub delay : ℕ

-- The eight bytes of the time, and the nonce.
abbrev pub signed_message : ℕ → Bytes → Bytes
signed_message time nonce = put_u64 (time % u64_mod) ++ nonce

-- GetTimestamp at the time `now`, answered at the time `done`.
unfoldable pub get_timestamp :
    (Bytes → Bytes → Bytes) → TimeServer → Bytes → ℕ → ℕ → VerificationResponse
get_timestamp sign server nonce now done =
    let sig = sign server.priv_key (signed_message now nonce) in
    record {
      timestamp =
          some (record { server_id = server.id; time = now; signature = sig; nonce = nonce });
      server_proof = sig;
      delay = done - now;
    }
