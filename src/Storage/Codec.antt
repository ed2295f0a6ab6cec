-- ===== src/Storage/Codec.antt =====
-- The JSON encoding of what the storage package keeps, which encoding/json defines: its two directions
-- are a parameter, and what the program relies on is that a value is read back with the fields that
-- it was written with.
use aristo.Prelude.{◌≡◌, [], Bool, true, every, ltb, Bytes, Option, none, some, Result, ok}
use aristo.Prelude.Dict
use aristo.Prelude.Dict.{Dict}

pub record Codec (A : Type 0) : Type 0 where
  pub marshal : A → Result Bytes
  pub unmarshal : Bytes → Result A

-- A `map[string][]byte`, `none` where it is nil.
abbrev pub ObjectMap : Type 0
ObjectMap = Option (Dict Bytes)

-- obj[k], which is empty for a missing key and for a nil map.
unfoldable pub field : Bytes → ObjectMap → Bytes
field k none = []
field k (some m) = elim (Dict.lookup k m) [ none ↦ [] | some v ↦ v ]

-- encoding/json keeps a key that is valid UTF-8, as ASCII is.
abbrev pub ascii_keys : Dict Bytes → Bool
ascii_keys m = every (λ entry. every (λ b. ltb b 128) entry.0) m

-- A map that is not nil is read back with the same value of every one of its fields.
pub record IsObjectCodec (codec : Codec ObjectMap) : Type 0 where
  pub unmarshal-marshal :
      (m : Dict Bytes) (b : Bytes)
      → ascii_keys m ≡ true
      → codec.marshal (some m) ≡ ok b
      → (n : Dict Bytes) × ((codec.unmarshal b ≡ ok (some n))
          × ((k : Bytes) → Dict.lookup k n ≡ Dict.lookup k m))
