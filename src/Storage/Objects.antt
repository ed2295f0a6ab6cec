-- ===== src/Storage/Objects.antt =====
-- storage/storage.go: objects, events, the input object and regions, kept in the chain's state.
-- `codec` is their JSON encoding, `Region` a decoded `map[string]interface{}` that is not nil, and
-- `rfc3339` the format of a time.
pub mod Frame
use aristo.Prelude.{
  ℕ, [], ◌∷◌, Bytes, Option, none, some, Result, ok, err, panic, then_try, Act, lift, store, ◌>>=◌,
  is_empty, if◌then◌else◌,
}
use aristo.Storage.State.{Mutable, is_db_not_found}
use aristo.Storage.Codec.{Codec, ObjectMap}
use aristo.Storage.Keys.{make_object_key, make_event_key, event_key, region_key}
use aristo.Core.Types.{AttestationPair}

abbrev pub input_prefix : ℕ
input_prefix = 6

abbrev pub input_object_key : Bytes
input_object_key = input_prefix ∷ []

-- What QueueEvent stores.
pub record QueuedEvent : Type 0 where
  pub function_call : Bytes
  pub parameters : Bytes
  pub attestations : AttestationPair

-- A key that is absent reads as nil.
unfoldable pub decode_found :
    {A : Type 0} → (Bytes → Result (Option A)) → Result Bytes → Result (Option A)
unfolding is_db_not_found
decode_found unmarshal (ok v) = unmarshal v
decode_found unmarshal (err e) = if is_db_not_found e then ok none else err e
decode_found unmarshal (panic c) = panic c

unfoldable pub id_or_empty : Result Bytes → Result Bytes
unfolding is_db_not_found
id_or_empty (ok v) = ok v
id_or_empty (err e) = if is_db_not_found e then ok [] else err e
id_or_empty (panic c) = panic c

module _ {S : Type 0} (mu : Mutable S) where
  -- The write that every setter ends in: the value is encoded, then inserted.
  unfoldable pub insert_encoded : {A : Type 0} → Codec A → Bytes → A → Act S (Unit {0})
  insert_encoded codec k a = do v ← lift (codec.marshal a); store (λ s. mu.insert s k v) tt

  unfoldable pub get_object : Codec ObjectMap → Bytes → Bytes → S → Result ObjectMap
  unfolding decode_found
  get_object codec id region s =
      decode_found codec.unmarshal (mu.get_value s (make_object_key region id))

  unfoldable pub get_event : {A : Type 0} → Codec (Option A) → Bytes → Bytes → S → Result (Option A)
  unfolding decode_found
  get_event codec timestamp id s =
      decode_found codec.unmarshal (mu.get_value s (event_key timestamp id))

  unfoldable pub get_input_object : S → Result Bytes
  unfolding id_or_empty
  get_input_object s = id_or_empty (mu.get_value s input_object_key)

  unfoldable pub set_input_object : Bytes → Act S (Unit {0})
  set_input_object id = store (λ s. mu.insert s input_object_key id) tt

  unfoldable pub get_region : {R : Type 0} → Codec (Option R) → Bytes → S → Result (Option R)
  unfolding decode_found
  get_region codec id s = decode_found codec.unmarshal (mu.get_value s (region_key id))

  unfoldable pub set_region : {R : Type 0} → Codec (Option R) → Bytes → Option R → Act S (Unit {0})
  unfolding insert_encoded
  set_region codec id region = insert_encoded codec (region_key id) region
