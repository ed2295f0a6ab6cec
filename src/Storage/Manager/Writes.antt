-- ===== src/Storage/Manager/Writes.antt =====
-- storage/state_manager.go: what an encoded write leaves in the stores, and what GetObject reads then.
use aristo.Prelude.{
  ◌≡◌, refl, ◌∙◌, ap, inl, inr, [], Bool, false, Bytes, text, same, same_iff, Option, none, some,
  Result, ok, Act, ◌>>=◌, lift, arith, reject_if, Result-cases, Bool-cases, is_empty,
  invalid_region_id, Error,
}
use aristo.Prelude.Dict
use aristo.Prelude.Dict.{Dict}
use aristo.Core.Types.{ObjectState}
use aristo.Storage.Codec.{Codec, ObjectMap, IsObjectCodec, field}
use aristo.Storage.Stores.{
  MerkleDb, IsMerkleDb, MerkleStore, TeeLink, World, or_nil, get_regional_store, make_regional_key,
}
use aristo.Storage.Stores
use aristo.Storage.Stores.Outcome.{
  Stored, Stored-weaken, continue-Stored, insert-Stored, get_regional_store-merkle,
}
use aristo.Storage.Manager.{
  object_key, object_map, object_of, read_object, decode_object, put_encoded, stored_object,
}

-- What is kept of an object.
abbrev pub kept : ObjectState → ObjectState
kept obj = record obj { events = []; last_updated = none }

field-some : (k v : Bytes) (n : Dict Bytes) → Dict.lookup k n ≡ some v → field k (some n) ≡ v
unfolding field
field-some k v n e = rw (field, e) refl

pub differ : (a b : Bytes) → (a ≡ b → ⊥) → same a b ≡ false
differ a b h = elim (Bool-cases (same a b)) [ inl e ↦ absurd (h ((same_iff a b).0 e)) | inr e ↦ e ]

reject_if-state : {S : Type 0} (b : Bool) (e : Error) (s : S) → (reject_if b e s).1 ≡ s
reject_if-state b e s = ground arith

module _ {D W C : Type 0} (db : MerkleDb D) (laws : IsMerkleDb db) (link : TeeLink W C) where
  encoded-Stored :
      {A : Type 0} (codec : Codec A) (region key : Bytes) (a : A) (ms : MerkleStore) (w : World D W)
      → Stored db laws link
          (make_regional_key region key)
          (λ v. codec.marshal a ≡ ok v)
          w.merkle
          ((lift (codec.marshal a) >>= λ value. Stores.insert db link region ms key value) w)
  unfolding Stored
  encoded-Stored codec region key a ms w = elim (Result-cases (codec.marshal a)) [
    | inl (v, e) ↦ rw e (
        Stored-weaken db laws link (make_regional_key region key) (λ u. u ≡ v) (λ u. ok v ≡ ok u)
          w.merkle (λ u h. rw h refl) (Stores.insert db link region ms key v w)
          (insert-Stored db laws link region ms key v w))
    | inr (inl (x, e)) ↦ rw e (inr ((λ b h. cc), λ j. refl))
    | inr (inr (c, e)) ↦ rw e (inr ((λ b h. cc), λ j. refl))
  ]

  pub put_encoded-Stored :
      {A : Type 0} (codec : Codec A) (region key : Bytes) (a : A) (w : World D W)
      → Stored db laws link
          (make_regional_key region key)
          (λ v. codec.marshal a ≡ ok v)
          w.merkle
          (put_encoded db link codec region key a w)
  unfolding put_encoded
  put_encoded-Stored codec region key a w =
      continue-Stored db laws link k IsValue w.merkle
        (reject_if (is_empty region) invalid_region_id w).0
        (reject_if (is_empty region) invalid_region_id w).1
        (λ u. get_regional_store db link region >>= λ ms. after ms)
        (ap (λ v. v.merkle) (reject_if-state (is_empty region) invalid_region_id w))
        λ u. from_store (reject_if (is_empty region) invalid_region_id w).1
    where
      k : Bytes
      k = make_regional_key region key

      IsValue : Bytes → Type 0
      IsValue v = codec.marshal a ≡ ok v

      after : MerkleStore → Act (World D W) (Unit {0})
      after ms = lift (codec.marshal a) >>= λ value. Stores.insert db link region ms key value

      from_store :
          (v : World D W)
          → Stored db laws link k IsValue v.merkle ((get_regional_store db link region >>= after) v)
      from_store v =
          continue-Stored db laws link k IsValue v.merkle (get_regional_store db link region v).0
            (get_regional_store db link region v).1 after
            (get_regional_store-merkle db laws link region v)
            λ ms. encoded-Stored codec region key a ms (get_regional_store db link region v).1

  module _ (objects : Codec ObjectMap) (codec_laws : IsObjectCodec objects) where
    object_of-kept :
        (obj : ObjectState) (n : Dict Bytes)
        → ((k : Bytes)
            → Dict.lookup k n ≡ Dict.lookup k (object_map obj.code obj.storage obj.status))
        → object_of obj.region_id (some n) ≡ kept obj
    unfolding object_of Dict.lookup same
    object_of-kept obj n h =
        rw
          (
            field-some (text "code") obj.code n (h (text "code")),
            field-some (text "storage") obj.storage n (h (text "storage")),
            field-some (text "status") obj.status n (h (text "status")),
          )
          refl

    -- What was encoded is read back.
    pub read_object-kept :
        (obj : ObjectState) (o : Option Bytes)
        → objects.marshal (some (object_map obj.code obj.storage obj.status)) ≡ ok (or_nil o)
        → read_object objects obj.region_id (ok o) ≡ ok (some (kept obj))
    unfolding read_object decode_object
    read_object-kept obj o e =
        let m = object_map obj.code obj.storage obj.status in
        let (n, (decoded, lookups)) = codec_laws.unmarshal-marshal m (or_nil o) refl e in
        rw (decoded, object_of-kept obj n lookups) refl

    unfoldable pub place : Bytes → Bytes → Bytes
    place region id = make_regional_key region (object_key region id)

    -- What is stored depends on the database alone.
    pub stored_object-reads :
        (region id : Bytes) (t : World D W) (x : Result (Option Bytes))
        → db.get t.merkle (place region id) ≡ x
        → stored_object db link objects id region t ≡ read_object objects region x
    unfolding stored_object Stores.get place
    stored_object-reads region id t x e = ap (read_object objects region) e

    pub stored_object-unread :
        (region id : Bytes) (t w : World D W)
        → db.get t.merkle (place region id) ≡ db.get w.merkle (place region id)
        → stored_object db link objects id region t ≡ stored_object db link objects id region w
    unfolding stored_object Stores.get place
    stored_object-unread region id t w e = ap (read_object objects region) e

    -- Of an object under another key nothing changes.
    pub stored_object-elsewhere :
        (k region id : Bytes) (IsValue : Bytes → Type 0) (w : World D W)
        (x : Result (Unit {0}) × World D W)
        → Stored db laws link k IsValue w.merkle x
        → (k ≡ place region id → ⊥)
        → stored_object db link objects id region x.1 ≡ stored_object db link objects id region w
    unfolding Stored
    stored_object-elsewhere k region id IsValue w (r, t) (inl (u, (e, (o, (p, reads))))) h =
        stored_object-unread region id t w
          (reads (place region id) ∙ rw (differ k (place region id) h) refl)
    stored_object-elsewhere k region id IsValue w (r, t) (inr (e, reads)) h =
        stored_object-unread region id t w (reads (place region id))
