-- ===== src/Storage/Objects/Frame.antt =====
-- storage/storage.go: an encoded write changes no key but its own.
use aristo.Prelude.{◌≡◌, false, Bytes, Result, ok, same}
use aristo.Prelude.Preserves.{Preserves, Preserves-store, preserves_rules}
use aristo.Storage.State.{Mutable, IsMutable}
use aristo.Storage.Balance.Frame.{Reads}
use aristo.Storage.Codec.{Codec}
use aristo.Storage.Objects.{insert_encoded}

module _ {S : Type 0} (mu : Mutable S) (laws : IsMutable mu) (k j : Bytes)
    (other : same k j ≡ false) (was : Result Bytes) where
  insert-Reads :
      (v : Bytes) (s t : S) → Reads mu j was s → mu.insert s k v ≡ ok t → Reads mu j was t
  insert-Reads v s t h e = rw (laws.get-insert s t k v j e, other) h

  pub insert_encoded-Reads :
      {A : Type 0} (codec : Codec A) (a : A)
      → Preserves (Reads mu j was) (insert_encoded mu codec k a)
  unfolding insert_encoded
  insert_encoded-Reads codec a = search (preserves_rules, Preserves-store, insert-Reads)
