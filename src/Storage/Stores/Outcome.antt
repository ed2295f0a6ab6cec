-- ===== src/Storage/Stores/Outcome.antt =====
-- storage/region_store.go: what an insertion leaves in the database that the stores share.
use mathlib.Core.Path.{subst}
use aristo.Prelude.{
  ◌≡◌, ◌≢◌, refl, ◌⊎◌, inl, inr, Bytes, same, Option, Result, ok, err, panic, Act, arith, continue,
  Result-cases, if◌then◌else◌,
}
use aristo.Storage.Stores.{
  MerkleDb, IsMerkleDb, MerkleStore, TeeLink, World, or_nil, get_regional_store, add_store,
  make_regional_key, on_coordinator, with_merkle, set_store, update_merkle_root, deliver, rooted,
  counted, insert, put_counted,
}

module _ {D W C : Type 0} (db : MerkleDb D) (laws : IsMerkleDb db) (link : TeeLink W C) where
  -- A write that succeeds stores one value under `k`, one that fails stores nothing.
  unfoldable pub Stored :
      {A : Type 0} → Bytes → (Bytes → Type 0) → D → Result A × World D W → Type 0
  Stored {A} k IsValue d (r, t) =
      ((a : A) × ((r ≡ ok a)
          × ((o : Option Bytes) × (IsValue (or_nil o)
                × ((j : Bytes) → db.get t.merkle j ≡ (if same k j then ok o else db.get d j))))))
      ⊎ (((a : A) → r ≢ ok a) × ((j : Bytes) → db.get t.merkle j ≡ db.get d j))

  set_store-merkle :
      (region : Bytes) (f : MerkleStore → MerkleStore) (w : World D W)
      → (set_store db link region f w).merkle ≡ w.merkle
  unfolding set_store
  set_store-merkle region f w = ground arith

  pub get_regional_store-merkle :
      (region : Bytes) (w : World D W) → (get_regional_store db link region w).1.merkle ≡ w.merkle
  unfolding get_regional_store add_store
  get_regional_store-merkle region w = ground arith

  on_coordinator-merkle :
      {A : Type 0} (m : Act W A) (w : World D W) → (on_coordinator db link m w).1.merkle ≡ w.merkle
  unfolding on_coordinator
  on_coordinator-merkle m w = refl

  root_ok : (region : Bytes) (w : World D W) → (update_merkle_root db link region w).0 ≡ ok tt
  unfolding update_merkle_root
  root_ok region w = rw ((laws.merkle_root_total w.merkle).1) refl

  root-merkle :
      (region : Bytes) (w : World D W) → (update_merkle_root db link region w).1.merkle ≡ w.merkle
  unfolding update_merkle_root
  root-merkle region w =
      rw ((laws.merkle_root_total w.merkle).1)
        (set_store-merkle region (rooted db link (laws.merkle_root_total w.merkle).0) w)

  pub Stored-weaken :
      {A : Type 0} (k : Bytes) (P Q : Bytes → Type 0) (d : D)
      → ((v : Bytes) → P v → Q v)
      → (x : Result A × World D W) → Stored k P d x
      → Stored k Q d x
  unfolding Stored
  Stored-weaken k P Q d f (r, t) (inl (a, (e, (o, (p, h))))) =
      inl (a, (e, (o, (f (or_nil o) p, h))))
  Stored-weaken k P Q d f (r, t) (inr h) = inr h

  -- What follows a step that keeps the database decides.
  pub continue-Stored :
      {A B : Type 0} (k : Bytes) (IsValue : Bytes → Type 0) (d : D) (r : Result A) (t : World D W)
      (f : A → Act (World D W) B)
      → t.merkle ≡ d
      → ((a : A) → Stored k IsValue t.merkle (f a t))
      → Stored k IsValue d (continue r f t)
  unfolding Stored
  continue-Stored k IsValue d (ok a) t f h hf = subst (λ e. Stored k IsValue e (f a t)) h (hf a)
  continue-Stored k IsValue d (err e) t f h hf = inr ((λ a e. cc), λ j. rw h refl)
  continue-Stored k IsValue d (panic c) t f h hf = inr ((λ a e. cc), λ j. rw h refl)

  -- Once the value is put, the count and the root are written and nothing fails.
  put_counted-Stored :
      (region : Bytes) (key value : Bytes) (w : World D W)
      → Stored
          (make_regional_key region key)
          (λ v. v ≡ value)
          w.merkle
          (put_counted db link region key value w)
  unfolding Stored put_counted with_merkle update_merkle_root
  put_counted-Stored region key value w =
      elim (Result-cases (db.put w.merkle (make_regional_key region key) value)) [
        | inl (d, e) ↦ rw e (inl (tt, (root_ok region (count d), stored_value d e)))
        | inr (inl (x, e)) ↦ rw e (inr ((λ a h. cc), λ j. refl))
        | inr (inr (c, e)) ↦ rw e (inr ((λ a h. cc), λ j. refl))
      ]
    where
      count : D → World D W
      count d = set_store db link region (counted db link) (record w { merkle = d })

      stored_value :
          (d : D)
          → db.put w.merkle (make_regional_key region key) value ≡ ok d
          → (o : Option Bytes) × ((or_nil o ≡ value)
              × ((j : Bytes)
                  → db.get (update_merkle_root db link region (count d)).1.merkle j
                    ≡ (if same (make_regional_key region key) j then ok o else db.get w.merkle j)))
      stored_value d e =
          let (o, (is_value, reads)) =
            laws.get-put w.merkle d (make_regional_key region key) value e in
          (
            o,
            (
              is_value,
              λ j.
                  rw
                    (
                      root-merkle region (count d),
                      set_store-merkle region (counted db link) (record w { merkle = d }),
                    )
                    (reads j),
            ),
          )

  pub insert-Stored :
      (region : Bytes) (ms : MerkleStore) (key value : Bytes) (w : World D W)
      → Stored
          (make_regional_key region key)
          (λ v. v ≡ value)
          w.merkle
          (insert db link region ms key value w)
  unfolding insert
  insert-Stored region ms key value w =
      let (r, t) = on_coordinator db link (deliver db link ms.workers value) w in
      continue-Stored (make_regional_key region key) (λ v. v ≡ value) w.merkle r t
        (λ u. put_counted db link region key value)
        (on_coordinator-merkle (deliver db link ms.workers value) w)
        λ u. put_counted-Stored region key value t
