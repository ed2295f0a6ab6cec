-- ===== src/Coordination/Wrapper/Refinement.antt =====
-- The storage wrapper as a map from slots to what was written to them last.
use aristo.Prelude.{
  ltb, ◌≡◌, refl, ap, ◌∙◌, inl, inr, [], ◌∷◌, List, Bool, true, Bytes, same, Result, ok, err, panic,
  Act, Error, Result-cases, if◌then◌else◌, every, not, ◌&&◌,
}
use aristo.Storage.Codec.{Codec}
use aristo.Coordination.Types.{Worker, SecureChannel, TeePairInfo}
use aristo.Coordination.Channel.{make_channel_key}
use aristo.Coordination.Wrapper.{
  BaseStorage, Codecs, Region, WorkerFields, exported, worker_fields, put, put_result, put_json,
  delete, save_channel, delete_channel, save_worker, delete_worker, save_region, delete_region,
  save_coordinator_state, save_tee_pair_info, save_tee_metrics,
}
use aristo.Coordination.Wrapper.Slots.{
  Slot, channel_slot, worker_slot, region_slot, pair_slot, metrics_slot, state_slot, slot_key,
  same_slot, same-slot_key,
}

-- A read sees the last write of its key, and a deleted key is missing.
pub record IsBaseStorage {S : Type 0} (base : BaseStorage S) (missing : Error) : Type 0 where
  pub get-put :
      (s t : S) (k v : Bytes)
      → base.put s k v ≡ ok t
      → (j : Bytes) → base.get t j ≡ (if same k j then ok v else base.get s j)
  pub get-delete :
      (s t : S) (k : Bytes)
      → base.delete s k ≡ ok t
      → (j : Bytes) → base.get t j ≡ (if same k j then err missing else base.get s j)

abbrev pub is_ascii : Bytes → Bool
is_ascii s = every (λ b. ltb b 128) s

-- Whether every string is ASCII; an enclave and a key are bytes, which JSON has in base64.
abbrev pub are_ascii : WorkerFields → Bool
are_ascii f =
    is_ascii f.id
    && every (λ entry. is_ascii entry.0 && (is_ascii entry.1.worker1 && is_ascii entry.1.worker2))
        f.channels

-- encoding/json keeps strings that are valid UTF-8, as ASCII is: with such strings the JSON form of a
-- worker is read back as it was written.
pub record IsWorkerCodec (codec : Codec WorkerFields) : Type 0 where
  pub unmarshal-marshal :
      (f : WorkerFields) (b : Bytes)
      → are_ascii f ≡ true
      → codec.marshal f ≡ ok b
      → codec.unmarshal b ≡ ok f

-- A call that writes.
pub data Op (M V : Type 0) : Type 0 where
  channel_saved : SecureChannel → Op M V
  channel_deleted : Bytes → Bytes → Op M V
  worker_saved : Worker → Op M V
  worker_deleted : Bytes → Op M V
  region_saved : Region → Op M V
  region_deleted : Bytes → Op M V
  pair_saved : TeePairInfo → Op M V
  metrics_saved : Bytes → M → Op M V
  state_saved : V → Op M V

abbrev pub slot_of : {M V : Type 0} → Op M V → Slot
slot_of (channel_saved c) = channel_slot (make_channel_key c.worker1 c.worker2)
slot_of (channel_deleted a b) = channel_slot (make_channel_key a b)
slot_of (worker_saved w) = worker_slot w.id
slot_of (worker_deleted id) = worker_slot id
slot_of (region_saved r) = region_slot r.id
slot_of (region_deleted id) = region_slot id
slot_of (pair_saved i) = pair_slot i.id
slot_of (metrics_saved id m) = metrics_slot id
slot_of (state_saved v) = state_slot

-- What a slot holds after a write with this result.
abbrev pub after_write : Result (Unit {0}) → Bool → Result Bytes → Result Bytes → Result Bytes
after_write (ok u) hit value was = if hit then value else was
after_write (err e) hit value was = was
after_write (panic c) hit value was = was

module _ {S M V : Type 0} (base : BaseStorage S) (missing : Error)
    (laws : IsBaseStorage base missing) (codecs : Codecs M V) where
  abbrev pub contents : Slot → S → Result Bytes
  contents slot s = base.get s (slot_key slot)

  -- What a successful write leaves in its slot.
  abbrev pub value_of : Op M V → Result Bytes
  value_of (channel_saved c) = codecs.channel.marshal (exported c)
  value_of (channel_deleted a b) = err missing
  value_of (worker_saved w) = codecs.worker.marshal (worker_fields w)
  value_of (worker_deleted id) = err missing
  value_of (region_saved r) = codecs.region.marshal r
  value_of (region_deleted id) = err missing
  value_of (pair_saved i) = codecs.pair.marshal i
  value_of (metrics_saved id m) = codecs.metrics.marshal m
  value_of (state_saved v) = codecs.state.marshal v

  -- The call that it stands for.
  unfoldable pub exec : Op M V → Act S (Unit {0})
  exec (channel_saved c) = save_channel base codecs c
  exec (channel_deleted a b) = delete_channel base codecs a b
  exec (worker_saved w) = save_worker base codecs w
  exec (worker_deleted id) = delete_worker base codecs id
  exec (region_saved r) = save_region base codecs r
  exec (region_deleted id) = delete_region base codecs id
  exec (pair_saved i) = save_tee_pair_info base codecs i
  exec (metrics_saved id m) = save_tee_metrics base codecs id m
  exec (state_saved v) = save_coordinator_state base codecs v

  pub run : List (Op M V) → S → S
  run [] s = s
  run (x ∷ xs) s = run xs (exec x s).1

  -- What a slot holds after the calls, by the slot and the result of each alone.
  pub replay : List (Op M V) → S → Slot → Result Bytes → Result Bytes
  replay [] s slot was = was
  replay (x ∷ xs) s slot was =
      replay xs (exec x s).1 slot
        (after_write (exec x s).0 (same_slot (slot_of x) slot) (value_of x) was)

  put-get :
      (k v j : Bytes) (s : S)
      → base.get (put base k v s).1 j
        ≡ after_write (put base k v s).0 (same k j) (ok v) (base.get s j)
  unfolding put
  put-get k v j s = elim (Result-cases (base.put s k v)) [
    | inl (t, f) ↦ rw f (laws.get-put s t k v f j)
    | inr (inl (x, f)) ↦ rw f refl
    | inr (inr (x, f)) ↦ rw f refl
  ]

  put_result-get :
      (k j : Bytes) (r : Result Bytes) (s : S)
      → base.get (put_result base k r s).1 j
        ≡ after_write (put_result base k r s).0 (same k j) r (base.get s j)
  unfolding put_result
  put_result-get k j (ok v) s = put-get k v j s
  put_result-get k j (err e) s = refl
  put_result-get k j (panic c) s = refl

  put_json-get :
      {A : Type 0} (codec : Codec A) (k j : Bytes) (a : A) (s : S)
      → base.get (put_json base codec k a s).1 j
        ≡ after_write (put_json base codec k a s).0 (same k j) (codec.marshal a) (base.get s j)
  unfolding put_json
  put_json-get codec k j a s = put_result-get k j (codec.marshal a) s

  delete-get :
      (k j : Bytes) (s : S)
      → base.get (delete base k s).1 j
        ≡ after_write (delete base k s).0 (same k j) (err missing) (base.get s j)
  unfolding delete
  delete-get k j s = elim (Result-cases (base.delete s k)) [
    | inl (t, f) ↦ rw f (laws.get-delete s t k f j)
    | inr (inl (x, f)) ↦ rw f refl
    | inr (inr (x, f)) ↦ rw f refl
  ]

  exec-get :
      (x : Op M V) (j : Bytes) (s : S)
      → base.get (exec x s).1 j
        ≡ after_write (exec x s).0 (same (slot_key (slot_of x)) j) (value_of x) (base.get s j)
  unfolding exec save_channel delete_channel save_worker delete_worker save_region delete_region
      save_tee_pair_info save_tee_metrics save_coordinator_state
  exec-get (channel_saved c) j s = put_json-get codecs.channel _ j (exported c) s
  exec-get (channel_deleted a b) j s = delete-get _ j s
  exec-get (worker_saved w) j s = put_json-get codecs.worker _ j (worker_fields w) s
  exec-get (worker_deleted id) j s = delete-get _ j s
  exec-get (region_saved r) j s = put_json-get codecs.region _ j r s
  exec-get (region_deleted id) j s = delete-get _ j s
  exec-get (pair_saved i) j s = put_json-get codecs.pair _ j i s
  exec-get (metrics_saved id m) j s = put_json-get codecs.metrics _ j m s
  exec-get (state_saved v) j s = put_json-get codecs.state _ j v s

  exec-contents :
      (x : Op M V) (slot : Slot) (s : S)
      → contents slot (exec x s).1
        ≡ after_write (exec x s).0 (same_slot (slot_of x) slot) (value_of x) (contents slot s)
  exec-contents x slot s =
      exec-get x (slot_key slot) s
      ∙ ap (λ hit. after_write (exec x s).0 hit (value_of x) (contents slot s))
          (same-slot_key (slot_of x) slot)

  -- Over a store in which a read sees the last write of its key, the storage wrapper implements
  -- a map from slots (a channel's key, a worker, a region, a pair, the metrics of a pair, the
  -- coordinator's state) to what was written: after any saves and deletions, whatever came of
  -- each, a slot holds what the last successful one for that very slot left there, and what it
  -- held before where there was none.
  pub run-contents :
      (xs : List (Op M V)) (slot : Slot) (s : S)
      → contents slot (run xs s) ≡ replay xs s slot (contents slot s)
  unfolding run replay
  run-contents [] slot s = refl
  run-contents (x ∷ xs) slot s =
      run-contents xs slot (exec x s).1 ∙ ap (replay xs (exec x s).1 slot) (exec-contents x slot s)

  -- No call of the list is for the slot.
  abbrev pub elsewhere : Slot → List (Op M V) → Bool
  elsewhere slot xs = every (λ x. not (same_slot (slot_of x) slot)) xs
