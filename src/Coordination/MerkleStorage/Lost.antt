-- ===== src/Coordination/MerkleStorage/Lost.antt =====
-- coordination/storage.go: a write takes back every write before it.
use aristo.Prelude.{
  ◌≡◌, refl, sym, ap, ◌∙◌, [], ◌∷◌, List, false, Bytes, same, Option, none, some, Result, ok, err,
  panic, Error, stored, inl, inr, Result-cases, if◌then◌else◌, then_try, text, ◌++◌,
}
use aristo.Prelude.Success.{try-ok}
use aristo.Prelude.Preserves.{
  Preserves, Preserves-bind, Preserves-fail, Preserves-crash, Preserves-gets, Preserves-pure,
}
use aristo.Prelude.Dict
use aristo.Coordination.Types.{Worker, SecureChannel, TeePairInfo}
use aristo.Coordination.Channel.{make_channel_key}
use aristo.Coordination.Wrapper.{Codecs, Region, loaded_worker, exported, worker_fields}
use aristo.Coordination.MerkleStorage.{
  ViewDb, MerkleStorage, new_storage, with_view, set_view, get, put_json, delete, save_region,
  delete_region, save_tee_pair_info, save_tee_metrics, save_coordinator_state, save_channel,
  load_channel, delete_channel, save_worker, load_worker, delete_worker, read_channel, read_worker,
  cache_channel, cache_worker, CachedChannel, CachedWorker, put, held, cached_channel,
  cached_worker, read, saved, restored, load_region,
}

-- What a change of a key shows in a view, over what the database has.
abbrev pub shown : Error → Option Bytes → Result Bytes
shown missing none = err missing
shown missing (some v) = ok v

-- A view shows its one change, and the database everywhere else.
pub record IsViewDb {D N : Type 0} (views : ViewDb D N) (missing : Error)
    (in_db : D → Bytes → Result Bytes) : Type 0 where
  pub get_value-new_view :
      (d : D) (k : Bytes) (o : Option Bytes) (v : N)
      → views.new_view d ((k, o) ∷ []) ≡ ok v
      → (j : Bytes) → views.get_value v j ≡ (if same k j then shown missing o else in_db d j)

-- A call of the storage.
pub data Op (M V : Type 0) : Type 0 where
  channel_saved : SecureChannel → Op M V
  channel_loaded channel_deleted : Bytes → Bytes → Op M V
  worker_saved : Worker → Op M V
  worker_loaded worker_deleted : Bytes → Op M V
  region_saved : Region → Op M V
  region_deleted : Bytes → Op M V
  pair_saved : TeePairInfo → Op M V
  metrics_saved : Bytes → M → Op M V
  state_saved : V → Op M V

module _ {D N M V : Type 0} (views : ViewDb D N) (missing : Error)
    (in_db : D → Bytes → Result Bytes) (laws : IsViewDb views missing in_db)
    (codecs : Codecs M V) where
  unfoldable pub apply : Op M V → MerkleStorage D N → MerkleStorage D N
  apply (channel_saved c) s = (save_channel views codecs c s).1
  apply (channel_loaded a b) s = (load_channel views codecs a b s).1
  apply (channel_deleted a b) s = (delete_channel views codecs a b s).1
  apply (worker_saved w) s = (save_worker views codecs w s).1
  apply (worker_loaded id) s = (load_worker views codecs id s).1
  apply (worker_deleted id) s = (delete_worker views codecs id s).1
  apply (region_saved r) s = (save_region views codecs r s).1
  apply (region_deleted id) s = (delete_region views codecs id s).1
  apply (pair_saved i) s = (save_tee_pair_info views codecs i s).1
  apply (metrics_saved id m) s = (save_tee_metrics views codecs id m s).1
  apply (state_saved v) s = (save_coordinator_state views codecs v s).1

  unfoldable pub run : MerkleStorage D N → List (Op M V) → MerkleStorage D N
  unfolding apply
  run s [] = s
  run s (o ∷ os) = run (apply o s) os

  IsOver : D → MerkleStorage D N → Type 0
  IsOver d s = s.db ≡ d

  set_view-IsOver :
      (d : D) (cs : List (Bytes × Option Bytes)) → Preserves (IsOver d) (set_view views cs)
  unfolding set_view IsOver
  set_view-IsOver d cs = record {
    step = λ s h. elim (Result-cases (views.new_view s.db cs)) [
      | inl (v, e) ↦ rw (e, with_view) h
      | inr (inl (x, e)) ↦ rw (e, with_view) h
      | inr (inr (x, e)) ↦ rw (e, with_view) h
    ];
  }

  put_json-IsOver :
      (d : D) (k : Bytes) (r : Result Bytes) → Preserves (IsOver d) (put_json views k r)
  unfolding put_json put
  put_json-IsOver d k (ok b) = set_view-IsOver d _
  put_json-IsOver d k (err e) = Preserves-fail e
  put_json-IsOver d k (panic c) = Preserves-crash c

  cache_channel-IsOver :
      (d : D) (k : Bytes) (c : CachedChannel) → Preserves (IsOver d) (cache_channel views k c)
  unfolding cache_channel IsOver
  cache_channel-IsOver d k c = record { step = λ s h. h }

  cache_worker-IsOver :
      (d : D) (id : Bytes) (w : CachedWorker) → Preserves (IsOver d) (cache_worker views id w)
  unfolding cache_worker IsOver
  cache_worker-IsOver d id w = record { step = λ s h. h }

  read_channel-IsOver : (d : D) (k : Bytes) → Preserves (IsOver d) (read_channel views codecs k)
  unfolding read_channel
  read_channel-IsOver d k =
      Preserves-bind _ _ (Preserves-gets (λ s. then_try (get views k s) codecs.channel.unmarshal))
        λ f. Preserves-bind _ _ (cache_channel-IsOver d k (read f)) λ u. Preserves-pure (read f)

  read_worker-IsOver : (d : D) (id : Bytes) → Preserves (IsOver d) (read_worker views codecs id)
  unfolding read_worker
  read_worker-IsOver d id =
      Preserves-bind _ _ (Preserves-gets (λ s. then_try (get views id s) codecs.worker.unmarshal))
        λ f.
          Preserves-bind _ _ (cache_worker-IsOver d id (restored (loaded_worker f)))
            λ u. Preserves-pure (restored (loaded_worker f))

  cached_channel-IsOver :
      (d : D) (k : Bytes) (o : Option CachedChannel)
      → Preserves (IsOver d) (cached_channel views codecs k o)
  unfolding cached_channel
  cached_channel-IsOver d k none = read_channel-IsOver d k
  cached_channel-IsOver d k (some c) = Preserves-pure c

  cached_worker-IsOver :
      (d : D) (id : Bytes) (o : Option CachedWorker)
      → Preserves (IsOver d) (cached_worker views codecs id o)
  unfolding cached_worker
  cached_worker-IsOver d id none = read_worker-IsOver d id
  cached_worker-IsOver d id (some w) = Preserves-pure w

  apply-IsOver : (o : Op M V) (d : D) (s : MerkleStorage D N) → IsOver d s → IsOver d (apply o s)
  unfolding apply load_channel load_worker save_channel delete_channel save_worker delete_worker
      save_region delete_region save_tee_pair_info save_tee_metrics save_coordinator_state delete
      IsOver put_json
  apply-IsOver (channel_saved c) d s h =
      (Preserves-bind _ _ (cache_channel-IsOver d (make_channel_key c.worker1 c.worker2) (held c))
          λ u.
            put_json-IsOver d (make_channel_key c.worker1 c.worker2)
              (codecs.channel.marshal (exported c))).step
        s h
  apply-IsOver (channel_loaded a b) d s h =
      (cached_channel-IsOver d (make_channel_key a b)
          (Dict.lookup (make_channel_key a b) s.channels)).step
        s h
  apply-IsOver (channel_deleted a b) d s h = (set_view-IsOver d _).step _ h
  apply-IsOver (worker_saved w) d s h =
      (Preserves-bind _ _ (cache_worker-IsOver d w.id (saved w))
          λ u. put_json-IsOver d w.id (codecs.worker.marshal (worker_fields w))).step
        s h
  apply-IsOver (worker_loaded id) d s h =
      (cached_worker-IsOver d id (Dict.lookup id s.workers)).step s h
  apply-IsOver (worker_deleted id) d s h = (set_view-IsOver d _).step _ h
  apply-IsOver (region_saved r) d s h = (put_json-IsOver d _ _).step s h
  apply-IsOver (region_deleted id) d s h = (set_view-IsOver d _).step s h
  apply-IsOver (pair_saved i) d s h = (put_json-IsOver d _ _).step s h
  apply-IsOver (metrics_saved id m) d s h = (put_json-IsOver d _ _).step s h
  apply-IsOver (state_saved v) d s h = (put_json-IsOver d _ _).step s h

  run-IsOver :
      (os : List (Op M V)) (d : D) (s : MerkleStorage D N) → IsOver d s → IsOver d (run s os)
  unfolding run
  run-IsOver [] d s h = h
  run-IsOver (o ∷ os) d s h = run-IsOver os d (apply o s) (apply-IsOver o d s h)

  new_storage-IsOver : (d : D) (s : MerkleStorage D N) → new_storage views d ≡ ok s → IsOver d s
  unfolding new_storage IsOver
  new_storage-IsOver d s e = let (view, (viewed, made)) = try-ok (views.new_view d []) _ s e in cc

  stored_view :
      (s t : MerkleStorage D N) (r : Result N)
      → stored tt s (with_view views s r) ≡ (ok tt, t)
      → (v : N) × ((r ≡ ok v) × (v ≡ t.view))
  unfolding with_view
  stored_view s t (ok v) e = (v, (refl, ap (λ p. p.1.view) e))
  stored_view s t (err x) e = cc
  stored_view s t (panic x) e = cc

  -- After a write the view shows that one change.
  put_json-get :
      (k j : Bytes) (r : Result Bytes) (d : D) (s t : MerkleStorage D N)
      → IsOver d s
      → put_json views k r s ≡ (ok tt, t)
      → same k j ≡ false
      → get views j t ≡ in_db d j
  unfolding put_json put set_view get IsOver
  put_json-get k j (ok b) d s t h e other =
      let (v, (made, same_view)) = stored_view s t (views.new_view s.db ((k, some b) ∷ [])) e in
      ap (λ n. views.get_value n j) (sym same_view)
      ∙ laws.get_value-new_view s.db k (some b) v made j
      ∙ rw (other, h) refl
  put_json-get k j (err x) d s t h e other = cc
  put_json-get k j (panic x) d s t h e other = cc

  -- Over views that show their one change and the database elsewhere, after any calls on a new
  -- Merkle storage and a successful save of a region, every other region is loaded as the
  -- database alone has it: what was saved before is not seen.
  pub load_region-save_region :
      (d : D) (s t : MerkleStorage D N) (os : List (Op M V)) (r : Region) (id : Bytes)
      → new_storage views d ≡ ok s
      → save_region views codecs r (run s os) ≡ (ok tt, t)
      → same r.id id ≡ false
      → load_region views codecs id t
        ≡ then_try (in_db d (text "region:" ++ id)) codecs.region.unmarshal
  unfolding load_region save_region same get
  load_region-save_region d s t os r id e done other =
      ap (λ x. then_try x codecs.region.unmarshal)
        (put_json-get (text "region:" ++ r.id) (text "region:" ++ id) (codecs.region.marshal r) d
          (run s os) t (run-IsOver os d s (new_storage-IsOver d s e)) done other)
