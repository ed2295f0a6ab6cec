-- ===== src/Coordination/Registry/Idle.antt =====
-- What becomes of a coordinator whose calls are those of coordination/coordinator.go alone.
use aristo.Prelude.{
  ◌≡◌, ◌≢◌, refl, ap, [], ◌∷◌, List, Bool, Bytes, Option, none, some, Result, ok, err, panic, Act,
  arith, ℕ, Bool-cases, inl, inr, close_nil,
}
use aristo.Prelude.Dict
use aristo.Prelude.Dict.{Dict}
use aristo.Prelude.Success.{bind-ok, lift-ok}
use aristo.Prelude.Preserves.{
  Preserves, Preserves-bind, Preserves-lift, Preserves-fail, Preserves-pure, Preserves-crash,
  Preserves-if,
}
use aristo.Coordination.Types.{Worker, Message, SecureChannel, Task}
use aristo.Coordination.State.{Coordinator}
use aristo.Coordination.Worker.{stop}
use aristo.Coordination.Wrapper.{BaseStorage, Codecs, save_worker}
use aristo.Coordination.Registry.Silent.{
  IsSilent, AreSilent, IsIdle, AreSilent-insert, AreSilent-change_worker, with_channel-IsSilent,
  send_message-IsSilent,
}
use aristo.Coordination.Registry.{
  has_key, is_missing, registered, change_worker, on_storage, set_workers, started, register_worker,
  unregister_found, unregister_worker, established, channel_or_new, get_secure_channel, connect_to,
  connect, deliver_to, deliver, distribute, run_task,
}

module _ {S M V : Type 0} (base : BaseStorage S) (codecs : Codecs M V)
    (random : Bytes → Bytes → Result Bytes) where
  pub on_storage-IsIdle :
      {A : Type 0} (m : Act S A) → Preserves IsIdle (on_storage base codecs random m)
  unfolding on_storage
  on_storage-IsIdle m = record {
    step = λ c h. record { silent = h.silent; unpaired = h.unpaired; staffed = h.staffed };
  }

  set_workers-IsIdle :
      (f : Dict Worker → Dict Worker)
      → ((ws : Dict Worker) → AreSilent ws → AreSilent (f ws))
      → Preserves IsIdle (set_workers base codecs random f)
  unfolding set_workers
  set_workers-IsIdle f keep = record {
    step = λ c h. record {
      silent = keep c.workers h.silent;
      unpaired = h.unpaired;
      staffed = h.staffed;
    };
  }

  pub change-IsIdle :
      (f : Worker → Worker) (id : Bytes)
      → ((w : Worker) → IsSilent w → IsSilent (f w))
      → Preserves IsIdle (set_workers base codecs random (change_worker f id))
  change-IsIdle f id keep =
      set_workers-IsIdle (change_worker f id) λ ws. AreSilent-change_worker f id ws keep

  started-IsSilent :
      (id enclave_id : Bytes) (now : ℕ)
      → IsSilent (started base codecs random now (registered id enclave_id now))
  unfolding started registered
  started-IsSilent id enclave_id now = record { no_queue = refl; no_signal = refl }

  pub register_worker-IsIdle :
      (id enclave_id : Bytes) (now : ℕ)
      → Preserves IsIdle (register_worker base codecs random id enclave_id now)
  unfolding register_worker
  register_worker-IsIdle id enclave_id now = record {
    step = λ c h. elim (Bool-cases (has_key id c.workers)) [
      | inl e ↦ rw e h
      | inr e ↦ rw e (
          (Preserves-bind _ _
              (on_storage-IsIdle (save_worker base codecs (registered id enclave_id now)))
              λ u.
                set_workers-IsIdle _
                  λ ws. AreSilent-insert id _ ws (started-IsSilent id enclave_id now)).step
            c h)
    ];
  }

  stop-IsSilent : (w : Worker) → IsSilent w → (stop w).0 ≡ panic close_nil
  unfolding stop
  stop-IsSilent w h = rw h.no_signal refl

  stopped-IsSilent : (w : Worker) → IsSilent w → IsSilent (stop w).1
  unfolding stop
  stopped-IsSilent w h = ground arith

  pub unregister_found-panics :
      (id : Bytes) (w : Worker) (c : Coordinator S)
      → IsSilent w
      → (unregister_found base codecs random id (some w) c).0 ≡ panic close_nil
  unfolding unregister_found set_workers
  unregister_found-panics id w c h = rw (stop-IsSilent w h) refl

  unregister_found-IsIdle :
      (id : Bytes) (o : Option Worker) (c : Coordinator S)
      → Dict.lookup id c.workers ≡ o
      → IsIdle c
      → IsIdle (unregister_found base codecs random id o c).1
  unfolding unregister_found AreSilent
  unregister_found-IsIdle id none c e h = h
  unregister_found-IsIdle id (some w) c e h =
      let silent = h.silent id w e in
      rw (stop-IsSilent w silent) (
        (set_workers-IsIdle (Dict.insert id (stop w).1)
            λ ws. AreSilent-insert id (stop w).1 ws (stopped-IsSilent w silent)).step
          c h)

  pub unregister_worker-IsIdle :
      (id : Bytes) → Preserves IsIdle (unregister_worker base codecs random id)
  unfolding unregister_worker
  unregister_worker-IsIdle id = record {
    step = λ c h. unregister_found-IsIdle id (Dict.lookup id c.workers) c refl h;
  }

  established-IsIdle :
      (r : Result SecureChannel) → Preserves IsIdle (established base codecs random r)
  unfolding established
  established-IsIdle (ok c) = Preserves-bind _ _ (on_storage-IsIdle _) λ u. Preserves-pure c
  established-IsIdle (err e) = Preserves-fail e
  established-IsIdle (panic x) = Preserves-crash x

  channel_or_new-IsIdle :
      (a b : Bytes) (r : Result SecureChannel)
      → Preserves IsIdle (channel_or_new base codecs random a b r)
  unfolding channel_or_new
  channel_or_new-IsIdle a b (ok c) = Preserves-pure c
  channel_or_new-IsIdle a b (err e) =
      Preserves-if (is_missing e) _ _ (λ m. established-IsIdle _) λ m. Preserves-fail e
  channel_or_new-IsIdle a b (panic x) = Preserves-crash x

  pub get_secure_channel-IsIdle :
      (a b : Bytes) → Preserves IsIdle (get_secure_channel base codecs random a b)
  unfolding get_secure_channel
  get_secure_channel-IsIdle a b = record { step = λ c h. (channel_or_new-IsIdle a b _).step c h }

  connect_to-IsIdle :
      (id : Bytes) (others : List Bytes)
      → Preserves IsIdle (connect_to base codecs random id others)
  unfolding connect_to
  connect_to-IsIdle id [] = Preserves-pure tt
  connect_to-IsIdle id (other ∷ others) =
      Preserves-bind _ _ (get_secure_channel-IsIdle id other) λ c.
        Preserves-bind _ _ (change-IsIdle _ id (with_channel-IsSilent other c)) λ u.
          Preserves-bind _ _ (change-IsIdle _ other (with_channel-IsSilent id c))
            λ v. connect_to-IsIdle id others

  connect-IsIdle : (ids : List Bytes) → Preserves IsIdle (connect base codecs random ids)
  unfolding connect
  connect-IsIdle [] = Preserves-pure tt
  connect-IsIdle (id ∷ ids) = Preserves-bind _ _ (connect_to-IsIdle id ids) λ u. connect-IsIdle ids

  deliver_to-IsIdle :
      (prefer_done : Bool) (msg : Message) (id : Bytes) (o : Option Worker) (c : Coordinator S)
      → Dict.lookup id c.workers ≡ o
      → IsIdle c
      → IsIdle (deliver_to base codecs random prefer_done msg id o c).1
  unfolding deliver_to AreSilent
  deliver_to-IsIdle prefer_done msg id none c e h = h
  deliver_to-IsIdle prefer_done msg id (some w) c e h =
      let silent = h.silent id w e in
      rw (send_message-IsSilent prefer_done msg w silent)
        ((set_workers-IsIdle (Dict.insert id w) λ ws. AreSilent-insert id w ws silent).step c h)

  deliver_to-Fails :
      (prefer_done : Bool) (msg : Message) (id : Bytes) (o : Option Worker) (c : Coordinator S)
      (u : Unit {0})
      → Dict.lookup id c.workers ≡ o
      → IsIdle c
      → (deliver_to base codecs random prefer_done msg id o c).0 ≢ ok u
  unfolding deliver_to set_workers AreSilent
  deliver_to-Fails prefer_done msg id none c u e h k = cc
  deliver_to-Fails prefer_done msg id (some w) c u e h k =
      let sent = send_message-IsSilent prefer_done msg w (h.silent id w e) in
      cc (ap (λ p. p.0) sent)

  deliver-IsIdle :
      (prefer_done : Bool) (msg : Message) (id : Bytes)
      → Preserves IsIdle (deliver base codecs random prefer_done msg id)
  unfolding deliver
  deliver-IsIdle prefer_done msg id = record {
    step = λ c h. deliver_to-IsIdle prefer_done msg id (Dict.lookup id c.workers) c refl h;
  }

  distribute-IsIdle :
      (prefer_done : Bool) (msg : Message) (ids : List Bytes)
      → Preserves IsIdle (distribute base codecs random prefer_done msg ids)
  unfolding distribute
  distribute-IsIdle prefer_done msg [] = Preserves-pure tt
  distribute-IsIdle prefer_done msg (id ∷ ids) =
      Preserves-bind _ _ (deliver-IsIdle prefer_done msg id)
        λ u. distribute-IsIdle prefer_done msg ids

  distribute-Fails :
      (prefer_done : Bool) (msg : Message) (id : Bytes) (ids : List Bytes) (c : Coordinator S)
      (u : Unit {0})
      → IsIdle c
      → (distribute base codecs random prefer_done msg (id ∷ ids) c).0 ≢ ok u
  unfolding distribute deliver
  distribute-Fails prefer_done msg id ids c u h k =
      let (v, (sent, rest)) = bind-ok (deliver base codecs random prefer_done msg id) _ c u k in
      deliver_to-Fails prefer_done msg id (Dict.lookup id c.workers) c v refl h sent

  pub run_task-IsIdle :
      (view : Result (Unit {0})) (prefer_done : Bool) (task : Task) (ids : List Bytes)
      → Preserves IsIdle (run_task base codecs random view prefer_done task ids)
  unfolding run_task
  run_task-IsIdle view prefer_done task ids =
      Preserves-bind _ _ (Preserves-lift view)
        λ u. Preserves-bind _ _ (connect-IsIdle ids) λ v. distribute-IsIdle prefer_done _ ids

  pub run_task-Fails :
      (view : Result (Unit {0})) (prefer_done : Bool) (task : Task) (id : Bytes) (ids : List Bytes)
      (c : Coordinator S) (u : Unit {0})
      → IsIdle c
      → (run_task base codecs random view prefer_done task (id ∷ ids) c).0 ≢ ok u
  unfolding run_task
  run_task-Fails view prefer_done task id ids c u h k =
      let (v, (viewed, k1)) = lift-ok view _ c u k in
      let (t, (connected, k2)) = bind-ok (connect base codecs random (id ∷ ids)) _ c u k1 in
      distribute-Fails prefer_done _ id ids _ u ((connect-IsIdle (id ∷ ids)).step c h) k2
