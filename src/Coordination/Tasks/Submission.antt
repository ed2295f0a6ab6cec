-- ===== src/Coordination/Tasks/Submission.antt =====
-- What a submission leaves behind, whichever branch of its `select` is taken.
use aristo.Prelude.{
  ℕ, ◌≡◌, refl, [], ◌∷◌, ◌++◌, Bool, true, false, Bytes, same_iff, same_refl, none, some, Result,
  ok, err, length, ltb, leb, if◌then◌else◌, arith, Error, too_many_tasks, inl, inr, ◌⊎◌, ◌>>◌,
  submission_timed_out, submission_cancelled,
}
use aristo.Prelude.Dict
use aristo.Coordination.Types.{Task}
use aristo.Coordination.State.{Coordinator}
use aristo.Coordination.Tasks.{
  Selected, sent, cancelled, timed_out, submit_task, reserve, enqueue, withdraw, pending_info,
}

module _ {S : Type 0} where
  pub record Queued (now : ℕ) (task : Task) (before after : Coordinator S) : Type 0 where
    pub known : Dict.lookup task.id after.task_status ≡ some (pending_info now task)
    pub last : after.queue ≡ before.queue ++ task ∷ []

  pub record Unchanged (before after : Coordinator S) : Type 0 where
    pub tasks : (id : Bytes) → Dict.lookup id after.task_status ≡ Dict.lookup id before.task_status
    pub queue : after.queue ≡ before.queue

  withdrawn :
      (now : ℕ) (task : Task) (c : Coordinator S)
      → Dict.lookup task.id c.task_status ≡ none
      → Unchanged c (
          withdraw task
            (record c { task_status = Dict.insert task.id (pending_info now task) c.task_status }))
  unfolding withdraw
  withdrawn now task c fresh = record {
    tasks = λ id. ground (
      arith,
      same_iff task.id id,
      Dict.lookup-remove task.id id (Dict.insert task.id (pending_info now task) c.task_status),
      Dict.lookup-insert task.id id (pending_info now task) c.task_status,
    );
    queue = refl;
  }

  abbrev pub Outcome : ℕ → Task → Coordinator S → Result (Unit {0}) × Coordinator S → Type 0
  Outcome now task before r =
      (r.0 ≡ ok tt × Queued now task before r.1)
      ⊎ ((e : Error) × (r.0 ≡ err e) × Unchanged before r.1)

  abbrev reserved : ℕ → Task → Coordinator S → Coordinator S
  reserved now task c = record c {
    task_status = Dict.insert task.id (pending_info now task) c.task_status;
  }

  send-Outcome :
      (b : Bool) (now : ℕ) (task : Task) (c : Coordinator S)
      → Dict.lookup task.id c.task_status ≡ none
      → Outcome now task c (
          if b
          then (ok tt, record (reserved now task c) { queue = c.queue ++ task ∷ [] })
          else (err submission_timed_out, withdraw task (reserved now task c)))
  send-Outcome true now task c fresh = inl (
    refl,
    record {
      known = ground (
        arith,
        same_refl task.id,
        Dict.lookup-insert task.id task.id (pending_info now task) c.task_status,
      );
      last = refl;
    },
  )
  send-Outcome false now task c fresh = inr (submission_timed_out, refl, withdrawn now task c fresh)

  enqueue-Outcome :
      (selected : Selected) (now : ℕ) (task : Task) (c : Coordinator S)
      → Dict.lookup task.id c.task_status ≡ none
      → Outcome now task c (enqueue selected task (reserved now task c))
  unfolding enqueue
  enqueue-Outcome sent now task c fresh =
      send-Outcome (ltb (length c.queue) c.config.max_tasks) now task c fresh
  enqueue-Outcome cancelled now task c fresh =
      inr (submission_cancelled, refl, withdrawn now task c fresh)
  enqueue-Outcome timed_out now task c fresh =
      inr (submission_timed_out, refl, withdrawn now task c fresh)

  reserve-Outcome :
      (full : Bool) (selected : Selected) (now : ℕ) (task : Task) (c : Coordinator S)
      → Dict.lookup task.id c.task_status ≡ none
      → Outcome now task c (
          ((λ c'. if full then (err too_many_tasks, c') else (ok tt, reserved now task c'))
              >> enqueue selected task)
            c)
  reserve-Outcome true selected now task c fresh =
      inr (too_many_tasks, refl, record { tasks = λ id. refl; queue = refl })
  reserve-Outcome false selected now task c fresh = enqueue-Outcome selected now task c fresh

  -- The submission of a task whose id is not in use either succeeds, and then the task is
  -- pending and last in the queue, or reports an error, and then every id reads as before and
  -- the queue is as before.
  pub submit_task_atomic :
      (selected : Selected) (now : ℕ) (task : Task) (c : Coordinator S)
      → Dict.lookup task.id c.task_status ≡ none
      → Outcome now task c (submit_task selected now (some task) c)
  unfolding submit_task reserve
  submit_task_atomic selected now task c fresh =
      reserve-Outcome (leb c.config.max_tasks (length c.task_status)) selected now task c fresh
