-- ===== src/Coordination/Worker/Life.antt =====
-- When a worker can be stopped, and what it takes in.
use aristo.Prelude.{
  ℕ, ◌+◌, ◌%◌, ◌≤◌, ◌≡◌, refl, [], ◌∷◌, List, Bool, true, false, Bytes, Option, none, some, ok,
  panic, length, length-append, ◌∙◌, arith, close_closed,
}
use aristo.Storage.Words.{u64_mod}
use aristo.Coordination.Types.{Worker, Message}
use aristo.Coordination.Worker.{
  new_worker, start, stop, send_message, update_metrics, assign_to_region, unassign_from_region,
}

-- What happens to a worker before it is stopped.
pub data Op : Type 0 where
  metrics : Bool → ℕ → Op
  assign : Bytes → ℕ → Op
  unassign : Op
  starts : ℕ → Op
  receives : Bool → Message → Op

unfoldable pub apply : Op → Worker → Worker
unfolding update_metrics assign_to_region unassign_from_region start send_message
apply (metrics success now) w = update_metrics success now w
apply (assign region now) w = assign_to_region region now w
apply unassign w = unassign_from_region w
apply (starts now) w = (start now w).1
apply (receives prefer_done msg) w = (send_message prefer_done msg w).1

unfoldable pub run : Worker → List Op → Worker
unfolding apply
run w [] = w
run w (o ∷ os) = run (apply o w) os

abbrev queue_size : Option (List Message) → ℕ
queue_size none = 0
queue_size (some q) = length q

-- The task counter is the sum of the two others, the queue keeps to its capacity, and the stop
-- signal is open.
pub record IsSound (w : Worker) : Type 0 where
  pub counted : w.task_count ≡ (w.success_count + w.error_count) % u64_mod
  pub bounded : queue_size w.msg_ch ≤ 100
  pub stoppable : w.done_ch ≡ some false

metrics-IsSound :
    (success : Bool) (now : ℕ) (w : Worker) → IsSound w → IsSound (apply (metrics success now) w)
unfolding apply
metrics-IsSound true now w h = record {
  counted = omega (arith, h.counted);
  bounded = h.bounded;
  stoppable = h.stoppable;
}
metrics-IsSound false now w h = record {
  counted = omega (arith, h.counted);
  bounded = h.bounded;
  stoppable = h.stoppable;
}

receives-bounded :
    (prefer_done : Bool) (msg : Message) (w : Worker) (q : Option (List Message))
    → w.msg_ch ≡ q
    → queue_size q ≤ 100
    → queue_size (apply (receives prefer_done msg) w).msg_ch ≤ 100
unfolding apply
receives-bounded prefer_done msg w none e h = ground arith
receives-bounded prefer_done msg w (some q) e h = ground (arith, length-append q (msg ∷ []))

receives-stoppable :
    (prefer_done : Bool) (msg : Message) (w : Worker)
    → ((apply (receives prefer_done msg) w).done_ch ≡ w.done_ch)
      × ((apply (receives prefer_done msg) w).task_count ≡ w.task_count)
      × ((apply (receives prefer_done msg) w).success_count ≡ w.success_count)
      × ((apply (receives prefer_done msg) w).error_count ≡ w.error_count)
unfolding apply
receives-stoppable prefer_done msg w = ground arith

apply-IsSound : (o : Op) (w : Worker) → IsSound w → IsSound (apply o w)
apply-IsSound (metrics success now) w h = metrics-IsSound success now w h
apply-IsSound (assign region now) w h =
    unfold apply in record { counted = h.counted; bounded = h.bounded; stoppable = h.stoppable }
apply-IsSound unassign w h =
    unfold apply in record { counted = h.counted; bounded = h.bounded; stoppable = h.stoppable }
apply-IsSound (starts now) w h =
    unfold apply in record { counted = h.counted; bounded = h.bounded; stoppable = h.stoppable }
apply-IsSound (receives prefer_done msg) w h =
    let (done, tasks, good, bad) = receives-stoppable prefer_done msg w in
    record {
      counted = rw (tasks, good, bad) h.counted;
      bounded = receives-bounded prefer_done msg w w.msg_ch refl h.bounded;
      stoppable = done ∙ h.stoppable;
    }

run-IsSound : (os : List Op) (w : Worker) → IsSound w → IsSound (run w os)
unfolding run
run-IsSound [] w h = h
run-IsSound (o ∷ os) w h = run-IsSound os (apply o w) (apply-IsSound o w h)

stop_ok :
    (w : Worker)
    → w.done_ch ≡ some false
    → ((stop w).0 ≡ ok tt) × ((stop (stop w).1).0 ≡ panic close_closed)
unfolding stop
stop_ok w h = ground arith

-- Whatever a new worker has been told, its task counter is the sum of its successes and errors
-- modulo 2^64, its queue holds at most 100 messages, it can be stopped once, and a second stop
-- panics.
pub worker_life :
    (id enclave worker_type : Bytes) (now : ℕ) (os : List Op)
    → IsSound (run (new_worker id enclave worker_type now) os)
      × ((stop (run (new_worker id enclave worker_type now) os)).0 ≡ ok tt)
      × ((stop (stop (run (new_worker id enclave worker_type now) os)).1).0 ≡ panic close_closed)
unfolding new_worker
worker_life id enclave worker_type now os =
    let w = new_worker id enclave worker_type now in
    let first : IsSound w = record { counted = refl; bounded = omega arith; stoppable = refl } in
    let sound = run-IsSound os w first in
    let (once, twice) = stop_ok (run w os) sound.stoppable in (sound, once, twice)
