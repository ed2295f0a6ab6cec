-- ===== src/TimeServer/Network/Lifecycle.antt =====
-- timeserver/network.go: `Start` and `Stop`. A `sync.Once` guards the start. The health checks run
-- until the channel `done` that they were started with is closed.
use aristo.Prelude.{
  ℕ, ◌≡◌, refl, [], ◌∷◌, List, Bool, true, false, Result, ok, panic, close_closed, Act, arith,
  if◌then◌else◌,
}

pub record Lifecycle : Type 0 where
  pub once_done : Bool
  pub started : Bool
  pub done_closed : Bool
  -- the health-check loops that wait on the present channel
  pub loops : ℕ

abbrev pub fresh : Lifecycle
fresh = record { once_done = false; started = false; done_closed = false; loops = 0 }

unfoldable pub start : Act Lifecycle (Unit {0})
start n =
    if n.once_done
    then (ok tt, n)
    else if n.started
    then (ok tt, record n { once_done = true })
    else (ok tt, record { once_done = true; started = true; done_closed = false; loops = 1 })

unfoldable pub stop : Act Lifecycle (Unit {0})
stop n =
    if n.started
    then (if n.done_closed
        then (panic close_closed, n)
        else (ok tt, record n { started = false; done_closed = true; loops = 0 }))
    else (ok tt, n)

pub data Call : Type 0 where
  starts stops : Call

unfoldable pub step : Lifecycle → Call → Result (Unit {0}) × Lifecycle
unfolding start stop
step n starts = start n
step n stops = stop n

unfoldable pub run : Lifecycle → List Call → Lifecycle
unfolding step
run n [] = n
run n (c ∷ cs) = run (step n c).1 cs

-- While the network runs, its channel is open and one loop waits on it; else none does.
pub record IsCoherent (n : Lifecycle) : Type 0 where
  pub running : n.started ≡ true → (n.once_done ≡ true) × (n.done_closed ≡ false) × (n.loops ≡ 1)
  pub idle : n.started ≡ false → n.loops ≡ 0

pub step-IsCoherent : (n : Lifecycle) (c : Call) → IsCoherent n → IsCoherent (step n c).1
unfolding step
step-IsCoherent n starts h = grind arith
step-IsCoherent n stops h = grind arith

pub run-IsCoherent : (n : Lifecycle) (cs : List Call) → IsCoherent n → IsCoherent (run n cs)
unfolding run
run-IsCoherent n [] h = h
run-IsCoherent n (c ∷ cs) h = run-IsCoherent (step n c).1 cs (step-IsCoherent n c h)

fresh-IsCoherent : IsCoherent fresh
fresh-IsCoherent = record { running = λ h. ground arith; idle = λ h. refl }

step_returns : (n : Lifecycle) (c : Call) → IsCoherent n → (step n c).0 ≡ ok tt
unfolding step
step_returns n starts h = grind arith
step_returns n stops h = grind arith

-- After any sequence of starts and stops of a new network, one health-check loop runs where the
-- network is started and none else, and the next start or stop returns without an error or a
-- panic.
pub run_lifecycle :
    (cs : List Call) (c : Call)
    → ((run fresh cs).loops ≡ (if (run fresh cs).started then 1 else 0))
      × ((step (run fresh cs) c).0 ≡ ok tt)
run_lifecycle cs c =
    let h = run-IsCoherent fresh cs fresh-IsCoherent in
    (grind (arith, h), step_returns (run fresh cs) c h)

stays_stopped :
    (n : Lifecycle) (cs : List Call)
    → n.once_done ≡ true
    → n.started ≡ false
    → (run n cs).started ≡ false
unfolding run
stays_stopped n [] o s = s
stays_stopped n (starts ∷ cs) o s = stays_stopped (step n starts).1 cs (ground arith) (ground arith)
stays_stopped n (stops ∷ cs) o s = stays_stopped (step n stops).1 cs (ground arith) (ground arith)

-- A network that was started and stopped is not started again by any later sequence of starts
-- and stops.
pub no_restart : (cs : List Call) → (run (step (step fresh starts).1 stops).1 cs).started ≡ false
unfolding step
no_restart cs = stays_stopped (step (step fresh starts).1 stops).1 cs refl refl
