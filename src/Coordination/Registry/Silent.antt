-- ===== src/Coordination/Registry/Silent.antt =====
-- Workers that are registered have neither a queue nor a stop signal, and no region gets a pair.
use aristo.Prelude.{
  ◌≡◌, refl, [], Bool, Bytes, same, Option, none, some, err, arith, Bool-cases, inl, inr, ◌<◌,
  message_channel_full,
}
use aristo.Prelude.Dict
use aristo.Prelude.Dict.{Dict}
use aristo.Coordination.Types.{Worker, Message, SecureChannel}
use aristo.Coordination.State.{Coordinator}
use aristo.Coordination.Worker.{send_message}
use aristo.Coordination.Registry.{put_changed, change_worker, with_channel, activated}

pub record IsSilent (w : Worker) : Type 0 where
  pub no_queue : w.msg_ch ≡ none
  pub no_signal : w.done_ch ≡ none

unfoldable pub AreSilent : Dict Worker → Type 0
AreSilent ws = (id : Bytes) (w : Worker) → Dict.lookup id ws ≡ some w → IsSilent w

pub AreSilent-insert :
    (id : Bytes) (w : Worker) (ws : Dict Worker)
    → IsSilent w
    → AreSilent ws
    → AreSilent (Dict.insert id w ws)
unfolding AreSilent
AreSilent-insert id w ws h all j v e = elim (Bool-cases (same id j)) [
  | inl hit ↦
      let f : w ≡ v = ground (arith, Dict.lookup-insert id j w ws) in
      record { no_queue = rw (← f) h.no_queue; no_signal = rw (← f) h.no_signal }
  | inr other ↦ all j v (ground (arith, Dict.lookup-insert id j w ws))
]

pub AreSilent-remove :
    (id : Bytes) (ws : Dict Worker) → AreSilent ws → AreSilent (Dict.remove id ws)
unfolding AreSilent
AreSilent-remove id ws all j v e = all j v (ground (arith, Dict.lookup-remove id j ws))

pub AreSilent-put_changed :
    (f : Worker → Worker) (id : Bytes) (o : Option Worker) (ws : Dict Worker)
    → ((w : Worker) → IsSilent w → IsSilent (f w))
    → Dict.lookup id ws ≡ o
    → AreSilent ws
    → AreSilent (put_changed f id o ws)
unfolding put_changed
AreSilent-put_changed f id none ws keep e all = all
AreSilent-put_changed f id (some w) ws keep e all =
    AreSilent-insert id (f w) ws (keep w (unfold AreSilent in all id w e)) all

pub AreSilent-change_worker :
    (f : Worker → Worker) (id : Bytes) (ws : Dict Worker)
    → ((w : Worker) → IsSilent w → IsSilent (f w))
    → AreSilent ws
    → AreSilent (change_worker f id ws)
unfolding change_worker
AreSilent-change_worker f id ws keep all =
    AreSilent-put_changed f id (Dict.lookup id ws) ws keep refl all

pub with_channel-IsSilent :
    (other : Bytes) (c : SecureChannel) (w : Worker)
    → IsSilent w
    → IsSilent (with_channel other c w)
unfolding with_channel
with_channel-IsSilent other c w h = record { no_queue = h.no_queue; no_signal = h.no_signal }

pub activated-IsSilent : (w : Worker) → IsSilent w → IsSilent (activated w)
unfolding activated
activated-IsSilent w h = record { no_queue = h.no_queue; no_signal = h.no_signal }

-- A worker with no queue takes no message, and is as it was.
pub send_message-IsSilent :
    (prefer_done : Bool) (msg : Message) (w : Worker)
    → IsSilent w
    → send_message prefer_done msg w ≡ (err message_channel_full, w)
unfolding send_message
send_message-IsSilent prefer_done msg w h = rw (h.no_queue, h.no_signal) refl

-- The coordinator wants a worker at least, its workers are silent, and no region has a pair.
pub record IsIdle {S : Type 0} (c : Coordinator S) : Type 0 where
  pub silent : AreSilent c.workers
  pub unpaired : c.tee_pairs ≡ []
  pub staffed : 0 < c.config.min_workers
