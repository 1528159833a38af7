-- ===== src/Mdp/Loop.antt =====
-- 7.MDF-Majordomo Protocol/broker/mdbroker.cpp: `run`, its two callbacks and the loop.
pub mod Safety
pub mod Account
pub mod Runs
pub mod Owned
use zero_mq_rfc_implementati.Base.{
  ℕ, ◌+◌, Bool, true, false, List, [], ◌∷◌, ltb, if◌then◌else◌, Result, ok, err, ◌>>=◌,
}
use zero_mq_rfc_implementati.Base.Zmqpp.{Message, Zmqpp}
use zero_mq_rfc_implementati.Mdp.Protocol.{heartbeat_interval}
use zero_mq_rfc_implementati.Mdp.Registry.{Broker, purge_workers, worker_send_heartbeat}
use zero_mq_rfc_implementati.Mdp.Broker.{Times, on_message}

-- What wakes the loop: the timer, with the clock's readings in the test of `heartbeat_at`, in
-- `purge_workers` and in `worker_send_heartbeat`, or a message on the socket.
pub data Event : Type 0 where
  timer : Bool → ℕ → ℕ → ℕ → Event
  arrival : Times → Message → Event

pub record Loop : Type 0 where
  pub broker : Broker
  pub heartbeat_at : ℕ

unfoldable pub start : ℕ → Loop
start now = record {
  broker = record { services = []; workers = []; sent = [] };
  heartbeat_at = now + heartbeat_interval;
}

-- Goes on with a state, or stops.
pub data Next : Type 0 where
  continue : Loop → Next
  stop : Next

module _ ⦃z : Zmqpp⦄ where
  -- `cbtimer`; the first argument is `stop_requested`.
  unfoldable pub on_timer : Bool → ℕ → ℕ → ℕ → Loop → Result Next
  on_timer true tested_at purged_at renewed_at l = ok stop
  on_timer false tested_at purged_at renewed_at l =
      if ltb l.heartbeat_at tested_at
      then (do
        b ← purge_workers purged_at l.broker
        b' ← worker_send_heartbeat b
        ok (continue (record { broker = b'; heartbeat_at = renewed_at + heartbeat_interval })))
      else ok (continue l)

  unfoldable pub handle : Event → Loop → Result Next
  unfolding on_timer
  handle (timer stopped tested_at purged_at renewed_at) l =
      on_timer stopped tested_at purged_at renewed_at l
  handle (arrival t msg) l = do
    b ← on_message t msg l.broker
    ok (continue (record l { broker = b }))

  -- The state in which the loop stands after the events, or in which it was when it ended: by a
  -- requested stop, or by a fault, at which `run` only logs and returns.
  unfoldable pub run : Loop → List Event → Loop
  run l [] = l
  run l (e ∷ es) = elim (handle e l) [
    | ok next ↦ elim next [ continue l' ↦ run l' es | stop ↦ l ]
    | err f ↦ l
  ]
