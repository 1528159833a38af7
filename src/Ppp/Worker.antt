-- ===== src/Ppp/Worker.antt =====
-- 6.PPP-Paranoid Pirate Protocol/worker/ppworker.cpp: the loop of `run` and `init_socket`.
pub mod Backoff
use zero_mq_rfc_implementati.Base.{
  ℕ, ◌+◌, ◌-◌, ◌*◌, ◌==◌, Bool, Option, none, some, List, [], ◌∷◌, ◌++◌, ltb, nat_eq, if◌then◌else◌,
  Result, ok, err, thrown, guard, ◌>>=◌, ◌>>◌,
}
use zero_mq_rfc_implementati.Base.Zmqpp.{Message, Zmqpp, parts, get_text}
use zero_mq_rfc_implementati.Ppp.Constants.{
  heartbeat_liveness, heartbeat_interval, interval_init, interval_max,
}
use zero_mq_rfc_implementati.Ppp.Broker.{ready, heartbeat}

-- What one round of the loop reads: the result of the poll, the message if there is one, and the
-- clock in the test of `heartbeat_at` and in its renewal.
pub record Round : Type 0 where
  pub poll_ok : Bool
  pub message : Option Message
  pub tested_at : ℕ
  pub renewed_at : ℕ

-- The local variables of `run`; `sent` holds the messages of all its sockets, and `slept` the
-- milliseconds spent in `sleep_for`.
pub record Worker : Type 0 where
  pub liveness : ℕ
  pub interval : ℕ
  pub heartbeat_at : ℕ
  pub sent : List Message
  pub slept : ℕ

-- A new socket announces the worker.
unfoldable pub init_socket : List Message → List Message
init_socket sent = sent ++ (ready ∷ []) ∷ []

unfoldable pub start : ℕ → Worker
unfolding init_socket
start now = record {
  liveness = heartbeat_liveness;
  interval = interval_init;
  heartbeat_at = now + heartbeat_interval;
  sent = init_socket [];
  slept = 0;
}

-- No message came. `liveness` is a `size_t` that is at least 1 here.
unfoldable pub on_silence : Worker → Worker
unfolding init_socket
on_silence w =
    if nat_eq (w.liveness - 1) 0
    then record w {
      liveness = heartbeat_liveness;
      interval = if ltb w.interval interval_max then w.interval * 2 else w.interval;
      sent = init_socket w.sent;
      slept = w.slept + w.interval;
    }
    else record w { liveness = w.liveness - 1 }

module _ ⦃z : Zmqpp⦄ where
  unfoldable pub on_message : Message → Worker → Result Worker
  on_message msg w =
      if nat_eq (parts msg) 1
      then (do
        body ← get_text msg 0
        ok (
            if body == heartbeat
            then record w { interval = interval_init; liveness = heartbeat_liveness }
            else record w { interval = interval_init }))
      else ok (record w {
        interval = interval_init;
        sent = w.sent ++ msg ∷ [];
        liveness = heartbeat_liveness;
      })

  unfoldable pub on_poll : Option Message → Worker → Result Worker
  unfolding on_message on_silence
  on_poll (some msg) w = on_message msg w
  on_poll none w = ok (on_silence w)

  unfoldable pub beat : ℕ → ℕ → Worker → Worker
  beat tested_at renewed_at w =
      if ltb w.heartbeat_at tested_at
      then record w {
        sent = w.sent ++ (heartbeat ∷ []) ∷ [];
        heartbeat_at = renewed_at + heartbeat_interval;
      }
      else w

  unfoldable pub round : Round → Worker → Result Worker
  unfolding on_poll beat
  round r w = do
    guard r.poll_ok thrown
    w' ← on_poll r.message w
    ok (beat r.tested_at r.renewed_at w')

  -- The `while` loop until a stop is requested; an exception ends it.
  unfoldable pub run : Worker → List Round → Worker
  run w [] = w
  run w (r ∷ rs) = elim (round r w) [ ok w' ↦ run w' rs | err f ↦ w ]
