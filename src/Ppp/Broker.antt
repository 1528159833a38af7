-- ===== src/Ppp/Broker.antt =====
-- 6.PPP-Paranoid Pirate Protocol/broker/ppbroker.cpp: the loop of `run`. What a round reads from
-- outside (the result of the poll, the messages received, the clock) is a `Round`; what it sends is
-- appended to the two sockets' histories.
pub mod Queueing
pub mod Passes
pub mod Forwards
use zero_mq_rfc_implementati.Base.{
  ℕ, ◌+◌, Bytes, codes, ◌==◌, Bool, Option, none, some, List, [], ◌∷◌, ◌++◌, ltb, nat_eq,
  if◌then◌else◌, Result, ok, err, thrown, guard, ◌>>=◌, ◌>>◌, map,
}
use zero_mq_rfc_implementati.Base.Zmqpp.{
  Message, Zmqpp, parts, pop_front, push_front, push_back, get_text,
}
use zero_mq_rfc_implementati.Ppp.Constants.{heartbeat_interval}
use zero_mq_rfc_implementati.Ppp.WorkerQueue.{Worker, WorkerQueue}
use zero_mq_rfc_implementati.Ppp.WorkerQueue

abbrev pub ready : Bytes
ready = codes "READY"

abbrev pub heartbeat : Bytes
heartbeat = codes "HEARTBEAT"

-- `frontend` is read only in a round that polls the frontend. The four times are the clock's
-- readings in the order of the code: in `push` or `refresh`, in the test of `heartbeat_at`, in its
-- renewal, and in `purge`.
pub record Round : Type 0 where
  pub poll_ok : Bool
  pub backend : Option Message
  pub frontend : Option Message
  pub seen_at : ℕ
  pub tested_at : ℕ
  pub renewed_at : ℕ
  pub purged_at : ℕ

-- The local variables of `run`, and the messages sent so far on each socket.
pub record Broker : Type 0 where
  pub queue : WorkerQueue
  pub heartbeat_at : ℕ
  pub to_backend : List Message
  pub to_frontend : List Message

unfoldable pub start : ℕ → Broker
start now = record {
  queue = [];
  heartbeat_at = now + heartbeat_interval;
  to_backend = [];
  to_frontend = [];
}

unfoldable pub control : ℕ → Bytes → Bytes → Broker → Broker
control now identity ctrl b =
    if ready == ctrl
    then record b { queue = WorkerQueue.push now identity (WorkerQueue.erase identity b.queue) }
    else if heartbeat == ctrl
    then record b { queue = WorkerQueue.refresh now identity b.queue }
    else b

module _ ⦃z : Zmqpp⦄ where
  -- "Handle worker activity on backend"
  unfoldable pub on_backend : ℕ → Option Message → Broker → Result Broker
  unfolding control
  on_backend now none b = ok b
  on_backend now (some msg) b = do
    identity ← get_text msg 0
    if nat_eq (parts msg) 2
        then (do ctrl ← get_text msg 1; ok (control now identity ctrl b))
        else ok (record b {
          to_frontend = b.to_frontend ++ pop_front msg ∷ [];
          queue = WorkerQueue.push now identity b.queue;
        })

  -- "Get client request, route to next worker"
  unfoldable pub on_frontend : Option Message → Broker → Result Broker
  on_frontend none b = ok b
  on_frontend (some msg) b =
      if ltb 0 (WorkerQueue.size b.queue)
      then (do
        (identity, queue) ← WorkerQueue.pop b.queue
        ok (record b { queue = queue; to_backend = b.to_backend ++ push_front msg identity ∷ [] }))
      else ok b

  abbrev pub heartbeat_to : Worker → Message
  heartbeat_to w = push_back (push_back [] w.identity) heartbeat

  -- "send out heartbeats at regular intervals"
  unfoldable pub beat : ℕ → ℕ → Broker → Broker
  beat tested_at renewed_at b =
      if ltb b.heartbeat_at tested_at
      then record b {
        to_backend = b.to_backend ++ map heartbeat_to b.queue;
        heartbeat_at = renewed_at + heartbeat_interval;
      }
      else b

  -- The frontend is polled only while a worker is queued.
  unfoldable pub polled_frontend : Round → Broker → Option Message
  polled_frontend r b = if ltb 0 (WorkerQueue.size b.queue) then r.frontend else none

  unfoldable pub round : Round → Broker → Result Broker
  round r b = do
    guard r.poll_ok thrown
    b₁ ← on_backend r.seen_at r.backend b
    b₂ ← on_frontend (polled_frontend r b) b₁
    let b₃ = beat r.tested_at r.renewed_at b₂
    ok (record b₃ { queue = WorkerQueue.purge r.purged_at b₃.queue })

  -- The `while` loop until a stop is requested. An exception ends it: the handler only logs.
  unfoldable pub run : Broker → List Round → Broker
  run b [] = b
  run b (r ∷ rs) = elim (round r b) [ ok b' ↦ run b' rs | err f ↦ b ]
