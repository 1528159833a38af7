-- ===== src/Ppp/WorkerQueue.antt =====
-- 6.PPP-Paranoid Pirate Protocol/broker/worker_queue.hpp and worker_queue.cpp: the broker's queue of
-- idle workers. Times are milliseconds of the steady clock; each reading is an argument.
pub mod Laws
use zero_mq_rfc_implementati.Base.{
  ℕ, ◌+◌, ◌*◌, Bytes, ◌==◌, Option, none, some, List, [], ◌∷◌, ◌++◌, ltb, if◌then◌else◌, length,
  Result, ok, err, contract,
}
use zero_mq_rfc_implementati.Ppp.Constants.{heartbeat_liveness, heartbeat_interval}

-- `worker_t`; `due` is the field `when_`.
pub record Worker : Type 0 where
  pub identity : Bytes
  pub due : ℕ

-- The member `queue_`.
abbrev pub WorkerQueue : Type 0
WorkerQueue = List Worker

-- `find_if` on the identity; `none` is `cend`.
unfoldable pub find : Bytes → WorkerQueue → Option Worker
find i [] = none
find i (w ∷ q) = if w.identity == i then some w else find i q

abbrev pub size : WorkerQueue → ℕ
size q = length q

-- The time at which a worker heard of at `now` is given up.
abbrev pub expiry : ℕ → ℕ
expiry now = now + heartbeat_liveness * heartbeat_interval

unfoldable pub push : ℕ → Bytes → WorkerQueue → WorkerQueue
unfolding find
push now i q = elim (find i q) [
  | none ↦ q ++ record { identity = i; due = expiry now } ∷ []
  | some w ↦ q
]

-- `erase_if` keeps the order of what stays.
unfoldable pub erase : Bytes → WorkerQueue → WorkerQueue
erase i [] = []
erase i (w ∷ q) = let rest = erase i q in if w.identity == i then rest else w ∷ rest

-- The first worker with the identity gets a new time; without one nothing changes.
unfoldable pub refresh : ℕ → Bytes → WorkerQueue → WorkerQueue
refresh now i [] = []
refresh now i (w ∷ q) =
    if w.identity == i then record w { due = expiry now } ∷ q else w ∷ refresh now i q

unfoldable pub pop : WorkerQueue → Result (Bytes × WorkerQueue)
pop [] = err contract
pop (w ∷ q) = ok (w.identity, q)

unfoldable pub purge : ℕ → WorkerQueue → WorkerQueue
purge now [] = []
purge now (w ∷ q) = let rest = purge now q in if ltb w.due now then rest else w ∷ rest
