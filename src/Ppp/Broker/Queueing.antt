-- ===== src/Ppp/Broker/Queueing.antt =====
-- Which worker gets a request, and that no request is dropped.
use zero_mq_rfc_implementati.Base.{
  ℕ, ◌<◌, ◌≡◌, refl, Bytes, Option, none, some, List, [], ◌∷◌, ◌++◌, ltb, arith, if◌then◌else◌,
  Result-cases, subst, inl, inr, ok, map, length-append, append-nil,
}
use zero_mq_rfc_implementati.Base.Zmqpp.{Message, Zmqpp, push_front_eq}
use zero_mq_rfc_implementati.Ppp.WorkerQueue.{Worker, WorkerQueue, size, find}
use zero_mq_rfc_implementati.Ppp.WorkerQueue
use zero_mq_rfc_implementati.Ppp.WorkerQueue.Laws.{
  IsUnique, push-IsUnique, erase-IsUnique, refresh-IsUnique, purge-IsUnique, find-purge-none,
}
use zero_mq_rfc_implementati.Ppp.Broker.{
  Round, Broker, control, on_backend, on_frontend, beat, polled_frontend, round, run, heartbeat_to,
}

pub size-push : (now : ℕ) (i : Bytes) (q : WorkerQueue) → 0 < size (WorkerQueue.push now i q)
unfolding WorkerQueue.push find
size-push now i [] = omega arith
size-push now i (w ∷ q) =
    ground
      (arith, length-append (w ∷ q) (record { identity = i; due = WorkerQueue.expiry now } ∷ []))

size-refresh :
    (now : ℕ) (i : Bytes) (q : WorkerQueue) → 0 < size q → 0 < size (WorkerQueue.refresh now i q)
unfolding WorkerQueue.refresh
size-refresh now i [] h = h
size-refresh now i (w ∷ q) h = ground arith

pub size-control :
    (now : ℕ) (i c : Bytes) (b : Broker) → 0 < size b.queue → 0 < size (control now i c b).queue
unfolding control
size-control now i c b h =
    ground (arith, size-push now i (WorkerQueue.erase i b.queue), size-refresh now i b.queue)

control-IsUnique :
    (now : ℕ) (i c : Bytes) (b : Broker) → IsUnique b.queue → IsUnique (control now i c b).queue
unfolding control
control-IsUnique now i c b h = ground (
  arith,
  push-IsUnique now i (WorkerQueue.erase i b.queue),
  erase-IsUnique i b.queue,
  refresh-IsUnique now i b.queue,
)

pub head_of : (q : WorkerQueue) → 0 < size q → (w : Worker) × (r : WorkerQueue) × (q ≡ w ∷ r)
head_of [] h = elim h [ ]
head_of (w ∷ q) h = (w, q, refl)

module _ ⦃z : Zmqpp⦄ where
  size-on_backend :
      (now : ℕ) (e : Option Message) (b b' : Broker)
      → on_backend now e b ≡ ok b'
      → 0 < size b.queue
      → 0 < size b'.queue
  unfolding on_backend
  size-on_backend now none b b' e h = ground arith
  size-on_backend now (some msg) b b' e h = grind (arith, size-control, size-push)

  on_backend-IsUnique :
      (now : ℕ) (e : Option Message) (b b' : Broker)
      → on_backend now e b ≡ ok b'
      → IsUnique b.queue
      → IsUnique b'.queue
  unfolding on_backend
  on_backend-IsUnique now none b b' e u = ground arith
  on_backend-IsUnique now (some msg) b b' e u = grind (arith, control-IsUnique, push-IsUnique)

  on_frontend-IsUnique :
      (e : Option Message) (b b' : Broker)
      → on_frontend e b ≡ ok b'
      → IsUnique b.queue
      → IsUnique b'.queue
  unfolding on_frontend WorkerQueue.pop
  on_frontend-IsUnique none b b' e u = ground arith
  on_frontend-IsUnique (some msg) b b' e u = ground arith

  round-IsUnique :
      (r : Round) (b b' : Broker) → round r b ≡ ok b' → IsUnique b.queue → IsUnique b'.queue
  unfolding round beat
  round-IsUnique r b b' e u =
      grind (arith, on_backend-IsUnique, on_frontend-IsUnique, purge-IsUnique)

  -- In every run, whatever the workers and the clients send and whenever the clock is read, no
  -- worker is queued twice.
  pub run-IsUnique : (b : Broker) (rs : List Round) → IsUnique b.queue → IsUnique (run b rs).queue
  unfolding run
  run-IsUnique b [] u = u
  run-IsUnique b (r ∷ rs) u = elim (Result-cases (round r b)) [
    | inl (b', e) ↦ rw (e, run) (run-IsUnique b' rs (round-IsUnique r b b' e u))
    | inr (f, e) ↦ rw (e, run) u
  ]

  forwarded :
      (r : Round) (b b₁ b' : Broker) (msg : Message) (w : Worker) (q : WorkerQueue)
      → 0 < size b.queue
      → r.frontend ≡ some msg
      → on_backend r.seen_at r.backend b ≡ ok b₁
      → round r b ≡ ok b'
      → b₁.queue ≡ w ∷ q
      → (b'.to_backend
          ≡ (b₁.to_backend ++ (w.identity ∷ msg) ∷ [])
            ++ (if ltb b₁.heartbeat_at r.tested_at then map heartbeat_to q else []))
        × (b'.queue ≡ WorkerQueue.purge r.purged_at q)
  unfolding round on_frontend WorkerQueue.pop polled_frontend beat
  forwarded r b b₁ b' msg w q h f e₁ e p =
      ground
        (arith, push_front_eq msg w.identity, append-nil (b₁.to_backend ++ (w.identity ∷ msg) ∷ []))

  -- In a round that ends normally and began with a worker queued, and no worker queued twice, a
  -- request that the frontend delivers is sent to the worker at the head of the queue as the backend's
  -- message left it, the frames unchanged behind the worker's identity; on the backend only heartbeats
  -- for the workers that stay follow it; and the worker is queued no more.
  pub round_forwards :
      (r : Round) (b b₁ b' : Broker) (msg : Message)
      → 0 < size b.queue
      → r.frontend ≡ some msg
      → on_backend r.seen_at r.backend b ≡ ok b₁
      → round r b ≡ ok b'
      → IsUnique b.queue
      → (w : Worker) × (q : WorkerQueue) × (b₁.queue ≡ w ∷ q)
        × (b'.to_backend
            ≡ (b₁.to_backend ++ (w.identity ∷ msg) ∷ [])
              ++ (if ltb b₁.heartbeat_at r.tested_at then map heartbeat_to q else []))
        × (find w.identity b'.queue ≡ none)
  round_forwards r b b₁ b' msg h f e₁ e u =
      let (w, q, p) = head_of b₁.queue (size-on_backend r.seen_at r.backend b b₁ e₁ h) in
      let (sent, left) = forwarded r b b₁ b' msg w q h f e₁ e p in
      (
        w,
        q,
        p,
        sent,
        rw left (
            find-purge-none r.purged_at w.identity q
              (subst IsUnique p (on_backend-IsUnique r.seen_at r.backend b b₁ e₁ u)).0),
      )
