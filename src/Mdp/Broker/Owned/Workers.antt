-- ===== src/Mdp/Broker/Owned/Workers.antt =====
-- The workers that wait in a service are registered under its name: the changes of a
-- worker's entry.
use zero_mq_rfc_implementati.Base.{
  ℕ, ◌≡◌, refl, inl, inr, Bytes, ◌==◌, ==_iff, ==_refl, false, some, All-mono, arith, Bool-cases,
}
use zero_mq_rfc_implementati.Base.Dict.{
  Dict, lookup, contains, assign, insert, lookup-assign, lookup-insert, contains-eq,
}
use zero_mq_rfc_implementati.Base.Dict.Entries.{
  Entries, Entries-mono, lookup-Entries, assign-Entries, insert-Entries,
}
use zero_mq_rfc_implementati.Mdp.Registry.{
  Worker, Broker, update_expiry, worker_require, service_require,
}
use zero_mq_rfc_implementati.Mdp.Registry.Known.{Keyed}
use zero_mq_rfc_implementati.Mdp.Broker.Owned.{Serves, AllServe, Owned}

pub Owned-mono :
    (ws : Dict Worker) (b : Broker)
    → Entries Keyed ws
    → ((name i : Bytes) → Serves b.workers name i → Serves ws name i)
    → Owned b
    → Owned (record b { workers = ws })
Owned-mono ws b k f h = (
  k,
  Entries-mono (AllServe b.workers) (AllServe ws) b.services
      (λ name s. All-mono (Serves b.workers name) (Serves ws name) s.waiting_workers (f name)) h.1,
)

-- A worker is replaced by one of the same service.
pub Serves-assign :
    (i : Bytes) (w w' : Worker) (ws : Dict Worker)
    → lookup i ws ≡ some w
    → w'.service_name ≡ w.service_name
    → (name j : Bytes) → Serves ws name j
    → Serves (assign i w' ws) name j
Serves-assign i w w' ws e s name j (v, f, t) = elim (Bool-cases (i == j)) [
  | inl same ↦ (w', ground (arith, lookup-assign i j w' ws), ground (arith, ==_iff i j))
  | inr other ↦ (v, ground (arith, lookup-assign i j w' ws), t)
]

pub renew-Owned :
    (i : Bytes) (t : ℕ) (w : Worker) (b : Broker)
    → lookup i b.workers ≡ some w
    → Owned b
    → Owned (record b { workers = assign i (update_expiry t w) b.workers })
unfolding update_expiry
renew-Owned i t w b e h =
    Owned-mono (assign i (update_expiry t w) b.workers) b
      (assign-Entries Keyed i (update_expiry t w) b.workers (lookup-Entries Keyed i b.workers h.0 e)
        h.0)
      (Serves-assign i w (update_expiry t w) b.workers e refl) h

-- A worker that was not registered is.
pub Serves-insert :
    (i : Bytes) (w : Worker) (ws : Dict Worker) (name j : Bytes)
    → Serves ws name j
    → Serves (insert i w ws) name j
Serves-insert i w ws name j (v, f, t) =
    (v, ground (arith, lookup-insert i j w ws, contains-eq i ws, ==_iff i j), t)

pub require-Owned : (now : ℕ) (i : Bytes) (b : Broker) → Owned b → Owned (worker_require now i b)
unfolding worker_require
require-Owned now i b h =
    Owned-mono (insert i _ b.workers) b (insert-Entries Keyed i _ b.workers refl h.0)
      (Serves-insert i _ b.workers) h

pub service_require-Owned : (name : Bytes) (b : Broker) → Owned b → Owned (service_require name b)
unfolding service_require
service_require-Owned name b h = (h.0, insert-Entries (AllServe b.workers) name _ b.services tt h.1)

-- The service of a worker that has just been registered is set.
pub Serves-announced :
    (i : Bytes) (v w : Worker) (ws : Dict Worker) (name j : Bytes)
    → contains i ws ≡ false
    → Serves ws name j
    → Serves (assign i w (insert i v ws)) name j
Serves-announced i v w ws name j n (u, f, t) = (
  u,
  ground (
    arith,
    lookup-assign i j w (insert i v ws),
    lookup-insert i j v ws,
    contains-eq i ws,
    ==_iff i j,
  ),
  t,
)

pub announce-Owned :
    (now : ℕ) (i : Bytes) (w : Worker) (b : Broker)
    → contains i b.workers ≡ false
    → w.identity ≡ i
    → Owned b
    → Owned
        (record (worker_require now i b) { workers = assign i w (worker_require now i b).workers })
unfolding worker_require
announce-Owned now i w b n e h =
    Owned-mono (assign i w (worker_require now i b).workers) b
      (assign-Entries Keyed i w (worker_require now i b).workers e (require-Owned now i b h).0)
      (λ name j. Serves-announced i _ w b.workers name j n) h

pub renewed-Serves :
    (key : Bytes) (t : ℕ) (w : Worker) (b : Broker)
    → w.identity ≡ key
    → Serves
        (service_require w.service_name
          (record b { workers = assign key (update_expiry t w) b.workers })).workers
        w.service_name
        w.identity
unfolding service_require update_expiry
renewed-Serves key t w b e = (
  update_expiry t w,
  rw e (ground (arith, lookup-assign key key (update_expiry t w) b.workers, ==_refl key)),
  refl,
)
