-- ===== src/Mdp/Registry/Known.antt =====
-- The broker's invariant, and the operations on workers and services that keep it.
use zero_mq_rfc_implementati.Base.{
  ℕ, ◌≡◌, refl, inl, inr, Bytes, ◌==◌, ==_iff, true, false, none, List, [], ◌∷◌, All, All-mono,
  arith, Bool-cases,
}
use zero_mq_rfc_implementati.Base.Dict.{Dict, lookup, contains, assign, erase, map_values}
use zero_mq_rfc_implementati.Base.Dict.Entries.{
  Entries, IsMap, assign-Entries, insert-Entries, erase-Entries, Entries-mono, map_values-Entries,
  assign-IsMap, insert-IsMap, erase-IsMap, map_values-IsMap, contains-assign, contains-insert,
  contains-erase,
}
use zero_mq_rfc_implementati.Mdp.Registry.{
  Worker, Service, Broker, remove_all, delete_waiting_worker, worker_require, service_require,
  expired,
}

abbrev pub Keyed : Bytes → Worker → Type 0
Keyed k w = w.identity ≡ k

abbrev pub IsWorker : Dict Worker → Bytes → Type 0
IsWorker ws i = contains i ws ≡ true

abbrev pub AllKnown : Dict Worker → Bytes → Service → Type 0
AllKnown ws k s = All (IsWorker ws) s.waiting_workers

-- A worker stands under its own identity, no identity and no service stands twice, and every worker
-- that waits in a service is in the broker's map of workers.
pub record IsKnown (b : Broker) : Type 0 where
  pub workers_once : IsMap b.workers
  pub services_once : IsMap b.services
  pub keyed : Entries Keyed b.workers
  pub known : Entries (AllKnown b.workers) b.services

pub worker_require-IsKnown :
    (now : ℕ) (i : Bytes) (b : Broker) → IsKnown b → IsKnown (worker_require now i b)
unfolding worker_require
worker_require-IsKnown now i b v = record {
  workers_once = insert-IsMap i _ b.workers v.workers_once;
  services_once = v.services_once;
  keyed = insert-Entries Keyed i _ b.workers refl v.keyed;
  known =
      Entries-mono _ _ b.services
        (λ k s. All-mono _ _ s.waiting_workers (λ j. contains-insert i j _ b.workers)) v.known;
}

pub service_require-IsKnown :
    (name : Bytes) (b : Broker) → IsKnown b → IsKnown (service_require name b)
unfolding service_require
service_require-IsKnown name b v = record {
  workers_once = v.workers_once;
  services_once = insert-IsMap name _ b.services v.services_once;
  keyed = v.keyed;
  known = insert-Entries (AllKnown b.workers) name _ b.services tt v.known;
}

pub assign_service-IsKnown :
    (name : Bytes) (s : Service) (b : Broker)
    → All (IsWorker b.workers) s.waiting_workers
    → IsKnown b
    → IsKnown (record b { services = assign name s b.services })
assign_service-IsKnown name s b h v = record {
  workers_once = v.workers_once;
  services_once = assign-IsMap name s b.services v.services_once;
  keyed = v.keyed;
  known = assign-Entries (AllKnown b.workers) name s b.services h v.known;
}

pub assign_worker-IsKnown :
    (i : Bytes) (w : Worker) (b : Broker)
    → w.identity ≡ i
    → IsKnown b
    → IsKnown (record b { workers = assign i w b.workers })
assign_worker-IsKnown i w b e v = record {
  workers_once = assign-IsMap i w b.workers v.workers_once;
  services_once = v.services_once;
  keyed = assign-Entries Keyed i w b.workers e v.keyed;
  known =
      Entries-mono _ _ b.services
        (λ k s. All-mono _ _ s.waiting_workers (λ j. contains-assign i j w b.workers)) v.known;
}

-- What waits after a worker has been removed is still known.
remove_all-known :
    (i : Bytes) (ws : Dict Worker) (xs : List Bytes)
    → All (IsWorker ws) xs
    → All (IsWorker (erase i ws)) (remove_all i xs)
unfolding remove_all
remove_all-known i ws [] h = tt
remove_all-known i ws (x ∷ xs) h = elim (Bool-cases (x == i)) [
  | inl same ↦ rw same (remove_all-known i ws xs h.1)
  | inr other ↦ rw other (
    contains-erase i x ws (ground (arith, ==_iff i x, ==_iff x i)) h.0,
    remove_all-known i ws xs h.1,
  )
]

pub delete-IsKnown :
    (i : Bytes) (b : Broker)
    → IsKnown b
    → IsKnown (record b {
      services = map_values (delete_waiting_worker i) b.services;
      workers = erase i b.workers;
    })
unfolding delete_waiting_worker
delete-IsKnown i b v = record {
  workers_once = erase-IsMap i b.workers v.workers_once;
  services_once = map_values-IsMap _ b.services v.services_once;
  keyed = erase-Entries Keyed i b.workers v.keyed;
  known =
      map_values-Entries (AllKnown b.workers) (AllKnown (erase i b.workers)) _ b.services
        (λ k s. remove_all-known i b.workers s.waiting_workers) v.known;
}

head-known :
    (j : Bytes) (w : Worker) (ws : Dict Worker) → w.identity ≡ j → IsWorker ((j, w) ∷ ws) w.identity
unfolding contains
head-known j w ws e = ground (arith, ==_iff j w.identity)

-- The broker without the worker.
abbrev pub without : Bytes → Broker → Broker
without i b = record b {
  services = map_values (delete_waiting_worker i) b.services;
  workers = erase i b.workers;
}

abbrev pub without_all : List Bytes → Broker → Broker
without_all [] b = b
without_all (i ∷ is) b = without_all is (without i b)

abbrev pub Distinct : List Bytes → Type 0
Distinct [] = Unit {0}
Distinct (i ∷ is) = All (λ j. (i == j) ≡ false) is × Distinct is

pub erase-known :
    (i : Bytes) (ws : Dict Worker) (is : List Bytes)
    → All (λ j. (i == j) ≡ false) is
    → All (IsWorker ws) is
    → All (IsWorker (erase i ws)) is
erase-known i ws [] d h = tt
erase-known i ws (j ∷ is) d h = (contains-erase i j ws d.0 h.0, erase-known i ws is d.1 h.1)

pub without_all-IsKnown : (is : List Bytes) (b : Broker) → IsKnown b → IsKnown (without_all is b)
without_all-IsKnown [] b v = v
without_all-IsKnown (i ∷ is) b v = without_all-IsKnown is (without i b) (delete-IsKnown i b v)

pub expired-ne :
    (now : ℕ) (k : Bytes) (ws : Dict Worker)
    → lookup k ws ≡ none
    → Entries Keyed ws
    → All (λ j. (k == j) ≡ false) (expired now ws)
unfolding expired lookup
expired-ne now k [] e h = tt
expired-ne now k ((j, w) ∷ ws) e h =
    ground (arith, expired-ne now k ws, ==_iff k w.identity, ==_iff j k)

pub expired-Distinct :
    (now : ℕ) (ws : Dict Worker) → IsMap ws → Entries Keyed ws → Distinct (expired now ws)
unfolding expired
expired-Distinct now [] m h = tt
expired-Distinct now ((j, w) ∷ ws) m h =
    ground (arith, expired-ne now j ws m.0 h.1, expired-Distinct now ws m.1 h.1)

expired-grow :
    (j : Bytes) (w : Worker) (ws : Dict Worker) (is : List Bytes)
    → All (IsWorker ws) is
    → All (IsWorker ((j, w) ∷ ws)) is
unfolding contains
expired-grow j w ws [] h = tt
expired-grow j w ws (i ∷ is) h = (ground arith, expired-grow j w ws is h.1)

pub expired-known :
    (now : ℕ) (ws : Dict Worker) → Entries Keyed ws → All (IsWorker ws) (expired now ws)
unfolding expired
expired-known now [] h = tt
expired-known now ((j, w) ∷ ws) h =
    ground (
      arith,
      expired-grow j w ws (expired now ws) (expired-known now ws h.1),
      head-known j w ws h.0,
    )

pub purge_workers-IsKnown :
    (now : ℕ) (b : Broker) → IsKnown b → IsKnown (without_all (expired now b.workers) b)
purge_workers-IsKnown now b v = without_all-IsKnown (expired now b.workers) b v
