-- ===== src/Mdp/Broker/Owned.antt =====
-- The workers that wait in a service are registered under its name: the operations.
pub mod Workers
pub mod Handled
use zero_mq_rfc_implementati.Base.{
  Post, Post-bind, Post-then, ℕ, zero, suc, ◌+◌, ◌≡◌, refl, inl, inr, Bytes, ◌==◌, ==_iff, Bool,
  false, Option, none, some, List, [], ◌∷◌, ◌++◌, All, arith, Bool-cases, ok, ◌>>=◌, or_fault,
  out_of_range,
}
use zero_mq_rfc_implementati.Base.Zmqpp.{Message, Zmqpp}
use zero_mq_rfc_implementati.Base.Dict.{Dict, lookup, contains, assign, erase, lookup-erase}
use zero_mq_rfc_implementati.Base.Dict.Entries.{
  Entries, map_values-Entries, lookup-Entries, assign-Entries, erase-Entries,
}
use zero_mq_rfc_implementati.Mdp.Protocol.{request, disconnect}
use zero_mq_rfc_implementati.Mdp.Registry.{
  Worker, Service, Broker, push_request, purge_workers, remove_all, delete_waiting_worker,
  remove_own, pop_request, worker_envelope, expired, worker_send, worker_delete, delete_all,
}
use zero_mq_rfc_implementati.Mdp.Registry.Known.{Keyed, without}
use zero_mq_rfc_implementati.Mdp.Registry.Purge.{
  worker_send_lem, worker_delete-quiet, worker_delete-disconnect,
}
use zero_mq_rfc_implementati.Mdp.Registry.Erase.{remove_own-All}
use zero_mq_rfc_implementati.Mdp.Broker.{
  min_element, count, dispatch_loop, queue_request, service_dispatch,
}
use zero_mq_rfc_implementati.Mdp.Broker.Account.Dispatched.{or_fault-ok}

-- The worker is registered, for the service.
abbrev pub Serves : Dict Worker → Bytes → Bytes → Type 0
Serves ws name i = (w : Worker) × (lookup i ws ≡ some w) × (w.service_name ≡ name)

abbrev pub AllServe : Dict Worker → Bytes → Service → Type 0
AllServe ws name s = All (Serves ws name) s.waiting_workers

-- Each worker stands under its identity, and each that waits in a service is registered for it.
abbrev pub Owned : Broker → Type 0
Owned b = Entries Keyed b.workers × Entries (AllServe b.workers) b.services

Serves-erase :
    (i j name : Bytes) (ws : Dict Worker)
    → (j == i) ≡ false
    → Serves ws name j
    → Serves (erase i ws) name j
Serves-erase i j name ws n (w, e, s) =
    (w, ground (arith, lookup-erase i j ws, ==_iff i j, ==_iff j i), s)

remove_all-Serves :
    (i name : Bytes) (ws : Dict Worker) (xs : List Bytes)
    → All (Serves ws name) xs
    → All (Serves (erase i ws) name) (remove_all i xs)
unfolding remove_all
remove_all-Serves i name ws [] h = tt
remove_all-Serves i name ws (x ∷ xs) h = elim (Bool-cases (x == i)) [
  | inl same ↦ rw same (remove_all-Serves i name ws xs h.1)
  | inr other ↦ rw other (Serves-erase i x name ws other h.0, remove_all-Serves i name ws xs h.1)
]

without-Owned : (i : Bytes) (b : Broker) → Owned b → Owned (without i b)
unfolding delete_waiting_worker
without-Owned i b h = (
  erase-Entries Keyed i b.workers h.0,
  map_values-Entries (AllServe b.workers) (AllServe (erase i b.workers)) _ b.services
      (λ k s. remove_all-Serves i k b.workers s.waiting_workers) h.1,
)

module _ ⦃z : Zmqpp⦄ where
  pub worker_delete-Owned :
      (i : Bytes) (d : Bool) (b : Broker) → Owned b → Post Owned (worker_delete i d b)
  worker_delete-Owned i d b h = elim (Bool-cases (contains i b.workers)) [
    | inr new ↦ unfold worker_delete in rw new tt
    | inl old ↦ elim (Bool-cases d) [
      | inl loud ↦
          rw (loud, worker_delete-disconnect i b old)
            (without-Owned i (record b { sent = b.sent ++ worker_envelope i disconnect [] [] ∷ [] })
              h)
      | inr quiet ↦ rw (quiet, worker_delete-quiet i b old) (without-Owned i b h)
    ]
  ]

  delete_all-Owned : (is : List Bytes) (b : Broker) → Owned b → Post Owned (delete_all is b)
  unfolding delete_all
  delete_all-Owned [] b h = h
  delete_all-Owned (i ∷ is) b h =
      Post-then Owned Owned (worker_delete i false b) (delete_all is)
        (worker_delete-Owned i false b h) (λ b' k. delete_all-Owned is b' k)

  pub purge_workers-Owned : (now : ℕ) (b : Broker) → Owned b → Post Owned (purge_workers now b)
  unfolding purge_workers
  purge_workers-Owned now b h = delete_all-Owned (expired now b.workers) b h

  -- What the loop leaves waiting was waiting before.
  abbrev LeavesAll : (Bytes → Type 0) → Broker → Service × Broker → Type 0
  LeavesAll P b (s', b') =
      All P s'.waiting_workers × (b'.workers ≡ b.workers) × (b'.services ≡ b.services)

  dispatch_loop-LeavesAll :
      (P : Bytes → Type 0) (n : ℕ) (name : Bytes) (xs : List Bytes) (ms : List Message) (b : Broker)
      → All P xs
      → Post
          (LeavesAll P b)
          (dispatch_loop n (record { name = name; waiting_workers = xs; requests = ms }) b)
  unfolding dispatch_loop pop_request
  dispatch_loop-LeavesAll P zero name xs ms b h = (h, refl, refl)
  dispatch_loop-LeavesAll P (suc n) name [] ms b h = (h, refl, refl)
  dispatch_loop-LeavesAll P (suc n) name (x ∷ xs) [] b h = (h, refl, refl)
  dispatch_loop-LeavesAll P (suc n) name (x ∷ xs) (m ∷ ms) b h =
      Post-bind _ (min_element b.workers (x ∷ xs)) _ (λ (place, i) e.
        elim (Bool-cases (contains i b.workers)) [
          | inr new ↦ unfold worker_send in rw new tt
          | inl old ↦ rw (worker_send_lem i request [] m b old) (
              dispatch_loop-LeavesAll P n name (remove_own i (some place) (x ∷ xs)) ms
                (record b { sent = b.sent ++ worker_envelope i request [] m ∷ [] })
                (remove_own-All P i (some place) (x ∷ xs) h))
        ])

  pub assign_service-Owned :
      (name : Bytes) (s : Service) (b : Broker)
      → AllServe b.workers name s
      → Owned b
      → Owned (record b { services = assign name s b.services })
  assign_service-Owned name s b k h =
      (h.0, assign-Entries (AllServe b.workers) name s b.services k h.1)

  pub found-AllServe :
      (name : Bytes) (s : Service) (b : Broker)
      → or_fault (lookup name b.services) out_of_range ≡ ok s
      → Owned b
      → AllServe b.workers name s
  found-AllServe name s b e h =
      lookup-Entries (AllServe b.workers) name b.services h.1
        (or_fault-ok (lookup name b.services) s e)

  dispatch_stored-Owned :
      (name : Bytes) (b : Broker)
      → Owned b
      → Post Owned (do
        s₁ ← or_fault (lookup name b.services) out_of_range
        (s₂, b₂) ← dispatch_loop (count s₁.requests) s₁ b
        ok (record b₂ { services = assign name s₂ b₂.services }))
  dispatch_stored-Owned name b h =
      Post-bind _ (or_fault (lookup name b.services) out_of_range) _ (λ s e.
        Post-then (LeavesAll (Serves b.workers name) b) _ (dispatch_loop (count s.requests) s b) _
          (dispatch_loop-LeavesAll (Serves b.workers name) (count s.requests) s.name
            s.waiting_workers s.requests b (found-AllServe name s b e h))
          (λ (s', b') (k, w, v). rw (w, v) (assign_service-Owned name s' b k h)))

  queue_request-AllServe :
      (ws : Dict Worker) (name : Bytes) (m : Option Message) (s : Service)
      → AllServe ws name s
      → AllServe ws name (queue_request m s)
  unfolding push_request
  queue_request-AllServe ws name none s h = h
  queue_request-AllServe ws name (some m) s h = h

  pub service_dispatch-Owned :
      (now : ℕ) (name : Bytes) (m : Option Message) (b : Broker)
      → Owned b
      → Post Owned (service_dispatch now name m b)
  unfolding service_dispatch
  service_dispatch-Owned now name m b h =
      Post-bind _ (or_fault (lookup name b.services) out_of_range) _ (λ s e.
        let b₀ : Broker = record b { services = assign name (queue_request m s) b.services } in
        Post-then Owned Owned (purge_workers now b₀) _
          (purge_workers-Owned now b₀ (
            assign_service-Owned name (queue_request m s) b
              (queue_request-AllServe b.workers name m s (found-AllServe name s b e h)) h))
          (λ b₁ k. dispatch_stored-Owned name b₁ k))
