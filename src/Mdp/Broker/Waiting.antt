-- ===== src/Mdp/Broker/Waiting.antt =====
-- 7.MDF-Majordomo Protocol/broker/mdbroker.cpp: `service_dispatch` and `worker_waiting` keep the
-- broker's invariant.
use zero_mq_rfc_implementati.Base.{
  ℕ, ◌≡◌, sym, subst, Bytes, true, Option, none, some, List, [], ◌∷◌, All, All-append, arith,
  Result, ok, ◌>>=◌, or_fault, out_of_range,
}
use zero_mq_rfc_implementati.Base.Zmqpp.{Message, Zmqpp}
use zero_mq_rfc_implementati.Base.Dict.{
  Dict, lookup, contains, assign, map_values, lookup-map_values,
}
use zero_mq_rfc_implementati.Base.Dict.Entries.{
  lookup_of_contains, lookup-Entries, contains-insert_self, contains-assign_self,
}
use zero_mq_rfc_implementati.Mdp.Registry.{
  Worker, Service, Broker, update_expiry, add_waiting_worker, push_request, expired,
  service_require, delete_waiting_worker,
}
use zero_mq_rfc_implementati.Mdp.Registry.Known.{
  IsWorker, IsKnown, Keyed, AllKnown, without, without_all, purge_workers-IsKnown,
  assign_service-IsKnown, assign_worker-IsKnown, service_require-IsKnown,
}
use zero_mq_rfc_implementati.Mdp.Registry.Purge.{purge_workers_lem}
use zero_mq_rfc_implementati.Mdp.Broker.{
  dispatch_loop, count, queue_request, service_dispatch, worker_waiting,
}
use zero_mq_rfc_implementati.Mdp.Broker.Dispatch.{dispatch_loop-total}

pub contains-map_values :
    (f : Service → Service) (j : Bytes) (d : Dict Service)
    → contains j d ≡ true
    → contains j (map_values f d) ≡ true
unfolding contains
contains-map_values f j d h = ground (arith, lookup-map_values f j d)

pub contains-without_all :
    (j : Bytes) (is : List Bytes) (b : Broker)
    → contains j b.services ≡ true
    → contains j (without_all is b).services ≡ true
contains-without_all j [] b h = h
contains-without_all j (i ∷ is) b h =
    contains-without_all j is (without i b)
      (contains-map_values (delete_waiting_worker i) j b.services h)

pub queue_request-known :
    (ws : Dict Worker) (m : Option Message) (s : Service)
    → All (IsWorker ws) s.waiting_workers
    → All (IsWorker ws) (queue_request m s).waiting_workers
unfolding push_request
queue_request-known ws none s h = h
queue_request-known ws (some m) s h = h

pub required : (name : Bytes) (b : Broker) → contains name (service_require name b).services ≡ true
unfolding service_require
required name b = contains-insert_self name _ b.services

-- The operation returns, and the broker that it returns satisfies the invariant.
abbrev pub Succeeds : Result Broker → Type 0
Succeeds r = (b' : Broker) × (r ≡ ok b') × IsKnown b'

module _ ⦃z : Zmqpp⦄ where
  pub store_dispatched :
      (name : Bytes) (s : Service) (b : Broker)
      → All (IsWorker b.workers) s.waiting_workers
      → IsKnown b
      → Succeeds (do
        (s₂, b₂) ← dispatch_loop (count s.requests) s b
        ok (record b₂ { services = assign name s₂ b₂.services }))
  store_dispatched name s b h v =
      let (s', b', e, w, u, k, c) =
        dispatch_loop-total (count s.requests) s.name s.waiting_workers s.requests b (omega arith)
          h in
      (
        record b' { services = assign name s' b'.services },
        rw e,
        assign_service-IsKnown name s' b'
            (subst (λ ws. All (IsWorker ws) s'.waiting_workers) (sym w) k)
            (record {
              workers_once = rw w v.workers_once;
              services_once = rw u v.services_once;
              keyed = rw w v.keyed;
              known = rw (w, u) v.known;
            }),
      )

  pub dispatch_purged :
      (name : Bytes) (b : Broker)
      → contains name b.services ≡ true
      → IsKnown b
      → Succeeds (do
        s₁ ← or_fault (lookup name b.services) out_of_range
        (s₂, b₂) ← dispatch_loop (count s₁.requests) s₁ b
        ok (record b₂ { services = assign name s₂ b₂.services }))
  dispatch_purged name b h v =
      let (s, e) = lookup_of_contains name b.services h in
      rw e (
        store_dispatched name s b (lookup-Entries (AllKnown b.workers) name b.services v.known e) v)

  pub service_dispatch-Succeeds :
      (now : ℕ) (name : Bytes) (m : Option Message) (b : Broker)
      → contains name b.services ≡ true
      → IsKnown b
      → Succeeds (service_dispatch now name m b)
  unfolding service_dispatch
  service_dispatch-Succeeds now name m b h v =
      let (s, e) = lookup_of_contains name b.services h in
      let b₀ : Broker = record b { services = assign name (queue_request m s) b.services } in
      let v₀ : IsKnown b₀ =
        assign_service-IsKnown name (queue_request m s) b
          (queue_request-known b.workers m s
            (lookup-Entries (AllKnown b.workers) name b.services v.known e))
          v in
      rw (e, purge_workers_lem now b₀ v₀)
        (dispatch_purged name (without_all (expired now b₀.workers) b₀)
          (contains-without_all name (expired now b₀.workers) b₀
            (contains-assign_self name (queue_request m s) b.services))
          (purge_workers-IsKnown now b₀ v₀))

  pub worker_waiting-Succeeds :
      (t u : ℕ) (key : Bytes) (b : Broker)
      → IsWorker b.workers key
      → IsKnown b
      → Succeeds (worker_waiting t u key b)
  unfolding worker_waiting
  worker_waiting-Succeeds t u key b h v =
      let (w, e) = lookup_of_contains key b.workers h in
      let same : w.identity ≡ key = lookup-Entries Keyed key b.workers v.keyed e in
      let b₀ : Broker = record b { workers = assign key (update_expiry t w) b.workers } in
      let v₀ : IsKnown b₀ =
        assign_worker-IsKnown key (update_expiry t w) b (unfold update_expiry in same) v in
      let b₁ : Broker = service_require w.service_name b₀ in
      let v₁ : IsKnown b₁ = service_require-IsKnown w.service_name b₀ v₀ in
      let (s, e₁) = lookup_of_contains w.service_name b₁.services (required w.service_name b₀) in
      let known : All (IsWorker b₁.workers) s.waiting_workers =
        lookup-Entries (AllKnown b₁.workers) w.service_name b₁.services v₁.known e₁ in
      let last : IsWorker b₁.workers w.identity =
        rw same
          (unfold service_require in contains-assign_self key (update_expiry t w) b.workers) in
      rw (e, e₁)
        (service_dispatch-Succeeds u w.service_name none
          (record b₁ {
            services = assign w.service_name (add_waiting_worker w.identity s) b₁.services;
          })
          (contains-assign_self w.service_name _ b₁.services)
          (assign_service-IsKnown w.service_name (add_waiting_worker w.identity s) b₁
            (unfold add_waiting_worker in
              All-append (IsWorker b₁.workers) s.waiting_workers (w.identity ∷ []) known (last, tt))
            v₁))

  pub sent-IsKnown : (b : Broker) (ms : List Message) → IsKnown b → IsKnown (record b { sent = ms })
  sent-IsKnown b ms v = record {
    workers_once = v.workers_once;
    services_once = v.services_once;
    keyed = v.keyed;
    known = v.known;
  }
