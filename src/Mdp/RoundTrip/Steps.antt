-- ===== src/Mdp/RoundTrip/Steps.antt =====
-- 7.MDF-Majordomo Protocol: the broker's and the client's steps of a request and its reply.
use zero_mq_rfc_implementati.Base.{
  ℕ, ◌≡◌, refl, ◌∙◌, sym, ap, subst, Bytes, ◌==◌, ==_refl, false, Option, none, some, [], ◌∷◌, All,
  arith, length, Result, ok,
}
use zero_mq_rfc_implementati.Base.Zmqpp.{
  Message, Zmqpp, pop_front_eq, push_front_eq, take_text-cons, parts_eq,
}
use zero_mq_rfc_implementati.Base.Dict.{Dict, lookup, assign, insert, lookup-assign}
use zero_mq_rfc_implementati.Base.Dict.Entries.{
  lookup-Entries, contains-assign_self, contains_of_lookup,
}
use zero_mq_rfc_implementati.Mdp.Protocol.{mdpc_client}
use zero_mq_rfc_implementati.Mdp.Registry.{
  Worker, Service, Broker, update_expiry, add_waiting_worker, expired, service_require,
}
use zero_mq_rfc_implementati.Mdp.Registry.Known.{
  IsKnown, IsWorker, AllKnown, Distinct, Keyed, without_all, assign_service-IsKnown,
  assign_worker-IsKnown,
}
use zero_mq_rfc_implementati.Mdp.Registry.Purge.{purge_workers_lem}
use zero_mq_rfc_implementati.Mdp.Broker.{
  Times, queue_request, count, is_mmi, service_dispatch, worker_waiting, client_process, on_message,
}
use zero_mq_rfc_implementati.Mdp.Broker.Dispatch.{
  handed, left_workers, left_requests, dispatch_loop-Distinct,
}
use zero_mq_rfc_implementati.Mdp.Broker.Mmi.{two_parts}
use zero_mq_rfc_implementati.Mdp.Broker.Waiting.{queue_request-known, Succeeds}

pub lookup-assign_self {ℓ} :
    {V : Type ℓ} (k : Bytes) (v : V) (d : Dict V) → lookup k (assign k v d) ≡ some v
lookup-assign_self k v d = lookup-assign k k v d ∙ rw (==_refl k) refl

pub same : (a b : Broker) → ok a ≡ ok b → a ≡ b
same a b e = cc

pub Succeeds-IsKnown : (r : Result Broker) (b : Broker) → Succeeds r → r ≡ ok b → IsKnown b
Succeeds-IsKnown r b (b', e, v) e' = subst IsKnown (same b' b (sym e ∙ e')) v

module _ ⦃z : Zmqpp⦄ where
  -- What a service keeps of its waiting workers and its requests.
  abbrev pub rest_of : Service → Service
  rest_of s = record {
    name = s.name;
    waiting_workers = left_workers s.waiting_workers s.requests;
    requests = left_requests s.waiting_workers s.requests;
  }

  abbrev pub dispatched : Bytes → Service → Broker → Broker
  dispatched name s b = record b {
    services = assign name (rest_of s) (assign name s b.services);
    sent = handed s.waiting_workers s.requests b.sent;
  }

  pub service_dispatch_lem :
      (now : ℕ) (name : Bytes) (m : Option Message) (s : Service) (b : Broker)
      → IsKnown b
      → lookup name b.services ≡ some s
      → expired now b.workers ≡ []
      → Distinct (queue_request m s).waiting_workers
      → service_dispatch now name m b ≡ ok (dispatched name (queue_request m s) b)
  unfolding service_dispatch
  service_dispatch_lem now name m s b v e none_late d =
      let q = queue_request m s in
      let b₀ : Broker = record b { services = assign name q b.services } in
      let known : All (IsWorker b.workers) q.waiting_workers =
        queue_request-known b.workers m s
          (lookup-Entries (AllKnown b.workers) name b.services v.known e) in
      let v₀ : IsKnown b₀ = assign_service-IsKnown name q b known v in
      let purged = purge_workers_lem now b₀ v₀ ∙ ap (λ is. ok (without_all is b₀)) none_late in
      rw
        (
          e,
          purged,
          lookup-assign_self name q b.services,
          dispatch_loop-Distinct (count q.requests) q.name q.waiting_workers q.requests b₀
              (omega arith) d known,
        )
        refl

  pub require-there :
      (name : Bytes) (s : Service) (b : Broker)
      → lookup name b.services ≡ some s
      → service_require name b ≡ b
  unfolding service_require insert
  require-there name s b e =
      ap (λ ss. record b { services = ss }) (rw (contains_of_lookup name b.services e) refl)

  pub client_process-dispatch :
      (t : Times) (client name f : Bytes) (body : Message) (s : Service) (b : Broker)
      → is_mmi name ≡ false
      → lookup name b.services ≡ some s
      → client_process t client (name ∷ f ∷ body) b
        ≡ service_dispatch t.purged_at name (some (client ∷ [] ∷ f ∷ body)) b
  unfolding client_process
  client_process-dispatch t client name f body s b h e =
      rw (parts_eq, take_text-cons, h, two_parts (length body))
        (simp push_front_eq (
          ap (service_dispatch t.purged_at name (some (client ∷ [] ∷ f ∷ body)))
            (require-there name s b e)))

  pub on_message-client :
      (t : Times) (client first : Bytes) (m : Message) (b : Broker)
      → on_message t (client ∷ first ∷ mdpc_client ∷ m) b ≡ client_process t client m b
  unfolding on_message ◌==◌
  on_message-client t client first m b = simp (take_text-cons, pop_front_eq) refl

  abbrev pub idle : Bytes → Service
  idle n = record { name = n; waiting_workers = []; requests = [] }

  pub worker_waiting_lem :
      (t u : ℕ) (i n : Bytes) (w : Worker) (b : Broker)
      → IsKnown b
      → lookup i b.workers ≡ some w
      → lookup w.service_name b.services ≡ some (idle n)
      → expired u (assign i (update_expiry t w) b.workers) ≡ []
      → (b' : Broker) × (worker_waiting t u i b ≡ ok b') × (b'.sent ≡ b.sent)
  unfolding worker_waiting add_waiting_worker
  worker_waiting_lem t u i n w b v e es none_late =
      let named : w.identity ≡ i = lookup-Entries Keyed i b.workers v.keyed e in
      let b₀ : Broker = record b { workers = assign i (update_expiry t w) b.workers } in
      let v₀ : IsKnown b₀ =
        assign_worker-IsKnown i (update_expiry t w) b (unfold update_expiry in named) v in
      let last : IsWorker b₀.workers w.identity =
        subst (IsWorker b₀.workers) (sym named)
          (contains-assign_self i (update_expiry t w) b.workers) in
      let s : Service = add_waiting_worker w.identity (idle n) in
      let b₁ : Broker = record b₀ { services = assign w.service_name s b₀.services } in
      let v₁ : IsKnown b₁ = assign_service-IsKnown w.service_name s b₀ (last, tt) v₀ in
      let there : service_require w.service_name b₀ ≡ b₀ =
        require-there w.service_name (idle n) b₀ es in
      (
        dispatched w.service_name s b₁,
        rw (e, there, es)
            (service_dispatch_lem u w.service_name none s b₁ v₁
              (lookup-assign_self w.service_name s b₀.services) none_late (tt, tt)),
        refl,
      )
