-- ===== src/Mdp/RoundTrip.antt =====
-- 7.MDF-Majordomo Protocol: a client's request to a worker and the reply back, through the broker
-- and the worker's session.
mod Steps
use zero_mq_rfc_implementati.Base.{
  ℕ, ◌≡◌, refl, ◌∙◌, sym, ap, Bytes, false, some, [], ◌∷◌, ◌++◌, ok,
}
use zero_mq_rfc_implementati.Base.Zmqpp.{Message, Zmqpp, pop_front, pop_front_eq}
use zero_mq_rfc_implementati.Base.Dict.{lookup, assign}
use zero_mq_rfc_implementati.Base.Dict.Entries.{contains_of_lookup}
use zero_mq_rfc_implementati.Mdp.Protocol.{
  mdpc_client, mdpw_worker, request, reply, heartbeat_liveness,
}
use zero_mq_rfc_implementati.Mdp.Registry.{
  Worker, Service, Broker, update_expiry, push_request, expired,
}
use zero_mq_rfc_implementati.Mdp.Registry.Known.{IsKnown}
use zero_mq_rfc_implementati.Mdp.Broker.{Times, queue_request, is_mmi, on_message}
use zero_mq_rfc_implementati.Mdp.Broker.Replies.{on_message-reply}
use zero_mq_rfc_implementati.Mdp.Broker.Waiting.{sent-IsKnown, service_dispatch-Succeeds}
use zero_mq_rfc_implementati.Mdp.WorkerApi
use zero_mq_rfc_implementati.Mdp.Exchange.{
  worker_envelope_request, on_message-worker_envelope, send-reply,
}
use zero_mq_rfc_implementati.Mdp.RoundTrip.Steps.{
  lookup-assign_self, Succeeds-IsKnown, dispatched, service_dispatch_lem, client_process-dispatch,
  on_message-client, idle, worker_waiting_lem,
}

module _ ⦃z : Zmqpp⦄ where
  -- A client's request to a service whose name does not begin with m, i or a full stop, whose one
  -- waiting worker `i` is registered for it and which has no request pending, while no worker has
  -- expired at the times of the two purges: the broker passes it to the worker, whose session hands its
  -- body over unchanged; the same body given back as the reply goes to the broker, which sends it to the
  -- client, in the same frames as the request. The body has a frame, and the client's identity a byte.
  pub request-reply :
      (t t' : Times) (now c : ℕ) (client i srv n f : Bytes) (body : Message) (w : Worker)
      (b : Broker) (ws : WorkerApi.Session)
      → IsKnown b
      → is_mmi srv ≡ false
      → lookup srv b.services ≡ some (record { name = n; waiting_workers = i ∷ []; requests = [] })
      → lookup i b.workers ≡ some w
      → w.service_name ≡ srv
      → expired t.purged_at b.workers ≡ []
      → expired t'.purged_at (assign i (update_expiry t'.updated_at w) b.workers) ≡ []
      → (b₁ b₂ : Broker) × (ws₁ ws₂ : WorkerApi.Session) × (q r : Message) × (on_message t
            ((c ∷ client) ∷ [] ∷ mdpc_client ∷ srv ∷ f ∷ body)
            b
          ≡ ok b₁)
        × (b₁.sent ≡ b.sent ++ (i ∷ q) ∷ [])
        × (WorkerApi.on_message now q ws ≡ ok (some (f ∷ body), ws₁))
        × (WorkerApi.send (some (f ∷ body)) ws₁ ≡ ok ws₂)
        × (ws₂.sent ≡ ws.sent ++ r ∷ [])
        × (on_message t' (i ∷ r) b₁ ≡ ok b₂)
        × (b₂.sent ≡ b₁.sent ++ ((c ∷ client) ∷ [] ∷ mdpc_client ∷ srv ∷ f ∷ body) ∷ [])
  unfolding push_request
  request-reply t t' now c client i srv n f body w b ws v mmi es ew named fresh fresh' =
      let id = c ∷ client in
      let s : Service = record { name = n; waiting_workers = i ∷ []; requests = [] } in
      let m : Message = id ∷ [] ∷ f ∷ body in
      let b₁ : Broker = dispatched srv (queue_request (some m) s) b in
      let e₁ : on_message t (id ∷ [] ∷ mdpc_client ∷ srv ∷ f ∷ body) b ≡ ok b₁ =
        on_message-client t id [] (srv ∷ f ∷ body) b
        ∙ client_process-dispatch t id srv f body s b mmi es
        ∙ service_dispatch_lem t.purged_at srv (some m) s b v es fresh (tt, tt) in
      let v₁ : IsKnown b₁ =
        Succeeds-IsKnown _ b₁
          (service_dispatch-Succeeds t.purged_at srv (some m) b
            (contains_of_lookup srv b.services es) v)
          (service_dispatch_lem t.purged_at srv (some m) s b v es fresh (tt, tt)) in
      let q : Message = [] ∷ mdpw_worker ∷ request ∷ m in
      let ws₁ : WorkerApi.Session = record ws { liveness = heartbeat_liveness; reply_to = id } in
      let r : Message = [] ∷ mdpw_worker ∷ reply ∷ id ∷ [] ∷ f ∷ body in
      let ws₂ : WorkerApi.Session = record ws₁ { reply_to = []; sent = ws.sent ++ r ∷ [] } in
      let b' : Broker = record b₁ {
        sent = b₁.sent ++ (id ∷ [] ∷ mdpc_client ∷ w.service_name ∷ f ∷ body) ∷ [];
      } in
      let es' : lookup w.service_name b₁.services ≡ some (idle n) =
        ap (λ k. lookup k b₁.services) named ∙ lookup-assign_self srv (idle n) _ in
      let (b₂, e₂, kept) =
        worker_waiting_lem t'.updated_at t'.purged_at i n w b' (sent-IsKnown b₁ b'.sent v₁) ew es'
          fresh' in
      (
        b₁,
        b₂,
        ws₁,
        ws₂,
        q,
        r,
        e₁,
        ap (λ x. b.sent ++ x ∷ []) (worker_envelope_request i m),
        ap (λ x. WorkerApi.on_message now x ws)
              (sym (ap pop_front (worker_envelope_request i m) ∙ pop_front_eq i q))
            ∙ on_message-worker_envelope now i id (f ∷ body) ws,
        send-reply id (f ∷ body) ws₁ refl,
        refl,
        on_message-reply t' i [] id [] (f ∷ body) w b₁ ew ∙ e₂,
        kept ∙ ap (λ k. b₁.sent ++ (id ∷ [] ∷ mdpc_client ∷ k ∷ f ∷ body) ∷ []) named,
      )
