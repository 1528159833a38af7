-- ===== src/Mdp/Broker/Owned/Handled.antt =====
-- The workers that wait in a service are registered under its name: the handlers.
use zero_mq_rfc_implementati.Base.{
  Post, Post-bind, Post-if, Post-test, ℕ, ◌≡◌, Bytes, ◌==◌, Bool, true, false, none, some, [], ◌∷◌,
  if◌then◌else◌, All-append, arith, ok, ◌>>=◌, or_fault, out_of_range, guard, contract, undefined,
  leb,
}
use zero_mq_rfc_implementati.Base.Zmqpp.{
  Message, Zmqpp, take_text, get_text, pop_front, push_front, parts,
}
use zero_mq_rfc_implementati.Base.Dict.{lookup, contains, assign}
use zero_mq_rfc_implementati.Base.Dict.Entries.{lookup-Entries}
use zero_mq_rfc_implementati.Mdp.Protocol.{
  mdpc_client, mdpw_worker, ready, reply, heartbeat, disconnect, mmi_service, mmi_found,
  mmi_not_found, mmi_not_implemented,
}
use zero_mq_rfc_implementati.Mdp.Registry.{
  Worker, Broker, update_expiry, add_waiting_worker, worker_require, service_require,
}
use zero_mq_rfc_implementati.Mdp.Registry.Known.{Keyed}
use zero_mq_rfc_implementati.Mdp.Broker.{
  Times, not_valid, is_mmi, on_worker_reply, on_worker_ready, worker_process, service_internal,
  client_process, worker_waiting, on_message,
}
use zero_mq_rfc_implementati.Mdp.Broker.Account.Dispatched.{or_fault-ok}
use zero_mq_rfc_implementati.Mdp.Broker.Owned.{
  Serves, Owned, worker_delete-Owned, service_dispatch-Owned, assign_service-Owned, found-AllServe,
}
use zero_mq_rfc_implementati.Mdp.Broker.Owned.Workers.{
  renew-Owned, require-Owned, service_require-Owned, announce-Owned, renewed-Serves,
}

module _ ⦃z : Zmqpp⦄ where
  worker_waiting-Owned :
      (t u : ℕ) (key : Bytes) (b : Broker) → Owned b → Post Owned (worker_waiting t u key b)
  unfolding worker_waiting
  worker_waiting-Owned t u key b h =
      Post-bind _ (or_fault (lookup key b.workers) out_of_range) _ (λ w e.
        let name = w.service_name in
        let found : lookup key b.workers ≡ some w = or_fault-ok (lookup key b.workers) w e in
        let b₀ : Broker = record b { workers = assign key (update_expiry t w) b.workers } in
        let b₁ : Broker = service_require name b₀ in
        let h₁ : Owned b₁ = service_require-Owned name b₀ (renew-Owned key t w b found h) in
        Post-bind _ (or_fault (lookup name b₁.services) out_of_range) _ (λ s e₁.
          let last : Serves b₁.workers name w.identity =
            renewed-Serves key t w b (lookup-Entries Keyed key b.workers h.0 found) in
          service_dispatch-Owned u name none
            (record b₁ { services = assign name (add_waiting_worker w.identity s) b₁.services })
            (assign_service-Owned name (add_waiting_worker w.identity s) b₁
              (unfold add_waiting_worker in
                All-append (Serves b₁.workers name) s.waiting_workers (w.identity ∷ [])
                  (found-AllServe name s b₁ e₁ h₁) (last, tt))
              h₁)))

  on_worker_reply-Owned :
      (t : Times) (key : Bytes) (w : Worker) (m : Message) (b : Broker)
      → Owned b
      → Post Owned (on_worker_reply t key w m b)
  unfolding on_worker_reply
  on_worker_reply-Owned t key w m b h = Post-bind _ (take_text m) _ (λ (client, m') e.
      Post-bind _ (guard (leb 1 (parts m')) undefined) _
        (λ n e₁. worker_waiting-Owned t.updated_at t.purged_at key _ h))

  on_worker_ready-Owned :
      (t : Times) (i : Bytes) (w : Worker) (m : Message) (b : Broker)
      → contains i b.workers ≡ false
      → w.identity ≡ i
      → Owned b
      → Post Owned (on_worker_ready t i w m (worker_require t.required_at i b))
  unfolding on_worker_ready
  on_worker_ready-Owned t i w m b n e h = Post-bind _ (get_text m 0) _ (λ name e₁.
      worker_waiting-Owned t.updated_at t.purged_at i _
        (announce-Owned t.required_at i (record w { service_name = name }) b n e h))

  -- A worker that was registered before is not served by READY.
  ready_new :
      (cmd i : Bytes) (r : Bool) → not_valid cmd r i ≡ false → (cmd == ready) ≡ true → r ≡ false
  ready_new cmd i r v c = ground arith

  worker_process-Owned :
      (t : Times) (i : Bytes) (msg : Message) (b : Broker)
      → Owned b
      → Post Owned (worker_process t i msg b)
  unfolding worker_process
  worker_process-Owned t i msg b h = Post-bind _ (take_text msg) _ (λ (cmd, m) e.
      let b₁ : Broker = worker_require t.required_at i b in
      let h₁ : Owned b₁ = require-Owned t.required_at i b h in
      Post-bind _ (or_fault (lookup i b₁.workers) out_of_range) _ (λ w e₁.
        let found : lookup i b₁.workers ≡ some w = or_fault-ok (lookup i b₁.workers) w e₁ in
        Post-test _ (not_valid cmd (contains i b.workers) i) _ _
          (λ bad. worker_delete-Owned w.identity true b₁ h₁)
          (λ good. Post-if _ (cmd == heartbeat) _ _ (renew-Owned i t.updated_at w b₁ found h₁) (
            Post-if _ (cmd == reply) _ _ (on_worker_reply-Owned t i w m b₁ h₁) (
              Post-test _ (cmd == ready) _ _
                (λ announced.
                  on_worker_ready-Owned t i w m b
                    (ready_new cmd i (contains i b.workers) good announced)
                    (lookup-Entries Keyed i b₁.workers h₁.0 found) h)
                (λ other.
                  Post-if _ (cmd == disconnect) _ _ (worker_delete-Owned w.identity false b₁ h₁)
                    h₁))))))

  service_internal-Owned :
      (name : Bytes) (msg : Message) (b : Broker)
      → Owned b
      → Post Owned (service_internal name msg b)
  unfolding service_internal
  service_internal-Owned name msg b h = Post-bind _ (take_text msg) _ (λ (client, m₁) e.
      Post-bind _
        (if name == mmi_service
          then (do
            (body, m₂) ← take_text (pop_front m₁)
            ok (push_front m₂ (if contains body b.services then mmi_found else mmi_not_found)))
          else ok (push_front (pop_front m₁) mmi_not_implemented))
        _ (λ m₃ e₁. h))

  client_process-Owned :
      (t : Times) (client : Bytes) (m : Message) (b : Broker)
      → Owned b
      → Post Owned (client_process t client m b)
  unfolding client_process
  client_process-Owned t client m b h = Post-bind _ (guard (leb 2 (parts m)) contract) _ (λ u e.
      Post-bind _ (take_text m) _ (λ (name, m₁) e₁.
        let b₁ : Broker = service_require name b in
        let h₁ : Owned b₁ = service_require-Owned name b h in
        let m' : Message = push_front (push_front m₁ []) client in
        Post-if _ (is_mmi name) _ _ (service_internal-Owned name m' b₁ h₁)
          (service_dispatch-Owned t.purged_at name (some m') b₁ h₁)))

  pub on_message-Owned :
      (t : Times) (msg : Message) (b : Broker) → Owned b → Post Owned (on_message t msg b)
  unfolding on_message
  on_message-Owned t msg b h = Post-bind _ (take_text msg) _ (λ (sender, m₁) e.
      Post-bind _ (take_text (pop_front m₁)) _ (λ (header, m₂) e₁.
        Post-if _ (header == mdpc_client) _ _ (client_process-Owned t sender m₂ b h)
          (Post-if _ (header == mdpw_worker) _ _ (worker_process-Owned t sender m₂ b h) h)))
