-- ===== src/Mdp/Broker/Account/Handled.antt =====
-- The clients' requests in the handlers.
use zero_mq_rfc_implementati.Base.{
  Post, Post-bind, Post-mono, Post-if, ℕ, inl, inr, Bytes, ◌==◌, c_str, Bool, true, false, none,
  some, [], ◌∷◌, ◌++◌, if◌then◌else◌, arith, Bool-cases, ok, ◌>>=◌, or_fault, out_of_range,
  undefined, guard, leb, length,
}
use zero_mq_rfc_implementati.Base.Zmqpp.{
  Message, Zmqpp, take_text, get_text, pop_front, push_front, take_text-nil, take_text-cons,
  pop_front_eq, push_front_eq, parts_eq, parts,
}
use zero_mq_rfc_implementati.Base.Dict.{Dict, lookup, contains, assign}
use zero_mq_rfc_implementati.Mdp.Protocol.{
  mdpc_client, mdpw_worker, ready, reply, heartbeat, disconnect, mmi_service, mmi_found,
  mmi_not_found, mmi_not_implemented,
}
use zero_mq_rfc_implementati.Mdp.Registry.{
  Worker, Broker, update_expiry, worker_require, service_require,
}
use zero_mq_rfc_implementati.Mdp.Registry.Totals.{weight, handed_over-append, carried-client}
use zero_mq_rfc_implementati.Mdp.Broker.{
  Times, client_envelope, not_valid, is_mmi, on_worker_reply, on_worker_ready, worker_process,
  service_internal, client_process, service_dispatch, worker_waiting, on_message,
}
use zero_mq_rfc_implementati.Mdp.Broker.Mmi.{client_envelope_lem, two_parts}
use zero_mq_rfc_implementati.Mdp.Broker.Invariant.{on_message-client, on_message-other}
use zero_mq_rfc_implementati.Mdp.Broker.Account.{Moves, Moves-trans, worker_delete-Moves}
use zero_mq_rfc_implementati.Mdp.Broker.Account.Dispatched.{
  except, service_require-Moves, service_dispatch-Moves, worker_waiting-Moves,
}

module _ ⦃z : Zmqpp⦄ (p : Message → Bool) where
  reply_sent-Moves :
      (client service : Bytes) (m : Message) (b : Broker)
      → Moves p none none 0 b (record b { sent = b.sent ++ client_envelope client service m ∷ [] })
  reply_sent-Moves client service m b = (
    (λ h. h),
    rw client_envelope_lem (
        omega (
          arith,
          handed_over-append p b.sent ((client ∷ [] ∷ mdpc_client ∷ service ∷ m) ∷ []),
          carried-client p client service m,
        )),
  )

  workers-Moves :
      (ws : Dict Worker) (b : Broker) → Moves p none none 0 b (record b { workers = ws })
  workers-Moves ws b = ((λ h. h), omega arith)

  waiting_after :
      (t u : ℕ) (key : Bytes) (a b : Broker)
      → Moves p none none 0 a b
      → Post (Moves p none none 0 a) (worker_waiting t u key b)
  waiting_after t u key a b x =
      Post-mono (Moves p none none 0 b) _ (worker_waiting t u key b)
        (λ c y. Moves-trans p none none none 0 0 a b c x y) (worker_waiting-Moves p t u key b)

  on_worker_reply-Moves :
      (t : Times) (key : Bytes) (w : Worker) (m : Message) (b : Broker)
      → Post (Moves p none none 0 b) (on_worker_reply t key w m b)
  unfolding on_worker_reply
  on_worker_reply-Moves t key w m b = Post-bind _ (take_text m) _ (λ (client, m') e.
      Post-bind _ (guard (leb 1 (parts m')) undefined) _ (λ n e₁.
        waiting_after t.updated_at t.purged_at key b _
          (reply_sent-Moves client w.service_name (pop_front m') b)))

  on_worker_ready-Moves :
      (t : Times) (key : Bytes) (w : Worker) (m : Message) (b : Broker)
      → Post (Moves p none none 0 b) (on_worker_ready t key w m b)
  unfolding on_worker_ready
  on_worker_ready-Moves t key w m b = Post-bind _ (get_text m 0) _ (λ name e.
      waiting_after t.updated_at t.purged_at key b _
        (workers-Moves (assign key (record w { service_name = name }) b.workers) b))

  worker_process-Moves :
      (t : Times) (i : Bytes) (msg : Message) (b : Broker)
      → Post (Moves p none none 0 b) (worker_process t i msg b)
  unfolding worker_process worker_require
  worker_process-Moves t i msg b = Post-bind _ (take_text msg) _ (λ (cmd, m) e.
      let b₁ : Broker = worker_require t.required_at i b in
      Post-bind _ (or_fault (lookup i b₁.workers) out_of_range) _ (λ w e₁.
        Post-if _ (not_valid cmd (contains i b.workers) i) _ _
          (worker_delete-Moves p none w.identity true b₁)
          (Post-if _ (cmd == heartbeat) _ _
            (workers-Moves (assign i (update_expiry t.updated_at w) b₁.workers) b₁)
            (Post-if _ (cmd == reply) _ _ (on_worker_reply-Moves t i w m b₁) (
              Post-if _ (cmd == ready) _ _ (on_worker_ready-Moves t i w m b₁) (
                Post-if _ (cmd == disconnect) _ _ (worker_delete-Moves p none w.identity false b₁)
                  ((λ h. h), omega arith)))))))

  service_internal-Moves :
      (name : Bytes) (msg : Message) (b : Broker)
      → Post (Moves p none none 0 b) (service_internal name msg b)
  unfolding service_internal
  service_internal-Moves name msg b = Post-bind _ (take_text msg) _ (λ (client, m₁) e.
      Post-bind _
        (if name == mmi_service
          then (do
            (body, m₂) ← take_text (pop_front m₁)
            ok (push_front m₂ (if contains body b.services then mmi_found else mmi_not_found)))
          else ok (push_front (pop_front m₁) mmi_not_implemented))
        _ (λ m₃ e₁. reply_sent-Moves client (c_str name) m₃ b))

  -- A client's message behind the header asks for a service with its first frame: what the broker
  -- keeps of it is the client's identity, an empty frame and the rest.
  abbrev pub wanted : Bytes → Message → ℕ
  wanted client [] = 0
  wanted client (name ∷ m) = if is_mmi name then 0 else weight p (client ∷ [] ∷ m)

  client_process-Moves :
      (t : Times) (client : Bytes) (m : Message) (b : Broker)
      → Post (Moves p none none (wanted client m) b) (client_process t client m b)
  unfolding client_process
  client_process-Moves t client [] b = rw parts_eq tt
  client_process-Moves t client (f ∷ []) b = rw parts_eq tt
  client_process-Moves t client (name ∷ f ∷ m) b =
      let b₁ : Broker = service_require name b in
      let x : Moves p none none 0 b b₁ = service_require-Moves p name b in
      rw (parts_eq, two_parts (length m), take_text-cons)
        (simp push_front_eq (elim (Bool-cases (is_mmi name)) [
          | inl mmi ↦ rw mmi (
              Post-mono (Moves p none none 0 b₁) _ (service_internal name (client ∷ [] ∷ f ∷ m) b₁)
                (λ c y. Moves-trans p none none none 0 0 b b₁ c x y)
                (service_internal-Moves name (client ∷ [] ∷ f ∷ m) b₁))
          | inr other ↦ rw other (
              Post-mono (Moves p (some name) none (weight p (client ∷ [] ∷ f ∷ m)) b₁) _
                (service_dispatch t.purged_at name (some (client ∷ [] ∷ f ∷ m)) b₁)
                (λ c y. ((λ h. y.0 (except name b₁.services (x.0 h))), omega (arith, x.1, y.1)))
                (service_dispatch-Moves p t.purged_at name (some (client ∷ [] ∷ f ∷ m)) b₁))
        ]))

  -- What a message to the broker adds.
  abbrev pub wanted_by : Message → ℕ
  wanted_by (sender ∷ first ∷ header ∷ m) = if header == mdpc_client then wanted sender m else 0
  wanted_by _ = 0

  pub on_message-Moves :
      (t : Times) (sender first : Bytes) (m : Message) (b : Broker)
      → Post
          (Moves p none none (wanted_by (sender ∷ first ∷ m)) b)
          (on_message t (sender ∷ first ∷ m) b)
  on_message-Moves t sender first [] b =
      unfold on_message in simp (take_text-cons, pop_front_eq, take_text-nil) tt
  on_message-Moves t sender first (header ∷ m) b = elim (Bool-cases (header == mdpc_client)) [
    | inl client ↦
        rw (on_message-client t sender first header m b client, client)
          (client_process-Moves t sender m b)
    | inr other ↦
        rw (on_message-other t sender first header m b other, other)
          (Post-if _ (header == mdpw_worker) _ _ (worker_process-Moves t sender m b)
            ((λ h. h), omega arith))
  ]
