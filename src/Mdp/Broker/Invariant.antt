-- ===== src/Mdp/Broker/Invariant.antt =====
-- The broker's invariant under the handlers.
use zero_mq_rfc_implementati.Base.{
  ℕ, ◌≡◌, refl, ◌∙◌, ap, inl, inr, ◌⊎◌, Bytes, ◌==◌, ==_iff, Bool, true, false, some, [], ◌∷◌, ◌++◌,
  if◌then◌else◌, length, Bool-cases, Result, ok, err, contract, missing_part, undefined,
}
use zero_mq_rfc_implementati.Base.Zmqpp.{
  parts_eq, push_front_eq, pop_front_eq, Message, Zmqpp, take_text-nil, take_text-cons, get_text_eq,
  get_text_zero,
}
use zero_mq_rfc_implementati.Base.Dict.{contains}
use zero_mq_rfc_implementati.Base.Dict.Entries.{
  lookup_of_contains, lookup-Entries, contains-insert_self, contains-assign_self,
}
use zero_mq_rfc_implementati.Mdp.Protocol.{
  mmi_service, disconnect, heartbeat, reply, ready, mdpc_client, mdpw_worker,
}
use zero_mq_rfc_implementati.Mdp.Registry.{
  worker_delete, Worker, Broker, update_expiry, worker_envelope, service_require, worker_require,
}
use zero_mq_rfc_implementati.Mdp.Registry.Known.{
  delete-IsKnown, IsWorker, IsKnown, Keyed, without, assign_worker-IsKnown, service_require-IsKnown,
  worker_require-IsKnown,
}
use zero_mq_rfc_implementati.Mdp.Registry.Purge.{worker_delete-quiet, worker_delete-disconnect}
use zero_mq_rfc_implementati.Mdp.Broker.{
  not_valid, service_internal, is_mmi, on_worker_reply, on_worker_ready, worker_process,
  client_process, on_message, Times,
}
use zero_mq_rfc_implementati.Mdp.Broker.Mmi.{
  some_parts, two_parts, service_internal_lem, service_internal_short,
}
use zero_mq_rfc_implementati.Mdp.Broker.Waiting.{
  required, Succeeds, service_dispatch-Succeeds, worker_waiting-Succeeds, sent-IsKnown,
}

module _ ⦃z : Zmqpp⦄ where
  worker_delete-Succeeds :
      (i : Bytes) (d : Bool) (b : Broker)
      → IsWorker b.workers i
      → IsKnown b
      → Succeeds (worker_delete i d b)
  worker_delete-Succeeds i false b h v =
      (without i b, worker_delete-quiet i b h, delete-IsKnown i b v)
  worker_delete-Succeeds i true b h v =
      let b' : Broker = record b { sent = b.sent ++ worker_envelope i disconnect [] [] ∷ [] } in
      (without i b', worker_delete-disconnect i b h, delete-IsKnown i b' (sent-IsKnown b b'.sent v))

  -- The operation succeeds, or the message lacks a frame that it reads.
  abbrev pub Tried : Result Broker → Type 0
  Tried r = Succeeds r ⊎ (r ≡ err missing_part)

  -- Or, where `Bare` holds, it removes the first frame of a message that has none.
  abbrev Handled : Type 0 → Result Broker → Type 0
  Handled Bare r = Tried r ⊎ ((r ≡ err undefined) × Bare)

  Tried-if : (c : Bool) (x y : Result Broker) → Tried x → Tried y → Tried (if c then x else y)
  Tried-if true x y h k = h
  Tried-if false x y h k = k

  Handled-if :
      (Bare : Type 0) (c : Bool) (x y : Result Broker)
      → (c ≡ true → Handled Bare x)
      → Handled Bare y
      → Handled Bare (if c then x else y)
  Handled-if Bare true x y h k = h refl
  Handled-if Bare false x y h k = k

  on_worker_reply-Handled :
      (t : Times) (key : Bytes) (w : Worker) (m : Message) (b : Broker)
      → IsWorker b.workers key
      → IsKnown b
      → Handled ((client : Bytes) × (m ≡ client ∷ [])) (on_worker_reply t key w m b)
  unfolding on_worker_reply
  on_worker_reply-Handled t key w [] b h v = inl (inr (rw take_text-nil))
  on_worker_reply-Handled t key w (client ∷ []) b h v =
      inr (rw (take_text-cons, parts_eq) refl, (client, refl))
  on_worker_reply-Handled t key w (client ∷ f ∷ m) b h v = inl (
      inl (
        rw (take_text-cons, parts_eq, some_parts (length m))
          (worker_waiting-Succeeds t.updated_at t.purged_at key _ h (sent-IsKnown b _ v))))

  on_worker_ready-Tried :
      (t : Times) (key : Bytes) (w : Worker) (m : Message) (b : Broker)
      → w.identity ≡ key
      → IsKnown b
      → Tried (on_worker_ready t key w m b)
  unfolding on_worker_ready
  on_worker_ready-Tried t key w [] b e v = inr (rw get_text_eq)
  on_worker_ready-Tried t key w (f ∷ m) b e v = inl (
      rw get_text_zero (
        worker_waiting-Succeeds t.updated_at t.purged_at key _
          (contains-assign_self key (record w { service_name = f }) b.workers)
          (assign_worker-IsKnown key (record w { service_name = f }) b e v)))

  required-IsWorker :
      (now : ℕ) (i : Bytes) (b : Broker) → IsWorker (worker_require now i b).workers i
  unfolding worker_require
  required-IsWorker now i b = contains-insert_self i _ b.workers

  as_reply :
      (cmd : Bytes) (m : Message) (r : Result Broker)
      → (cmd == reply) ≡ true
      → Handled ((client : Bytes) × (m ≡ client ∷ [])) r
      → Handled ((client : Bytes) × (cmd ∷ m ≡ reply ∷ client ∷ [])) r
  as_reply cmd m r is (inl tried) = inl tried
  as_reply cmd m r is (inr (e, (client, bare))) =
      inr (e, (client, ap (λ c. c ∷ m) ((==_iff cmd reply).0 is) ∙ ap (λ n. reply ∷ n) bare))

  worker_process-Handled :
      (t : Times) (i : Bytes) (msg : Message) (b : Broker)
      → IsKnown b
      → Handled ((client : Bytes) × (msg ≡ reply ∷ client ∷ [])) (worker_process t i msg b)
  worker_process-Handled t i [] b v = inl (inr (unfold worker_process in rw take_text-nil))
  worker_process-Handled t i (cmd ∷ m) b v =
      let b₁ : Broker = worker_require t.required_at i b in
      let v₁ : IsKnown b₁ = worker_require-IsKnown t.required_at i b v in
      let (w, e) = lookup_of_contains i b₁.workers (required-IsWorker t.required_at i b) in
      let same : w.identity ≡ i = lookup-Entries Keyed i b₁.workers v₁.keyed e in
      let here : IsWorker b₁.workers w.identity = rw same (required-IsWorker t.required_at i b) in
      unfold worker_process in
      rw (take_text-cons, e)
        (Handled-if _ (not_valid cmd (contains i b.workers) i) _ _
          (λ n. inl (inl (worker_delete-Succeeds w.identity true b₁ here v₁)))
          (Handled-if _ (cmd == heartbeat) _ _
            (λ n. inl (
              inl (
                _,
                refl,
                assign_worker-IsKnown i (update_expiry t.updated_at w) b₁
                    (unfold update_expiry in same) v₁,
              )))
            (Handled-if _ (cmd == reply) _ _
              (λ is.
                as_reply cmd m _ is
                  (on_worker_reply-Handled t i w m b₁ (required-IsWorker t.required_at i b) v₁))
              (inl (
                Tried-if (cmd == ready) _ _ (on_worker_ready-Tried t i w m b₁ same v₁) (
                  Tried-if (cmd == disconnect) _ _
                    (inl (worker_delete-Succeeds w.identity false b₁ here v₁))
                    (inl (b₁, refl, v₁))))))))

  service_internal-Tried :
      (name client : Bytes) (m : Message) (b : Broker)
      → IsKnown b
      → Tried (service_internal name (client ∷ [] ∷ m) b)
  service_internal-Tried name client [] b v =
      rw service_internal_short
        (Tried-if (name == mmi_service) _ _ (inr refl) (inl (_, refl, sent-IsKnown b _ v)))
  service_internal-Tried name client (f ∷ m) b v =
      inl (_, service_internal_lem name client f m b, sent-IsKnown b _ v)

  -- A client's message of fewer than two frames behind the header fails the handler's contract.
  abbrev pub IsShort : Message → Type 0
  IsShort [] = Unit {0}
  IsShort (f ∷ []) = Unit {0}
  IsShort (f ∷ g ∷ m) = ⊥

  client_process-short :
      (t : Times) (client : Bytes) (m : Message) (b : Broker)
      → IsShort m
      → client_process t client m b ≡ err contract
  unfolding client_process
  client_process-short t client [] b h = rw parts_eq
  client_process-short t client (f ∷ []) b h = rw parts_eq
  client_process-short t client (f ∷ g ∷ m) b h = absurd h

  client_process-Tried :
      (t : Times) (client : Bytes) (m : Message) (b : Broker)
      → IsKnown b
      → Tried (client_process t client m b)
        ⊎ ((client_process t client m b ≡ err contract) × IsShort m)
  client_process-Tried t client [] b v = inr (client_process-short t client [] b tt, tt)
  client_process-Tried t client (f ∷ []) b v = inr (client_process-short t client (f ∷ []) b tt, tt)
  client_process-Tried t client (name ∷ f ∷ m) b v = inl (
      unfold client_process in
      rw (parts_eq, two_parts (length m), take_text-cons)
        (simp push_front_eq (
          Tried-if (is_mmi name) _ _
            (service_internal-Tried name client (f ∷ m) (service_require name b)
              (service_require-IsKnown name b v))
            (inl (
              service_dispatch-Succeeds t.purged_at name (some (client ∷ [] ∷ f ∷ m))
                (service_require name b) (required name b) (service_require-IsKnown name b v))))))

  pub on_message-client :
      (t : Times) (sender first header : Bytes) (m : Message) (b : Broker)
      → (header == mdpc_client) ≡ true
      → on_message t (sender ∷ first ∷ header ∷ m) b ≡ client_process t sender m b
  unfolding on_message
  on_message-client t sender first header m b h =
      rw (take_text-cons, pop_front_eq, take_text-cons, h)

  pub on_message-other :
      (t : Times) (sender first header : Bytes) (m : Message) (b : Broker)
      → (header == mdpc_client) ≡ false
      → on_message t (sender ∷ first ∷ header ∷ m) b
        ≡ (if header == mdpw_worker then worker_process t sender m b else ok b)
  unfolding on_message
  on_message-other t sender first header m b h =
      rw (take_text-cons, pop_front_eq, take_text-cons, h)

  -- Whatever message a router socket delivers, which has the sender's identity and one frame at
  -- least, to a broker that satisfies the invariant, one of four things happens. The handler returns and
  -- the invariant holds again; or the message lacks a frame that the handler reads; or it is a client's
  -- message with fewer than two frames behind the header, which fails the handler's contract; or it is
  -- a worker's REPLY that ends with the client's address, and the handler removes the first frame of a
  -- message that has none. So no lookup of a worker or a service fails, and no other contract.
  pub on_message-IsKnown :
      (t : Times) (sender first : Bytes) (m : Message) (b : Broker)
      → IsKnown b
      → Tried (on_message t (sender ∷ first ∷ m) b)
        ⊎ ((on_message t (sender ∷ first ∷ m) b ≡ err contract)
            × ((n : Message) × (m ≡ mdpc_client ∷ n) × IsShort n))
        ⊎ ((on_message t (sender ∷ first ∷ m) b ≡ err undefined)
            × ((client : Bytes) × (m ≡ mdpw_worker ∷ reply ∷ client ∷ [])))
  on_message-IsKnown t sender first [] b v =
      inl (inr (unfold on_message in simp (take_text-cons, pop_front_eq, take_text-nil)))
  on_message-IsKnown t sender first (header ∷ m) b v = elim (Bool-cases (header == mdpc_client)) [
    | inl client ↦ elim (client_process-Tried t sender m b v) [
      | inl tried ↦ inl (rw (on_message-client t sender first header m b client) tried)
      | inr (e, short) ↦ inr (
          inl (
            on_message-client t sender first header m b client ∙ e,
            (m, ap (λ h. h ∷ m) ((==_iff header mdpc_client).0 client), short),
          ))
    ]
    | inr other ↦ elim (Bool-cases (header == mdpw_worker)) [
      | inl worker ↦
          let same = on_message-other t sender first header m b other ∙ rw worker refl in
          elim (worker_process-Handled t sender m b v) [
            | inl tried ↦ inl (rw same tried)
            | inr (e, (client, bare)) ↦ inr (
                inr (
                  same ∙ e,
                  (
                    client,
                    ap (λ h. h ∷ m) ((==_iff header mdpw_worker).0 worker)
                        ∙ ap (λ n. mdpw_worker ∷ n) bare,
                  ),
                ))
          ]
      | inr neither ↦
          inl (inl (b, on_message-other t sender first header m b other ∙ rw neither refl, v))
    ]
  ]
