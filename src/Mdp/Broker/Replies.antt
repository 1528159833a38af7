-- ===== src/Mdp/Broker/Replies.antt =====
-- The commands of a worker: what the broker does with each.
use zero_mq_rfc_implementati.Base.{
  ℕ, ◌≡◌, refl, ◌∙◌, Bytes, ◌==◌, true, false, some, [], ◌∷◌, ◌++◌, if◌then◌else◌, length, ok,
}
use zero_mq_rfc_implementati.Base.Zmqpp.{Message, Zmqpp, take_text-cons, pop_front_eq, parts_eq}
use zero_mq_rfc_implementati.Base.Dict.{lookup, contains, insert, assign}
use zero_mq_rfc_implementati.Base.Dict.Entries.{contains_of_lookup}
use zero_mq_rfc_implementati.Mdp.Protocol.{
  mdpc_client, mdpw_worker, ready, reply, heartbeat, disconnect,
}
use zero_mq_rfc_implementati.Mdp.Registry.{
  Worker, Broker, update_expiry, worker_require, worker_delete,
}
use zero_mq_rfc_implementati.Mdp.Broker.{
  Times, not_valid, worker_waiting, on_worker_reply, on_worker_ready, worker_process, on_message,
}
use zero_mq_rfc_implementati.Mdp.Broker.Mmi.{some_parts, client_envelope_lem}

require_known :
    (now : ℕ) (i : Bytes) (b : Broker) → contains i b.workers ≡ true → worker_require now i b ≡ b
unfolding worker_require insert
require_known now i b h = rw h

module _ ⦃z : Zmqpp⦄ where
  worker_process-known :
      (t : Times) (i cmd : Bytes) (m : Message) (w : Worker) (b : Broker)
      → lookup i b.workers ≡ some w
      → worker_process t i (cmd ∷ m) b ≡ (
          if not_valid cmd true i
          then worker_delete w.identity true b
          else if cmd == heartbeat
          then ok (record b { workers = assign i (update_expiry t.updated_at w) b.workers })
          else if cmd == reply
          then on_worker_reply t i w m b
          else if cmd == ready
          then on_worker_ready t i w m b
          else if cmd == disconnect
          then worker_delete w.identity false b
          else ok b)
  unfolding worker_process
  worker_process-known t i cmd m w b h = rw (
    take_text-cons,
    contains_of_lookup i b.workers h,
    require_known t.required_at i b (contains_of_lookup i b.workers h),
    h,
  )

  on_message-worker :
      (t : Times) (i first : Bytes) (m : Message) (b : Broker)
      → on_message t (i ∷ first ∷ mdpw_worker ∷ m) b ≡ worker_process t i m b
  unfolding on_message ◌==◌
  on_message-worker t i first m b = rw (take_text-cons, pop_front_eq, take_text-cons)

  -- A registered worker's reply goes to the client that it names, behind the client's envelope and
  -- the name of the worker's service, the body unchanged; the worker then waits for work again.
  pub on_message-reply :
      (t : Times) (i first client delimiter : Bytes) (body : Message) (w : Worker) (b : Broker)
      → lookup i b.workers ≡ some w
      → on_message t (i ∷ first ∷ mdpw_worker ∷ reply ∷ client ∷ delimiter ∷ body) b
        ≡ worker_waiting t.updated_at t.purged_at i
            (record b { sent = b.sent ++ (client ∷ [] ∷ mdpc_client ∷ w.service_name ∷ body) ∷ [] })
  on_message-reply t i first client delimiter body w b h =
      on_message-worker t i first _ b
      ∙ worker_process-known t i reply _ w b h
      ∙ unfold on_worker_reply ◌==◌ in
        rw (take_text-cons, parts_eq, some_parts (length body), pop_front_eq, client_envelope_lem)

  -- A heartbeat of a registered worker renews its time and does nothing else.
  pub on_message-heartbeat :
      (t : Times) (i first : Bytes) (m : Message) (w : Worker) (b : Broker)
      → lookup i b.workers ≡ some w
      → on_message t (i ∷ first ∷ mdpw_worker ∷ heartbeat ∷ m) b
        ≡ ok (record b { workers = assign i (update_expiry t.updated_at w) b.workers })
  on_message-heartbeat t i first m w b h =
      on_message-worker t i first _ b
      ∙ worker_process-known t i heartbeat _ w b h
      ∙ unfold ◌==◌ in refl

  -- A worker that is registered and announces itself again is told to disconnect and is deleted.
  pub on_message-ready_again :
      (t : Times) (i first : Bytes) (m : Message) (w : Worker) (b : Broker)
      → lookup i b.workers ≡ some w
      → on_message t (i ∷ first ∷ mdpw_worker ∷ ready ∷ m) b ≡ worker_delete w.identity true b
  on_message-ready_again t i first m w b h =
      on_message-worker t i first _ b ∙ worker_process-known t i ready _ w b h ∙ unfold ◌==◌ in refl
