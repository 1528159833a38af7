-- ===== src/Mdp/Exchange.antt =====
-- A request from a client to a worker and its reply back, through the three programs.
use zero_mq_rfc_implementati.Base.{
  ℕ, suc, ◌≡◌, Bytes, c_str, is_empty, ◌==◌, true, false, some, [], ◌∷◌, ◌++◌, leb, arith, ok,
  length,
}
use zero_mq_rfc_implementati.Base.Zmqpp.{
  Message, Zmqpp, pop_front, push_front_eq, pop_front_eq, take_text-cons, get_text_zero, parts_eq,
}
use zero_mq_rfc_implementati.Mdp.Protocol.{mdpw_worker, request, reply, heartbeat_liveness}
use zero_mq_rfc_implementati.Mdp.Registry.{worker_envelope}
use zero_mq_rfc_implementati.Mdp.WorkerApi
use zero_mq_rfc_implementati.Mdp.WorkerApi.{broker_envelope, send_to_broker}

three_parts : (n : ℕ) → leb 3 (suc (suc (suc n))) ≡ true
three_parts n = ground arith

module _ ⦃z : Zmqpp⦄ where
  pub worker_envelope_request :
      (i : Bytes) (m : Message)
      → worker_envelope i request [] m ≡ i ∷ [] ∷ mdpw_worker ∷ request ∷ m
  unfolding worker_envelope c_str
  worker_envelope_request i m = simp push_front_eq

  -- A request that the broker sends to a worker, less the identity by which the router socket
  -- delivers it, is handed to the worker's caller: the client's frames unchanged, and the client
  -- remembered as the one to reply to.
  pub on_message-worker_envelope :
      (now : ℕ) (i client : Bytes) (body : Message) (s : WorkerApi.Session)
      → WorkerApi.on_message now (pop_front (worker_envelope i request [] (client ∷ [] ∷ body))) s
        ≡ ok (some body, record s { liveness = heartbeat_liveness; reply_to = client })
  unfolding WorkerApi.on_message ◌==◌
  on_message-worker_envelope now i client body s =
      rw (worker_envelope_request, pop_front_eq, parts_eq, three_parts (suc (suc (length body))))
        (simp (take_text-cons, get_text_zero, pop_front_eq))

  broker_envelope-reply : (m : Message) → broker_envelope reply [] m ≡ [] ∷ mdpw_worker ∷ reply ∷ m
  unfolding broker_envelope c_str
  broker_envelope-reply m = simp push_front_eq

  -- The worker's reply is sent with the remembered client's address, which is forgotten.
  pub send-reply :
      (client : Bytes) (body : Message) (s : WorkerApi.Session)
      → is_empty s.reply_to ≡ false
      → WorkerApi.send (some body) s
        ≡ ok (record s {
          reply_to = [];
          sent = s.sent ++ ([] ∷ mdpw_worker ∷ reply ∷ s.reply_to ∷ [] ∷ body) ∷ [];
        })
  unfolding WorkerApi.send send_to_broker
  send-reply client body s h = rw h (simp push_front_eq (rw broker_envelope-reply))
