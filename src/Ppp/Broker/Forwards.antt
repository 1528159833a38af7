-- ===== src/Ppp/Broker/Forwards.antt =====
-- What passes through the broker in a run.
use zero_mq_rfc_implementati.Base.{
  ℕ, ◌≡◌, refl, ◌∙◌, sym, ap, List, [], ◌∷◌, ◌++◌, All, Result, ok, err, append-nil, append_assoc,
  Post,
}
use zero_mq_rfc_implementati.Base.Zmqpp.{Message, Zmqpp}
use zero_mq_rfc_implementati.Ppp.Broker.{Round, Broker, polled_frontend, round, run, start}
use zero_mq_rfc_implementati.Ppp.Broker.Queueing.{run-IsUnique}
use zero_mq_rfc_implementati.Ppp.WorkerQueue.Laws.{IsUnique}
use zero_mq_rfc_implementati.Ppp.Broker.Passes.{
  IsLong, Passes, round-Passes, requests_in, as_list, reply_in,
}

module _ ⦃z : Zmqpp⦄ where
  -- The messages that the rounds of a run read from the frontend, and the replies in those that they
  -- read from the backend.
  unfoldable pub asked : Broker → List Round → List Message
  asked b [] = []
  asked b (r ∷ rs) = elim (round r b) [
    | ok b' ↦ as_list (polled_frontend r b) ++ asked b' rs
    | err f ↦ []
  ]

  unfoldable pub replied : Broker → List Round → List Message
  replied b [] = []
  replied b (r ∷ rs) = elim (round r b) [ ok b' ↦ reply_in r.backend ++ replied b' rs | err f ↦ [] ]

  run_on :
      (r : Round) (rs : List Round) (b : Broker) (o : Result Broker)
      → round r b ≡ o
      → Post (Passes (as_list (polled_frontend r b)) (reply_in r.backend) b) o
      → ((b' : Broker) → Passes (asked b' rs) (replied b' rs) b' (run b' rs))
      → Passes (asked b (r ∷ rs)) (replied b (r ∷ rs)) b (run b (r ∷ rs))
  unfolding run asked replied
  run_on r rs b (ok b') q (s, t) next =
      let (v, w) = next b' in
      rw (q, run, asked, replied)
        (
          v
              ∙ ap (λ ms. ms ++ asked b' rs) s
              ∙ append_assoc (requests_in b.to_backend) (as_list (polled_frontend r b))
                  (asked b' rs),
          w
              ∙ ap (λ ms. ms ++ replied b' rs) t
              ∙ append_assoc b.to_frontend (reply_in r.backend) (replied b' rs),
        )
  run_on r rs b (err f) q h next =
      rw (q, run, asked, replied)
        (sym (append-nil (requests_in b.to_backend)), sym (append-nil b.to_frontend))

  run-Passes :
      (b : Broker) (rs : List Round)
      → All (λ r. IsLong r.frontend) rs
      → Passes (asked b rs) (replied b rs) b (run b rs)
  run-Passes b [] l =
      unfold run asked replied in
      (sym (append-nil (requests_in b.to_backend)), sym (append-nil b.to_frontend))
  run-Passes b (r ∷ rs) l =
      run_on r rs b (round r b) refl (round-Passes r b l.0) (λ b'. run-Passes b' rs l.1)

  -- In every run, whatever the workers send and whenever the clock is read, where the messages that the
  -- frontend delivers have the client's identity and a frame: the requests sent to workers are the
  -- messages that the rounds read from the frontend, and the messages sent to clients are the replies
  -- that they read from the backend, each once, in their order and with their frames unchanged behind
  -- the identity of the worker. The rounds are those that end normally. No worker is queued twice.
  pub run_forwards :
      (now : ℕ) (rs : List Round)
      → All (λ r. IsLong r.frontend) rs
      → let b = run (start now) rs in
        (requests_in b.to_backend ≡ asked (start now) rs)
        × (b.to_frontend ≡ replied (start now) rs)
        × IsUnique b.queue
  run_forwards now rs l =
      let (s, t) = run-Passes (start now) rs l in
      (unfold start in s, unfold start in t, run-IsUnique (start now) rs (unfold start in tt))
