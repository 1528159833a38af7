-- ===== src/Mdp/Worker/Answers.antt =====
-- 7.MDF-Majordomo Protocol/worker: what the loop of a worker answers.
use zero_mq_rfc_implementati.Base.{
  ℕ, ◌≡◌, refl, ◌∙◌, sym, ap, Bytes, is_empty, true, Bool-cases, Option, none, some, List, [], ◌∷◌,
  ◌++◌, ◌==◌, append_assoc, append-nil, Result, Result-cases, ok, err, contract, ◌>>=◌, inl, inr,
}
use zero_mq_rfc_implementati.Base.Zmqpp.{Message, Zmqpp}
use zero_mq_rfc_implementati.Mdp.Protocol.{mdpw_worker, reply}
use zero_mq_rfc_implementati.Mdp.WorkerApi.{Session, Round, create, connect_to_broker, send, recv}
use zero_mq_rfc_implementati.Mdp.Exchange.{send-reply}
use zero_mq_rfc_implementati.Mdp.Worker.{answer, work, run}
use zero_mq_rfc_implementati.Mdp.Worker.Received.{
  Asked, first_asked, replies, replies-append, replies-connect_to_broker,
}
use zero_mq_rfc_implementati.Mdp.Worker.Rounds.{recv-Kept}

abbrev pub and_then : Option Asked → List Asked → List Asked
and_then none later = []
and_then (some a) later = a ∷ later

-- The requests of the calls, up to one that has none.
abbrev pub all_asked : List (List Round) → List Asked
all_asked [] = []
all_asked (rs ∷ calls) = and_then (first_asked rs) (all_asked calls)

abbrev pub reply_to_client : Bytes → Message → Message
reply_to_client client m = [] ∷ mdpw_worker ∷ reply ∷ client ∷ [] ∷ m

-- Each request handled in turn, and the answers.
abbrev pub handle_all {ℓ} :
    {W : Type ℓ} → (Message → W → Result (Message × W)) → List Asked → W → Result (List Message × W)
handle_all handle [] w = ok ([], w)
handle_all handle ((client, body) ∷ rest) w = do
  (m, w') ← handle body w
  (ms, w'') ← handle_all handle rest w'
  ok (reply_to_client client m ∷ ms, w'')

module _ ⦃z : Zmqpp⦄ where
  send-unset :
      (rep : Message) (s : Session) → is_empty s.reply_to ≡ true → send (some rep) s ≡ err contract
  unfolding send
  send-unset rep s h = rw h refl

  send-replies :
      (rep : Message) (s s' : Session)
      → send (some rep) s ≡ ok s'
      → replies s'.sent ≡ replies s.sent ++ reply_to_client s.reply_to rep ∷ []
  unfolding ◌==◌
  send-replies rep s s' h = elim (Bool-cases (is_empty s.reply_to)) [
    | inl e ↦ cc (send-unset rep s e, h)
    | inr e ↦
        let done = sym (send-reply s.reply_to rep s e) ∙ h in
        let same : record s { reply_to = []; sent = s.sent ++ reply_to_client s.reply_to rep ∷ [] }
            ≡ s' =
          cc done in
        sym (ap (λ t. replies t.sent) same)
        ∙ replies-append s.sent (reply_to_client s.reply_to rep ∷ [])
  ]

module _ {ℓ} ⦃z : Zmqpp⦄ {W : Type ℓ} (handle : Message → W → Result (Message × W)) where
  work-answers :
      (calls : List (List Round)) (s s' : Session) (w w' : W)
      → work handle calls s w ≡ ok (s', w')
      → (out : List Message) × (handle_all handle (all_asked calls) w ≡ ok (out, w'))
        × (replies s'.sent ≡ replies s.sent ++ out)
  unfolding work answer
  work-answers [] s s' w w' h =
      let es : s ≡ s' = cc in
      let ew : w ≡ w' = cc in
      (
        [],
        ap (λ v. ok ([], v)) ew,
        ap (λ t. replies t.sent) (sym es) ∙ sym (append-nil (replies s.sent)),
      )
  work-answers (rs ∷ calls) s s' w w' h = elim (Result-cases (recv rs s)) [
    | inr (f, e) ↦ cc (rw e at h)
    | inl ((none, s₁), e) ↦
        let (same, got) = recv-Kept rs s none s₁ e in
        let h' = rw e at h in
        let es : s₁ ≡ s' = cc h' in
        let ew : w ≡ w' = cc h' in
        (
          [],
          rw (← got) (ap (λ v. ok ([], v)) ew),
          ap (λ t. replies t.sent) (sym es) ∙ same ∙ sym (append-nil (replies s.sent)),
        )
    | inl ((some body, s₁), e) ↦
        let (same, got) = recv-Kept rs s (some body) s₁ e in
        elim (Result-cases (handle body w)) [
          | inr (f, e₁) ↦ cc (rw (e, e₁) at h)
          | inl ((rep, w₁), e₁) ↦ elim (Result-cases (send (some rep) s₁)) [
            | inr (f, e₂) ↦ cc (rw (e, e₁, e₂) at h)
            | inl (s₂, e₂) ↦
                let (out, all, sent) = work-answers calls s₂ s' w₁ w' (rw (e, e₁, e₂) at h) in
                (
                  reply_to_client s₁.reply_to rep ∷ out,
                  rw (← got) (rw (e₁, all) refl),
                  sent
                      ∙ ap (λ l. l ++ out) (send-replies rep s₁ s₂ e₂)
                      ∙ append_assoc (replies s₁.sent) (reply_to_client s₁.reply_to rep ∷ []) out
                      ∙ ap (λ l. l ++ reply_to_client s₁.reply_to rep ∷ out) same,
                )
          ]
        ]
  ]

  -- In a run that has not ended: the handling of the requests that the broker's messages hold, each
  -- call of `recv` taking the first of its own, gave the answers that were sent, one REPLY message for
  -- each request, in their order and to its client, and nothing else was sent as a reply; the state is
  -- that after the handling.
  pub run-answers :
      (name : Bytes) (now : ℕ) (calls : List (List Round)) (s' : Session) (w w' : W)
      → run handle name now calls w ≡ ok (s', w')
      → handle_all handle (all_asked calls) w ≡ ok (replies s'.sent, w')
  unfolding run create
  run-answers name now calls s' w w' h =
      let (out, all, sent) = work-answers calls (connect_to_broker now (create name)) s' w w' h in
      let same : replies s'.sent ≡ out =
        sent ∙ ap (λ l. l ++ out) (replies-connect_to_broker now (create name)) in
      rw same all
