-- ===== src/Mdp/Worker/Served.antt =====
-- 7.MDF-Majordomo Protocol/worker: the loop of a worker while the broker keeps to the protocol, and its
-- end.
use zero_mq_rfc_implementati.Base.{
  ℕ, ◌≡◌, refl, sym, subst, Bytes, is_empty, ◌==◌, Bool, true, false, Bool-cases, not, Option,
  Option-cases, none, some, List, [], ◌∷◌, All, Result, ok, thrown, guard, ◌>>=◌, ◌>>◌, inl, inr,
  ◌⊎◌,
}
use zero_mq_rfc_implementati.Base.Zmqpp.{Message, Zmqpp}
use zero_mq_rfc_implementati.Mdp.Protocol.{
  mdpw_worker, request, heartbeat, disconnect, heartbeat_liveness,
}
use zero_mq_rfc_implementati.Mdp.WorkerApi.{
  Session, Round, create, connect_to_broker, send, on_message, on_poll, round, recv_from, recv,
}
use zero_mq_rfc_implementati.Mdp.Exchange.{send-reply}
use zero_mq_rfc_implementati.Mdp.Worker.{answer, work, run}
use zero_mq_rfc_implementati.Mdp.Worker.Received.{
  Asked, opened, on_message-three, asked, first_asked, or_later, replies,
}
use zero_mq_rfc_implementati.Mdp.Worker.Rounds.{finish, recv-Kept}
use zero_mq_rfc_implementati.Mdp.Worker.Answers.{all_asked, handle_all, run-answers}

abbrev pub Returns {ℓ} : {A : Type ℓ} → Result A → Type ℓ
Returns r = (a : _) × (r ≡ ok a)

-- The frames of a request behind its command: a client, a delimiter and the body.
abbrev pub IsEnvelope : Message → Type 0
IsEnvelope (client ∷ d ∷ body) = (is_empty client ≡ false) × (is_empty d ≡ true)
IsEnvelope _ = ⊥

-- A message of the protocol from the broker to a worker.
abbrev pub IsProtocol : Message → Type 0
IsProtocol (e ∷ v ∷ c ∷ rest) =
    (is_empty e ≡ true)
    × ((v == mdpw_worker) ≡ true)
    × (((c == request) ≡ false) ⊎ (((c == request) ≡ true) × IsEnvelope rest))
IsProtocol _ = ⊥

abbrev pub HasProtocol : Option Message → Type 0
HasProtocol none = Unit {0}
HasProtocol (some m) = IsProtocol m

-- A round with no stop, a good poll, and at most such a message.
abbrev pub IsGood : Round → Type 0
IsGood r = (r.stop_requested ≡ false) × (r.poll_ok ≡ true) × HasProtocol r.message

-- The client of a request is known.
abbrev HasClient : Option Asked → Type 0
HasClient none = Unit {0}
HasClient (some (client, body)) = is_empty client ≡ false

asked-HasClient : (m : Message) → IsProtocol m → HasClient (asked m)
asked-HasClient [] h = absurd h
asked-HasClient (e ∷ []) h = absurd h
asked-HasClient (e ∷ v ∷ []) h = absurd h
asked-HasClient (e ∷ v ∷ c ∷ []) h = tt
asked-HasClient (e ∷ v ∷ c ∷ client ∷ []) h = tt
asked-HasClient (e ∷ v ∷ c ∷ client ∷ d ∷ body) (empty, version, inl other) = rw other tt
asked-HasClient (e ∷ v ∷ c ∷ client ∷ d ∷ body) (empty, version, inr (is, (known, delimiter))) =
    rw is known

guards_pass {ℓ} :
    {A : Type ℓ} (stop good : Bool) (rest : Result A)
    → stop ≡ false
    → good ≡ true
    → Returns rest
    → Returns (guard (not stop) thrown >> (guard good thrown >> rest))
guards_pass true good rest e e' h = cc
guards_pass false false rest e e' h = cc
guards_pass false true rest e e' h = h

or_later-HasClient :
    (a later : Option Asked) → HasClient a → HasClient later → HasClient (or_later a later)
or_later-HasClient none later h h' = h'
or_later-HasClient (some (client, body)) later h h' = h

module _ ⦃z : Zmqpp⦄ where
  opened-Returns : (rest : Message) (s : Session) → IsEnvelope rest → Returns (opened rest s)
  opened-Returns [] s h = absurd h
  opened-Returns (client ∷ []) s h = absurd h
  opened-Returns (client ∷ d ∷ body) s (known, delimiter) =
      ((some body, record s { reply_to = client }), rw delimiter refl)

  on_message-Returns :
      (now : ℕ) (m : Message) (s : Session) → IsProtocol m → Returns (on_message now m s)
  on_message-Returns now [] s h = absurd h
  on_message-Returns now (e ∷ []) s h = absurd h
  on_message-Returns now (e ∷ v ∷ []) s h = absurd h
  on_message-Returns now (e ∷ v ∷ c ∷ rest) s (empty, version, cmd) =
      rw (on_message-three, empty, version)
        (elim cmd [
          | inr (is, h) ↦ rw is (opened-Returns rest (record s { liveness = heartbeat_liveness }) h)
          | inl other ↦ rw other (elim (Bool-cases (c == heartbeat)) [
            | inl beats ↦ rw beats (_, refl)
            | inr silent ↦ rw silent (elim (Bool-cases (c == disconnect)) [
              | inl gone ↦ rw gone (_, refl)
              | inr unknown ↦ rw unknown (_, refl)
            ])
          ])
        ])

  on_poll-Returns : (r : Round) (s : Session) → HasProtocol r.message → Returns (on_poll r s)
  unfolding on_poll
  on_poll-Returns r s h = elim (Option-cases r.message) [
    | inl e ↦ rw (e, on_poll) (_, refl)
    | inr (m, e) ↦ rw (e, on_poll) (on_message-Returns r.connected_at m s (rw e at h))
  ]

  finish-Returns : (r : Round) (p : Option Message × Session) → Returns (finish r p)
  finish-Returns r (none, s) = (_, refl)
  finish-Returns r (some body, s) = (_, refl)

  pub round-Returns : (r : Round) (s : Session) → IsGood r → Returns (round r s)
  unfolding round
  round-Returns r s (go, good, h) =
      let (p, e) = on_poll-Returns r s h in
      guards_pass r.stop_requested r.poll_ok (on_poll r s >>= finish r) go good
        (rw e (finish-Returns r p))

  recv_from-Returns : (rs : List Round) (s : Session) → All IsGood rs → Returns (recv_from rs s)
  unfolding recv_from
  recv_from-Returns [] s h = (_, refl)
  recv_from-Returns (r ∷ rs) s h =
      let ((m, s₁), e) = round-Returns r s h.0 in
      rw (e, recv_from)
        (elim m
          as (λ n.
            Returns (elim n [ some request ↦ ok (some request, s₁) | none ↦ recv_from rs s₁ ])) [
              | some body ↦ (_, refl)
              | none ↦ recv_from-Returns rs s₁ h.1
            ])

  pub recv-Returns : (rs : List Round) (s : Session) → All IsGood rs → Returns (recv rs s)
  unfolding recv
  recv-Returns rs s h = recv_from-Returns rs (record s { expect_reply = true }) h

  first_asked-HasClient : (rs : List Round) → All IsGood rs → HasClient (first_asked rs)
  first_asked-HasClient [] h = tt
  first_asked-HasClient (r ∷ rs) (good, h) = elim (Option-cases r.message) [
    | inl e ↦ rw e (first_asked-HasClient rs h)
    | inr (m, e) ↦ rw e (
        or_later-HasClient (asked m) (first_asked rs) (asked-HasClient m (rw e at good.2))
          (first_asked-HasClient rs h))
  ]

  -- What is handed over can be answered.
  pub send-Returns :
      (rs : List Round) (s s₁ : Session) (body rep : Message)
      → All IsGood rs
      → recv rs s ≡ ok (some body, s₁)
      → Returns (send (some rep) s₁)
  send-Returns rs s s₁ body rep h e =
      let got = (recv-Kept rs s (some body) s₁ e).1 in
      let known : is_empty s₁.reply_to ≡ false =
        subst HasClient (sym got) (first_asked-HasClient rs h) in
      (_, send-reply s₁.reply_to rep s₁ known)

module _ {ℓ} ⦃z : Zmqpp⦄ {W : Type ℓ} (handle : Message → W → Result (Message × W))
    (total : (m : Message) (w : W) → Returns (handle m w)) where
  work-Returns :
      (calls : List (List Round)) (s : Session) (w : W)
      → All (All IsGood) calls
      → Returns (work handle calls s w)
  unfolding work answer
  work-Returns [] s w h = (_, refl)
  work-Returns (rs ∷ calls) s w (good, h) =
      let ((m, s₁), e) = recv-Returns rs s good in
      elim m as (λ n. recv rs s ≡ ok (n, s₁) → Returns (work handle (rs ∷ calls) s w)) [
        | none ↦ λ e. ((s₁, w), rw e refl)
        | some body ↦ λ e.
            let ((rep, w₁), e₁) = total body w in
            let (s₂, e₂) = send-Returns rs s s₁ body rep good e in
            let (p, e₃) = work-Returns calls s₂ w₁ h in (p, rw (e, e₁, e₂) e₃)
      ]
        e

  -- While no stop is requested, no poll fails and the broker keeps to the protocol, the loop of a worker
  -- whose handling does not fail goes on; what it has sent as replies is the answer to each request that
  -- the calls of `recv` took, in their order, and the state is that after the handling.
  pub run-serves :
      (name : Bytes) (now : ℕ) (calls : List (List Round)) (w : W)
      → All (All IsGood) calls
      → (s' : Session) × (w' : W) × (run handle name now calls w ≡ ok (s', w'))
        × (handle_all handle (all_asked calls) w ≡ ok (replies s'.sent, w'))
  unfolding run
  run-serves name now calls w h =
      let ((s', w'), e) = work-Returns calls (connect_to_broker now (create name)) w h in
      (s', w', e, run-answers handle name now calls s' w w' e)
