-- ===== src/Mdp/Worker/Received.antt =====
-- 7.MDF-Majordomo Protocol/worker: what a session receives from the broker.
use zero_mq_rfc_implementati.Base.{
  ℕ, suc, ◌-◌, ◌≡◌, refl, ◌∙◌, sym, subst, ap, Bytes, c_str, is_empty, ◌==◌, Bool, true, false,
  Bool-cases, ==-cases, Option, none, some, List, [], ◌∷◌, ◌++◌, append-nil, ltb, leb, nat_eq,
  if◌then◌else◌, Result, ok, err, contract, missing_part, length, guard, ◌>>◌, Fault, arith, inl,
  inr,
}
use zero_mq_rfc_implementati.Base.Zmqpp.{
  Message, Zmqpp, take_text-cons, take_text-nil, get_text_zero, get_text_eq, get_text,
  push_front_eq, pop_front_eq, parts_eq,
}
use zero_mq_rfc_implementati.Mdp.Protocol.{
  mdpw_worker, request, reply, heartbeat, disconnect, heartbeat_liveness,
}
use zero_mq_rfc_implementati.Mdp.WorkerApi.{
  Session, Round, broker_envelope, send_to_broker, connect_to_broker, on_message, on_silence, beat,
}

-- A client's address and the body of its request.
abbrev pub Asked : Type 0
Asked = Bytes × Message

-- The request that a message from the broker holds.
abbrev pub asked : Message → Option Asked
asked (e ∷ version ∷ cmd ∷ client ∷ d ∷ body) = if cmd == request then some (client, body) else none
asked _ = none

abbrev pub asked_of : Option Message → Option Asked
asked_of none = none
asked_of (some m) = asked m

abbrev pub or_later : Option Asked → Option Asked → Option Asked
or_later none later = later
or_later (some a) later = some a

-- The first request among the rounds of a call of `recv`.
abbrev pub first_asked : List Round → Option Asked
first_asked [] = none
first_asked (r ∷ rs) = or_later (asked_of r.message) (first_asked rs)

-- The REPLY messages of a session.
abbrev pub is_reply : Message → Bool
is_reply (e ∷ version ∷ cmd ∷ m) = cmd == reply
is_reply _ = false

abbrev pub replies : List Message → List Message
replies [] = []
replies (m ∷ ms) = if is_reply m then m ∷ replies ms else replies ms

pub replies-append :
    (front back : List Message) → replies (front ++ back) ≡ replies front ++ replies back
replies-append [] back = refl
replies-append (m ∷ front) back = ground (arith, replies-append front back)

-- What a round of `recv` hands over, with the client that the session remembers.
abbrev pub handed : Option Message → Session → Option Asked
handed none s = none
handed (some body) s = some (s.reply_to, body)

abbrev pub Kept : Session → Option Asked → Result (Option Message × Session) → Type 0
Kept s a r =
    (m : Option Message) (s' : Session)
    → r ≡ ok (m, s')
    → (replies s'.sent ≡ replies s.sent) × (handed m s' ≡ a)

three_parts : (n : ℕ) → leb 3 (suc (suc (suc n))) ≡ true
three_parts n = ground arith

module _ ⦃z : Zmqpp⦄ where
  -- Other messages of the session are no replies.
  pub replies-connect_to_broker :
      (now : ℕ) (s : Session) → replies (connect_to_broker now s).sent ≡ replies s.sent
  unfolding connect_to_broker send_to_broker broker_envelope c_str ◌==◌
  replies-connect_to_broker now s = elim (Bool-cases (is_empty s.service_name)) [
    | inl e ↦ rw e (simp push_front_eq (replies-append s.sent _ ∙ rw append-nil))
    | inr e ↦ rw e (simp push_front_eq (replies-append s.sent _ ∙ rw append-nil))
  ]

  pub replies-beat :
      (tested_at renewed_at : ℕ) (s : Session)
      → replies (beat tested_at renewed_at s).sent ≡ replies s.sent
  unfolding beat send_to_broker broker_envelope c_str ◌==◌
  replies-beat tested_at renewed_at s = elim (Bool-cases (ltb s.heartbeat_at tested_at)) [
    | inl e ↦ rw e (simp push_front_eq (replies-append s.sent _ ∙ rw append-nil))
    | inr e ↦ rw e refl
  ]

  pub replies-on_silence :
      (now : ℕ) (s : Session) → replies (on_silence now s).sent ≡ replies s.sent
  unfolding on_silence
  replies-on_silence now s = elim (Bool-cases (nat_eq (s.liveness - 1) 0)) [
    | inl e ↦ rw e (replies-connect_to_broker now (record s { liveness = 0 }))
    | inr e ↦ rw e refl
  ]

  abbrev pub opened : Message → Session → Result (Option Message × Session)
  opened [] s = err missing_part
  opened (client ∷ []) s = err missing_part
  opened (client ∷ d ∷ body) s = do
    guard (is_empty d) contract
    ok (some body, record s { reply_to = client })

  get_text-nil : get_text [] 0 ≡ err missing_part
  get_text-nil = rw get_text_eq

  pub on_message-three :
      (now : ℕ) (e v c : Bytes) (rest : Message) (s : Session)
      → on_message now (e ∷ v ∷ c ∷ rest) s ≡ (do
        guard (is_empty e) contract
        guard (v == mdpw_worker) contract
        let s₁ = record s { liveness = heartbeat_liveness }
        if c == request
            then opened rest s₁
            else if c == heartbeat
            then ok (none, s₁)
            else if c == disconnect
            then ok (none, connect_to_broker now s₁)
            else ok (none, s₁))
  unfolding on_message
  on_message-three now e v c [] s =
      rw parts_eq (simp (take_text-cons, take_text-nil, get_text_zero, pop_front_eq))
  on_message-three now e v c (client ∷ []) s =
      rw parts_eq (simp (take_text-cons, get_text-nil, pop_front_eq))
  on_message-three now e v c (client ∷ d ∷ body) s =
      rw (parts_eq, three_parts (suc (suc (length body))))
        (simp (take_text-cons, get_text_zero, pop_front_eq))

  pub Kept-ok :
      (s s₁ : Session) (a : Option Asked) (m₁ : Option Message)
      → replies s₁.sent ≡ replies s.sent
      → handed m₁ s₁ ≡ a
      → Kept s a (ok (m₁, s₁))
  Kept-ok s s₁ a m₁ same got m s' h =
      let at_end : (m₁ ≡ m) × (s₁ ≡ s') = (cc, cc) in
      (
        ap (λ t. replies t.sent) (sym at_end.1) ∙ same,
        ap (λ n. handed n s') (sym at_end.0) ∙ ap (λ t. handed m₁ t) (sym at_end.1) ∙ got,
      )

  pub Kept-guard :
      (s : Session) (a : Option Asked) (b : Bool) (f : Fault)
      (r : Result (Option Message × Session))
      → (b ≡ true → Kept s a r)
      → Kept s a (guard b f >> r)
  Kept-guard s a false f r k m s' h = cc
  Kept-guard s a true f r k m s' h = k refl m s' h

  opened-Kept :
      (rest : Message) (s s₁ : Session) (e v : Bytes)
      → s₁.sent ≡ s.sent
      → Kept s (asked (e ∷ v ∷ request ∷ rest)) (opened rest s₁)
  unfolding ◌==◌
  opened-Kept [] s s₁ e v same m s' h = cc
  opened-Kept (client ∷ []) s s₁ e v same m s' h = cc
  opened-Kept (client ∷ d ∷ body) s s₁ e v same m s' h =
      Kept-guard s (some (client, body)) (is_empty d) contract
        (ok (some body, record s₁ { reply_to = client }))
        (λ q.
          Kept-ok s (record s₁ { reply_to = client }) (some (client, body)) (some body)
            (ap replies same) refl)
        m s' h

  asked_other :
      (e v c : Bytes) (rest : Message) → (c == request) ≡ false → none ≡ asked (e ∷ v ∷ c ∷ rest)
  asked_other e v c [] h = refl
  asked_other e v c (client ∷ []) h = refl
  asked_other e v c (client ∷ d ∷ body) h = rw h refl

  command-Kept :
      (now : ℕ) (e v c : Bytes) (rest : Message) (s s₁ : Session)
      → s₁.sent ≡ s.sent
      → Kept s (asked (e ∷ v ∷ c ∷ rest)) (
          if c == request
          then opened rest s₁
          else if c == heartbeat
          then ok (none, s₁)
          else if c == disconnect
          then ok (none, connect_to_broker now s₁)
          else ok (none, s₁))
  command-Kept now e v c rest s s₁ same = elim (==-cases c request) [
    | inl (is, test) ↦ rw test (
        subst (λ x. Kept s (asked (e ∷ v ∷ x ∷ rest)) (opened rest s₁)) (sym is)
          (opened-Kept rest s s₁ e v same))
    | inr other ↦
        let got = asked_other e v c rest other in
        let quiet = Kept-ok s s₁ (asked (e ∷ v ∷ c ∷ rest)) none (ap replies same) got in
        rw other (elim (Bool-cases (c == heartbeat)) [
          | inl beats ↦ rw beats quiet
          | inr silent ↦ rw silent (elim (Bool-cases (c == disconnect)) [
            | inl gone ↦ rw gone (
                Kept-ok s (connect_to_broker now s₁) (asked (e ∷ v ∷ c ∷ rest)) none
                  (replies-connect_to_broker now s₁ ∙ ap replies same) got)
            | inr unknown ↦ rw unknown quiet
          ])
        ])
  ]

  pub on_message-Kept :
      (now : ℕ) (msg : Message) (s : Session) → Kept s (asked msg) (on_message now msg s)
  unfolding on_message
  on_message-Kept now [] s m s' h = cc (rw parts_eq at h)
  on_message-Kept now (e ∷ []) s m s' h = cc (rw parts_eq at h)
  on_message-Kept now (e ∷ v ∷ []) s m s' h = cc (rw parts_eq at h)
  on_message-Kept now (e ∷ v ∷ c ∷ rest) s m s' h =
      let s₁ = record s { liveness = heartbeat_liveness } in
      let r =
        if c == request
        then opened rest s₁
        else if c == heartbeat
        then ok (none, s₁)
        else if c == disconnect
        then ok (none, connect_to_broker now s₁)
        else ok (none, s₁) in
      let a = asked (e ∷ v ∷ c ∷ rest) in
      Kept-guard s a (is_empty e) contract (guard (v == mdpw_worker) contract >> r)
        (λ empty.
          Kept-guard s a (v == mdpw_worker) contract r
            (λ version. command-Kept now e v c rest s s₁ refl))
        m s' (sym (on_message-three now e v c rest s) ∙ h)
