-- ===== src/Mdp/Worker/Rounds.antt =====
-- 7.MDF-Majordomo Protocol/worker: what a call of a session's `recv` gives.
use zero_mq_rfc_implementati.Base.{
  ◌≡◌, refl, ◌∙◌, true, not, Option, Option-cases, none, some, List, [], ◌∷◌, Result, Result-cases,
  ok, err, thrown, guard, ◌>>=◌, ◌>>◌, inl, inr,
}
use zero_mq_rfc_implementati.Base.Zmqpp.{Message, Zmqpp}
use zero_mq_rfc_implementati.Mdp.WorkerApi.{
  Session, Round, on_silence, on_poll, beat, round, recv_from, recv,
}
use zero_mq_rfc_implementati.Mdp.Worker.Received.{
  Asked, asked_of, first_asked, or_later, replies, handed, Kept, Kept-ok, Kept-guard,
  on_message-Kept, replies-on_silence, replies-beat,
}

module _ ⦃z : Zmqpp⦄ where
  on_poll-Kept : (r : Round) (s : Session) → Kept s (asked_of r.message) (on_poll r s)
  unfolding on_poll
  on_poll-Kept r s m s' h = elim (Option-cases r.message) [
    | inl e ↦ rw e (
        Kept-ok s (on_silence r.connected_at s) none none (replies-on_silence r.connected_at s) refl
          m s' (rw e at h))
    | inr (msg, e) ↦ rw e (on_message-Kept r.connected_at msg s m s' (rw e at h))
  ]

  -- The end of a round, after the poll.
  abbrev pub finish : Round → Option Message × Session → Result (Option Message × Session)
  finish r (m, s) = elim m [
    | some request ↦ ok (some request, s)
    | none ↦ ok (none, beat r.tested_at r.renewed_at s)
  ]

  finish-Kept :
      (r : Round) (s : Session) (a : Option Asked) (p : Result (Option Message × Session))
      → Kept s a p
      → Kept s a (p >>= finish r)
  finish-Kept r s a (err f) k m s' h = cc
  finish-Kept r s a (ok (some body, s₁)) k m s' h = k m s' h
  finish-Kept r s a (ok (none, s₁)) k m s' h =
      let (same, got) = k none s₁ refl in
      Kept-ok s (beat r.tested_at r.renewed_at s₁) a none
        (replies-beat r.tested_at r.renewed_at s₁ ∙ same) got m s' h

  pub round-Kept : (r : Round) (s : Session) → Kept s (asked_of r.message) (round r s)
  unfolding round
  round-Kept r s =
      let a = asked_of r.message in
      let polled = on_poll r s >>= finish r in
      Kept-guard s a (not r.stop_requested) thrown (guard r.poll_ok thrown >> polled) (λ go.
        Kept-guard s a r.poll_ok thrown polled
          (λ good. finish-Kept r s a (on_poll r s) (on_poll-Kept r s)))

  -- The rounds after one.
  next-Kept :
      (s s₁ : Session) (m₁ : Option Message) (a later : Option Asked)
      (rest : Result (Option Message × Session))
      → replies s₁.sent ≡ replies s.sent
      → handed m₁ s₁ ≡ a
      → Kept s₁ later rest
      → Kept s (or_later a later) (elim m₁ [ some request ↦ ok (some request, s₁) | none ↦ rest ])
  next-Kept s s₁ (some body) a later rest same got k m s' h =
      rw (← got) (Kept-ok s s₁ (some (s₁.reply_to, body)) (some body) same refl m s' h)
  next-Kept s s₁ none a later rest same got k m s' h =
      let (same', got') = k m s' h in (same' ∙ same, rw (← got) got')

  -- A call of `recv` hands over the first request among its rounds, with its client, and sends no
  -- reply by itself.
  recv_from-Kept : (rs : List Round) (s : Session) → Kept s (first_asked rs) (recv_from rs s)
  unfolding recv_from
  recv_from-Kept [] s m s' h = Kept-ok s s none none refl refl m s' h
  recv_from-Kept (r ∷ rs) s m s' h = elim (Result-cases (round r s)) [
    | inr (f, e) ↦ cc (rw (e, recv_from) at h)
    | inl ((m₁, s₁), e) ↦
        let (same, got) = round-Kept r s m₁ s₁ e in
        next-Kept s s₁ m₁ (asked_of r.message) (first_asked rs) (recv_from rs s₁) same got
          (recv_from-Kept rs s₁) m s' (rw (e, recv_from) at h)
  ]

  pub recv-Kept : (rs : List Round) (s : Session) → Kept s (first_asked rs) (recv rs s)
  unfolding recv
  recv-Kept rs s = recv_from-Kept rs (record s { expect_reply = true })
