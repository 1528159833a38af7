-- ===== src/Mdp/Worker/Stop.antt =====
-- 7.MDF-Majordomo Protocol/worker: how the loop of a worker ends when a stop is requested.
use zero_mq_rfc_implementati.Base.{
  ℕ, ◌≡◌, refl, ◌∙◌, Bytes, true, Option, none, some, List, [], ◌∷◌, ◌++◌, All, Result, ok, err,
  thrown,
}
use zero_mq_rfc_implementati.Base.Zmqpp.{Message, Zmqpp}
use zero_mq_rfc_implementati.Mdp.WorkerApi.{
  Session, Round, create, connect_to_broker, round, recv_from, recv,
}
use zero_mq_rfc_implementati.Mdp.Worker.{answer, work, run}
use zero_mq_rfc_implementati.Mdp.Worker.Received.{Asked, asked_of, first_asked, or_later, handed}
use zero_mq_rfc_implementati.Mdp.Worker.Rounds.{round-Kept, recv-Kept}
use zero_mq_rfc_implementati.Mdp.Worker.Served.{
  Returns, IsGood, round-Returns, recv-Returns, send-Returns,
}

none_of : (a later : Option Asked) → or_later a later ≡ none → (a ≡ none) × (later ≡ none)
none_of none later h = (refl, h)
none_of (some a) later h = cc

-- The call takes a request.
abbrev pub Asks : List Round → Type 0
Asks rs = (a : Asked) × (first_asked rs ≡ some a)

module _ ⦃z : Zmqpp⦄ where
  round-stop : (r : Round) (s : Session) → r.stop_requested ≡ true → round r s ≡ err thrown
  unfolding round
  round-stop r s h = rw h refl

  -- A call of `recv` that has found no request when it finds that a stop is requested.
  recv_from-stop :
      (quiet later : List Round) (stop : Round) (s : Session)
      → All IsGood quiet
      → first_asked quiet ≡ none
      → stop.stop_requested ≡ true
      → recv_from (quiet ++ stop ∷ later) s ≡ err thrown
  unfolding recv_from
  recv_from-stop [] later stop s h unasked stopped = rw (round-stop stop s stopped, recv_from) refl
  recv_from-stop (r ∷ quiet) later stop s h unasked stopped =
      let ((m, s₁), e) = round-Returns r s h.0 in
      let got = (round-Kept r s m s₁ e).1 in
      let (here, after) = none_of (asked_of r.message) (first_asked quiet) unasked in
      elim m
          as (λ n.
            round r s ≡ ok (n, s₁)
            → handed n s₁ ≡ asked_of r.message
            → recv_from (r ∷ quiet ++ stop ∷ later) s ≡ err thrown) [
              | some body ↦ λ e got. cc (got ∙ here)
              | none ↦
                  λ e got. rw (e, recv_from) (recv_from-stop quiet later stop s₁ h.1 after stopped)
            ]
        e got

  recv-stop :
      (quiet later : List Round) (stop : Round) (s : Session)
      → All IsGood quiet
      → first_asked quiet ≡ none
      → stop.stop_requested ≡ true
      → recv (quiet ++ stop ∷ later) s ≡ err thrown
  unfolding recv
  recv-stop quiet later stop s = recv_from-stop quiet later stop (record s { expect_reply = true })

module _ {ℓ} ⦃z : Zmqpp⦄ {W : Type ℓ} (handle : Message → W → Result (Message × W))
    (total : (m : Message) (w : W) → Returns (handle m w)) where
  work-stop :
      (calls more : List (List Round)) (quiet later : List Round) (stop : Round) (s : Session)
      (w : W)
      → All (All IsGood) calls
      → All Asks calls
      → All IsGood quiet
      → first_asked quiet ≡ none
      → stop.stop_requested ≡ true
      → work handle (calls ++ (quiet ++ stop ∷ later) ∷ more) s w ≡ err thrown
  unfolding work answer
  work-stop [] more quiet later stop s w h asks hq unasked stopped =
      rw (recv-stop quiet later stop s hq unasked stopped) refl
  work-stop (rs ∷ calls) more quiet later stop s w h asks hq unasked stopped =
      let ((m, s₁), e) = recv-Returns rs s h.0 in
      let got = (recv-Kept rs s m s₁ e).1 ∙ asks.0.1 in
      elim m
          as (λ n.
            recv rs s ≡ ok (n, s₁)
            → handed n s₁ ≡ some asks.0.0
            → work handle (rs ∷ calls ++ (quiet ++ stop ∷ later) ∷ more) s w ≡ err thrown) [
              | none ↦ λ e got. cc
              | some body ↦ λ e got.
                  let ((rep, w₁), e₁) = total body w in
                  let (s₂, e₂) = send-Returns rs s s₁ body rep h.0 e in
                  rw (e, e₁, e₂)
                    (work-stop calls more quiet later stop s₂ w₁ h.1 asks.1 hq unasked stopped)
            ]
        e got

  -- When the loop of a worker, whose earlier calls of `recv` each took a request, is waiting for the
  -- next and has found none, the first round that finds a stop requested ends it by an exception, whatever else
  -- that round or later ones would read.
  pub run-stop :
      (name : Bytes) (now : ℕ) (calls more : List (List Round)) (quiet later : List Round)
      (stop : Round) (w : W)
      → All (All IsGood) calls
      → All Asks calls
      → All IsGood quiet
      → first_asked quiet ≡ none
      → stop.stop_requested ≡ true
      → run handle name now (calls ++ (quiet ++ stop ∷ later) ∷ more) w ≡ err thrown
  unfolding run
  run-stop name now calls more quiet later stop w =
      work-stop calls more quiet later stop (connect_to_broker now (create name)) w
