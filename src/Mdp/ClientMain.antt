-- ===== src/Mdp/ClientMain.antt =====
-- 7.MDF-Majordomo Protocol/client/main.cpp: the program of a client, behind its arguments.
use zero_mq_rfc_implementati.Base.{
  ℕ, zero, suc, ◌+◌, Bytes, codes, Bool, false, ◌==◌, nat_eq, Option, List, [], ◌∷◌, ◌++◌,
  if◌then◌else◌, Result, ok, ◌>>=◌,
}
use zero_mq_rfc_implementati.Base.Zmqpp.{Message, Zmqpp, parts, get_text}
use zero_mq_rfc_implementati.Mdp.Protocol.{mmi_service, mmi_found}
use zero_mq_rfc_implementati.Mdp.ClientApi.{Session, create, send_text, recv}
use zero_mq_rfc_implementati.Chp.Decimal.{padded}

-- What each `recv` of the greetings polls.
abbrev pub Answers : Type 0
Answers = ℕ → Option Message

abbrev pub hello : ℕ → Bytes
hello i = codes "hello " ++ padded 1 i

module _ ⦃z : Zmqpp⦄ where
  -- `send` and `recv`, which polls `answer`.
  unfoldable pub exchange : Bytes → Bytes → Option Message → Session → Result (Message × Session)
  unfolding send_text recv
  exchange service msg answer s = do s' ← send_text service msg s; m ← recv answer s'; ok (m, s')

  -- "Discovery service": whether the service is there.
  unfoldable pub discover : Bytes → Option Message → Session → Result (Bool × Session)
  unfolding exchange
  discover service answer s = do
    (response, s') ← exchange mmi_service service answer s
    if nat_eq (parts response) 0
        then ok (false, s')
        else (do resmsg ← get_text response 0; ok (resmsg == mmi_found, s'))

  -- The loop from `i` on, with so many rounds left; it prints a reply in each.
  unfoldable pub hellos : ℕ → ℕ → Bytes → Answers → Session → Result (List Bytes × Session)
  unfolding exchange
  hellos zero i service answers s = ok ([], s)
  hellos (suc n) i service answers s = do
    (reply, s') ← exchange service (hello i) (answers i) s
    repmsg ← get_text reply 0
    (printed, s'') ← hellos n (i + 1) service answers s'
    ok (repmsg ∷ printed, s'')

  -- The program for a service, and what it prints; the session is as its constructor leaves it.
  unfoldable pub main : Bytes → Option Message → Answers → Result (List Bytes × Session)
  unfolding discover hellos create
  main service answer answers = do
    (found, s') ← discover service answer create
    if found then hellos 9 1 service answers s' else ok ([], s')
