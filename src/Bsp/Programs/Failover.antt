-- ===== src/Bsp/Programs/Failover.antt =====
-- The client's program and a server's reactor together, when the primary does not answer.
use zero_mq_rfc_implementati.Base.{
  ℕ, ◌+◌, ◌%◌, ◌^◌, ◌<◌, ◌≡◌, refl, sym, ap, Bytes, codes, c_str, true, false, some, List, [], ◌∷◌,
  ◌++◌, append_assoc, nat_eq, ok, arith,
}
use zero_mq_rfc_implementati.Base.Zmqpp.{
  Message, Zmqpp, get_int, get_text, put_int, push_back_eq, get_int-cons_put, get_text_eq,
}
use zero_mq_rfc_implementati.Utils.Config.{Config, get_value}
use zero_mq_rfc_implementati.Bsp.States.{passive, active}
use zero_mq_rfc_implementati.Bsp.Bstar.{Bstar, execute, dispatch, on_request}
use zero_mq_rfc_implementati.Bsp.Client.{
  Client, Poll, number_retries, server_at, hello, send_request, on_reply, on_poll, next_request,
  run, add_server,
}
use zero_mq_rfc_implementati.Bsp.Client.Failover.{silence, run-failover}
use zero_mq_rfc_implementati.Bsp.Programs.{
  servers_of, serve, frontend_endpoint, backup_frontend_endpoint,
}

module _ ⦃z : Zmqpp⦄ where
  -- A passive server takes over at a request, when its peer's time has run out.
  serve-passive :
      (now : ℕ) (msg : Message) (b : Bstar)
      → b.state ≡ passive
      → b.peer_expiry < now
      → ((serve now msg b).0.state ≡ active) × ((serve now msg b).1 ≡ some msg)
  unfolding serve execute on_request dispatch
  serve-passive now msg b s e = ground arith

  serve-active :
      (now : ℕ) (msg : Message) (b : Bstar)
      → b.state ≡ active
      → ((serve now msg b).0.state ≡ active) × ((serve now msg b).1 ≡ some msg)
  unfolding serve execute on_request dispatch
  serve-active now msg b s = ground arith

  abbrev pub answer : Message → Poll
  answer m = record { poll_ok = true; message = some m }

  -- The answer that has the number of the request ends the wait.
  run-answer :
      (c : Client)
      → c.seq < 2 ^ 32
      → run c (answer (hello c.seq) ∷ [])
        ≡ send_request (record c { retries = number_retries; expect_reply = false })
  unfolding run
  run-answer c h =
      let frames : hello c.seq ≡ put_int c.seq ∷ codes "hello" ∷ [] = simp push_back_eq in
      let number : get_int (hello c.seq) 0 ≡ ok c.seq =
        rw frames (get_int-cons_put c.seq (codes "hello" ∷ []) h) in
      let body : get_text (hello c.seq) 1 ≡ ok (codes "hello") = rw (frames, get_text_eq) in
      let same : nat_eq c.seq c.seq ≡ true = ground arith in
      let polled : on_poll (answer (hello c.seq)) c
          ≡ ok (record c { retries = number_retries; expect_reply = false }) =
        unfold on_poll on_reply in simp (number, body, same) refl in
      rw (polled, run) (unfold next_request in refl)

  run-answer_sent :
      (c : Client)
      → c.seq < 2 ^ 32
      → (run c (answer (hello c.seq) ∷ [])).sent
        ≡ c.sent ++ (c.connected_to, hello ((c.seq + 1) % 2 ^ 32)) ∷ []
  unfolding send_request
  run-answer_sent c h = ap (λ d. d.sent) (run-answer c h)

  server_at-first :
      (conf : Config) → server_at 0 (servers_of conf) ≡ ok (get_value frontend_endpoint conf)
  unfolding server_at servers_of add_server
  server_at-first conf = refl

  server_at-second :
      (conf : Config) → server_at 1 (servers_of conf) ≡ ok (get_value backup_frontend_endpoint conf)
  unfolding server_at servers_of add_server
  server_at-second conf = refl

  -- The client's program is connected to the first server of its configuration, waits for a reply with
  -- three retries left, and hears nothing in four polls. Then its last request has gone to the
  -- configuration's backup. Where that is a reactor in the passive state whose peer's time has run out,
  -- it becomes active and echoes the request, and so any later one; and when the echo comes, the client
  -- sends its next request to the backup.
  pub run-serve-run :
      (conf : Config) (c : Client) (id : Bytes) (now : ℕ) (b : Bstar)
      → c.servers ≡ servers_of conf
      → c.srv_index ≡ 0
      → c.retries ≡ number_retries
      → c.expect_reply ≡ true
      → b.state ≡ passive
      → b.peer_expiry < now
      → let waiting = run c (silence ∷ silence ∷ silence ∷ silence ∷ []) in
        let addr = c_str (get_value backup_frontend_endpoint conf) in
        let request = hello waiting.seq in
        let (b', reply) = serve now (id ∷ request) b in
        ((before : List (Bytes × Message)) × (waiting.sent ≡ before ++ (addr, request) ∷ []))
        × (b'.state ≡ active)
        × (reply ≡ some (id ∷ request))
        × ((later : ℕ) (msg : Message) → (serve later msg b').1 ≡ some msg)
        × ((run waiting (answer request ∷ [])).sent
            ≡ waiting.sent ++ (addr, hello ((waiting.seq + 1) % 2 ^ 32)) ∷ [])
  run-serve-run conf c id now b s i r w p e =
      let fe = get_value frontend_endpoint conf in
      let be = get_value backup_frontend_endpoint conf in
      let one : server_at c.srv_index c.servers ≡ ok fe = rw (s, i) (server_at-first conf) in
      let two : server_at ((c.srv_index + 1) % 2 ^ 32) c.servers ≡ ok be =
        rw (s, i) (server_at-second conf) in
      let q = run-failover fe be c r w one two in
      let seq = (c.seq + 1) % 2 ^ 32 in
      let (up, echoed) = serve-passive now (id ∷ hello seq) b p e in
      rw q (
        (
          c.sent ++ (c_str fe, hello c.seq) ∷ (c_str fe, hello c.seq) ∷ (c_str fe, hello seq) ∷ [],
          sym (append_assoc c.sent _ _),
        ),
        up,
        echoed,
        (λ later msg. (serve-active later msg _ up).1),
        run-answer_sent _ (omega arith),
      )
