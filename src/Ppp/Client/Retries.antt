-- ===== src/Ppp/Client/Retries.antt =====
-- When the client gives up, and what it sends.
use zero_mq_rfc_implementati.Base.{
  ℕ, zero, suc, ◌+◌, ◌-◌, ◌^◌, ◌<◌, ◌≡◌, refl, true, false, none, some, List, [], ◌∷◌, ◌++◌, nat_eq,
  if◌then◌else◌, ok, err, missing_part, arith, ◌∙◌, Bytes,
}
use zero_mq_rfc_implementati.Base.Zmqpp.{
  Message, Zmqpp, put_int, get_int-cons_put, push_back_eq, get_text_eq, get_int-cons_put,
}
use zero_mq_rfc_implementati.Ppp.Constants.{request_retries}
use zero_mq_rfc_implementati.Ppp.Client.{
  Poll, Client, on_reply, on_timeout, on_poll, next_request, run,
}

abbrev pub timeouts : ℕ → List Poll
timeouts zero = []
timeouts (suc n) = record { poll_ok = true; message = none } ∷ timeouts n

module _ ⦃z : Zmqpp⦄ where
  -- The client after `n` resends and the decision to give up.
  abbrev pub resent : ℕ → Client → Client
  resent zero c = record c { retries = 0; expect_reply = false }
  resent (suc n) c = resent n (record c {
    retries = c.retries - 1;
    sockets = c.sockets + 1;
    sent = c.sent ++ (put_int c.seq ∷ []) ∷ [];
  })

  run-timeout :
      (m : ℕ) (c : Client) (ps : List Poll)
      → c.retries ≡ suc m
      → run c (record { poll_ok = true; message = none } ∷ ps)
        ≡ run (next_request (on_timeout c)) ps
  unfolding run on_poll
  run-timeout m c ps e = ground arith

  give_up :
      (c : Client)
      → c.retries ≡ 1
      → next_request (on_timeout c) ≡ record c { retries = 0; expect_reply = false }
  unfolding next_request on_timeout
  give_up c e = ground arith

  resend :
      (n : ℕ) (c : Client)
      → c.retries ≡ suc (suc n)
      → c.expect_reply ≡ true
      → next_request (on_timeout c) ≡ record c {
        retries = c.retries - 1;
        sockets = c.sockets + 1;
        sent = c.sent ++ (put_int c.seq ∷ []) ∷ [];
      }
  unfolding next_request on_timeout
  resend n c e w = ground (arith, push_back_eq [] (put_int c.seq))

  -- A client that waits for a reply and has `n + 1` retries left gives up after `n + 1` polls with
  -- no message; before that it has sent its sequence number again `n` times, in a message of that
  -- frame alone and each time on a new socket.
  pub run-timeouts :
      (n : ℕ) (c : Client)
      → c.retries ≡ suc n
      → c.expect_reply ≡ true
      → run c (timeouts (suc n)) ≡ resent n c
  run-timeouts zero c e w = run-timeout 0 c [] e ∙ rw (give_up c e) (unfold run in refl)
  run-timeouts (suc n) c e w =
      run-timeout (suc n) c (timeouts (suc n)) e
      ∙ rw (resend n c e w) (run-timeouts n _ (omega arith) w)

  -- The worker sends a message of three frames back as it came, so the answer to a request that was
  -- sent again has the sequence number alone, and reading its body ends the client.
  pub resend_reply_fails :
      (c : Client) (p : Poll)
      → c.seq < 2 ^ 32
      → p.poll_ok ≡ true
      → p.message ≡ some (put_int c.seq ∷ [])
      → on_poll p c ≡ err missing_part
  unfolding on_poll on_reply
  resend_reply_fails c p h e m =
      ground (arith, get_int-cons_put c.seq [] h, get_text_eq (put_int c.seq ∷ []) 1)

  -- A reply with the current number is taken: the retries are full again and the next request has the
  -- next number. One with another number changes nothing but is waited past.
  pub on_poll-reply :
      (c : Client) (p : Poll) (id : ℕ) (body : Bytes) (more : Message)
      → id < 2 ^ 32
      → p.poll_ok ≡ true
      → p.message ≡ some (put_int id ∷ body ∷ more)
      → on_poll p c
        ≡ ok (
            if nat_eq id c.seq
            then record c { retries = request_retries; expect_reply = false }
            else c)
  unfolding on_poll on_reply
  on_poll-reply c p id body more h e m =
      ground (arith, get_int-cons_put id (body ∷ more) h, get_text_eq (put_int id ∷ body ∷ more) 1)
