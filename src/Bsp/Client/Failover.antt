-- ===== src/Bsp/Client/Failover.antt =====
-- BSP-Binary Star Pattern/client/bstarcli.cpp: which server the client turns to.
use zero_mq_rfc_implementati.Base.{
  ℕ, suc, ◌+◌, ◌-◌, ◌%◌, ◌^◌, Bytes, c_str, true, false, none, List, [], ◌∷◌, ◌++◌, append_assoc,
  nat_eq, ok, ◌≡◌, refl, ◌∙◌, ap, arith,
}
use zero_mq_rfc_implementati.Base.Zmqpp.{Zmqpp}
use zero_mq_rfc_implementati.Bsp.Client.{
  Poll, Client, number_retries, server_at, connect_to_broker, hello, post, send_request, on_timeout,
  on_poll, next_request, run,
}

abbrev pub silence : Poll
silence = record { poll_ok = true; message = none }

one_by_one {ℓ} :
    {A : Type ℓ} (xs : List A) (a b c d : A)
    → (((xs ++ a ∷ []) ++ b ∷ []) ++ c ∷ []) ++ d ∷ [] ≡ xs ++ a ∷ b ∷ c ∷ d ∷ []
one_by_one xs a b c d =
    append_assoc ((xs ++ a ∷ []) ++ b ∷ []) (c ∷ []) (d ∷ [])
    ∙ append_assoc (xs ++ a ∷ []) (b ∷ []) (c ∷ d ∷ [])
    ∙ append_assoc xs (a ∷ []) (b ∷ c ∷ d ∷ [])

module _ ⦃z : Zmqpp⦄ where
  -- The client after a resend to the server at an address, and after it has abandoned a server.
  abbrev resent : Bytes → Client → Client
  resent addr c =
      post (hello c.seq) (record c { retries = c.retries - 1; connected_to = c_str addr })

  abbrev abandoned : Client → Client
  abandoned c = record c {
    retries = number_retries;
    srv_index = (c.srv_index + 1) % 2 ^ 32;
    expect_reply = false;
  }

  run-resend :
      (n : ℕ) (addr : Bytes) (c : Client) (ps : List Poll)
      → c.retries ≡ suc (suc n)
      → c.expect_reply ≡ true
      → server_at c.srv_index c.servers ≡ ok addr
      → run c (silence ∷ ps) ≡ run (resent addr c) ps
  unfolding run
  run-resend n addr c ps r w e =
      let more : nat_eq (c.retries - 1) 0 ≡ false = ground (arith, r) in
      let polled : on_poll silence c ≡ ok (resent addr c) =
        unfold on_poll on_timeout connect_to_broker in simp (more, e) refl in
      let goes_on : next_request (resent addr c) ≡ resent addr c =
        unfold next_request in simp w refl in
      rw (polled, run) (ap (λ d. run d ps) goes_on)

  run-abandon :
      (c : Client) (ps : List Poll)
      → c.retries ≡ 1
      → run c (silence ∷ ps) ≡ run (send_request (abandoned c)) ps
  unfolding run
  run-abandon c ps r =
      let last : nat_eq (c.retries - 1) 0 ≡ true = ground (arith, r) in
      let polled : on_poll silence c ≡ ok (abandoned c) =
        unfold on_poll on_timeout in simp last refl in
      let goes_on : next_request (abandoned c) ≡ send_request (abandoned c) =
        unfold next_request in refl in
      rw (polled, run) (ap (λ d. run d ps) goes_on)

  -- A client that waits for a reply with its three retries left, and hears nothing in four polls: it has
  -- sent its request to its server twice more, each time on a new socket; it has then given that
  -- server up, but its next request has gone to it once more, before it was sent to the next
  -- server in turn, to which the client is connected now.
  pub run-failover :
      (addr following : Bytes) (c : Client)
      → c.retries ≡ number_retries
      → c.expect_reply ≡ true
      → server_at c.srv_index c.servers ≡ ok addr
      → server_at ((c.srv_index + 1) % 2 ^ 32) c.servers ≡ ok following
      → run c (silence ∷ silence ∷ silence ∷ silence ∷ []) ≡ record c {
        connected_to = c_str following;
        seq = (c.seq + 1) % 2 ^ 32;
        retries = 2;
        srv_index = (c.srv_index + 1) % 2 ^ 32;
        expect_reply = true;
        sent =
            c.sent
            ++ (c_str addr, hello c.seq)
              ∷ (c_str addr, hello c.seq)
              ∷ (c_str addr, hello ((c.seq + 1) % 2 ^ 32))
              ∷ (c_str following, hello ((c.seq + 1) % 2 ^ 32))
              ∷ [];
      }
  unfolding run send_request
  run-failover addr following c r w e e' =
      let c₁ = resent addr c in
      let c₂ = resent addr c₁ in
      let c₃ = send_request (abandoned c₂) in
      let r₁ : c₁.retries ≡ 2 = omega (arith, r) in
      let r₂ : c₂.retries ≡ 1 = omega (arith, r) in
      run-resend 1 addr c (silence ∷ silence ∷ silence ∷ []) r w e
      ∙ run-resend 0 addr c₁ (silence ∷ silence ∷ []) r₁ w e
      ∙ run-abandon c₂ (silence ∷ []) r₂
      ∙ run-resend 1 following c₃ [] refl refl e'
      ∙ ap
          (λ ms. record c {
            connected_to = c_str following;
            seq = (c.seq + 1) % 2 ^ 32;
            retries = 2;
            srv_index = (c.srv_index + 1) % 2 ^ 32;
            expect_reply = true;
            sent = ms;
          })
          (one_by_one c.sent (c_str addr, hello c.seq) (c_str addr, hello c.seq)
            (c_str addr, hello ((c.seq + 1) % 2 ^ 32))
            (c_str following, hello ((c.seq + 1) % 2 ^ 32)))
