-- ===== src/Flp/Api.antt =====
-- 10.FLP-Freelance Protocol/client/flcliapi.cpp: `connect` and `request` of the client's side of the pipe,
-- with the agent and a server.
use zero_mq_rfc_implementati.Base.{
  ℕ, ◌+◌, ◌≤◌, Bytes, codes, c_str, IsPlain, c_str-of_IsPlain, ◌==◌, ==_refl, false, none, some, [],
  ◌∷◌, le→ltb, ok, ◌≡◌, refl, ◌∙◌, arith,
}
use zero_mq_rfc_implementati.Base.Zmqpp.{
  Message, Zmqpp, push_front, push_back, push_front_eq, push_back_eq, get_text_zero, take_text-cons,
  put_int,
}
use zero_mq_rfc_implementati.Base.Dict.{lookup, insert, assign, contains}
use zero_mq_rfc_implementati.Flp.Constants.{
  server_ttl, global_timeout, command_connect, command_request, command_ping,
}
use zero_mq_rfc_implementati.Flp.Agent.{
  server, Agent, Times, new_agent, control_message, route_message, dispatch_request,
}
use zero_mq_rfc_implementati.Flp.Agent.Dispatch.{find_server-cons, dispatch_request-eq}
use zero_mq_rfc_implementati.Base.Dict.Entries.{contains_of_lookup}
use zero_mq_rfc_implementati.Flp.Server.{answer}
use zero_mq_rfc_implementati.Flp.Exchange.{
  control_message-request, route_message-reply, answer-request,
}

module _ ⦃z : Zmqpp⦄ where
  -- The message that `connect` sends to the agent.
  unfoldable pub connect : Bytes → Message
  connect ep = push_back (push_back [] command_connect) (c_str ep)

  -- The message that `request` sends to the agent. What it returns is the next message of the pipe.
  unfoldable pub request : Message → Message
  request msg = push_front msg command_request

  control_message-connect :
      (t : Times) (ep : Bytes)
      → IsPlain ep
      → control_message t (connect ep) new_agent
        ≡ ok (record new_agent {
          connections = ep ∷ [];
          servers = (ep, server ep t.ping_now t.expiry_now) ∷ [];
          actives = ep ∷ [];
        })
  unfolding control_message connect ◌==◌ insert assign contains lookup
  control_message-connect t ep plain =
      rw (c_str-of_IsPlain ep plain, push_back_eq, push_back_eq)
        (simp (take_text-cons, get_text_zero) refl)

  -- The agent after that and a request.
  abbrev asking : Times → Times → Bytes → Message → Agent
  asking t t' ep msg = record new_agent {
    connections = ep ∷ [];
    servers = (ep, server ep t.ping_now t.expiry_now) ∷ [];
    actives = ep ∷ [];
    seq = 1;
    request = some (put_int 1 ∷ msg);
    expiry = t'.request_now + global_timeout;
  }

  asking-server :
      (t t' : Times) (ep : Bytes) (msg : Message)
      → lookup ep (asking t t' ep msg).servers ≡ some (server ep t.ping_now t.expiry_now)
  unfolding lookup
  asking-server t t' ep msg = rw (==_refl ep) refl

  dispatch_request-asking :
      (t t' : Times) (now : ℕ) (clock : ℕ → ℕ) (ep : Bytes) (msg : Message)
      → now ≤ t'.request_now + global_timeout
      → clock 0 ≤ t.expiry_now + server_ttl
      → dispatch_request now clock (asking t t' ep msg)
        ≡ ok (record (asking t t' ep msg) { to_router = (ep ∷ put_int 1 ∷ msg) ∷ [] })
  dispatch_request-asking t t' now clock ep msg h h' =
      let b = asking t t' ep msg in
      let s = server ep t.ping_now t.expiry_now in
      (dispatch_request-eq now clock b).1 (put_int 1 ∷ msg) refl
      ∙ rw (le→ltb (t'.request_now + global_timeout) now h) (
          find_server-cons clock 0 (put_int 1 ∷ msg) ep [] b s (asking-server t t' ep msg)
          ∙ unfold server in
            rw (le→ltb (t.expiry_now + server_ttl) (clock 0) h', push_front_eq) refl)

  -- A client that connects to one server and makes a request: the agent sends it to that server,
  -- whose answer, when it comes, makes the agent hand "OK" and the body back on the pipe, and nothing else is in
  -- the pipe. The agent's first round after the request comes before the request's timeout and before the
  -- server's expiry, the endpoint has no zero byte, the body has a frame, and the frame of the number 1 is not
  -- the text "PING".
  pub connect-request-reply :
      (t t' t'' : Times) (now : ℕ) (clock : ℕ → ℕ) (ep client x : Bytes) (body : Message)
      → IsPlain ep
      → now ≤ t'.request_now + global_timeout
      → clock 0 ≤ t.expiry_now + server_ttl
      → (put_int 1 == command_ping) ≡ false
      → (a b c d : Agent) × (req reply : Message) × (control_message t (connect ep) new_agent
          ≡ ok a)
        × (control_message t' (request (x ∷ body)) a ≡ ok b)
        × (dispatch_request now clock b ≡ ok c)
        × (c.to_router ≡ (ep ∷ req) ∷ [])
        × (answer (client ∷ req) ≡ ok (some (client ∷ reply)))
        × (route_message t'' (ep ∷ reply) c ≡ ok d)
        × (d.to_pipe ≡ (codes "OK" ∷ x ∷ body) ∷ [])
        × (d.request ≡ none)
  unfolding request
  connect-request-reply t t' t'' now clock ep client x body plain early alive no_ping =
      let a = record new_agent {
        connections = ep ∷ [];
        servers = (ep, server ep t.ping_now t.expiry_now) ∷ [];
        actives = ep ∷ [];
      } in
      let b = asking t t' ep (x ∷ body) in
      let c = record b { to_router = (ep ∷ put_int 1 ∷ x ∷ body) ∷ [] } in
      let (d, e, p, r, _, _) =
        route_message-reply t'' ep body x c
          (contains_of_lookup ep c.servers (asking-server t t' ep (x ∷ body))) (omega arith) in
      (
        a,
        b,
        c,
        d,
        put_int 1 ∷ x ∷ body,
        put_int 1 ∷ x ∷ body,
        control_message-connect t ep plain,
        rw push_front_eq (control_message-request t' (x ∷ body) a refl),
        dispatch_request-asking t t' now clock ep (x ∷ body) early alive,
        refl,
        answer-request client (put_int 1) (x ∷ body) no_ping,
        e,
        p,
        r,
      )
