-- ===== src/Flp/Programs/Failover.antt =====
-- The client's program with the servers' programs.
use zero_mq_rfc_implementati.Base.{
  ℕ, suc, ◌+◌, ◌≤◌, ◌<◌, ◌^◌, ◌≡◌, refl, ◌∙◌, sym, ap, subst, Bytes, codes, IsPlain,
  c_str-of_IsPlain, ◌==◌, true, false, none, some, List, [], ◌∷◌, ◌++◌, append_assoc, append-nil,
  length, All, ok, arith, Post, Post-mono,
}
use zero_mq_rfc_implementati.Base.Zmqpp.{
  Message, Zmqpp, put_int, push_back_eq, push_front_eq, take_text-cons, get_text_zero,
}
use zero_mq_rfc_implementati.Base.Dict.{insert, contains}
use zero_mq_rfc_implementati.Utils.Config.{Config}
use zero_mq_rfc_implementati.Mdp.ClientMain.{hello}
use zero_mq_rfc_implementati.Flp.Constants.{global_timeout, command_ping}
use zero_mq_rfc_implementati.Flp.Agent.{
  server, Agent, Times, new_agent, control_message, route_message, dispatch_request,
}
use zero_mq_rfc_implementati.Flp.Agent.Known.{Known, IsKnown, connect-Keeps}
use zero_mq_rfc_implementati.Flp.Agent.Routing.{AllLate, is_late, dispatch_request-first}
use zero_mq_rfc_implementati.Flp.Server.{answer}
use zero_mq_rfc_implementati.Flp.Exchange.{
  control_message-request, route_message-reply, answer-request,
}
use zero_mq_rfc_implementati.Flp.Api.{connect, request}
use zero_mq_rfc_implementati.Flp.Programs.{address_of, endpoints_of, connect_all, ask}

-- The agent after more connections.
abbrev Connected : Agent → List Bytes → Agent → Type 0
Connected a eps b =
    IsKnown b
    × (b.actives ≡ a.actives ++ eps)
    × (b.request ≡ a.request)
    × (b.seq ≡ a.seq)
    × (b.to_pipe ≡ a.to_pipe)
    × (b.to_router ≡ a.to_router)

All-middle : (P : Bytes → Type 0) (xs ys : List Bytes) (y : Bytes) → All P (xs ++ y ∷ ys) → P y
All-middle P [] ys y h = h.0
All-middle P (x ∷ xs) ys y h = All-middle P xs ys y h.1

module _ ⦃z : Zmqpp⦄ where
  control_message-connect :
      (t : Times) (ep : Bytes) (a : Agent)
      → IsPlain ep
      → control_message t (connect ep) a
        ≡ ok (record a {
          connections = a.connections ++ ep ∷ [];
          servers = insert ep (server ep t.ping_now t.expiry_now) a.servers;
          actives = a.actives ++ ep ∷ [];
        })
  unfolding control_message connect ◌==◌
  control_message-connect t ep a plain =
      rw (c_str-of_IsPlain ep plain, push_back_eq, push_back_eq)
        (simp (take_text-cons, get_text_zero) refl)

  connect_all-Connected :
      (t : ℕ → Times) (n : ℕ) (eps : List Bytes) (a : Agent)
      → All IsPlain eps
      → IsKnown a
      → Post (Connected a eps) (connect_all t n eps a)
  unfolding connect_all
  connect_all-Connected t n [] a p h = (h, sym (append-nil a.actives), refl, refl, refl, refl)
  connect_all-Connected t n (ep ∷ eps) a p h =
      let b = record a {
        connections = a.connections ++ ep ∷ [];
        servers = insert ep (server ep (t n).ping_now (t n).expiry_now) a.servers;
        actives = a.actives ++ ep ∷ [];
      } in
      rw (control_message-connect (t n) ep a p.0) (
        Post-mono (Connected b eps) (Connected a (ep ∷ eps)) (connect_all t (suc n) eps b)
          (λ c (k, acts, r, s, p, q). (k, acts ∙ append_assoc a.actives (ep ∷ []) eps, r, s, p, q))
          (connect_all-Connected t (suc n) eps b p.1 (connect-Keeps (t n) ep a h)))

  ask_eq : (i : ℕ) → ask i ≡ request (hello i ∷ [])
  unfolding ask
  ask_eq i = rw push_back_eq

  request_first :
      (t : Times) (m : Message) (a : Agent)
      → a.request ≡ none
      → a.seq ≡ 0
      → control_message t (request m) a
        ≡ ok (record a {
          seq = 1;
          request = some (put_int 1 ∷ m);
          expiry = t.request_now + global_timeout;
        })
  unfolding request
  request_first t m a r s = rw push_front_eq (control_message-request t m a r ∙ rw s refl)

  -- A client's program has connected to the three endpoints of its configuration, one of which is the
  -- identity of the server's program with an index, and makes its request with the number `i`. The
  -- servers before that one have expired, it has not, the request's time has not run out, and no endpoint has
  -- a zero byte. Then the agent sends the request to that server, whose answer makes it hand "OK" and the
  -- request's text to the client, and nothing else is in the pipe. The frame of the number 1 is not the
  -- text "PING".
  pub connect_all-dispatch_request :
      (conf : Config) (t : ℕ → Times) (t' t'' : Times) (i idx now : ℕ) (clock : ℕ → ℕ)
      (client : Bytes) (dead rest : List Bytes) (a : Agent)
      → All IsPlain (endpoints_of conf)
      → connect_all t 0 (endpoints_of conf) new_agent ≡ ok a
      → endpoints_of conf ≡ dead ++ (address_of idx conf).endpoint ∷ rest
      → now ≤ t'.request_now + global_timeout
      → AllLate a.servers clock 0 dead
      → is_late a.servers (address_of idx conf).endpoint (clock (length dead)) ≡ false
      → (put_int 1 == command_ping) ≡ false
      → let ep = (address_of idx conf).endpoint in
        (b c d : Agent) × (req reply : Message) × (control_message t' (ask i) a ≡ ok b)
        × (dispatch_request now clock b ≡ ok c)
        × (c.to_router ≡ (ep ∷ req) ∷ [])
        × (answer (client ∷ req) ≡ ok (some (client ∷ reply)))
        × (route_message t'' (ep ∷ reply) c ≡ ok d)
        × (d.to_pipe ≡ (codes "OK" ∷ hello i ∷ []) ∷ [])
        × (d.request ≡ none)
  connect_all-dispatch_request conf t t' t'' i idx now clock client dead rest a plain done split
        early late alive ping =
      let ep = (address_of idx conf).endpoint in
      let body = hello i ∷ [] in
      let (k, acts, r, s, p, q) =
        subst (Post (Connected new_agent (endpoints_of conf))) done
          (connect_all-Connected t 0 (endpoints_of conf) new_agent plain (tt, tt)) in
      let b = record a {
        seq = 1;
        request = some (put_int 1 ∷ body);
        expiry = t'.request_now + global_timeout;
      } in
      let known : contains ep a.servers ≡ true =
        All-middle (Known a.servers) dead rest ep
          (subst (All (Known a.servers)) (acts ∙ split) k.1) in
      let (c, sends, _, sent, _, pipe, num, has) =
        dispatch_request-first now clock (put_int 1 ∷ body) dead rest ep b k refl early
          (acts ∙ split) late known alive in
      let (d, replies, got, ends, _, _) =
        route_message-reply t'' ep [] (hello i) c has
          (subst (λ n. n < 2 ^ 32) (sym num) (omega arith)) in
      (
        b,
        c,
        d,
        put_int 1 ∷ body,
        put_int 1 ∷ body,
        ap (λ m. control_message t' m a) (ask_eq i) ∙ request_first t' body a r s,
        sends,
        sent ∙ ap (λ ms. ms ++ (ep ∷ put_int 1 ∷ body) ∷ []) q,
        answer-request client (put_int 1) body ping,
        ap (λ n. route_message t'' (ep ∷ put_int n ∷ body) c) (sym num) ∙ replies,
        got ∙ ap (λ ms. ms ++ (codes "OK" ∷ body) ∷ []) (pipe ∙ p),
        ends,
      )
