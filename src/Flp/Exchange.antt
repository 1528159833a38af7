-- ===== src/Flp/Exchange.antt =====
-- 10.FLP-Freelance Protocol/client/flcliapi.cpp and server/flserver.cpp: requests and replies.
use zero_mq_rfc_implementati.Base.{
  ◌+◌, ◌%◌, ◌^◌, ◌<◌, Bytes, codes, ◌==◌, true, false, none, some, [], ◌∷◌, ◌++◌, ltb, nat_eq,
  nat_eq_iff, if◌then◌else◌, ok, ◌≡◌, refl, ◌∙◌, sym, ap, subst, arith,
}
use zero_mq_rfc_implementati.Base.Zmqpp.{
  Message, Zmqpp, parts, push_front_eq, pop_front_eq, get_int-cons_put, parts_eq, take_text-cons,
  put_int,
}
use zero_mq_rfc_implementati.Base.Dict.{assign, contains}
use zero_mq_rfc_implementati.Base.Dict.Entries.{contains-assign_self, lookup_of_contains}
use zero_mq_rfc_implementati.Flp.Constants.{global_timeout, command_request, command_ping}
use zero_mq_rfc_implementati.Flp.Agent.{
  reset_expiry, Agent, Times, control_message, take_reply, route_message,
}
use zero_mq_rfc_implementati.Flp.Server.{answer}

module _ ⦃z : Zmqpp⦄ where
  not_empty : (f : Bytes) (m : Message) → nat_eq (parts (f ∷ m)) 0 ≡ false
  not_empty f m = rw parts_eq (ground arith)

  two_frames : (f g : Bytes) (m : Message) → ltb 1 (parts (f ∷ g ∷ m)) ≡ true
  two_frames f g m = rw parts_eq (ground arith)

  pub answer-request :
      (client seq : Bytes) (body : Message)
      → (seq == command_ping) ≡ false
      → answer (client ∷ seq ∷ body) ≡ ok (some (client ∷ seq ∷ body))
  unfolding answer
  answer-request client seq body h = simp (not_empty, take_text-cons, push_front_eq, h) refl

  take_reply-current :
      (x : Bytes) (body : Message) (a : Agent)
      → a.seq < 2 ^ 32
      → take_reply (put_int a.seq ∷ x ∷ body) a
        ≡ ok (record a { to_pipe = a.to_pipe ++ (codes "OK" ∷ x ∷ body) ∷ []; request = none })
  unfolding take_reply
  take_reply-current x body a n =
      simp (two_frames, pop_front_eq, push_front_eq)
        (rw (get_int-cons_put a.seq (x ∷ body) n, (nat_eq_iff a.seq a.seq).1 refl) refl)

  pub route_message-reply :
      (t : Times) (ep : Bytes) (body : Message) (x : Bytes) (a : Agent)
      → contains ep a.servers ≡ true
      → a.seq < 2 ^ 32
      → (b : Agent) × (route_message t (ep ∷ put_int a.seq ∷ x ∷ body) a ≡ ok b)
        × (b.to_pipe ≡ a.to_pipe ++ (codes "OK" ∷ x ∷ body) ∷ [])
        × (b.request ≡ none)
        × (b.seq ≡ a.seq)
        × (contains ep b.servers ≡ true)
  unfolding route_message
  route_message-reply t ep body x a c n =
      let (srv, e) = lookup_of_contains ep a.servers c in
      let s = reset_expiry t.ping_now t.expiry_now (record srv { alive = true }) in
      let a' = record a {
        servers = assign ep s a.servers;
        actives = if srv.alive then a.actives else a.actives ++ ep ∷ [];
      } in
      rw (take_text-cons, e, take_reply-current x body a' n)
        (
          record a' { to_pipe = a.to_pipe ++ (codes "OK" ∷ x ∷ body) ∷ []; request = none },
          refl,
          refl,
          refl,
          refl,
          contains-assign_self ep s a.servers,
        )

  pub control_message-request :
      (t : Times) (m : Message) (a : Agent)
      → a.request ≡ none
      → control_message t (command_request ∷ m) a
        ≡ ok (record a {
          seq = (a.seq + 1) % 2 ^ 32;
          request = some (put_int ((a.seq + 1) % 2 ^ 32) ∷ m);
          expiry = t.request_now + global_timeout;
        })
  unfolding control_message ◌==◌
  control_message-request t m a h = simp (take_text-cons, push_front_eq, h) refl

  -- A reply with the agent's current number, from a server that it knows, that arrives twice: the first
  -- copy ends the request and goes to the pipe behind an "OK", and the second, which finds no request,
  -- goes to the pipe in the same way. The reply has a frame behind the number.
  pub route_message-again :
      (t t' : Times) (ep x : Bytes) (body : Message) (a : Agent)
      → contains ep a.servers ≡ true
      → a.seq < 2 ^ 32
      → (b c : Agent) × (route_message t (ep ∷ put_int a.seq ∷ x ∷ body) a ≡ ok b)
        × (b.request ≡ none)
        × (route_message t' (ep ∷ put_int a.seq ∷ x ∷ body) b ≡ ok c)
        × (c.to_pipe ≡ (a.to_pipe ++ (codes "OK" ∷ x ∷ body) ∷ []) ++ (codes "OK" ∷ x ∷ body) ∷ [])
  route_message-again t t' ep x body a known n =
      let (b, e, p, r, q, k) = route_message-reply t ep body x a known n in
      let (c, e', p', _, _, _) =
        route_message-reply t' ep body x b k (subst (λ i. i < 2 ^ 32) (sym q) n) in
      (
        b,
        c,
        e,
        r,
        ap (λ i. route_message t' (ep ∷ put_int i ∷ x ∷ body) b) (sym q) ∙ e',
        p' ∙ ap (λ ms. ms ++ (codes "OK" ∷ x ∷ body) ∷ []) p,
      )
