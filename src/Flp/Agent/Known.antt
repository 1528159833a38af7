-- ===== src/Flp/Agent/Known.antt =====
-- 10.FLP-Freelance Protocol/client/flcliapi.cpp: the endpoints that the agent has servers for.
use zero_mq_rfc_implementati.Base.{
  ◌+◌, ◌%◌, ◌^◌, Bytes, ◌==◌, true, some, List, [], ◌∷◌, ◌++◌, ltb, nat_eq, if◌then◌else◌, Fault,
  Result, ok, err, contract, out_of_range, missing_part, guard, ◌>>◌, ◌≡◌, ◌≢◌, refl, arith, All,
  All-append, All-mono, Bool-cases, Option-cases, Result-cases, inl, inr,
}
use zero_mq_rfc_implementati.Base.Zmqpp.{
  Message, Zmqpp, get_int, get_text_eq, parts, push_front, get_text_zero, take_text, take_text-cons,
  take_text-nil, put_int, frame_laws,
}
use zero_mq_rfc_implementati.Base.Dict.{Dict, insert, assign, contains}
use zero_mq_rfc_implementati.Base.Dict.Entries.{
  Entries, lookup-Entries, assign-Entries, insert-Entries, contains-assign, contains-assign_self,
  contains-insert, contains-insert_self, lookup_of_contains,
}
use zero_mq_rfc_implementati.Flp.Constants.{global_timeout, command_connect, command_request}
use zero_mq_rfc_implementati.Flp.Agent.{
  Server, is_none, reset_expiry, server, Agent, Times, control_message, take_reply, route_message,
}

-- Each server is under its endpoint, and each active endpoint has a server.
abbrev pub Named : Bytes → Server → Type 0
Named k s = s.endpoint ≡ k

abbrev pub Known : Dict Server → Bytes → Type 0
Known d ep = contains ep d ≡ true

abbrev pub IsKnown : Agent → Type 0
IsKnown a = Entries Named a.servers × All (Known a.servers) a.actives

-- The operation ends in a known state or faults on a message that is too short, or on the caller's
-- second request.
abbrev pub Keeps : Result Agent → Type 0
Keeps (ok a) = IsKnown a
Keeps (err f) = (f ≢ out_of_range)

pub assign-Named :
    (k : Bytes) (s : Server) (d : Dict Server)
    → s.endpoint ≡ k
    → Entries Named d
    → Entries Named (assign k s d)
assign-Named k s d e h = assign-Entries Named k s d e h

pub All-Known-assign :
    (k : Bytes) (s : Server) (d : Dict Server) (eps : List Bytes)
    → All (Known d) eps
    → All (Known (assign k s d)) eps
All-Known-assign k s d eps h =
    All-mono (Known d) (Known (assign k s d)) eps (λ ep. contains-assign k ep s d) h

module _ ⦃z : Zmqpp⦄ where
  pub connect-Keeps :
      (t : Times) (ep : Bytes) (a : Agent)
      → IsKnown a
      → IsKnown (record a {
        connections = a.connections ++ ep ∷ [];
        servers = insert ep (server ep t.ping_now t.expiry_now) a.servers;
        actives = a.actives ++ ep ∷ [];
      })
  unfolding server reset_expiry
  connect-Keeps t ep a h =
      let s = server ep t.ping_now t.expiry_now in
      let d = insert ep s a.servers in
      (
        insert-Entries Named ep s a.servers refl h.0,
        All-append (Known d) a.actives (ep ∷ [])
            (All-mono (Known a.servers) (Known d) a.actives (λ e. contains-insert ep e s a.servers)
              h.1)
            (contains-insert_self ep s a.servers, tt),
      )

  request-Keeps :
      (t : Times) (m : Message) (a : Agent)
      → IsKnown a
      → Keeps (do
        guard (is_none a.request) contract
        let seq = (a.seq + 1) % 2 ^ 32
        ok (record a {
          seq = seq;
          request = some (push_front m (put_int seq));
          expiry = t.request_now + global_timeout;
        }))
  request-Keeps t m a h = elim (Option-cases a.request) [
    | inl idle ↦ simp idle h
    | inr (r, busy) ↦ simp busy (ground arith)
  ]

  pub control_message-Keeps :
      (t : Times) (msg : Message) (a : Agent) → IsKnown a → Keeps (control_message t msg a)
  unfolding control_message
  control_message-Keeps t [] a h = rw take_text-nil (ground arith)
  control_message-Keeps t (cmd ∷ []) a h =
      rw take_text-cons (elim (Bool-cases (cmd == command_connect)) [
        | inl connect ↦ rw connect (simp frame_laws (ground arith))
        | inr other ↦ rw other (elim (Bool-cases (cmd == command_request)) [
          | inl request ↦ rw request (request-Keeps t [] a h)
          | inr unknown ↦ rw unknown h
        ])
      ])
  control_message-Keeps t (cmd ∷ ep ∷ m) a h =
      rw take_text-cons (elim (Bool-cases (cmd == command_connect)) [
        | inl connect ↦ rw connect (rw (get_text_zero ep m) (connect-Keeps t ep a h))
        | inr other ↦ rw other (elim (Bool-cases (cmd == command_request)) [
          | inl request ↦ rw request (request-Keeps t (ep ∷ m) a h)
          | inr unknown ↦ rw unknown h
        ])
      ])

  get_int-fault : (m : Message) (f : Fault) → get_int m 0 ≡ err f → f ≢ out_of_range
  unfolding get_int
  get_int-fault [] f e = ground (arith, get_text_eq [] 0)
  get_int-fault (x ∷ m) f e = ground (arith, get_text_zero x m)

  take_reply-Keeps : (m : Message) (a : Agent) → IsKnown a → Keeps (take_reply m a)
  unfolding take_reply
  take_reply-Keeps m a h = elim (Bool-cases (ltb 1 (parts m))) [
    | inl long ↦ rw long (elim (Result-cases (get_int m 0)) [
      | inl (seq, e) ↦
          rw e
            (elim (Bool-cases (nat_eq seq a.seq)) [ inl same ↦ rw same h | inr other ↦ rw other h ])
      | inr (f, e) ↦ rw e (get_int-fault m f e)
    ])
    | inr short ↦ rw short h
  ]

  -- A reply from an endpoint of the map.
  pub route_message-Keeps :
      (t : Times) (ep : Bytes) (m : Message) (a : Agent)
      → contains ep a.servers ≡ true
      → IsKnown a
      → Keeps (route_message t (ep ∷ m) a)
  unfolding route_message reset_expiry
  route_message-Keeps t ep m a c h =
      let (srv, e) = lookup_of_contains ep a.servers c in
      let s = reset_expiry t.ping_now t.expiry_now (record srv { alive = true }) in
      let d = assign ep s a.servers in
      let old = All-Known-assign ep s a.servers a.actives h.1 in
      rw (take_text-cons, e)
        (take_reply-Keeps m
          (record a {
            servers = d;
            actives = if srv.alive then a.actives else a.actives ++ ep ∷ [];
          })
          (
            assign-Named ep s a.servers (lookup-Entries Named ep a.servers h.0 e) h.0,
            elim (Bool-cases srv.alive) [
              | inl alive ↦ rw alive old
              | inr dead ↦ rw dead (
                  All-append (Known d) a.actives (ep ∷ []) old
                    (contains-assign_self ep s a.servers, tt))
            ],
          ))

  pub contains-control :
      (t : Times) (msg : Message) (a b : Agent) (ep : Bytes)
      → control_message t msg a ≡ ok b
      → contains ep a.servers ≡ true
      → contains ep b.servers ≡ true
  unfolding control_message
  contains-control t [] a b ep e c =
      let none_left : take_text [] ≡ err missing_part = take_text-nil in
      ground (arith, none_left, e)
  contains-control t (cmd ∷ []) a b ep e c =
      ground (arith, take_text-cons cmd [], get_text_eq [] 0, e, c)
  contains-control t (cmd ∷ x ∷ m) a b ep e c = ground (
    arith,
    take_text-cons cmd (x ∷ m),
    get_text_zero x m,
    e,
    c,
    contains-insert x ep (server x t.ping_now t.expiry_now) a.servers c,
  )
