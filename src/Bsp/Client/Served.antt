-- ===== src/Bsp/Client/Served.antt =====
-- BSP-Binary Star Pattern/client/bstarcli.cpp: the servers that the client writes to.
use zero_mq_rfc_implementati.Base.{
  ℕ, ◌+◌, ◌-◌, ◌%◌, ◌^◌, ◌<◌, ◌≤◌, Bytes, c_str, Bool, true, false, Option, none, some, List, [],
  ◌∷◌, All, All-append, length, get_elem?, nat_eq, Result, ok, err, out_of_range, or_fault, inl,
  inr, Result-cases, Bool-cases, ◌≡◌, refl, ◌∙◌, sym, ap, subst, arith,
}
use zero_mq_rfc_implementati.Base.Zmqpp.{Message, Zmqpp, get_text, get_int}
use zero_mq_rfc_implementati.Bsp.Client.{
  Poll, Client, number_retries, server_at, connect_to_broker, hello, post, send_request, start,
  on_reply, on_timeout, on_poll, next_request, run,
}

found : (o : Option Bytes) (addr : Bytes) → or_fault o out_of_range ≡ ok addr → o ≡ some addr
found none addr e = ground (arith, e)
found (some a) addr e = ground (arith, e)

module _ ⦃z : Zmqpp⦄ where
  -- The endpoint is that of a server of the list.
  abbrev pub IsOf : List Bytes → Bytes → Type 0
  IsOf servers endpoint =
      (i : ℕ) × (addr : Bytes) × (get_elem? servers i ≡ some addr) × (endpoint ≡ c_str addr)

  abbrev pub IsPost : List Bytes → Bytes × Message → Type 0
  IsPost servers m = IsOf servers m.0

  -- One retry to three are left, and every message went to a server of the list, whose number is
  -- unchanged.
  pub record IsServed (servers : List Bytes) (c : Client) : Type 0 where
    pub same : c.servers ≡ servers
    pub left : 0 < c.retries
    pub most : c.retries ≤ number_retries
    pub present : IsOf servers c.connected_to
    pub posted : All (IsPost servers) c.sent

  server_at-IsOf :
      (i : ℕ) (servers : List Bytes) (addr : Bytes)
      → server_at i servers ≡ ok addr
      → IsOf servers (c_str addr)
  unfolding server_at
  server_at-IsOf i servers addr e =
      (i % length servers, addr, found (get_elem? servers (i % length servers)) addr e, refl)

  post-IsServed :
      (servers : List Bytes) (m : Message) (c : Client)
      → IsServed servers c
      → IsServed servers (post m c)
  post-IsServed servers m c v = record {
    same = v.same;
    left = v.left;
    most = v.most;
    present = v.present;
    posted = All-append (IsPost servers) c.sent ((c.connected_to, m) ∷ []) v.posted (v.present, tt);
  }

  next_request-IsServed :
      (servers : List Bytes) (c : Client) → IsServed servers c → IsServed servers (next_request c)
  unfolding next_request send_request
  next_request-IsServed servers c v = elim (Bool-cases c.expect_reply) [
    | inl waits ↦ simp waits v
    | inr done ↦ simp done (
        post-IsServed servers (hello ((c.seq + 1) % 2 ^ 32))
          (record c { seq = (c.seq + 1) % 2 ^ 32; expect_reply = true })
          (record {
            same = v.same;
            left = v.left;
            most = v.most;
            present = v.present;
            posted = v.posted;
          }))
  ]

  abbrev resent : Bytes → Client → Client
  resent addr c =
      post (hello c.seq) (record c { retries = c.retries - 1; connected_to = c_str addr })

  abbrev Serves : List Bytes → Result Client → Type 0
  Serves servers (ok c) = IsServed servers c
  Serves servers (err f) = Unit {0}

  resent-IsServed :
      (addr : Bytes) (servers : List Bytes) (c : Client)
      → server_at c.srv_index servers ≡ ok addr
      → nat_eq (c.retries - 1) 0 ≡ false
      → IsServed servers c
      → IsServed servers (resent addr c)
  resent-IsServed addr servers c e more v =
      post-IsServed servers (hello c.seq)
        (record c { retries = c.retries - 1; connected_to = c_str addr })
        (record {
          same = v.same;
          left = ground (arith, more);
          most = omega (arith, v.most);
          present = server_at-IsOf c.srv_index servers addr e;
          posted = v.posted;
        })

  on_timeout-Serves :
      (servers : List Bytes) (c : Client) → IsServed servers c → Serves servers (on_timeout c)
  unfolding on_timeout connect_to_broker
  on_timeout-Serves servers c v = elim (Bool-cases (nat_eq (c.retries - 1) 0)) [
    | inl last ↦ simp last (record {
      same = v.same;
      left = omega arith;
      most = omega arith;
      present = v.present;
      posted = v.posted;
    })
    | inr more ↦ elim (Result-cases (server_at c.srv_index c.servers)) [
      | inl (addr, e) ↦
          simp (more, e)
            (resent-IsServed addr servers c (ap (server_at c.srv_index) (sym v.same) ∙ e) more v)
      | inr (f, e) ↦ simp (more, e) tt
    ]
  ]

  on_reply-Serves :
      (servers : List Bytes) (msg : Message) (c : Client)
      → IsServed servers c
      → Serves servers (on_reply msg c)
  unfolding on_reply
  on_reply-Serves servers msg c v = elim (Result-cases (get_int msg 0)) [
    | inr (f, e) ↦ simp e tt
    | inl (n, e) ↦ elim (Result-cases (get_text msg 1)) [
      | inr (f, e') ↦ simp (e, e') tt
      | inl (body, e') ↦ elim (Bool-cases (nat_eq n c.seq)) [
        | inl current ↦
            simp (e, e', current)
              (record {
                same = v.same;
                left = omega arith;
                most = omega arith;
                present = v.present;
                posted = v.posted;
              })
        | inr other ↦ simp (e, e', other) v
      ]
    ]
  ]

  on_poll-Serves :
      (servers : List Bytes) (good : Bool) (m : Option Message) (c : Client)
      → IsServed servers c
      → Serves servers (on_poll (record { poll_ok = good; message = m }) c)
  unfolding on_poll
  on_poll-Serves servers false m c v = tt
  on_poll-Serves servers true none c v = on_timeout-Serves servers c v
  on_poll-Serves servers true (some msg) c v = on_reply-Serves servers msg c v

  run-IsServed :
      (servers : List Bytes) (ps : List Poll) (c : Client)
      → IsServed servers c
      → IsServed servers (run c ps)
  unfolding run
  run-IsServed servers [] c v = v
  run-IsServed servers (p ∷ ps) c v =
      let polled = on_poll-Serves servers p.poll_ok p.message c v in
      elim (Result-cases (on_poll p c)) [
        | inl (d, e) ↦
            rw (e, run)
              (run-IsServed servers ps (next_request d)
                (next_request-IsServed servers d (subst (Serves servers) e polled)))
        | inr (f, e) ↦ rw (e, run) v
      ]

  start-Serves : (servers : List Bytes) → Serves servers (start servers)
  unfolding start send_request connect_to_broker
  start-Serves servers = elim (Result-cases (server_at 0 servers)) [
    | inr (f, e) ↦ simp e tt
    | inl (addr, e) ↦ simp e (record {
      same = refl;
      left = omega arith;
      most = omega arith;
      present = server_at-IsOf 0 servers addr e;
      posted = (server_at-IsOf 0 servers addr e, tt);
    })
  ]

  start-IsServed : (servers : List Bytes) (c : Client) → start servers ≡ ok c → IsServed servers c
  start-IsServed servers c e = subst (Serves servers) e (start-Serves servers)

  -- In every run of a client that could start: its list of servers stays as it is, one to three retries
  -- are left, and its socket and every message that it has sent went to a server of the list.
  pub run-start-IsServed :
      (servers : List Bytes) (c : Client) (ps : List Poll)
      → start servers ≡ ok c
      → IsServed servers (run c ps)
  run-start-IsServed servers c ps e = run-IsServed servers ps c (start-IsServed servers c e)
