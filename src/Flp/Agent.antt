-- ===== src/Flp/Agent.antt =====
-- 10.FLP-Freelance Protocol/client/flcliapi.hpp and flcliapi.cpp: the agent behind the client's pipe.
-- Each reading of the clock is an argument; where a loop reads it in each round, the readings are a
-- function of the round.
pub mod Known
pub mod Dispatch
pub mod Safety
pub mod Routing
use zero_mq_rfc_implementati.Base.{
  ℕ, suc, ◌+◌, ◌%◌, ◌^◌, Bytes, codes, ◌==◌, Bool, true, false, Option, none, some, List, [], ◌∷◌,
  ◌++◌, ltb, nat_eq, if◌then◌else◌, Result, ok, err, contract, out_of_range, guard, or_fault, ◌>>=◌,
  ◌>>◌,
}
use zero_mq_rfc_implementati.Base.Zmqpp.{
  Message, Zmqpp, parts, push_front, push_back, pop_front, get_text, get_int, take_text, put_int,
}
use zero_mq_rfc_implementati.Base.Dict.{Dict, lookup, insert, assign}
use zero_mq_rfc_implementati.Flp.Constants.{
  ping_interval, server_ttl, global_timeout, command_connect, command_request, command_ping,
}

pub record Server : Type 0 where
  pub endpoint : Bytes
  pub alive : Bool
  pub ping_at : ℕ
  pub expiry : ℕ

unfoldable pub reset_expiry : ℕ → ℕ → Server → Server
reset_expiry ping_now expiry_now s = record s {
  ping_at = ping_now + ping_interval;
  expiry = expiry_now + server_ttl;
}

-- The constructor.
unfoldable pub server : Bytes → ℕ → ℕ → Server
unfolding reset_expiry
server ep ping_now expiry_now =
    reset_expiry ping_now expiry_now
      (record { endpoint = ep; alive = false; ping_at = 0; expiry = 0 })

-- `seq` is an `int` by its 32-bit pattern; the histories are those of the pipe, of the router, and
-- of the router's connections.
pub record Agent : Type 0 where
  pub servers : Dict Server
  pub actives : List Bytes
  pub seq : ℕ
  pub request : Option Message
  pub expiry : ℕ
  pub to_pipe : List Message
  pub to_router : List Message
  pub connections : List Bytes

-- The clock in the constructor of a server or in `reset_expiry`, and in the expiry of a request.
pub record Times : Type 0 where
  pub ping_now : ℕ
  pub expiry_now : ℕ
  pub request_now : ℕ

-- A test of `std::optional`.
abbrev pub is_none : Option Message → Bool
is_none none = true
is_none (some m) = false

module _ ⦃z : Zmqpp⦄ where
  unfoldable pub control_message : Times → Message → Agent → Result Agent
  unfolding server
  control_message t msg a = do
    (cmd, m) ← take_text msg
    if cmd == command_connect
        then (do
          ep ← get_text m 0
          ok (record a {
            connections = a.connections ++ ep ∷ [];
            servers = insert ep (server ep t.ping_now t.expiry_now) a.servers;
            actives = a.actives ++ ep ∷ [];
          }))
        else if cmd == command_request
        then (do
          guard (is_none a.request) contract
          let seq = (a.seq + 1) % 2 ^ 32
          ok (record a {
            seq = seq;
            request = some (push_front m (put_int seq));
            expiry = t.request_now + global_timeout;
          }))
        else ok a

  -- The part of `route_message` for a reply with a sequence number.
  unfoldable pub take_reply : Message → Agent → Result Agent
  take_reply m a =
      if ltb 1 (parts m)
      then (do
        seq ← get_int m 0
        ok (
            if nat_eq seq a.seq
            then record a {
              to_pipe = a.to_pipe ++ push_front (pop_front m) (codes "OK") ∷ [];
              request = none;
            }
            else a))
      else ok a

  unfoldable pub route_message : Times → Message → Agent → Result Agent
  unfolding reset_expiry take_reply
  route_message t msg a = do
    (ep, m) ← take_text msg
    srv ← or_fault (lookup ep a.servers) out_of_range
    take_reply m (record a {
      servers =
          assign ep (reset_expiry t.ping_now t.expiry_now (record srv { alive = true })) a.servers;
      actives = if srv.alive then a.actives else a.actives ++ ep ∷ [];
    })

  -- "Find server to talk to, remove any expired ones"; `clock` gives the reading of each round.
  unfoldable pub find_server : (ℕ → ℕ) → ℕ → Message → List Bytes → Agent → Result Agent
  find_server clock n req [] a = ok (record a { actives = [] })
  find_server clock n req (ep ∷ eps) a =
      let rest = λ (b : Agent). find_server clock (suc n) req eps b in
      elim (lookup ep a.servers) [
        | none ↦ err out_of_range
        | some srv ↦ elim (ltb srv.expiry (clock n)) [
          | true ↦ rest (record a { servers = assign ep (record srv { alive = false }) a.servers })
          | false ↦ ok (record a {
            actives = ep ∷ eps;
            to_router = a.to_router ++ push_front req srv.endpoint ∷ [];
          })
        ]
      ]

  -- "If we're processing a request, dispatch to next server"
  unfoldable pub dispatch_request : ℕ → (ℕ → ℕ) → Agent → Result Agent
  unfolding find_server
  dispatch_request now clock a = elim a.request [
    | none ↦ ok a
    | some req ↦
        if ltb a.expiry now
        then ok (record a { to_pipe = a.to_pipe ++ (codes "FAILED" ∷ []) ∷ []; request = none })
        else find_server clock 0 req a.actives a
  ]

  -- `server::ping`: the message, if it is time, and the server.
  unfoldable pub ping : ℕ → ℕ → Server → List Message × Server
  ping tested_at renewed_at s =
      if ltb s.ping_at tested_at
      then (
        push_back (push_back [] s.endpoint) command_ping ∷ [],
        record s { ping_at = renewed_at + ping_interval },
      )
      else ([], s)

  unfoldable pub ping_all : (ℕ → ℕ × ℕ) → ℕ → Dict Server → List Message × Dict Server
  unfolding ping
  ping_all clock n [] = ([], [])
  ping_all clock n ((k, s) ∷ ss) =
      let (ms, s') = ping (clock n).0 (clock n).1 s in
      let (ms', ss') = ping_all clock (suc n) ss in (ms ++ ms', (k, s') ∷ ss')

  -- The clock in a round of `run` after the poll.
  pub record Readings : Type 0 where
    pub tested_at : ℕ
    pub expired_at : ℕ → ℕ
    pub pinged_at : ℕ → ℕ × ℕ

  -- A round of `run` after the poll's handlers.
  unfoldable pub after_poll : Readings → Agent → Result Agent
  unfolding ping_all
  after_poll t a = do
    a' ← dispatch_request t.tested_at t.expired_at a
    let (pings, servers) = ping_all t.pinged_at 0 a'.servers
    ok (record a' { to_router = a'.to_router ++ pings; servers = servers })

  -- A poll's messages, the pipe's first, and the clock.
  pub record Round : Type 0 where
    pub control : Option Message
    pub routed : Option Message
    pub times : Times
    pub readings : Readings

  abbrev pub on_poll :
      (Times → Message → Agent → Result Agent) → Times → Option Message → Agent → Result Agent
  on_poll handler t none a = ok a
  on_poll handler t (some m) a = handler t m a

  unfoldable pub round : Round → Agent → Result Agent
  unfolding control_message route_message after_poll
  round r a = do
    a₁ ← on_poll control_message r.times r.control a
    a₂ ← on_poll route_message r.times r.routed a₁
    after_poll r.readings a₂

  unfoldable pub run : List Round → Agent → Result Agent
  unfolding round
  run [] a = ok a
  run (r ∷ rs) a = do a' ← round r a; run rs a'

-- The constructor.
abbrev pub new_agent : Agent
new_agent = record {
  servers = [];
  actives = [];
  seq = 0;
  request = none;
  expiry = 0;
  to_pipe = [];
  to_router = [];
  connections = [];
}
