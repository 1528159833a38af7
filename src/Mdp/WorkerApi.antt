-- ===== src/Mdp/WorkerApi.antt =====
-- 7.MDF-Majordomo Protocol/worker/mdwrkapi.hpp and mdwrkapi.cpp: a worker's session with the broker.
use zero_mq_rfc_implementati.Base.{
  ℕ, ◌+◌, ◌-◌, Bytes, ◌==◌, c_str, is_empty, Bool, true, false, not, ◌||◌, Option, none, some, List,
  [], ◌∷◌, ◌++◌, ltb, leb, nat_eq, if◌then◌else◌, Result, ok, err, contract, thrown, guard, ◌>>=◌,
  ◌>>◌,
}
use zero_mq_rfc_implementati.Base.Zmqpp.{
  Message, Zmqpp, parts, push_front, pop_front, get_text, take_text,
}
use zero_mq_rfc_implementati.Mdp.Protocol.{
  mdpw_worker, ready, request, reply, heartbeat, disconnect, heartbeat_liveness, heartbeat_interval,
}

-- The members that change, and the service's name; `sent` holds the messages of all its sockets.
pub record Session : Type 0 where
  pub service_name : Bytes
  pub heartbeat_at : ℕ
  pub liveness : ℕ
  pub expect_reply : Bool
  pub reply_to : Bytes
  pub sent : List Message

-- The constructor.
unfoldable pub create : Bytes → Session
create name = record {
  service_name = name;
  heartbeat_at = 0;
  liveness = 0;
  expect_reply = false;
  reply_to = [];
  sent = [];
}

-- What a round of `recv` reads: a requested stop, the poll's result, the message, and the clock in
-- `connect_to_broker`, in the test of `heartbeat_at` and in its renewal.
pub record Round : Type 0 where
  pub stop_requested : Bool
  pub poll_ok : Bool
  pub message : Option Message
  pub connected_at : ℕ
  pub tested_at : ℕ
  pub renewed_at : ℕ

module _ ⦃z : Zmqpp⦄ where
  -- The frames that `send_to_broker` puts before a message; `option` and `command` pass as C strings.
  unfoldable pub broker_envelope : Bytes → Bytes → Message → Message
  broker_envelope command option m =
      let m' = if is_empty option then m else push_front m (c_str option) in
      push_front (push_front (push_front m' (c_str command)) mdpw_worker) []

  -- What the socket's `send` returns is not modelled.
  unfoldable pub send_to_broker : Bytes → Bytes → Message → Session → Session
  send_to_broker command option m s = record s {
    sent = s.sent ++ broker_envelope command option m ∷ [];
  }

  unfoldable pub connect_to_broker : ℕ → Session → Session
  connect_to_broker now s = record (send_to_broker ready s.service_name [] s) {
    liveness = heartbeat_liveness;
    heartbeat_at = now + heartbeat_interval;
  }

  abbrev is_some : Option Message → Bool
  is_some none = false
  is_some (some m) = true

  abbrev send_some : Option Message → Session → Result Session
  send_some none s = ok s
  send_some (some m) s = do
    guard (not (is_empty s.reply_to)) contract
    ok (
        send_to_broker reply [] (push_front (push_front m []) s.reply_to)
          (record s { reply_to = [] }))

  unfoldable pub send : Option Message → Session → Result Session
  send m s = do guard (is_some m || not s.expect_reply) contract; send_some m s

  -- The branch of `recv` for a message; a request is handed to the caller.
  unfoldable pub on_message : ℕ → Message → Session → Result (Option Message × Session)
  on_message connected_at msg s₀ = do
    let s = record s₀ { liveness = heartbeat_liveness }
    guard (leb 3 (parts msg)) contract
    (empty, m₁) ← take_text msg
    guard (is_empty empty) contract
    (version, m₂) ← take_text m₁
    guard (version == mdpw_worker) contract
    (cmd, m₃) ← take_text m₂
    if cmd == request
        then (do
          (client, m₄) ← take_text m₃
          delimiter ← get_text m₄ 0
          guard (is_empty delimiter) contract
          ok (some (pop_front m₄), record s { reply_to = client }))
        else if cmd == heartbeat
        then ok (none, s)
        else if cmd == disconnect
        then ok (none, connect_to_broker connected_at s)
        else ok (none, s)

  -- No message in time. The liveness is at least 1 here.
  unfoldable pub on_silence : ℕ → Session → Session
  on_silence connected_at s =
      if nat_eq (s.liveness - 1) 0
      then connect_to_broker connected_at (record s { liveness = 0 })
      else record s { liveness = s.liveness - 1 }

  unfoldable pub on_poll : Round → Session → Result (Option Message × Session)
  unfolding on_message on_silence
  on_poll r s = elim r.message [
    | none ↦ ok (none, on_silence r.connected_at s)
    | some m ↦ on_message r.connected_at m s
  ]

  -- "Send HEARTBEAT if it's time"
  unfoldable pub beat : ℕ → ℕ → Session → Session
  beat tested_at renewed_at s =
      if ltb s.heartbeat_at tested_at
      then record (send_to_broker heartbeat [] [] s) {
        heartbeat_at = renewed_at + heartbeat_interval;
      }
      else s

  unfoldable pub round : Round → Session → Result (Option Message × Session)
  round r s = do
    guard (not r.stop_requested) thrown
    guard r.poll_ok thrown
    (m, s') ← on_poll r s
    elim m [
      | some request ↦ ok (some request, s')
      | none ↦ ok (none, beat r.tested_at r.renewed_at s')
    ]

  -- The loop of `recv` over its rounds: it ends with a request or a fault; `none` means that the
  -- rounds are used up.
  unfoldable pub recv_from : List Round → Session → Result (Option Message × Session)
  recv_from [] s = ok (none, s)
  recv_from (r ∷ rs) s = elim (round r s) [
    | err f ↦ err f
    | ok (m, s') ↦ elim m [ some request ↦ ok (some request, s') | none ↦ recv_from rs s' ]
  ]

  unfoldable pub recv : List Round → Session → Result (Option Message × Session)
  unfolding recv_from
  recv rs s = recv_from rs (record s { expect_reply = true })
