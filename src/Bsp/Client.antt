-- ===== src/Bsp/Client.antt =====
-- BSP-Binary Star Pattern/client/bstarcli.cpp: `start` with its loops.
pub mod Failover
pub mod Served
use zero_mq_rfc_implementati.Base.{
  ℕ, ◌+◌, ◌-◌, ◌%◌, ◌^◌, Bytes, codes, c_str, Bool, true, false, Option, none, some, List, [], ◌∷◌,
  ◌++◌, length, get_elem?, nat_eq, if◌then◌else◌, Result, ok, err, thrown, out_of_range, guard,
  or_fault, ◌>>=◌, ◌>>◌,
}
use zero_mq_rfc_implementati.Base.Zmqpp.{Message, Zmqpp, get_text, get_int, push_back, put_int}

abbrev pub number_retries : ℕ
number_retries = 3

pub record Poll : Type 0 where
  pub poll_ok : Bool
  pub message : Option Message

-- The servers, the endpoint of the present socket, the local variables of `start`, and what was sent,
-- each message with the endpoint of its socket. `seq` and `srv_index` are given by 32-bit patterns.
pub record Client : Type 0 where
  pub servers : List Bytes
  pub connected_to : Bytes
  pub seq : ℕ
  pub retries : ℕ
  pub srv_index : ℕ
  pub expect_reply : Bool
  pub sent : List (Bytes × Message)

unfoldable pub add_server : Bytes → List Bytes → List Bytes
add_server addr servers = servers ++ addr ∷ []

-- `servers_.at(srv_index % servers_.size())`. Without servers this divides by zero, a fault here.
unfoldable pub server_at : ℕ → List Bytes → Result Bytes
server_at i servers = or_fault (get_elem? servers (i % length servers)) out_of_range

-- The address passes as a C string.
unfoldable pub connect_to_broker : Bytes → Client → Client
connect_to_broker addr c = record c { connected_to = c_str addr }

module _ ⦃z : Zmqpp⦄ where
  -- A request under a number.
  abbrev pub hello : ℕ → Message
  hello seq = push_back (push_back [] (put_int seq)) (codes "hello")

  abbrev pub post : Message → Client → Client
  post m c = record c { sent = c.sent ++ (c.connected_to, m) ∷ [] }

  -- The start of the outer loop's body.
  unfoldable pub send_request : Client → Client
  send_request c =
      let seq = (c.seq + 1) % 2 ^ 32 in
      post (hello seq) (record c { seq = seq; expect_reply = true })

  unfoldable pub start : List Bytes → Result Client
  unfolding server_at connect_to_broker send_request
  start servers = do
    addr ← server_at 0 servers
    ok (
        send_request (
          connect_to_broker addr (record {
            servers = servers;
            connected_to = [];
            seq = 0;
            retries = number_retries;
            srv_index = 0;
            expect_reply = false;
            sent = [];
          })))

  unfoldable pub on_reply : Message → Client → Result Client
  on_reply msg c = do
    msgid ← get_int msg 0
    body ← get_text msg 1
    ok (
        if nat_eq msgid c.seq
        then record c { retries = number_retries; expect_reply = false }
        else c)

  -- No reply in time: abandon the server, or send again on a new socket.
  unfoldable pub on_timeout : Client → Result Client
  unfolding server_at connect_to_broker
  on_timeout c =
      if nat_eq (c.retries - 1) 0
      then ok (record c {
        retries = number_retries;
        srv_index = (c.srv_index + 1) % 2 ^ 32;
        expect_reply = false;
      })
      else (do
        addr ← server_at c.srv_index c.servers
        ok (post (hello c.seq) (connect_to_broker addr (record c { retries = c.retries - 1 }))))

  unfoldable pub on_poll : Poll → Client → Result Client
  unfolding on_reply on_timeout
  on_poll p c = do
    guard p.poll_ok thrown
    elim p.message [ some msg ↦ on_reply msg c | none ↦ on_timeout c ]

  -- After the body of the inner loop: go on waiting, or leave it and send the next request.
  unfoldable pub next_request : Client → Client
  unfolding send_request
  next_request c = if c.expect_reply then c else send_request c

  -- Both loops over the polls' results; an exception ends them.
  unfoldable pub run : Client → List Poll → Client
  run c [] = c
  run c (p ∷ ps) = elim (on_poll p c) [ ok c' ↦ run (next_request c') ps | err f ↦ c ]
