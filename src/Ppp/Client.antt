-- ===== src/Ppp/Client.antt =====
-- 6.PPP-Paranoid Pirate Protocol/client/lpclient.cpp: the two loops of `run`.
pub mod Retries
use zero_mq_rfc_implementati.Base.{
  ℕ, ◌+◌, ◌-◌, ◌%◌, ◌^◌, codes, Bool, true, false, Option, none, some, List, [], ◌∷◌, ◌++◌, nat_eq,
  if◌then◌else◌, Result, ok, err, thrown, guard, ◌>>=◌, ◌>>◌,
}
use zero_mq_rfc_implementati.Base.Zmqpp.{Message, Zmqpp, get_text, get_int, push_back, put_int}
use zero_mq_rfc_implementati.Ppp.Constants.{request_retries}

pub record Poll : Type 0 where
  pub poll_ok : Bool
  pub message : Option Message

-- The local variables of `run`, the messages sent on all its sockets, and the number of sockets.
-- `seq` is an `int` by its 32-bit pattern.
pub record Client : Type 0 where
  pub seq : ℕ
  pub retries : ℕ
  pub expect_reply : Bool
  pub sent : List Message
  pub sockets : ℕ

module _ ⦃z : Zmqpp⦄ where
  -- The start of the outer loop's body: the next request is sent.
  unfoldable pub send_request : Client → Client
  send_request c =
      let seq = (c.seq + 1) % 2 ^ 32 in
      record c {
        seq = seq;
        sent = c.sent ++ push_back (push_back [] (put_int seq)) (codes "hello") ∷ [];
        expect_reply = true;
      }

  unfoldable pub start : Client
  unfolding send_request
  start =
      send_request (record {
        seq = 0;
        retries = request_retries;
        expect_reply = false;
        sent = [];
        sockets = 1;
      })

  unfoldable pub on_reply : Message → Client → Result Client
  on_reply msg c = do
    msgid ← get_int msg 0
    body ← get_text msg 1
    ok (
        if nat_eq msgid c.seq
        then record c { retries = request_retries; expect_reply = false }
        else c)

  -- No reply in time: give up, or send again on a new socket.
  unfoldable pub on_timeout : Client → Client
  on_timeout c =
      if nat_eq (c.retries - 1) 0
      then record c { retries = 0; expect_reply = false }
      else record c {
        retries = c.retries - 1;
        sockets = c.sockets + 1;
        sent = c.sent ++ push_back [] (put_int c.seq) ∷ [];
      }

  unfoldable pub on_poll : Poll → Client → Result Client
  unfolding on_reply on_timeout
  on_poll p c = do
    guard p.poll_ok thrown
    elim p.message [ some msg ↦ on_reply msg c | none ↦ ok (on_timeout c) ]

  -- After the body of the inner loop: go on waiting, or leave the inner loop and test `retries`.
  unfoldable pub next_request : Client → Client
  unfolding send_request
  next_request c = if c.expect_reply then c else if nat_eq c.retries 0 then c else send_request c

  -- Both loops, over the polls' results; they end by themselves when `retries` is 0, and by an
  -- exception.
  unfoldable pub run : Client → List Poll → Client
  run c [] = c
  run c (p ∷ ps) = elim (nat_eq c.retries 0) [
    | true ↦ c
    | false ↦ elim (on_poll p c) [ ok c' ↦ run (next_request c') ps | err f ↦ c ]
  ]
