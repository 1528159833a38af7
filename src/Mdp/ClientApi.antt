-- ===== src/Mdp/ClientApi.antt =====
-- 7.MDF-Majordomo Protocol/client/mdcliapi.hpp and mdcliapi.cpp: a client's session.
use zero_mq_rfc_implementati.Base.{
  Bytes, c_str, Bool, true, false, Option, none, some, List, [], ◌∷◌, ◌++◌, leb, Result, ok,
  contract, null_socket, guard, ◌>>◌,
}
use zero_mq_rfc_implementati.Base.Zmqpp.{Message, Zmqpp, parts, push_front, push_back, pop_front}
use zero_mq_rfc_implementati.Mdp.Protocol.{mdpc_client}

-- `connected`: whether `socket_` has been made; the constructor leaves it null.
pub record Session : Type 0 where
  pub connected : Bool
  pub sent : List Message

unfoldable pub create : Session
create = record { connected = false; sent = [] }

unfoldable pub connect_to_broker : Session → Session
connect_to_broker s = record s { connected = true }

module _ ⦃z : Zmqpp⦄ where
  -- `send` of a text: the service and the body pass as C strings.
  unfoldable pub send_text : Bytes → Bytes → Session → Result Session
  send_text service msg s = do
    guard s.connected null_socket
    let req = push_back (push_back [] (c_str service)) (c_str msg)
    ok (record s { sent = s.sent ++ push_front (push_front req mdpc_client) [] ∷ [] })

  -- `send` of a message: the service passes as a C string.
  unfoldable pub send : Bytes → Message → Session → Result Session
  send service msg s = do
    guard s.connected null_socket
    let req = push_front (push_front (push_front msg (c_str service)) mdpc_client) []
    ok (record s { sent = s.sent ++ req ∷ [] })

  -- `recv`: `none` is a poll with no message, after which the empty message is returned.
  unfoldable pub recv : Option Message → Session → Result Message
  recv none s = do guard s.connected null_socket; ok []
  recv (some msg) s = do
    guard s.connected null_socket
    guard (leb 4 (parts msg)) contract
    ok (pop_front (pop_front (pop_front msg)))
