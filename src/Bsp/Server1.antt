-- ===== src/Bsp/Server1.antt =====
-- BSP-Binary Star Pattern/server1/binary_star_server1.cpp: `update_state` and the callbacks of
-- `start`. Each reading of the clock is an argument.
use zero_mq_rfc_implementati.Base.{
  ℕ, ◌+◌, ◌*◌, Bool, true, false, List, [], ◌∷◌, ◌++◌, ltb, if◌then◌else◌, Result, ok, err, thrown,
  ◌>>=◌,
}
use zero_mq_rfc_implementati.Base.Zmqpp.{Message, Zmqpp, get_int, push_back, put_int}
use zero_mq_rfc_implementati.Bsp.States.{
  State, primary, backup, active, passive, Event, peer_primary, peer_backup, peer_active,
  peer_passive, client_request, other, int_of_state, event_of_int, star_heartbeat,
}

-- `bstar_t`
pub record Fsm : Type 0 where
  pub state : State
  pub event : Event
  pub peer_expiry : ℕ

-- The switch of `update_state`: the next state, and whether it reports an exception.
unfoldable pub transition : State → Event → ℕ → ℕ → State × Bool
transition primary peer_backup now expiry = (active, false)
transition primary peer_active now expiry = (passive, false)
transition backup peer_active now expiry = (passive, false)
transition backup client_request now expiry = (backup, true)
transition active peer_active now expiry = (active, true)
transition passive peer_primary now expiry = (active, false)
transition passive peer_backup now expiry = (active, false)
transition passive peer_passive now expiry = (passive, true)
transition passive client_request now expiry =
    if ltb expiry now then (active, false) else (passive, true)
transition s e now expiry = (s, false)

unfoldable pub update_state : ℕ → Fsm → Fsm × Bool
unfolding transition
update_state now f =
    let (s, exception) = transition f.state f.event now f.peer_expiry in
    (record f { state = s }, exception)

-- The server: its machine, the time of the next state message, and what it has sent.
pub record Server : Type 0 where
  pub fsm : Fsm
  pub send_state_at : ℕ
  pub published : List Message
  pub answered : List Message

-- The beginning of `start`. The expiry is the clock's epoch until the peer is heard of.
unfoldable pub start : Bool → ℕ → Server
start is_primary now = record {
  fsm = record { state = if is_primary then primary else backup; event = other; peer_expiry = 0 };
  send_state_at = now + star_heartbeat;
  published = [];
  answered = [];
}

-- `fe_cb`: a client's request is echoed if the machine accepts it.
unfoldable pub on_request : ℕ → Message → Server → Server
unfolding update_state
on_request now msg s =
    let (fsm, exception) = update_state now (record s.fsm { event = client_request }) in
    if exception
    then record s { fsm = fsm }
    else record s { fsm = fsm; answered = s.answered ++ msg ∷ [] }

module _ ⦃z : Zmqpp⦄ where
  -- `tm_cb`
  unfoldable pub on_timer : ℕ → ℕ → Server → Server
  on_timer tested_at renewed_at s =
      if ltb s.send_state_at tested_at
      then record s {
        published = s.published ++ push_back [] (put_int (int_of_state s.fsm.state)) ∷ [];
        send_state_at = renewed_at + star_heartbeat;
      }
      else s

  -- `sub_cb`: the peer's state as an event. An exception leaves the loop.
  unfoldable pub on_peer : ℕ → ℕ → Message → Server → Result Server
  unfolding update_state
  on_peer now renewed_at msg s = do
    n ← get_int msg 0
    let (fsm, exception) = update_state now (record s.fsm { event = event_of_int n })
    if exception
        then err thrown
        else ok (record s { fsm = record fsm { peer_expiry = renewed_at + 3 * star_heartbeat } })
