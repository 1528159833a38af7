-- ===== src/Bsp/Bstar.antt =====
-- BSP-Binary Star Pattern/server2/bstar.cpp: the reactor class `bstar`. Each reading of the clock is
-- an argument.
use zero_mq_rfc_implementati.Base.{
  ℕ, ◌+◌, ◌*◌, Bool, true, false, List, [], ◌∷◌, ◌++◌, ltb, if◌then◌else◌, Result, ok, ◌>>=◌,
  nat_eq,
}
use zero_mq_rfc_implementati.Base.Zmqpp.{Message, Zmqpp, parts, get_int, push_back, put_int}
use zero_mq_rfc_implementati.Bsp.States.{
  State, primary, backup, active, passive, Event, peer_primary, peer_backup, peer_active,
  peer_passive, client_request, other, int_of_state, event_of_int, star_heartbeat,
}

-- What the object does outside: it calls one of the two handlers, sends its state, hands a request
-- to the voter's callback, or drops a request.
pub data Action : Type 0 where
  calls_active calls_passive : Action
  publishes : Message → Action
  accepts drops : Action

-- `has_active` and `has_passive`: whether the members `active_fn_` and `passive_fn_` are set.
pub record Bstar : Type 0 where
  pub state : State
  pub event : Event
  pub peer_expiry : ℕ
  pub has_active : Bool
  pub has_passive : Bool
  pub actions : List Action

-- The constructor. `event_` and `peer_expiry_` have no initial value in the source until they are
-- set: the expiry by `start`, the event by the first callback.
unfoldable pub create : Bool → Bstar
create is_primary = record {
  state = if is_primary then primary else backup;
  event = other;
  peer_expiry = 0;
  has_active = false;
  has_passive = false;
  actions = [];
}

unfoldable pub new_active : Bstar → Bstar
new_active b = record b { has_active = true }

unfoldable pub new_passive : Bstar → Bstar
new_passive b = record b { has_passive = true }

unfoldable pub update_peer_expiry : ℕ → Bstar → Bstar
update_peer_expiry now b = record b { peer_expiry = now + star_heartbeat * 3 }

-- `if (active_fn_) active_fn_(this)`
abbrev call_active : Bstar → Bstar
call_active b = if b.has_active then record b { actions = b.actions ++ calls_active ∷ [] } else b

abbrev call_passive : Bstar → Bstar
call_passive b = if b.has_passive then record b { actions = b.actions ++ calls_passive ∷ [] } else b

-- The branches of `execute` by state and event; the result is `rc`.
unfoldable pub dispatch : State → Event → ℕ → Bstar → Bstar × Bool
dispatch primary peer_backup now b = (call_active (record b { state = active }), true)
dispatch primary peer_active now b = (call_passive (record b { state = passive }), true)
dispatch primary client_request now b =
    if ltb b.peer_expiry now then (call_active (record b { state = active }), true) else (b, false)
dispatch backup peer_active now b = (call_passive (record b { state = passive }), true)
dispatch backup client_request now b = (b, false)
dispatch active peer_active now b = (b, false)
dispatch passive peer_primary now b = (record b { state = active }, true)
dispatch passive peer_backup now b = (record b { state = active }, true)
dispatch passive peer_passive now b = (b, false)
dispatch passive client_request now b =
    if ltb b.peer_expiry now then (call_active (record b { state = active }), true) else (b, false)
dispatch s e now b = (b, true)

unfoldable pub execute : ℕ → Bstar → Bstar × Bool
unfolding dispatch
execute now b = dispatch b.state b.event now b

-- The callback that `voter` registers: a request is accepted or dropped by what `execute` says.
unfoldable pub on_request : ℕ → Bstar → Bstar
unfolding execute
on_request now b =
    let (b', accepted) = execute now (record b { event = client_request }) in
    record b' { actions = b'.actions ++ (if accepted then accepts else drops) ∷ [] }

module _ ⦃z : Zmqpp⦄ where
  unfoldable pub send_state : Bstar → Bstar
  send_state b = record b {
    actions = b.actions ++ publishes (push_back [] (put_int (int_of_state b.state))) ∷ [];
  }

  -- The result of `execute` is not looked at; the callback goes on in any case.
  unfoldable pub recv_state : ℕ → ℕ → Message → Bstar → Result Bstar
  unfolding update_peer_expiry execute
  recv_state heard_at now msg b = if nat_eq (parts msg) 0 then ok (execute now b).0 else do
    n ← get_int msg 0
    ok (execute now (update_peer_expiry heard_at (record b { event = event_of_int n }))).0
