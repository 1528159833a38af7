-- ===== src/Bsp/States.antt =====
-- BSP-Binary Star Pattern/bsp_constant.hpp and the nested types of server2/bstar.hpp: states, events
-- and their numbers on the wire. Both declarations number the states 1 to 4 and the events 1 to 5.
use zero_mq_rfc_implementati.Base.{ℕ, zero, suc}

-- `state_t` of bsp_constant.hpp; `unset` is its `none`. The `state_t` of bstar.hpp has the other four.
pub data State : Type 0 where
  unset primary backup active passive : State

-- `event_t`; `other` is `none` of bsp_constant.hpp and every number that names no event, which a
-- `static_cast` lets through and no comparison matches.
pub data Event : Type 0 where
  peer_primary peer_backup peer_active peer_passive client_request other : Event

-- `static_cast<int>(state_)`
unfoldable pub int_of_state : State → ℕ
int_of_state unset = 0
int_of_state primary = 1
int_of_state backup = 2
int_of_state active = 3
int_of_state passive = 4

-- `static_cast<event_t>(n)`
unfoldable pub event_of_int : ℕ → Event
event_of_int (suc zero) = peer_primary
event_of_int (suc (suc zero)) = peer_backup
event_of_int (suc (suc (suc zero))) = peer_active
event_of_int (suc (suc (suc (suc zero)))) = peer_passive
event_of_int (suc (suc (suc (suc (suc zero))))) = client_request
event_of_int n = other

abbrev pub star_heartbeat : ℕ
star_heartbeat = 1000
