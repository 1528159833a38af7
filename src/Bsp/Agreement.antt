-- ===== src/Bsp/Agreement.antt =====
-- The two implementations of the machine against each other, and the state message between peers.
use zero_mq_rfc_implementati.Base.{
  ℕ, ◌^◌, ◌<◌, ◌≡◌, ◌≢◌, refl, ◌∙◌, ◌⊎◌, [], ok, err, thrown, not, arith,
}
use zero_mq_rfc_implementati.Base.Zmqpp.{
  Message, Zmqpp, push_back, put_int, get_int-cons_put, parts_eq, push_back_eq,
}
use zero_mq_rfc_implementati.Bsp.States.{
  State, unset, primary, backup, active, passive, Event, peer_primary, peer_backup, peer_active,
  peer_passive, client_request, other, int_of_state, event_of_int,
}
use zero_mq_rfc_implementati.Bsp.Server1.{Fsm, transition, update_state}
use zero_mq_rfc_implementati.Bsp.Server1
use zero_mq_rfc_implementati.Bsp.Bstar.{Bstar, execute, recv_state, update_peer_expiry}

-- Outside of a primary that waits for its peer when a client asks, the two machines agree: the same
-- next state, and one reports an exception exactly when the other refuses.
pub update_state-execute :
    (now : ℕ) (f : Fsm) (b : Bstar)
    → f.state ≡ b.state
    → f.event ≡ b.event
    → f.peer_expiry ≡ b.peer_expiry
    → (b.state ≢ primary) ⊎ (b.event ≢ client_request)
    → ((update_state now f).0.state ≡ (execute now b).0.state)
      × ((update_state now f).1 ≡ not (execute now b).1)
unfolding update_state execute
update_state-execute now f b s e x h = ground arith

-- The event that a peer's state is.
abbrev pub peer_event : State → Event
peer_event unset = other
peer_event primary = peer_primary
peer_event backup = peer_backup
peer_event active = peer_active
peer_event passive = peer_passive

pub event_of_int-int_of_state : (s : State) → event_of_int (int_of_state s) ≡ peer_event s
unfolding event_of_int int_of_state
event_of_int-int_of_state unset = refl
event_of_int-int_of_state primary = refl
event_of_int-int_of_state _ = refl

int_of_state-lt : (s : State) → int_of_state s < 2 ^ 32
unfolding int_of_state
int_of_state-lt unset = omega arith
int_of_state-lt primary = omega arith
int_of_state-lt _ = omega arith

module _ ⦃z : Zmqpp⦄ where
  -- The message by which a peer publishes its state.
  abbrev pub state_message : State → Message
  state_message s = push_back [] (put_int (int_of_state s))

  -- A peer's state message is received as the event that names this state.
  pub recv_state-state_message :
      (heard now : ℕ) (s : State) (b : Bstar)
      → recv_state heard now (state_message s) b
        ≡ ok (execute now (update_peer_expiry heard (record b { event = peer_event s }))).0
  unfolding recv_state
  recv_state-state_message heard now s b = rw (
    push_back_eq [] (put_int (int_of_state s)),
    parts_eq,
    get_int-cons_put (int_of_state s) [] (int_of_state-lt s),
    event_of_int-int_of_state,
  )

  -- Two actives: the first server stops with an exception, the second goes on as active.
  pub dual_actives :
      (heard now : ℕ) (s : Server1.Server) (b : Bstar)
      → s.fsm.state ≡ active
      → b.state ≡ active
      → (Server1.on_peer now heard (state_message active) s ≡ err thrown)
        × (recv_state heard now (state_message active) b
            ≡ ok (update_peer_expiry heard (record b { event = peer_active })))
  dual_actives heard now s b e f = (
    rw (push_back_eq [] (put_int (int_of_state active))) (
        unfold Server1.on_peer in
        rw
          (
            get_int-cons_put (int_of_state active) [] (int_of_state-lt active),
            event_of_int-int_of_state,
          )
          (ground arith)),
    recv_state-state_message heard now active b ∙ unfold execute update_peer_expiry in ground arith,
  )
