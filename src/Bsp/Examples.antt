-- ===== src/Bsp/Examples.antt =====
-- Tests of BSP-Binary Star Pattern: a pair that starts and elects its active server, and single steps.
use zero_mq_rfc_implementati.Base.{
  ◌≡◌, ◌≢◌, ◌⊎◌, inl, refl, true, false, not, none, some, [], ok, err, thrown,
}
use zero_mq_rfc_implementati.Base.ListMessages.{list_messages}
use zero_mq_rfc_implementati.Bsp.States.{primary, active, passive, peer_active, client_request}
use zero_mq_rfc_implementati.Bsp.Server1.{Fsm, update_state}
use zero_mq_rfc_implementati.Bsp.Server1
use zero_mq_rfc_implementati.Bsp.Bstar.{Bstar, update_peer_expiry, execute, recv_state}
use zero_mq_rfc_implementati.Bsp.Agreement.{state_message, update_state-execute, dual_actives}
use zero_mq_rfc_implementati.Bsp.Pair.{Reach, here, next, boot, hear, boot_one, boot_two, tell_one}
use zero_mq_rfc_implementati.Bsp.Pair.Safety.{both_down, settled, Reach-not_both, Reach-settles}

abbrev first : Bstar
first = boot true 0

abbrev second : Bstar
second = boot false 10

-- Both started, and the primary has heard of the backup.
abbrev elected : Bstar
elected = hear 100 100 second first

elected-Reach : Reach both_down (record { one = some elected; two = some second })
elected-Reach =
    next (next (next here (boot_one none none 0)) (boot_two (some first) none 10))
      (tell_one first second 100 100)

Reach-not_both_example :
    ¬ ((elected.state ≡ active) × (second.state ≡ active))
    × ¬ ((elected.state ≡ passive) × (second.state ≡ passive))
Reach-not_both_example = Reach-not_both elected second elected-Reach

Reach-settles_example :
    (((settled 200 elected second).0.state ≡ active)
      × ((settled 200 elected second).1.state ≡ passive))
    ⊎ (((settled 200 elected second).0.state ≡ passive)
        × ((settled 200 elected second).1.state ≡ active))
Reach-settles_example = Reach-settles 200 elected second elected-Reach

-- A passive server that is asked when its peer's time is over.
abbrev fsm : Fsm
fsm = record { state = passive; event = client_request; peer_expiry = 3000 }

abbrev standby : Bstar
standby = record {
  state = passive;
  event = client_request;
  peer_expiry = 3000;
  has_active = true;
  has_passive = true;
  actions = [];
}

passive_not_primary : passive ≢ primary
passive_not_primary e = cc

update_state-execute_example :
    ((update_state 3100 fsm).0.state ≡ (execute 3100 standby).0.state)
    × ((update_state 3100 fsm).1 ≡ not (execute 3100 standby).1)
update_state-execute_example =
    update_state-execute 3100 fsm standby refl refl refl (inl passive_not_primary)

abbrev leader : Server1.Server
leader = record {
  fsm = record { state = active; event = client_request; peer_expiry = 3000 };
  send_state_at = 1000;
  published = [];
  answered = [];
}

abbrev rival : Bstar
rival = record standby { state = active }

dual_actives_example :
    (Server1.on_peer 500 500 (state_message active) leader ≡ err thrown)
    × (recv_state 500 500 (state_message active) rival
        ≡ ok (update_peer_expiry 500 (record rival { event = peer_active })))
dual_actives_example = dual_actives 500 500 leader rival refl refl
