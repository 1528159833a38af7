-- ===== src/Bsp/Tests.antt =====
-- Tests of BSP-Binary Star Pattern/client: a client of two servers, the first of which is silent.
use zero_mq_rfc_implementati.Base.{
  ℕ, some, List, ◌<◌, ◌==◌, arith, ◌+◌, ◌%◌, ◌^◌, ◌≡◌, refl, Bytes, codes, c_str, true, [], ◌∷◌,
  ◌++◌, ok,
}
use zero_mq_rfc_implementati.Base.ListMessages.{list_messages}
use zero_mq_rfc_implementati.Bsp.Client.{
  Client, server_at, hello, start, run, send_request, connect_to_broker, add_server,
}
use zero_mq_rfc_implementati.Base.Zmqpp.{Message}
use zero_mq_rfc_implementati.Base.Dict.{lookup, contains}
use zero_mq_rfc_implementati.Utils.Config.{Config, get_value}
use zero_mq_rfc_implementati.Bsp.States.{passive, active, client_request}
use zero_mq_rfc_implementati.Bsp.Bstar.{Bstar}
use zero_mq_rfc_implementati.Bsp.Programs.{
  servers_of, serve, frontend_endpoint, backup_frontend_endpoint,
}
use zero_mq_rfc_implementati.Bsp.Programs.Failover.{answer, run-serve-run}
use zero_mq_rfc_implementati.Bsp.Client.Failover.{silence, run-failover}
use zero_mq_rfc_implementati.Bsp.Client.Served.{IsServed, run-start-IsServed}

abbrev primary : Bytes
primary = codes "tcp://a"

abbrev backup : Bytes
backup = codes "tcp://b"

abbrev client : Client
client = record {
  servers = primary ∷ backup ∷ [];
  connected_to = primary;
  seq = 1;
  retries = 3;
  srv_index = 0;
  expect_reply = true;
  sent = (primary, hello 1) ∷ [];
}

run-failover_example : run client (silence ∷ silence ∷ silence ∷ silence ∷ []) ≡ record client {
  connected_to = c_str backup;
  seq = (client.seq + 1) % 2 ^ 32;
  retries = 2;
  srv_index = (client.srv_index + 1) % 2 ^ 32;
  expect_reply = true;
  sent =
      client.sent
      ++ (c_str primary, hello client.seq)
        ∷ (c_str primary, hello client.seq)
        ∷ (c_str primary, hello ((client.seq + 1) % 2 ^ 32))
        ∷ (c_str backup, hello ((client.seq + 1) % 2 ^ 32))
        ∷ [];
}
unfolding server_at
run-failover_example = run-failover primary backup client refl refl refl refl

client-start : start (primary ∷ backup ∷ []) ≡ ok client
unfolding start server_at send_request connect_to_broker c_str
client-start = refl

run-start-IsServed_example :
    IsServed (primary ∷ backup ∷ []) (run client (silence ∷ silence ∷ silence ∷ silence ∷ []))
run-start-IsServed_example =
    run-start-IsServed (primary ∷ backup ∷ []) client (silence ∷ silence ∷ silence ∷ silence ∷ [])
      client-start

-- The configuration with the two servers, and the backup, whose peer's time ends at 3000.
abbrev conf : Config
conf = record {
  base_info = (frontend_endpoint, primary) ∷ (backup_frontend_endpoint, backup) ∷ [];
  service_list = [];
}

abbrev standby : Bstar
standby = record {
  state = passive;
  event = client_request;
  peer_expiry = 3000;
  has_active = true;
  has_passive = true;
  actions = [];
}

its_time : standby.peer_expiry < 3100
its_time = omega arith

run-serve-run_example :
    let waiting = run client (silence ∷ silence ∷ silence ∷ silence ∷ []) in
    let addr = c_str (get_value backup_frontend_endpoint conf) in
    let request = hello waiting.seq in
    let (b', reply) = serve 3100 (codes "17" ∷ request) standby in
    ((before : List (Bytes × Message)) × (waiting.sent ≡ before ++ (addr, request) ∷ []))
    × (b'.state ≡ active)
    × (reply ≡ some (codes "17" ∷ request))
    × ((later : ℕ) (msg : Message) → (serve later msg b').1 ≡ some msg)
    × ((run waiting (answer request ∷ [])).sent
        ≡ waiting.sent ++ (addr, hello ((waiting.seq + 1) % 2 ^ 32)) ∷ [])
unfolding servers_of get_value lookup contains add_server ◌==◌
run-serve-run_example =
    run-serve-run conf client (codes "17") 3100 standby refl refl refl refl refl its_time
