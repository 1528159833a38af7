-- ===== src/Bsp/Programs.antt =====
-- BSP-Binary Star Pattern/server1/main.cpp, server2/main.cpp and client/main.cpp, and the sockets that
-- server2/bstar.cpp makes. The items that the JSON library finds in a file, or its failure, are an
-- argument.
pub mod Failover
use zero_mq_rfc_implementati.Base.{
  ℕ, Bytes, codes, c_str, Bool, true, false, Option, none, some, List, [], ◌∷◌, if◌then◌else◌,
  Result,
}
use zero_mq_rfc_implementati.Base.Zmqpp.{Message, Zmqpp}
use zero_mq_rfc_implementati.Utils.Config.{Config, Items, get_value}
use zero_mq_rfc_implementati.Utils.Programs.{Program, usage, on_items}
use zero_mq_rfc_implementati.Bsp.States.{client_request}
use zero_mq_rfc_implementati.Bsp.Bstar.{Bstar, execute, on_request}
use zero_mq_rfc_implementati.Bsp.Pair.{boot}
use zero_mq_rfc_implementati.Bsp.Server1.{Server}
use zero_mq_rfc_implementati.Bsp.Server1
use zero_mq_rfc_implementati.Bsp.Client.{Client, add_server}
use zero_mq_rfc_implementati.Bsp.Client

abbrev pub frontend_host : Bytes
frontend_host = codes "frontend_host"

abbrev pub frontend_endpoint : Bytes
frontend_endpoint = codes "frontend_endpoint"

abbrev pub state_publish_host : Bytes
state_publish_host = codes "state_publish_host"

abbrev pub state_publish_host_endpoint : Bytes
state_publish_host_endpoint = codes "state_publish_host_endpoint"

abbrev pub backup_frontend_host : Bytes
backup_frontend_host = codes "backup_frontend_host"

abbrev pub backup_frontend_endpoint : Bytes
backup_frontend_endpoint = codes "backup_frontend_endpoint"

abbrev pub backup_state_publish_host : Bytes
backup_state_publish_host = codes "backup_state_publish_host"

abbrev pub backup_state_publish_host_endpoint : Bytes
backup_state_publish_host_endpoint = codes "backup_state_publish_host_endpoint"

-- `fehost`, `statepub_host` and `statesub_ep`.
pub record Addresses : Type 0 where
  pub fehost : Bytes
  pub statepub_host : Bytes
  pub statesub_ep : Bytes

unfoldable pub addresses : Bool → Config → Addresses
unfolding get_value
addresses true conf = record {
  fehost = get_value frontend_host conf;
  statepub_host = get_value state_publish_host conf;
  statesub_ep = get_value backup_state_publish_host_endpoint conf;
}
addresses false conf = record {
  fehost = get_value backup_frontend_host conf;
  statepub_host = get_value backup_state_publish_host conf;
  statesub_ep = get_value state_publish_host_endpoint conf;
}

-- The sockets of a server, by the addresses that are passed on as C strings.
pub record Sockets : Type 0 where
  pub publishes_at : Bytes
  pub subscribes_to : Bytes
  pub listens_at : Bytes

pub record Reactor : Type 0 where
  pub sockets : Sockets
  pub frontend : Bytes
  pub star : Bstar

-- `init`, and the two sockets' addresses.
unfoldable pub init : Bytes → Bytes → Sockets
init local remote = record {
  publishes_at = c_str local;
  subscribes_to = c_str remote;
  listens_at = [];
}

-- `voter` up to the callback.
unfoldable pub voter : Bytes → Reactor → Reactor
voter endpoint r = record r {
  sockets = record r.sockets { listens_at = c_str endpoint };
  frontend = endpoint;
}

-- `echo_server` in the voter's callback: what is sent back on the frontend.
unfoldable pub serve : ℕ → Message → Bstar → Bstar × Option Message
unfolding execute on_request
serve now msg b = (
  on_request now b,
  if (execute now (record b { event = client_request })).1 then some msg else none,
)

-- The servers that client/main.cpp adds.
unfoldable pub servers_of : Config → List Bytes
unfolding add_server get_value
servers_of conf =
    add_server (get_value backup_frontend_endpoint conf)
      (add_server (get_value frontend_endpoint conf) [])

module _ (iequals : Bytes → Bytes → Bool) (parse : Bytes → Result Items) where
  -- `isprimary`
  unfoldable pub is_primary : Bytes → Bool
  is_primary mode = iequals mode (codes "-p")

  -- server2/main.cpp, from the program's arguments on; `now` is read by `start`.
  unfoldable pub server2_main : ℕ → List Bytes → Program Reactor
  unfolding is_primary addresses init voter
  server2_main now (program ∷ mode ∷ file ∷ more) = on_items (parse file) (λ conf.
      let a = addresses (is_primary mode) conf in
      voter a.fehost (record {
        sockets = init a.statepub_host a.statesub_ep;
        frontend = [];
        star = boot (is_primary mode) now;
      }))
  server2_main now _ = usage

  -- server1/main.cpp
  unfoldable pub server1_main : ℕ → List Bytes → Program (Addresses × Server)
  unfolding is_primary addresses
  server1_main now (program ∷ mode ∷ file ∷ more) =
      on_items (parse file)
        (λ conf. (addresses (is_primary mode) conf, Server1.start (is_primary mode) now))
  server1_main now _ = usage

  unfoldable pub client_main : ⦃z : Zmqpp⦄ → List Bytes → Program (Result Client)
  unfolding servers_of
  client_main (program ∷ file ∷ more) =
      on_items (parse file) (λ conf. Client.start (servers_of conf))
  client_main _ = usage
