-- ===== src/Flp/Examples.antt =====
-- Tests of 10.FLP-Freelance Protocol: an agent with two servers, the first of which has expired.
use zero_mq_rfc_implementati.Base.{
  ℕ, zero, suc, c_str, false, ◌+◌, ◌^◌, ◌≤◌, ◌<◌, ◌≡◌, refl, Bytes, codes, ◌==◌, true, none, some,
  [], ◌∷◌, ◌++◌, ok, arith,
}
use zero_mq_rfc_implementati.Base.Zmqpp.{Message, put_int, take_text, get_text}
use zero_mq_rfc_implementati.Base.ListMessages.{list_messages}
use zero_mq_rfc_implementati.Base.Dict.{Dict, lookup, contains, insert, assign}
use zero_mq_rfc_implementati.Flp.Constants.{command_connect}
use zero_mq_rfc_implementati.Flp.Api
use zero_mq_rfc_implementati.Flp.Api.{connect, connect-request-reply}
use zero_mq_rfc_implementati.Flp.Agent.{
  Server, Agent, Times, Readings, Round, new_agent, control_message, route_message,
  dispatch_request, take_reply, ping, run, round, server, reset_expiry, after_poll, ping_all,
}
use zero_mq_rfc_implementati.Flp.Agent.Known.{IsKnown, Keeps}
use zero_mq_rfc_implementati.Flp.Agent.Safety.{AllFrom, run-new_agent-Keeps}
use zero_mq_rfc_implementati.Utils.Config.{Config, get_value}
use zero_mq_rfc_implementati.Mdp.ClientMain
use zero_mq_rfc_implementati.Flp.Programs.{
  address_of, endpoints_of, connect_all, ask, server_endpoint, server_endpoint2, server_endpoint3,
}
use zero_mq_rfc_implementati.Flp.Programs.Failover.{connect_all-dispatch_request}
use zero_mq_rfc_implementati.Flp.Server.{answer}
use zero_mq_rfc_implementati.Flp.Exchange.{route_message-again}

abbrev here : Bytes
here = codes "tcp://a"

abbrev there : Bytes
there = codes "tcp://b"

abbrev servers : Dict Server
servers =
    (here, record { endpoint = here; alive = true; ping_at = 3000; expiry = 7000 })
    ∷ (there, record { endpoint = there; alive = true; ping_at = 9000; expiry = 13000 })
    ∷ []

abbrev asked : Message
asked = put_int 1 ∷ codes "hello" ∷ []

abbrev agent : Agent
agent = record {
  servers = servers;
  actives = here ∷ there ∷ [];
  seq = 1;
  request = some asked;
  expiry = 12000;
  to_pipe = [];
  to_router = [];
  connections = here ∷ there ∷ [];
}

agent-IsKnown : IsKnown agent
unfolding lookup contains ◌==◌
agent-IsKnown = ((refl, (refl, tt)), (refl, (refl, tt)))

abbrev clock : ℕ → ℕ
clock n = 10000 + n

early : 10000 ≤ 12000
early = omega arith

abbrev times : Times
times = record { ping_now = 100; expiry_now = 100; request_now = 100 }

abbrev pinged : ℕ → ℕ × ℕ
pinged n = (n, n)

abbrev readings : Readings
readings = record { tested_at = 100; expired_at = clock; pinged_at = pinged }

abbrev connects : Round
connects = record {
  control = some (command_connect ∷ here ∷ []);
  routed = none;
  times = times;
  readings = readings;
}

abbrev hears : Round
hears = record connects { control = none; routed = some (here ∷ codes "PONG" ∷ []) }

connects-AllFrom : AllFrom (connects ∷ hears ∷ []) new_agent
unfolding round control_message route_message take_reply server reset_expiry after_poll
    dispatch_request ping_all ping take_text get_text ◌==◌ insert assign contains lookup
connects-AllFrom = (tt, (refl, tt))

run-new_agent-Keeps_example : Keeps (run (connects ∷ hears ∷ []) new_agent)
run-new_agent-Keeps_example = run-new_agent-Keeps (connects ∷ hears ∷ []) connects-AllFrom

abbrev idle : Agent
idle = record agent { request = none }

small : 1 < 2 ^ 32
small = omega arith

route_message-again_example :
    (b c : Agent) × (route_message times (there ∷ put_int 1 ∷ codes "hello" ∷ []) agent ≡ ok b)
    × (b.request ≡ none)
    × (route_message times (there ∷ put_int 1 ∷ codes "hello" ∷ []) b ≡ ok c)
    × (c.to_pipe
        ≡ (agent.to_pipe ++ (codes "OK" ∷ codes "hello" ∷ []) ∷ [])
          ++ (codes "OK" ∷ codes "hello" ∷ []) ∷ [])
unfolding lookup contains ◌==◌
route_message-again_example =
    route_message-again times times there (codes "hello") [] agent refl small

abbrev soon : ℕ → ℕ
soon n = 200 + n

abbrev hello : Message
hello = codes "hello" ∷ []

connect-request-reply_example :
    (a b c d : Agent) × (req reply : Message) × (control_message times (connect here) new_agent
      ≡ ok a)
    × (control_message times (Api.request hello) a ≡ ok b)
    × (dispatch_request 200 soon b ≡ ok c)
    × (c.to_router ≡ (here ∷ req) ∷ [])
    × (answer (codes "client" ∷ req) ≡ ok (some (codes "client" ∷ reply)))
    × (route_message times (here ∷ reply) c ≡ ok d)
    × (d.to_pipe ≡ (codes "OK" ∷ hello) ∷ [])
    × (d.request ≡ none)
unfolding ◌==◌
connect-request-reply_example =
    connect-request-reply times times times 200 soon here (codes "client") (codes "hello") [] tt
      (omega arith) (omega arith) refl

-- The configuration of three servers, and a client that has connected to the first long before the
-- others.
abbrev third : Bytes
third = codes "tcp://c"

abbrev conf : Config
conf = record {
  base_info = (server_endpoint, here) ∷ (server_endpoint2, there) ∷ (server_endpoint3, third) ∷ [];
  service_list = [];
}

abbrev later : Times
later = record { ping_now = 5000; expiry_now = 5000; request_now = 6000 }

abbrev connecting : ℕ → Times
connecting zero = times
connecting (suc n) = later

abbrev client : Agent
client = record new_agent {
  servers =
      (here, record { endpoint = here; alive = false; ping_at = 2100; expiry = 6100 })
      ∷ (there, record { endpoint = there; alive = false; ping_at = 7000; expiry = 11000 })
      ∷ (third, record { endpoint = third; alive = false; ping_at = 7000; expiry = 11000 })
      ∷ [];
  actives = here ∷ there ∷ third ∷ [];
  connections = here ∷ there ∷ third ∷ [];
}

client-connect_all : connect_all connecting 0 (endpoints_of conf) new_agent ≡ ok client
unfolding connect_all endpoints_of get_value control_message connect take_text get_text server
    reset_expiry ◌==◌ insert assign contains lookup c_str
client-connect_all = refl

abbrev seven : ℕ → ℕ
seven n = 7000 + n

connect_all-dispatch_request_example :
    let ep = (address_of 2 conf).endpoint in
    (b c d : Agent) × (req reply : Message) × (control_message later (ask 1) client ≡ ok b)
    × (dispatch_request 7000 seven b ≡ ok c)
    × (c.to_router ≡ (ep ∷ req) ∷ [])
    × (answer (codes "17" ∷ req) ≡ ok (some (codes "17" ∷ reply)))
    × (route_message later (ep ∷ reply) c ≡ ok d)
    × (d.to_pipe ≡ (codes "OK" ∷ ClientMain.hello 1 ∷ []) ∷ [])
    × (d.request ≡ none)
unfolding endpoints_of address_of get_value ◌==◌ contains lookup
connect_all-dispatch_request_example =
    connect_all-dispatch_request conf connecting later later 1 2 7000 seven (codes "17") (here ∷ [])
      (third ∷ []) client (tt, (tt, (tt, tt))) client-connect_all refl (omega arith) (refl, tt) refl
      refl
