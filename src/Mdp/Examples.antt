-- ===== src/Mdp/Examples.antt =====
-- Tests of 7.MDF-Majordomo Protocol: a broker with two workers of one service.
use zero_mq_rfc_implementati.Base.{
  ◌+◌, ◌≤◌, ◌≡◌, ◌⊎◌, refl, Bytes, codes, ◌==◌, Bool, true, false, some, List, [], ◌∷◌, ◌++◌, All,
  ok, err, contract, undefined, arith,
}
use zero_mq_rfc_implementati.Base.Zmqpp.{Message}
use zero_mq_rfc_implementati.Base.ListMessages.{list_messages}
use zero_mq_rfc_implementati.Base.Dict.{assign, Dict, lookup, contains}
use zero_mq_rfc_implementati.Mdp.Protocol.{mdpc_client, mdpw_worker, ready, reply}
use zero_mq_rfc_implementati.Mdp.Registry.{update_expiry, Worker, Broker, expired}
use zero_mq_rfc_implementati.Mdp.Registry.Known.{IsKnown, IsWorker, Distinct}
use zero_mq_rfc_implementati.Mdp.Broker.Owned.{AllServe}
use zero_mq_rfc_implementati.Mdp.Loop.Owned.{run-AllServe}
use zero_mq_rfc_implementati.Mdp.Broker.{
  Times, is_mmi, find_first_of, count, can_dispatch, dispatch_loop, on_message,
}
use zero_mq_rfc_implementati.Mdp.Broker.Dispatch.{
  handed, left_workers, left_requests, dispatch_loop-Distinct,
}
use zero_mq_rfc_implementati.Mdp.Broker.Invariant.{Tried, IsShort, on_message-IsKnown}
use zero_mq_rfc_implementati.Mdp.Loop.{Event, timer, arrival, run, start}
use zero_mq_rfc_implementati.Mdp.Loop.Safety.{run-start-IsKnown}
use zero_mq_rfc_implementati.Mdp.Loop.Account.{asked, run-total, run-idle}
use zero_mq_rfc_implementati.Mdp.Registry.Totals.{handed_over, pending}
use zero_mq_rfc_implementati.Base.Dict.Entries.{Entries}
use zero_mq_rfc_implementati.Mdp.WorkerApi
use zero_mq_rfc_implementati.Mdp.ClientApi
use zero_mq_rfc_implementati.Mdp.RoundTrip.{request-reply}

abbrev echo : Bytes
echo = codes "echo"

abbrev anna : Worker
anna = record { identity = codes "anna"; service_name = echo; expiry = 9000 }

abbrev bert : Worker
bert = record { identity = codes "bert"; service_name = echo; expiry = 4000 }

abbrev two_workers : Dict Worker
two_workers = (codes "anna", anna) ∷ (codes "bert", bert) ∷ []

abbrev waiting : List Bytes
waiting = codes "anna" ∷ codes "bert" ∷ []

abbrev broker : Broker
broker = record {
  services = (echo, record { name = echo; waiting_workers = waiting; requests = [] }) ∷ [];
  workers = two_workers;
  sent = [];
}

broker-IsKnown : IsKnown broker
unfolding lookup contains ◌==◌
broker-IsKnown = record {
  workers_once = (refl, (refl, tt));
  services_once = (refl, tt);
  keyed = (refl, (refl, tt));
  known = ((refl, (refl, tt)), tt);
}

waiting-IsWorker : All (IsWorker two_workers) waiting
unfolding lookup contains ◌==◌
waiting-IsWorker = (refl, (refl, tt))

waiting-Distinct : Distinct waiting
unfolding ◌==◌
waiting-Distinct = ((refl, tt), (tt, tt))

abbrev times : Times
times = record { required_at = 3000; updated_at = 3000; purged_at = 3000 }

abbrev hello : Message
hello = codes "client" ∷ [] ∷ codes "hello" ∷ []

-- A worker announces itself, a client asks, the timer runs.
abbrev events : List Event
events =
    arrival times (codes "anna" ∷ [] ∷ mdpw_worker ∷ ready ∷ echo ∷ [])
    ∷ arrival times (codes "client" ∷ [] ∷ mdpc_client ∷ echo ∷ codes "hello" ∷ [])
    ∷ timer false 5000 5000 5000
    ∷ []

run-start-IsKnown_example : IsKnown (run (start 0) events).broker
run-start-IsKnown_example = run-start-IsKnown 0 events (tt, (tt, (tt, tt)))

-- Requests of the client that announced itself as "client".
abbrev from_client : Message → Bool
from_client [] = false
from_client (client ∷ m) = client == codes "client"

run-total_example :
    let b = (run (start 0) events).broker in
    handed_over from_client b.sent + pending from_client b.services
    ≡ asked from_client (start 0) events
run-total_example = run-total from_client 0 events (tt, (tt, (tt, tt)))

run-idle_example : Entries (λ name s. can_dispatch s ≡ false) (run (start 0) events).broker.services
run-idle_example = run-idle 0 events (tt, (tt, (tt, tt)))

run-AllServe_example :
    let b = (run (start 0) events).broker in Entries (AllServe b.workers) b.services
run-AllServe_example = run-AllServe 0 events

on_message-IsKnown_example :
    Tried (on_message times (codes "client" ∷ [] ∷ mdpc_client ∷ echo ∷ codes "hello" ∷ []) broker)
    ⊎ ((on_message times (codes "client" ∷ [] ∷ mdpc_client ∷ echo ∷ codes "hello" ∷ []) broker
          ≡ err contract)
        × ((n : Message) × (mdpc_client ∷ echo ∷ codes "hello" ∷ [] ≡ mdpc_client ∷ n) × IsShort n))
    ⊎ ((on_message times (codes "client" ∷ [] ∷ mdpc_client ∷ echo ∷ codes "hello" ∷ []) broker
          ≡ err undefined)
        × ((client : Bytes) × (mdpc_client ∷ echo ∷ codes "hello" ∷ []
              ≡ mdpw_worker ∷ reply ∷ client ∷ [])))
on_message-IsKnown_example =
    on_message-IsKnown times (codes "client") [] (mdpc_client ∷ echo ∷ codes "hello" ∷ []) broker
      broker-IsKnown

three_requests : count (hello ∷ hello ∷ hello ∷ []) ≤ 3
three_requests = omega arith

dispatch_loop-Distinct_example :
    dispatch_loop 3
      (record { name = echo; waiting_workers = waiting; requests = hello ∷ hello ∷ hello ∷ [] })
      broker
    ≡ ok (
      record {
        name = echo;
        waiting_workers = left_workers waiting (hello ∷ hello ∷ hello ∷ []);
        requests = left_requests waiting (hello ∷ hello ∷ hello ∷ []);
      },
      record broker { sent = handed waiting (hello ∷ hello ∷ hello ∷ []) broker.sent },
    )
dispatch_loop-Distinct_example =
    dispatch_loop-Distinct 3 echo waiting (hello ∷ hello ∷ hello ∷ []) broker three_requests
      waiting-Distinct waiting-IsWorker

abbrev session : WorkerApi.Session
session = record (WorkerApi.create echo) { liveness = 2 }

abbrev connected : ClientApi.Session
connected = record { connected = true; sent = [] }

abbrev lone : Broker
lone = record broker {
  services =
      (echo, record { name = echo; waiting_workers = codes "anna" ∷ []; requests = [] }) ∷ [];
  workers = (codes "anna", anna) ∷ [];
}

lone-IsKnown : IsKnown lone
unfolding lookup contains ◌==◌
lone-IsKnown = record {
  workers_once = (refl, tt);
  services_once = (refl, tt);
  keyed = (refl, tt);
  known = ((refl, tt), tt);
}

request-reply_example :
    (b₁ b₂ : Broker) × (ws₁ ws₂ : WorkerApi.Session) × (q r : Message) × (on_message times
        (codes "client" ∷ [] ∷ mdpc_client ∷ echo ∷ codes "hello" ∷ [])
        lone
      ≡ ok b₁)
    × (b₁.sent ≡ lone.sent ++ (codes "anna" ∷ q) ∷ [])
    × (WorkerApi.on_message 3000 q session ≡ ok (some (codes "hello" ∷ []), ws₁))
    × (WorkerApi.send (some (codes "hello" ∷ [])) ws₁ ≡ ok ws₂)
    × (ws₂.sent ≡ session.sent ++ r ∷ [])
    × (on_message times (codes "anna" ∷ r) b₁ ≡ ok b₂)
    × (b₂.sent ≡ b₁.sent ++ (codes "client" ∷ [] ∷ mdpc_client ∷ echo ∷ codes "hello" ∷ []) ∷ [])
unfolding lookup ◌==◌ is_mmi find_first_of expired assign update_expiry
request-reply_example =
    request-reply times times 3000 b'c' (codes "lient") (codes "anna") echo echo (codes "hello") []
      anna lone session lone-IsKnown refl refl refl refl refl refl
