-- ===== src/Ppp/Examples.antt =====
-- Tests of 6.PPP-Paranoid Pirate Protocol: two workers, a request, a worker with two silences left, a
-- client with two retries left.
use zero_mq_rfc_implementati.Base.{
  ◌<◌, ◌≡◌, refl, ◌==◌, codes, true, none, some, [], ◌∷◌, ◌++◌, map, ltb, if◌then◌else◌, ok, arith,
}
use zero_mq_rfc_implementati.Base.Zmqpp.{Message}
use zero_mq_rfc_implementati.Base.ListMessages.{list_messages}
use zero_mq_rfc_implementati.Ppp.WorkerQueue.{WorkerQueue, Worker, size, find, purge, pop}
use zero_mq_rfc_implementati.Ppp.WorkerQueue.Laws.{
  IsUnique, purges, view, apply, apply_view, view-apply,
}
use zero_mq_rfc_implementati.Ppp.Broker.{
  Broker, Round, on_backend, on_frontend, polled_frontend, beat, round, run, start, heartbeat_to,
}
use zero_mq_rfc_implementati.Ppp.Broker.Queueing.{round_forwards}
use zero_mq_rfc_implementati.Ppp.Broker.Passes.{requests_in}
use zero_mq_rfc_implementati.Ppp.Broker.Forwards.{asked, replied, run_forwards}

abbrev anna : Worker
anna = record { identity = codes "anna"; due = 3000 }

abbrev bert : Worker
bert = record { identity = codes "bert"; due = 3500 }

abbrev two_workers : WorkerQueue
two_workers = anna ∷ bert ∷ []

two_workers-IsUnique : IsUnique two_workers
unfolding find ◌==◌
two_workers-IsUnique = (refl, (refl, tt))

view-apply_example :
    view (apply (purges 3200) two_workers) (codes "bert")
    ≡ apply_view (purges 3200) (view two_workers) (codes "bert")
view-apply_example = view-apply (purges 3200) two_workers (codes "bert") two_workers-IsUnique

abbrev waiting : Broker
waiting = record { queue = two_workers; heartbeat_at = 1000; to_backend = []; to_frontend = [] }

abbrev request : Message
request = codes "client" ∷ [] ∷ codes "hello" ∷ []

abbrev busy : Round
busy = record {
  poll_ok = true;
  backend = none;
  frontend = some request;
  seen_at = 900;
  tested_at = 1100;
  renewed_at = 1100;
  purged_at = 1100;
}

abbrev served : Broker
served = record {
  queue = bert ∷ [];
  heartbeat_at = 2100;
  to_backend = (codes "anna" ∷ request) ∷ (codes "bert" ∷ codes "HEARTBEAT" ∷ []) ∷ [];
  to_frontend = [];
}

one_waits : 0 < size waiting.queue
one_waits = omega arith

first_step : on_backend busy.seen_at busy.backend waiting ≡ ok waiting
unfolding on_backend
first_step = refl

served_lem : round busy waiting ≡ ok served
unfolding round on_backend on_frontend polled_frontend beat purge pop
served_lem = refl

round_forwards_example :
    (w : Worker) × (q : WorkerQueue) × (waiting.queue ≡ w ∷ q)
    × (served.to_backend
        ≡ (waiting.to_backend ++ (w.identity ∷ request) ∷ [])
          ++ (if ltb waiting.heartbeat_at busy.tested_at then map heartbeat_to q else []))
    × (find w.identity served.queue ≡ none)
round_forwards_example =
    round_forwards busy waiting waiting served request one_waits refl first_step served_lem
      two_workers-IsUnique

-- A worker announces itself, and answers the request that it then gets.
abbrev announces : Round
announces = record busy {
  backend = some (codes "anna" ∷ codes "READY" ∷ []);
  frontend = none;
  tested_at = 500;
  purged_at = 500;
}

abbrev answers : Round
answers = record busy { backend = some (codes "anna" ∷ request); frontend = none }

run_forwards_example :
    let b = run (start 0) (announces ∷ busy ∷ answers ∷ []) in
    (requests_in b.to_backend ≡ asked (start 0) (announces ∷ busy ∷ answers ∷ []))
    × (b.to_frontend ≡ replied (start 0) (announces ∷ busy ∷ answers ∷ []))
    × IsUnique b.queue
run_forwards_example = run_forwards 0 (announces ∷ busy ∷ answers ∷ []) (tt, (tt, (tt, tt)))
