-- ===== src/Mdp/WorkerTests.antt =====
-- Tests of 7.MDF-Majordomo Protocol/worker: two requests and a heartbeat, and
-- a configuration.
use zero_mq_rfc_implementati.Base.{
  ℕ, ◌+◌, ◌≡◌, refl, Bytes, codes, ◌==◌, Bool, ◌&&◌, true, false, none, some, List, Option, leb,
  if◌then◌else◌, ◌>>=◌, [], ◌∷◌, ◌++◌, Result, ok, err, thrown, inl, inr, All,
}
use zero_mq_rfc_implementati.Base.Zmqpp.{Message}
use zero_mq_rfc_implementati.Base.ListMessages.{list_messages}
use zero_mq_rfc_implementati.Mdp.Protocol.{mdpw_worker, request, heartbeat}
use zero_mq_rfc_implementati.Mdp.WorkerApi.{Session, Round}
use zero_mq_rfc_implementati.Mdp.Worker.{run, echo, echo_name}
use zero_mq_rfc_implementati.Mdp.Worker.Received.{replies}
use zero_mq_rfc_implementati.Mdp.Worker.Answers.{all_asked}
use zero_mq_rfc_implementati.Mdp.Worker.Served.{Returns, IsGood}
use zero_mq_rfc_implementati.Mdp.Worker.Stop.{run-stop}
use zero_mq_rfc_implementati.Mdp.Worker.Echo.{echoes, run-echoes}
use zero_mq_rfc_implementati.Mdp.Factory.Loaded.{copies, echoes_in, create-load}
use zero_mq_rfc_implementati.Utils.Config.Loaded.{services_in}
use zero_mq_rfc_implementati.Mdp.Factory.{create, EchoWorker, backend_endpoint}
use zero_mq_rfc_implementati.Utils.Config.{
  ServiceInfo, Items, text, elements, load, load_item, empty_config,
}

abbrev silent : Round
silent = record {
  stop_requested = false;
  poll_ok = true;
  message = none;
  connected_at = 10;
  tested_at = 20;
  renewed_at = 30;
}

abbrev heard : Message → Round
heard m = record silent { message = some m }

abbrev asks_for : Bytes → Bytes → Round
asks_for client body = heard ([] ∷ mdpw_worker ∷ request ∷ client ∷ [] ∷ body ∷ [])

abbrev first_call : List Round
first_call = silent ∷ asks_for (codes "ann") (codes "hi") ∷ []

abbrev second_call : List Round
second_call = heard ([] ∷ mdpw_worker ∷ heartbeat ∷ []) ∷ asks_for (codes "bob") (codes "ho") ∷ []

first_call-IsGood : All IsGood first_call
unfolding ◌==◌
first_call-IsGood = ((refl, refl, tt), ((refl, refl, (refl, refl, inr (refl, (refl, refl)))), tt))

second_call-IsGood : All IsGood second_call
unfolding ◌==◌
second_call-IsGood = (
  (refl, refl, (refl, refl, inl refl)),
  ((refl, refl, (refl, refl, inr (refl, (refl, refl)))), tt),
)

run-echoes_example :
    (s' : Session) × (run echo echo_name 0 (first_call ∷ second_call ∷ []) tt ≡ ok (s', tt))
    × (replies s'.sent ≡ echoes (all_asked (first_call ∷ second_call ∷ [])))
run-echoes_example =
    run-echoes 0 (first_call ∷ second_call ∷ []) (first_call-IsGood, (second_call-IsGood, tt))

-- A handling that counts the requests and answers with nothing.
abbrev counting : Message → ℕ → Result (Message × ℕ)
counting m n = ok ([], n + 1)

counting-Returns : (m : Message) (n : ℕ) → Returns (counting m n)
counting-Returns m n = (([], n + 1), refl)

abbrev stopping : Round
stopping = record silent { stop_requested = true }

run-stop_example :
    run counting echo_name 0 ((first_call ∷ []) ++ ((silent ∷ []) ++ stopping ∷ silent ∷ []) ∷ []) 0
    ≡ err thrown
unfolding ◌==◌
run-stop_example =
    run-stop counting counting-Returns echo_name 0 (first_call ∷ []) [] (silent ∷ []) (silent ∷ [])
      stopping 0 (first_call-IsGood, tt) (((codes "ann", codes "hi" ∷ []), refl), tt)
      ((refl, refl, tt), tt) refl refl

abbrev services : List (Option ServiceInfo)
services =
    some (record { name = codes "ECHO"; quantity = 2 })
    ∷ some (record { name = codes "tea"; quantity = 3 })
    ∷ []

abbrev items : Items
items = (backend_endpoint, text (codes "b")) ∷ (codes "services", elements services) ∷ []

abbrev worker : EchoWorker
worker = record { broker = codes "b"; admin = [] }

-- The upper-case letters of ASCII taken for the lower-case ones.
abbrev lower : Bytes → Bytes
lower [] = []
lower (c ∷ cs) = (if leb b'A' c && leb c b'Z' then c + 32 else c) ∷ lower cs

abbrev same_letters : Bytes → Bytes → Bool
same_letters a b = lower a == lower b

-- The workers of a configuration that names the service in capitals.
create-load_example :
    (load items empty_config >>= λ c. ok (create same_letters c))
    ≡ ok (
        copies same_letters
          (echoes_in same_letters (services_in items))
          (record { broker = codes "b"; admin = [] }))
unfolding ◌==◌
create-load_example = create-load same_letters items

-- A value that is no text.
not_a_text : load ((codes "port", elements (none ∷ [])) ∷ []) empty_config ≡ err thrown
unfolding load load_item ◌==◌
not_a_text = refl
