-- ===== src/Ppp/Tests.antt =====
-- Tests of 6.PPP-Paranoid Pirate Protocol: a worker with two silences left, and a client with two
-- retries left.
use zero_mq_rfc_implementati.Base.{◌≡◌, refl, codes, true, none, some, [], ◌∷◌}
use zero_mq_rfc_implementati.Base.ListMessages.{list_messages}
use zero_mq_rfc_implementati.Ppp.Worker.{Worker, Round, start}
use zero_mq_rfc_implementati.Ppp.Worker
use zero_mq_rfc_implementati.Ppp.Worker.Backoff.{Inv, run-start-Inv}
use zero_mq_rfc_implementati.Ppp.Client
use zero_mq_rfc_implementati.Ppp.Client.Retries.{timeouts, resent, run-timeouts}

abbrev silent : Round
silent = record { poll_ok = true; message = none; tested_at = 900; renewed_at = 900 }

abbrev beaten : Round
beaten = record {
  poll_ok = true;
  message = some (codes "HEARTBEAT" ∷ []);
  tested_at = 1200;
  renewed_at = 1200;
}

run-start-Inv_example : Inv (Worker.run (start 100) (silent ∷ beaten ∷ silent ∷ []))
run-start-Inv_example = run-start-Inv 100 (silent ∷ beaten ∷ silent ∷ [])

abbrev patient : Client.Client
patient = record { seq = 7; retries = 2; expect_reply = true; sent = []; sockets = 1 }

run-timeouts_example : Client.run patient (timeouts 2) ≡ resent 1 patient
run-timeouts_example = run-timeouts 1 patient refl refl
