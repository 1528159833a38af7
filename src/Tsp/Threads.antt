-- ===== src/Tsp/Threads.antt =====
-- 9.TSP-Titanic Service Protocol/titanic: the threads of the request, reply and close workers. Each is
-- the loop of a Majordomo worker with its own handling.
pub mod Accepts
use zero_mq_rfc_implementati.Base.{
  ℕ, suc, ◌+◌, Bytes, codes, List, [], ◌∷◌, ◌++◌, Result, ok, ◌>>=◌,
}
use zero_mq_rfc_implementati.Base.Zmqpp.{Message, Zmqpp}
use zero_mq_rfc_implementati.Mdp.WorkerApi.{Session, Round}
use zero_mq_rfc_implementati.Mdp.Worker
use zero_mq_rfc_implementati.Tsp.Directory.{FileSystem, Directory}
use zero_mq_rfc_implementati.Tsp.Workers.{on_request, on_reply, on_close}

-- What the threads share: the files and the pipe to `titanic::run`, the messages in it being those not
-- received yet. `drawn` counts the random identifiers.
pub record Shared : Type 0 where
  pub fs : Directory
  pub piped : List Message
  pub drawn : ℕ

module _ ⦃z : Zmqpp⦄ ⦃f : FileSystem⦄ where
  -- The `n`th identifier that is drawn is `uuid_at n`.
  unfoldable pub request_handler : (ℕ → Bytes) → Message → Shared → Result (Message × Shared)
  unfolding on_request
  request_handler uuid_at req w =
      let (fs', to_pipe, rep) = on_request (uuid_at w.drawn) req w.fs in
      ok (rep, record w { fs = fs'; piped = w.piped ++ to_pipe ∷ []; drawn = suc w.drawn })

  unfoldable pub reply_handler : Message → Shared → Result (Message × Shared)
  unfolding on_reply
  reply_handler req w = do rep ← on_reply req w.fs; ok (rep, w)

  unfoldable pub close_handler : Message → Shared → Result (Message × Shared)
  unfolding on_close
  close_handler req w = do (fs', rep) ← on_close req w.fs; ok (rep, record w { fs = fs' })

  unfoldable pub run_request :
      (ℕ → Bytes) → ℕ → List (List Round) → Shared → Result (Session × Shared)
  unfolding request_handler
  run_request uuid_at now calls w =
      Worker.run (request_handler uuid_at) (codes "titanic.request") now calls w

  unfoldable pub run_reply : ℕ → List (List Round) → Shared → Result (Session × Shared)
  unfolding reply_handler
  run_reply now calls w = Worker.run reply_handler (codes "titanic.reply") now calls w

  unfoldable pub run_close : ℕ → List (List Round) → Shared → Result (Session × Shared)
  unfolding close_handler
  run_close now calls w = Worker.run close_handler (codes "titanic.close") now calls w
