-- ===== src/Mdp/Worker.antt =====
-- 7.MDF-Majordomo Protocol/worker: the loop of a worker's thread over its session, with the handling
-- of a request as an argument, and echoworker.cpp.
pub mod Received
pub mod Rounds
pub mod Answers
pub mod Served
pub mod Stop
pub mod Echo
use zero_mq_rfc_implementati.Base.{ℕ, Bytes, codes, none, some, List, [], ◌∷◌, Result, ok, ◌>>=◌}
use zero_mq_rfc_implementati.Base.Zmqpp.{Message, Zmqpp}
use zero_mq_rfc_implementati.Mdp.WorkerApi.{Session, Round, create, connect_to_broker, send, recv}

module _ {ℓ} ⦃z : Zmqpp⦄ {W : Type ℓ} (handle : Message → W → Result (Message × W)) where
  -- A request that `recv` gave is handled and answered.
  unfoldable pub answer : Message → Session → W → Result (Session × W)
  answer req s w = do (rep, w') ← handle req w; s' ← send (some rep) s; ok (s', w')

  -- The loop of a thread, `W` being the state of the rest of the program. Each call of `recv` has its
  -- own rounds; where they are used up, it is still running, and so is the loop. An exception ends the
  -- loop, and a failed contract the process.
  unfoldable pub work : List (List Round) → Session → W → Result (Session × W)
  unfolding answer
  work [] s w = ok (s, w)
  work (rs ∷ calls) s w = do
    (m, s') ← recv rs s
    elim m [ none ↦ ok (s', w) | some req ↦ do (s'', w') ← answer req s' w; work calls s'' w' ]

  -- `run` of a worker for the service `name`, which connects at the time `now`.
  unfoldable pub run : Bytes → ℕ → List (List Round) → W → Result (Session × W)
  unfolding work
  run name now calls w = work calls (connect_to_broker now (create name)) w

abbrev pub echo_name : Bytes
echo_name = codes "echo"

-- `echoworker::run`: the request goes back as the reply.
unfoldable pub echo : Message → Unit {0} → Result (Message × Unit {0})
echo req w = ok (req, w)
