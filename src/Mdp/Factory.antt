-- ===== src/Mdp/Factory.antt =====
-- 7.MDF-Majordomo Protocol/worker/mdworker_factory.cpp: the workers that a configuration asks for.
pub mod Loaded
use zero_mq_rfc_implementati.Base.{
  ℕ, zero, suc, Bytes, codes, Bool, List, [], ◌∷◌, ◌++◌, if◌then◌else◌,
}
use zero_mq_rfc_implementati.Utils.Config.{Config, ServiceInfo, get_value}
use zero_mq_rfc_implementati.Mdp.Worker.{echo_name}

abbrev pub admin_endpoint : Bytes
admin_endpoint = codes "admin_endpoint"

abbrev pub backend_endpoint : Bytes
backend_endpoint = codes "backend_endpoint"

-- An echo worker with the arguments of its constructor.
pub record EchoWorker : Type 0 where
  pub broker : Bytes
  pub admin : Bytes

-- The loop over `i`. A quantity below 1 makes no worker; it is given as 0.
unfoldable pub push_workers : ℕ → EchoWorker → List EchoWorker → List EchoWorker
push_workers zero w wrks = wrks
push_workers (suc n) w wrks = push_workers n w (wrks ++ w ∷ [])

module _ (iequals : Bytes → Bytes → Bool) where
  -- The loop over the services.
  unfoldable pub create_for : List ServiceInfo → EchoWorker → List EchoWorker → List EchoWorker
  unfolding push_workers
  create_for [] w wrks = wrks
  create_for (s ∷ ss) w wrks =
      create_for ss w (if iequals s.name echo_name then push_workers s.quantity w wrks else wrks)

  unfoldable pub create : Config → List EchoWorker
  unfolding create_for get_value
  create c =
      create_for c.service_list
        (record { broker = get_value backend_endpoint c; admin = get_value admin_endpoint c }) []
