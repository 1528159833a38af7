-- ===== src/Mdp/Registry/Purge.antt =====
-- Deleting and purging workers.
use zero_mq_rfc_implementati.Base.{
  ℕ, ◌≡◌, refl, Bytes, true, false, List, [], ◌∷◌, ◌++◌, ok, All, arith,
}
use zero_mq_rfc_implementati.Base.Zmqpp.{Message, Zmqpp}
use zero_mq_rfc_implementati.Mdp.Protocol.{disconnect}
use zero_mq_rfc_implementati.Mdp.Registry.{
  Broker, worker_envelope, worker_send, worker_delete, expired, delete_all, purge_workers,
}
use zero_mq_rfc_implementati.Mdp.Registry.Known.{
  IsWorker, IsKnown, without, without_all, Distinct, erase-known, expired-Distinct, expired-known,
}

module _ ⦃z : Zmqpp⦄ where
  -- A message to a worker that is known is sent, and nothing else changes.
  pub worker_send_lem :
      (i c o : Bytes) (m : Message) (b : Broker)
      → IsWorker b.workers i
      → worker_send i c o m b ≡ ok (record b { sent = b.sent ++ worker_envelope i c o m ∷ [] })
  unfolding worker_send
  worker_send_lem i c o m b h = rw h

  pub worker_delete-quiet :
      (i : Bytes) (b : Broker) → IsWorker b.workers i → worker_delete i false b ≡ ok (without i b)
  unfolding worker_delete
  worker_delete-quiet i b h = rw h

  pub worker_delete-disconnect :
      (i : Bytes) (b : Broker)
      → IsWorker b.workers i
      → worker_delete i true b
        ≡ ok (without i (record b { sent = b.sent ++ worker_envelope i disconnect [] [] ∷ [] }))
  unfolding worker_delete
  worker_delete-disconnect i b h = ground arith

  delete_all_lem :
      (is : List Bytes) (b : Broker)
      → All (IsWorker b.workers) is
      → Distinct is
      → delete_all is b ≡ ok (without_all is b)
  unfolding delete_all
  delete_all_lem [] b h d = refl
  delete_all_lem (i ∷ is) b h d =
      rw (worker_delete-quiet i b h.0)
        (delete_all_lem is (without i b) (erase-known i b.workers is d.0 h.1) d.1)

  -- A purge never fails, and deletes exactly the workers that have expired.
  pub purge_workers_lem :
      (now : ℕ) (b : Broker)
      → IsKnown b
      → purge_workers now b ≡ ok (without_all (expired now b.workers) b)
  unfolding purge_workers
  purge_workers_lem now b v =
      delete_all_lem (expired now b.workers) b (expired-known now b.workers v.keyed)
        (expired-Distinct now b.workers v.workers_once v.keyed)
