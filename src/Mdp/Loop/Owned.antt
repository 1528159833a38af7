-- ===== src/Mdp/Loop/Owned.antt =====
-- Which workers wait in which services in every run of the broker.
use zero_mq_rfc_implementati.Base.{
  Post, Post-then, Post-if, ℕ, inl, inr, Bytes, true, false, List, All, [], ◌∷◌, ◌++◌, ltb,
  Bool-cases,
}
use zero_mq_rfc_implementati.Base.Zmqpp.{Zmqpp}
use zero_mq_rfc_implementati.Base.Dict.{Dict, contains}
use zero_mq_rfc_implementati.Base.Dict.Entries.{Entries}
use zero_mq_rfc_implementati.Mdp.Protocol.{heartbeat}
use zero_mq_rfc_implementati.Mdp.Registry.{
  Service, Broker, purge_workers, worker_send, worker_send_heartbeat, heartbeat_all,
  heartbeat_services, worker_envelope,
}
use zero_mq_rfc_implementati.Mdp.Registry.Purge.{worker_send_lem}
use zero_mq_rfc_implementati.Mdp.Broker.{on_message}
use zero_mq_rfc_implementati.Mdp.Broker.Owned.{AllServe, Owned, purge_workers-Owned}
use zero_mq_rfc_implementati.Mdp.Broker.Owned.Handled.{on_message-Owned}
use zero_mq_rfc_implementati.Mdp.Loop.Runs.{Continues, run_keeps}
use zero_mq_rfc_implementati.Mdp.Loop.{Loop, Event, timer, arrival, on_timer, handle, run, start}

module _ ⦃z : Zmqpp⦄ where
  heartbeat_all-Owned : (is : List Bytes) (b : Broker) → Owned b → Post Owned (heartbeat_all is b)
  unfolding heartbeat_all
  heartbeat_all-Owned [] b h = h
  heartbeat_all-Owned (i ∷ is) b h = elim (Bool-cases (contains i b.workers)) [
    | inr new ↦ unfold worker_send in rw new tt
    | inl old ↦ rw (worker_send_lem i heartbeat [] [] b old) (
        heartbeat_all-Owned is
          (record b { sent = b.sent ++ worker_envelope i heartbeat [] [] ∷ [] }) h)
  ]

  heartbeat_services-Owned :
      (ss : Dict Service) (b : Broker) → Owned b → Post Owned (heartbeat_services ss b)
  unfolding heartbeat_services
  heartbeat_services-Owned [] b h = h
  heartbeat_services-Owned ((k, s) ∷ ss) b h =
      Post-then Owned Owned (heartbeat_all s.waiting_workers b) (heartbeat_services ss)
        (heartbeat_all-Owned s.waiting_workers b h) (λ b' k. heartbeat_services-Owned ss b' k)

  handle-Owned : (e : Event) (l : Loop) → Owned l.broker → Post (Continues Owned) (handle e l)
  unfolding handle on_timer worker_send_heartbeat
  handle-Owned (timer true t u v) l h = tt
  handle-Owned (timer false t u v) l h =
      Post-if (Continues Owned) (ltb l.heartbeat_at t) _ _
        (Post-then Owned (Continues Owned) (purge_workers u l.broker) _
          (purge_workers-Owned u l.broker h)
          (λ b k.
            Post-then Owned (Continues Owned) (heartbeat_services b.services b) _
              (heartbeat_services-Owned b.services b k) (λ b' k'. k')))
        h
  handle-Owned (arrival t msg) l h =
      Post-then Owned (Continues Owned) (on_message t msg l.broker) _
        (on_message-Owned t msg l.broker h) (λ b k. k)

  everything : (es : List Event) → All (λ e. Unit {0}) es
  everything [] = tt
  everything (e ∷ es) = (tt, everything es)

  -- In every run of the broker, whatever arrives at its socket: each worker that waits for work in a
  -- service is registered, and the name of the service in its registration is the name of this one.
  pub run-AllServe :
      (now : ℕ) (es : List Event)
      → let b = (run (start now) es).broker in Entries (AllServe b.workers) b.services
  run-AllServe now es =
      (run_keeps Owned (λ e. Unit {0}) (λ e l q. handle-Owned e l) (start now) es (everything es)
        (unfold start in (tt, tt))).1
