-- ===== src/Mdp/Loop/Safety.antt =====
-- The broker's invariant in every run, and the heartbeats.
use zero_mq_rfc_implementati.Base.{
  Post, ℕ, ◌+◌, ◌≡◌, ◌∙◌, inl, inr, Bytes, true, false, List, [], ◌∷◌, ◌++◌, ltb, All, Bool-cases,
  append_assoc, append-nil, ok,
}
use zero_mq_rfc_implementati.Base.Zmqpp.{Message, Zmqpp}
use zero_mq_rfc_implementati.Base.Dict.{Dict}
use zero_mq_rfc_implementati.Base.Dict.Entries.{Entries}
use zero_mq_rfc_implementati.Mdp.Protocol.{heartbeat_interval, heartbeat}
use zero_mq_rfc_implementati.Mdp.Registry.{
  Service, Broker, worker_send_heartbeat, heartbeat_all, heartbeat_services, worker_envelope,
  expired,
}
use zero_mq_rfc_implementati.Mdp.Registry.Known.{
  IsKnown, IsWorker, AllKnown, without_all, purge_workers-IsKnown,
}
use zero_mq_rfc_implementati.Mdp.Registry.Purge.{worker_send_lem, purge_workers_lem}
use zero_mq_rfc_implementati.Mdp.Broker.{Times}
use zero_mq_rfc_implementati.Mdp.Broker.Invariant.{on_message-IsKnown}
use zero_mq_rfc_implementati.Mdp.Broker.Waiting.{sent-IsKnown}
use zero_mq_rfc_implementati.Mdp.Loop.Runs.{Continues, run_keeps}
use zero_mq_rfc_implementati.Mdp.Loop.{
  Loop, Event, timer, arrival, continue, on_timer, handle, run, start,
}

module _ ⦃z : Zmqpp⦄ where
  -- One heartbeat for each waiting worker, service by service.
  abbrev pub beats : List Bytes → List Message
  beats [] = []
  beats (i ∷ is) = worker_envelope i heartbeat [] [] ∷ beats is

  abbrev pub service_beats : Dict Service → List Message
  service_beats [] = []
  service_beats ((k, s) ∷ ss) = beats s.waiting_workers ++ service_beats ss

  heartbeat_all_lem :
      (is : List Bytes) (b : Broker)
      → All (IsWorker b.workers) is
      → heartbeat_all is b ≡ ok (record b { sent = b.sent ++ beats is })
  unfolding heartbeat_all
  heartbeat_all_lem [] b h = rw append-nil
  heartbeat_all_lem (i ∷ is) b h = rw (worker_send_lem i heartbeat [] [] b h.0) (
      heartbeat_all_lem is (record b { sent = b.sent ++ worker_envelope i heartbeat [] [] ∷ [] })
        h.1
      ∙ rw append_assoc)

  heartbeat_services_lem :
      (ss : Dict Service) (b : Broker)
      → Entries (AllKnown b.workers) ss
      → heartbeat_services ss b ≡ ok (record b { sent = b.sent ++ service_beats ss })
  unfolding heartbeat_services
  heartbeat_services_lem [] b h = rw append-nil
  heartbeat_services_lem ((k, s) ∷ ss) b h = rw (heartbeat_all_lem s.waiting_workers b h.0) (
      heartbeat_services_lem ss (record b { sent = b.sent ++ beats s.waiting_workers }) h.1
      ∙ rw append_assoc)

  -- When the timer finds the time for heartbeats past, the expired workers are deleted, every worker
  -- that then waits is sent one heartbeat, and the next time is set; this never fails.
  pub on_timer_beats :
      (tested_at purged_at renewed_at : ℕ) (l : Loop)
      → IsKnown l.broker
      → ltb l.heartbeat_at tested_at ≡ true
      → let b = without_all (expired purged_at l.broker.workers) l.broker in
        on_timer false tested_at purged_at renewed_at l
        ≡ ok (
            continue (record {
              broker = record b { sent = b.sent ++ service_beats b.services };
              heartbeat_at = renewed_at + heartbeat_interval;
            }))
  unfolding on_timer worker_send_heartbeat
  on_timer_beats tested_at purged_at renewed_at l v h =
      let b : Broker = without_all (expired purged_at l.broker.workers) l.broker in
      rw (
        h,
        purge_workers_lem purged_at l.broker v,
        heartbeat_services_lem b.services b (purge_workers-IsKnown purged_at l.broker v).known,
      )

  -- A message as a router socket delivers it: an identity and at least one frame.
  abbrev pub IsRouted : Event → Type 0
  IsRouted (timer s t u v) = Unit {0}
  IsRouted (arrival t []) = ⊥
  IsRouted (arrival t (i ∷ [])) = ⊥
  IsRouted (arrival t (i ∷ f ∷ m)) = Unit {0}

  start-IsKnown : (now : ℕ) → IsKnown (start now).broker
  unfolding start
  start-IsKnown now = record { workers_once = tt; services_once = tt; keyed = tt; known = tt }

  on_timer-IsKnown :
      (t u w : ℕ) (l : Loop) → IsKnown l.broker → Post (Continues IsKnown) (on_timer false t u w l)
  on_timer-IsKnown t u w l v = elim (Bool-cases (ltb l.heartbeat_at t)) [
    | inl due ↦
        let b : Broker = without_all (expired u l.broker.workers) l.broker in
        rw (on_timer_beats t u w l v due) (sent-IsKnown b _ (purge_workers-IsKnown u l.broker v))
    | inr early ↦ unfold on_timer in rw early v
  ]

  on_arrival-IsKnown :
      (t : Times) (i f : Bytes) (m : Message) (l : Loop)
      → IsKnown l.broker
      → Post (Continues IsKnown) (handle (arrival t (i ∷ f ∷ m)) l)
  unfolding handle
  on_arrival-IsKnown t i f m l v = elim (on_message-IsKnown t i f m l.broker v) [
    | inl (inl (b', e, v')) ↦ rw e v'
    | inl (inr e) ↦ rw e tt
    | inr (inl (e, short)) ↦ rw e tt
    | inr (inr (e, bare)) ↦ rw e tt
  ]

  handle-IsKnown :
      (e : Event) (l : Loop) → IsRouted e → IsKnown l.broker → Post (Continues IsKnown) (handle e l)
  handle-IsKnown (timer true t u w) l r v = unfold handle in tt
  handle-IsKnown (timer false t u w) l r v = unfold handle in on_timer-IsKnown t u w l v
  handle-IsKnown (arrival t []) l r v = absurd r
  handle-IsKnown (arrival t (i ∷ [])) l r v = absurd r
  handle-IsKnown (arrival t (i ∷ f ∷ m)) l r v = on_arrival-IsKnown t i f m l v

  -- In every run of the broker, whatever messages its socket delivers, which have the sender's identity
  -- and one frame at least, and whenever the clock is read: no identity and no service is registered
  -- twice, each worker is registered under its own identity, and every worker that waits for work in a
  -- service is registered.
  pub run-start-IsKnown :
      (now : ℕ) (es : List Event) → All IsRouted es → IsKnown (run (start now) es).broker
  run-start-IsKnown now es r =
      run_keeps IsKnown IsRouted handle-IsKnown (start now) es r (start-IsKnown now)
