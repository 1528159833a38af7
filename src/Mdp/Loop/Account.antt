-- ===== src/Mdp/Loop/Account.antt =====
-- The clients' requests in every run of the broker.
use zero_mq_rfc_implementati.Base.{
  Post, Post-then, Post-mono, Post-if, ℕ, ◌+◌, ◌≡◌, refl, inl, inr, Bytes, Bool, true, false, none,
  List, [], ◌∷◌, ◌++◌, ltb, All, Bool-cases, Result, ok, err, arith,
}
use zero_mq_rfc_implementati.Base.Zmqpp.{Message, Zmqpp}
use zero_mq_rfc_implementati.Base.Dict.{Dict, contains}
use zero_mq_rfc_implementati.Base.Dict.Entries.{Entries, Entries-mono}
use zero_mq_rfc_implementati.Mdp.Protocol.{heartbeat}
use zero_mq_rfc_implementati.Mdp.Registry.{
  Service, Broker, purge_workers, worker_send, worker_send_heartbeat, heartbeat_all,
  heartbeat_services, worker_envelope,
}
use zero_mq_rfc_implementati.Mdp.Registry.Purge.{worker_send_lem}
use zero_mq_rfc_implementati.Mdp.Registry.Totals.{
  handed_over, pending, handed_over-append, carried-heartbeat,
}
use zero_mq_rfc_implementati.Mdp.Broker.{can_dispatch, on_message}
use zero_mq_rfc_implementati.Mdp.Broker.Account.{Idle, Moves, Moves-trans, purge_workers-Moves}
use zero_mq_rfc_implementati.Mdp.Broker.Account.Handled.{wanted_by, on_message-Moves}
use zero_mq_rfc_implementati.Mdp.Loop.{
  Loop, Event, timer, arrival, Next, continue, stop, on_timer, handle, run, start,
}
use zero_mq_rfc_implementati.Mdp.Loop.Safety.{IsRouted}

module _ ⦃z : Zmqpp⦄ (p : Message → Bool) where
  heartbeat_all-Moves :
      (is : List Bytes) (b : Broker) → Post (Moves p none none 0 b) (heartbeat_all is b)
  unfolding heartbeat_all
  heartbeat_all-Moves [] b = ((λ h. h), omega arith)
  heartbeat_all-Moves (i ∷ is) b = elim (Bool-cases (contains i b.workers)) [
    | inr new ↦ unfold worker_send in rw new tt
    | inl old ↦
        let m = worker_envelope i heartbeat [] [] in
        let b' : Broker = record b { sent = b.sent ++ m ∷ [] } in
        rw (worker_send_lem i heartbeat [] [] b old) (
          Post-mono (Moves p none none 0 b') _ (heartbeat_all is b')
            (λ c y. (
              y.0,
              omega (arith, y.1, handed_over-append p b.sent (m ∷ []), carried-heartbeat p i),
            ))
            (heartbeat_all-Moves is b'))
  ]

  heartbeat_services-Moves :
      (ss : Dict Service) (b : Broker) → Post (Moves p none none 0 b) (heartbeat_services ss b)
  unfolding heartbeat_services
  heartbeat_services-Moves [] b = ((λ h. h), omega arith)
  heartbeat_services-Moves ((k, s) ∷ ss) b =
      Post-then (Moves p none none 0 b) _ (heartbeat_all s.waiting_workers b) _
        (heartbeat_all-Moves s.waiting_workers b)
        (λ b' x.
          Post-mono (Moves p none none 0 b') _ (heartbeat_services ss b')
            (λ c y. Moves-trans p none none none 0 0 b b' c x y) (heartbeat_services-Moves ss b'))

  abbrev MovesNext : ℕ → Loop → Next → Type 0
  MovesNext n l (continue l') = Moves p none none n l.broker l'.broker
  MovesNext n l stop = Unit {0}

  -- What an event adds to the requests.
  abbrev pub wanted_in : Event → ℕ
  wanted_in (timer s t u v) = 0
  wanted_in (arrival t msg) = wanted_by p msg

  on_timer-Moves : (t u v : ℕ) (l : Loop) → Post (MovesNext 0 l) (on_timer false t u v l)
  unfolding on_timer worker_send_heartbeat
  on_timer-Moves t u v l =
      Post-if _ (ltb l.heartbeat_at t) _ _
        (Post-then (Moves p none none 0 l.broker) _ (purge_workers u l.broker) _
          (purge_workers-Moves p none u l.broker)
          (λ b x.
            Post-then (Moves p none none 0 b) _ (heartbeat_services b.services b) _
              (heartbeat_services-Moves b.services b)
              (λ b' y. Moves-trans p none none none 0 0 l.broker b b' x y)))
        ((λ h. h), omega arith)

  handle-Moves : (e : Event) (l : Loop) → IsRouted e → Post (MovesNext (wanted_in e) l) (handle e l)
  unfolding handle on_timer
  handle-Moves (timer true t u v) l r = tt
  handle-Moves (timer false t u v) l r = on_timer-Moves t u v l
  handle-Moves (arrival t []) l r = absurd r
  handle-Moves (arrival t (i ∷ [])) l r = absurd r
  handle-Moves (arrival t (i ∷ f ∷ m)) l r =
      Post-then (Moves p none none (wanted_by p (i ∷ f ∷ m)) l.broker) _
        (on_message t (i ∷ f ∷ m) l.broker) _ (on_message-Moves p t i f m l.broker) (λ b x. x)

  -- The requests that pass the test among those that clients have made in the run: by the messages
  -- that the loop has handled, to services whose names do not begin with m, i or a full stop: those
  -- others are taken for management services and answered at once.
  unfoldable pub asked : Loop → List Event → ℕ
  asked l [] = 0
  asked l (e ∷ es) = elim (handle e l) [
    | ok next ↦ elim next [ continue l' ↦ wanted_in e + asked l' es | stop ↦ 0 ]
    | err f ↦ 0
  ]

  run_on :
      (e : Event) (es : List Event) (l : Loop) (r : Result Next)
      → handle e l ≡ r
      → Post (MovesNext (wanted_in e) l) r
      → ((l' : Loop) → Moves p none none (asked l' es) l'.broker (run l' es).broker)
      → Moves p none none (asked l (e ∷ es)) l.broker (run l (e ∷ es)).broker
  unfolding run asked
  run_on e es l (ok (continue l')) q k next =
      rw (q, run, asked)
        (Moves-trans p none none none (wanted_in e) (asked l' es) l.broker l'.broker
          (run l' es).broker k (next l'))
  run_on e es l (ok stop) q k next = rw (q, run, asked) ((λ h. h), omega arith)
  run_on e es l (err f) q k next = rw (q, run, asked) ((λ h. h), omega arith)

  run-Moves :
      (l : Loop) (es : List Event)
      → All IsRouted es
      → Moves p none none (asked l es) l.broker (run l es).broker
  run-Moves l [] r = unfold run asked in ((λ h. h), omega arith)
  run-Moves l (e ∷ es) r =
      run_on e es l (handle e l) refl (handle-Moves e l r.0) (λ l'. run-Moves l' es r.1)

  -- In every run of the broker, whatever messages its socket delivers, which have the sender's identity
  -- and one frame at least, and whatever test is applied: as many requests that pass the test have been
  -- sent to workers or wait in a service, as clients have made, by the messages that the loop has
  -- handled, to services whose names do not begin with m, i or a full stop. So of these no request is
  -- lost, made up or sent twice. A request to any other service is answered at once and is not counted.
  pub run-total :
      (now : ℕ) (es : List Event)
      → All IsRouted es
      → let b = (run (start now) es).broker in
        handed_over p b.sent + pending p b.services ≡ asked (start now) es
  run-total now es r = unfold start in omega (arith, (run-Moves (start now) es r).1)

-- In every run of the broker, whatever messages its socket delivers, which have the sender's identity
-- and one frame at least: between two events no service has a worker that waits and a request that
-- waits.
pub run-idle :
    ⦃z : Zmqpp⦄ (now : ℕ) (es : List Event)
    → All IsRouted es
    → Entries (λ name s. can_dispatch s ≡ false) (run (start now) es).broker.services
run-idle now es r =
    Entries-mono (Idle none) (λ name s. can_dispatch s ≡ false) (run (start now) es).broker.services
      (λ k s h. h refl) ((run-Moves (λ m. true) (start now) es r).0 (unfold start in (tt, tt))).1
