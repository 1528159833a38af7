-- ===== src/Mdp/Loop/Runs.antt =====
-- What every step of the loop keeps, a run keeps.
use zero_mq_rfc_implementati.Base.{◌≡◌, refl, List, [], ◌∷◌, All, Result, ok, err, Post}
use zero_mq_rfc_implementati.Base.Zmqpp.{Zmqpp}
use zero_mq_rfc_implementati.Mdp.Registry.{Broker}
use zero_mq_rfc_implementati.Mdp.Loop.{Loop, Event, Next, continue, stop, handle, run}

-- What holds of the broker with which the loop goes on.
abbrev pub Continues : (Broker → Type 0) → Next → Type 0
Continues P (continue l) = P l.broker
Continues P stop = Unit {0}

module _ ⦃z : Zmqpp⦄ (P : Broker → Type 0) (Q : Event → Type 0)
    (keeps : (e : Event) (l : Loop) → Q e → P l.broker → Post (Continues P) (handle e l)) where
  run_on :
      (e : Event) (es : List Event) (l : Loop) (r : Result Next)
      → handle e l ≡ r
      → Post (Continues P) r
      → ((l' : Loop) → P l'.broker → P (run l' es).broker)
      → P l.broker
      → P (run l (e ∷ es)).broker
  unfolding run
  run_on e es l (ok (continue l')) q k next h = rw (q, run) (next l' k)
  run_on e es l (ok stop) q k next h = rw (q, run) h
  run_on e es l (err f) q k next h = rw (q, run) h

  pub run_keeps : (l : Loop) (es : List Event) → All Q es → P l.broker → P (run l es).broker
  run_keeps l [] r h = unfold run in h
  run_keeps l (e ∷ es) r h =
      run_on e es l (handle e l) refl (keeps e l r.0 h) (λ l' k. run_keeps l' es r.1 k) h
