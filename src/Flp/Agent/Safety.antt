-- ===== src/Flp/Agent/Safety.antt =====
-- 10.FLP-Freelance Protocol/client/flcliapi.cpp: the loop of `run` finds the servers it looks up.
use zero_mq_rfc_implementati.Base.{
  true, Option, none, some, List, [], ◌∷◌, Result, ok, err, ◌>>=◌, ◌≡◌, subst, refl, arith,
}
use zero_mq_rfc_implementati.Base.Zmqpp.{Message, Zmqpp}
use zero_mq_rfc_implementati.Base.Dict.{contains}
use zero_mq_rfc_implementati.Flp.Agent.{
  Agent, Times, control_message, route_message, Round, on_poll, round, run, new_agent,
}
use zero_mq_rfc_implementati.Flp.Agent.Known.{
  IsKnown, Keeps, control_message-Keeps, route_message-Keeps, contains-control,
}
use zero_mq_rfc_implementati.Flp.Agent.Dispatch.{after_poll-ok}

module _ ⦃z : Zmqpp⦄ where
  -- The router's message is from a server that the agent has connected to before.
  abbrev pub IsFrom : Agent → Option Message → Type 0
  IsFrom a none = Unit
  IsFrom a (some []) = ⊥
  IsFrom a (some (ep ∷ m)) = contains ep a.servers ≡ true

  abbrev After : (Agent → Type 0) → Result Agent → Type 0
  After P (ok a) = P a
  After P (err f) = Unit

  -- So is each message of the rounds, at the agent of its round.
  abbrev pub AllFrom : List Round → Agent → Type 0
  AllFrom [] a = Unit
  AllFrom (r ∷ rs) a = IsFrom a r.routed × After (AllFrom rs) (round r a)

  bind-Keeps :
      (m : Result Agent) (f : Agent → Result Agent)
      → Keeps m
      → ((a : Agent) → m ≡ ok a → IsKnown a → Keeps (f a))
      → Keeps (m >>= f)
  bind-Keeps (ok a) f h k = k a refl h
  bind-Keeps (err e) f h k = h

  on_control-Keeps :
      (t : Times) (m : Option Message) (a : Agent)
      → IsKnown a
      → Keeps (on_poll control_message t m a)
  on_control-Keeps t none a h = h
  on_control-Keeps t (some m) a h = control_message-Keeps t m a h

  on_routed-Keeps :
      (t : Times) (m : Option Message) (a : Agent)
      → IsFrom a m
      → IsKnown a
      → Keeps (on_poll route_message t m a)
  on_routed-Keeps t none a f h = h
  on_routed-Keeps t (some []) a f h = absurd f
  on_routed-Keeps t (some (ep ∷ m)) a f h = route_message-Keeps t ep m a f h

  on_control-IsFrom :
      (t : Times) (c m : Option Message) (a b : Agent)
      → on_poll control_message t c a ≡ ok b
      → IsFrom a m
      → IsFrom b m
  on_control-IsFrom t c none a b e f = tt
  on_control-IsFrom t c (some []) a b e f = f
  on_control-IsFrom t none (some (ep ∷ m)) a b e f = ground (arith, e, f)
  on_control-IsFrom t (some c) (some (ep ∷ m)) a b e f = contains-control t c a b ep e f

  round-Keeps : (r : Round) (a : Agent) → IsFrom a r.routed → IsKnown a → Keeps (round r a)
  unfolding round
  round-Keeps r a f h =
      bind-Keeps (on_poll control_message r.times r.control a) _
        (on_control-Keeps r.times r.control a h)
        (λ a₁ e₁ h₁.
          bind-Keeps (on_poll route_message r.times r.routed a₁) _
            (on_routed-Keeps r.times r.routed a₁
              (on_control-IsFrom r.times r.control r.routed a a₁ e₁ f) h₁)
            (λ a₂ e₂ h₂. let (b, (e, k)) = after_poll-ok r.readings a₂ h₂ in rw e k))

  run-Keeps : (rs : List Round) (a : Agent) → AllFrom rs a → IsKnown a → Keeps (run rs a)
  unfolding run
  run-Keeps [] a f h = h
  run-Keeps (r ∷ rs) a f h =
      bind-Keeps (round r a) (run rs) (round-Keeps r a f.0 h)
        (λ b e k. run-Keeps rs b (subst (After (AllFrom rs)) e f.1) k)

  -- However the agent is driven from its start, as long as each message of the router comes from a
  -- server that the agent has connected to: no look-up in the map of servers fails. The agent ends
  -- with every server under its own endpoint and a server for every active endpoint, or it fails in
  -- another way.
  pub run-new_agent-Keeps : (rs : List Round) → AllFrom rs new_agent → Keeps (run rs new_agent)
  run-new_agent-Keeps rs f = run-Keeps rs new_agent f (tt, tt)
