-- ===== src/Mdp/Registry/Totals.antt =====
-- How many of the clients' requests there are: those that wait in services and those that have been
-- sent to workers.
use zero_mq_rfc_implementati.Base.{
  ℕ, ◌+◌, ◌≡◌, refl, inl, inr, Bytes, ◌==◌, c_str, Bool, none, some, List, [], ◌∷◌, ◌++◌, ◌&&◌,
  if◌then◌else◌, arith, Bool-cases,
}
use zero_mq_rfc_implementati.Base.Zmqpp.{Message, Zmqpp, push_front_eq}
use zero_mq_rfc_implementati.Base.Dict.{
  Dict, lookup, contains, insert, assign, map_values, contains-eq,
}
use zero_mq_rfc_implementati.Mdp.Protocol.{mdpw_worker, mdpc_client, request, heartbeat, disconnect}
use zero_mq_rfc_implementati.Mdp.Registry.{
  Service, Broker, delete_waiting_worker, service_require, worker_envelope,
}

module _ (p : Message → Bool) where
  abbrev pub weight : Message → ℕ
  weight m = if p m then 1 else 0

  -- How many messages of the list pass the test.
  abbrev pub tally : List Message → ℕ
  tally [] = 0
  tally (m ∷ ms) = weight m + tally ms

  -- A message to a worker with the command REQUEST carries what is behind its four frames.
  abbrev pub carried : Message → ℕ
  carried (i ∷ d ∷ h ∷ c ∷ m) = if (h == mdpw_worker) && (c == request) then weight m else 0
  carried _ = 0

  -- How many requests that pass the test were sent to workers.
  abbrev pub handed_over : List Message → ℕ
  handed_over [] = 0
  handed_over (m ∷ ms) = carried m + handed_over ms

  -- How many requests that pass the test wait in the services.
  abbrev pub pending : Dict Service → ℕ
  pending [] = 0
  pending ((k, s) ∷ ss) = tally s.requests + pending ss

  abbrev pub total : Broker → ℕ
  total b = handed_over b.sent + pending b.services

  pub tally-append : (xs ys : List Message) → tally (xs ++ ys) ≡ tally xs + tally ys
  tally-append [] ys = omega arith
  tally-append (x ∷ xs) ys = omega (arith, tally-append xs ys)

  pub handed_over-append :
      (xs ys : List Message) → handed_over (xs ++ ys) ≡ handed_over xs + handed_over ys
  handed_over-append [] ys = omega arith
  handed_over-append (x ∷ xs) ys = omega (arith, handed_over-append xs ys)

  pub pending-assign :
      (name : Bytes) (s s' : Service) (d : Dict Service)
      → lookup name d ≡ some s
      → pending (assign name s' d) + tally s.requests ≡ pending d + tally s'.requests
  unfolding lookup assign
  pending-assign name s s' [] e = cc
  pending-assign name s s' ((j, t) ∷ d) e = elim (Bool-cases (j == name)) [
    | inl same ↦ grind arith
    | inr other ↦ rw other (omega (arith, pending-assign name s s' d (ground arith)))
  ]

  pending-assign_new :
      (name : Bytes) (s : Service) (d : Dict Service)
      → lookup name d ≡ none
      → pending (assign name s d) ≡ pending d + tally s.requests
  unfolding lookup assign
  pending-assign_new name s [] e = omega arith
  pending-assign_new name s ((j, t) ∷ d) e = elim (Bool-cases (j == name)) [
    | inl same ↦ ground arith
    | inr other ↦ rw other (omega (arith, pending-assign_new name s d (ground arith)))
  ]

  pub pending-service_require :
      (name : Bytes) (b : Broker) → pending (service_require name b).services ≡ pending b.services
  unfolding service_require insert
  pending-service_require name b = elim (Bool-cases (contains name b.services)) [
    | inl old ↦ rw old refl
    | inr new ↦ rw new (
        omega (
          arith,
          pending-assign_new name _ b.services (ground (arith, contains-eq name b.services)),
        ))
  ]

  pub pending-delete :
      (i : Bytes) (d : Dict Service) → pending (map_values (delete_waiting_worker i) d) ≡ pending d
  unfolding map_values delete_waiting_worker
  pending-delete i [] = refl
  pending-delete i ((j, s) ∷ d) = omega (arith, pending-delete i d)

module _ ⦃z : Zmqpp⦄ (p : Message → Bool) where
  worker_envelope_lem :
      (i c : Bytes) (m : Message) → worker_envelope i c [] m ≡ i ∷ [] ∷ mdpw_worker ∷ c_str c ∷ m
  unfolding worker_envelope
  worker_envelope_lem i c m = simp push_front_eq

  pub carried-request :
      (i : Bytes) (m : Message) → carried p (worker_envelope i request [] m) ≡ weight p m
  unfolding c_str ◌==◌
  carried-request i m = rw worker_envelope_lem refl

  pub carried-heartbeat : (i : Bytes) → carried p (worker_envelope i heartbeat [] []) ≡ 0
  unfolding c_str ◌==◌
  carried-heartbeat i = rw worker_envelope_lem refl

  pub carried-disconnect : (i : Bytes) → carried p (worker_envelope i disconnect [] []) ≡ 0
  unfolding c_str ◌==◌
  carried-disconnect i = rw worker_envelope_lem refl

  pub carried-client : (c s : Bytes) (m : Message) → carried p (c ∷ [] ∷ mdpc_client ∷ s ∷ m) ≡ 0
  unfolding ◌==◌
  carried-client c s m = refl
