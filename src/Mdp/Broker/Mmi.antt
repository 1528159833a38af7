-- ===== src/Mdp/Broker/Mmi.antt =====
-- The management interface: what a client is told of a service.
use zero_mq_rfc_implementati.Base.{
  ℕ, suc, ◌≡◌, inl, inr, Bytes, ◌==◌, c_str, true, [], ◌∷◌, ◌++◌, if◌then◌else◌, arith, Bool-cases,
  ok, err, missing_part, leb,
}
use zero_mq_rfc_implementati.Base.Zmqpp.{
  Message, Zmqpp, push_front_eq, pop_front_eq, take_text-cons, take_text-nil,
}
use zero_mq_rfc_implementati.Base.Dict.{contains}
use zero_mq_rfc_implementati.Mdp.Protocol.{
  mdpc_client, mmi_service, mmi_found, mmi_not_found, mmi_not_implemented,
}
use zero_mq_rfc_implementati.Mdp.Registry.{Broker}
use zero_mq_rfc_implementati.Mdp.Broker.{client_envelope, service_internal}

pub some_parts : (n : ℕ) → leb 1 (suc n) ≡ true
some_parts n = ground arith

pub two_parts : (n : ℕ) → leb 2 (suc (suc n)) ≡ true
two_parts n = ground arith

module _ ⦃z : Zmqpp⦄ where
  pub client_envelope_lem :
      (client service : Bytes) (m : Message)
      → client_envelope client service m ≡ client ∷ [] ∷ mdpc_client ∷ service ∷ m
  unfolding client_envelope
  client_envelope_lem client service m = simp push_front_eq

  -- The body of a management reply.
  abbrev pub mmi_reply : Bytes → Bytes → Message → Broker → Message
  mmi_reply name f m b =
      if name == mmi_service
      then (if contains f b.services then mmi_found else mmi_not_found) ∷ m
      else mmi_not_implemented ∷ f ∷ m

  pub service_internal_lem :
      (name client f : Bytes) (m : Message) (b : Broker)
      → service_internal name (client ∷ [] ∷ f ∷ m) b
        ≡ ok (record b {
          sent = b.sent ++ (client ∷ [] ∷ mdpc_client ∷ c_str name ∷ mmi_reply name f m b) ∷ [];
        })
  unfolding service_internal
  service_internal_lem name client f m b = elim (Bool-cases (name == mmi_service)) [
    | inl e ↦
        rw (e, take_text-cons, pop_front_eq)
          (simp (take_text-cons, push_front_eq, client_envelope_lem))
    | inr e ↦ rw (e, take_text-cons, pop_front_eq) (simp (push_front_eq, client_envelope_lem))
  ]

  pub service_internal_short :
      (name client : Bytes) (b : Broker)
      → service_internal name (client ∷ [] ∷ []) b ≡ (
          if name == mmi_service
          then err missing_part
          else ok (record b {
            sent =
                b.sent ++ (client ∷ [] ∷ mdpc_client ∷ c_str name ∷ mmi_not_implemented ∷ []) ∷ [];
          }))
  unfolding service_internal
  service_internal_short name client b = elim (Bool-cases (name == mmi_service)) [
    | inl e ↦ rw (e, take_text-cons, pop_front_eq) (simp take_text-nil)
    | inr e ↦ rw (e, take_text-cons, pop_front_eq) (simp (push_front_eq, client_envelope_lem))
  ]
