-- ===== src/Flp/Agent/Dispatch.antt =====
-- 10.FLP-Freelance Protocol/client/flcliapi.cpp: what `run` does after a poll keeps the servers of
-- the active endpoints.
use zero_mq_rfc_implementati.Base.{
  ℕ, suc, Bytes, codes, ◌==◌, false, none, some, List, [], ◌∷◌, ◌++◌, ltb, if◌then◌else◌, ok, ◌≡◌,
  refl, ◌∙◌, arith, All, All-mono, Bool-cases, Option-cases, inl, inr,
}
use zero_mq_rfc_implementati.Base.Zmqpp.{Message, Zmqpp, push_front}
use zero_mq_rfc_implementati.Base.Dict.{Dict, lookup, assign, contains}
use zero_mq_rfc_implementati.Base.Dict.Entries.{Entries, lookup-Entries, lookup_of_contains}
use zero_mq_rfc_implementati.Flp.Agent.{
  Server, Agent, find_server, dispatch_request, ping, ping_all, Readings, after_poll,
}
use zero_mq_rfc_implementati.Flp.Agent.Known.{Named, Known, IsKnown, assign-Named, All-Known-assign}

module _ ⦃z : Zmqpp⦄ where
  pub find_server-cons :
      (clock : ℕ → ℕ) (n : ℕ) (req : Message) (ep : Bytes) (eps : List Bytes) (a : Agent)
      (srv : Server)
      → lookup ep a.servers ≡ some srv
      → find_server clock n req (ep ∷ eps) a ≡ (
          if ltb srv.expiry (clock n)
          then find_server clock
              (suc n)
              req
              eps
              (record a { servers = assign ep (record srv { alive = false }) a.servers })
          else ok (record a {
            actives = ep ∷ eps;
            to_router = a.to_router ++ push_front req srv.endpoint ∷ [];
          }))
  unfolding find_server
  find_server-cons clock n req ep eps a srv e = ground (arith, e)

  find_server-ok :
      (clock : ℕ → ℕ) (n : ℕ) (req : Message) (eps : List Bytes) (a : Agent)
      → Entries Named a.servers
      → All (Known a.servers) eps
      → (b : Agent) × (find_server clock n req eps a ≡ ok b) × IsKnown b
  unfolding find_server
  find_server-ok clock n req [] a hs he = (record a { actives = [] }, refl, (hs, tt))
  find_server-ok clock n req (ep ∷ eps) a hs he =
      let (srv, e) = lookup_of_contains ep a.servers he.0 in
      rw (find_server-cons clock n req ep eps a srv e)
        (elim (Bool-cases (ltb srv.expiry (clock n))) [
          | inl late ↦
              let b = record a { servers = assign ep (record srv { alive = false }) a.servers } in
              let rest =
                find_server-ok clock (suc n) req eps b
                  (assign-Named ep (record srv { alive = false }) a.servers
                    (lookup-Entries Named ep a.servers hs e) hs)
                  (All-Known-assign ep (record srv { alive = false }) a.servers eps he.1) in
              rw late rest
          | inr early ↦ rw early (
            record a {
              actives = ep ∷ eps;
              to_router = a.to_router ++ push_front req srv.endpoint ∷ [];
            },
            refl,
            (hs, he),
          )
        ])

  pub dispatch_request-eq :
      (now : ℕ) (clock : ℕ → ℕ) (a : Agent)
      → ((a.request ≡ none) → dispatch_request now clock a ≡ ok a)
        × ((req : Message)
            → a.request ≡ some req
            → dispatch_request now clock a ≡ (
                if ltb a.expiry now
                then ok
                    (record a { to_pipe = a.to_pipe ++ (codes "FAILED" ∷ []) ∷ []; request = none })
                else find_server clock 0 req a.actives a))
  unfolding dispatch_request
  dispatch_request-eq now clock a = (λ e. ground (arith, e), λ req e. ground (arith, e))

  dispatch_request-ok :
      (now : ℕ) (clock : ℕ → ℕ) (a : Agent)
      → IsKnown a
      → (b : Agent) × ((dispatch_request now clock a ≡ ok b) × IsKnown b)
  dispatch_request-ok now clock a h = elim (Option-cases a.request) [
    | inl idle ↦ (a, ((dispatch_request-eq now clock a).0 idle, h))
    | inr (req, e) ↦
        let eq = (dispatch_request-eq now clock a).1 req e in
        elim (Bool-cases (ltb a.expiry now)) [
          | inl late ↦ (
            record a { to_pipe = a.to_pipe ++ (codes "FAILED" ∷ []) ∷ []; request = none },
            (eq ∙ rw late refl, h),
          )
          | inr early ↦
              let (b, r, k) = find_server-ok clock 0 req a.actives a h.0 h.1 in
              (b, (eq ∙ rw early r, k))
        ]
  ]

  ping-Named : (i j : ℕ) (k : Bytes) (s : Server) → Named k s → Named k (ping i j s).1
  unfolding ping
  ping-Named i j k s h = ground (arith, h)

  ping_all-Named :
      (clock : ℕ → ℕ × ℕ) (n : ℕ) (d : Dict Server)
      → Entries Named d
      → Entries Named (ping_all clock n d).1
  unfolding ping_all
  ping_all-Named clock n [] h = tt
  ping_all-Named clock n ((k, s) ∷ d) h =
      (ping-Named (clock n).0 (clock n).1 k s h.0, ping_all-Named clock (suc n) d h.1)

  contains-ping_all :
      (clock : ℕ → ℕ × ℕ) (n : ℕ) (d : Dict Server) (j : Bytes)
      → contains j (ping_all clock n d).1 ≡ contains j d
  unfolding ping_all contains lookup
  contains-ping_all clock n [] j = refl
  contains-ping_all clock n ((k, s) ∷ d) j = elim (Bool-cases (k == j)) [
    | inl same ↦ rw same refl
    | inr other ↦ rw other (contains-ping_all clock (suc n) d j)
  ]

  pub after_poll-ok :
      (t : Readings) (a : Agent) → IsKnown a → (b : Agent) × ((after_poll t a ≡ ok b) × IsKnown b)
  unfolding after_poll
  after_poll-ok t a h =
      let (b, (e, k)) = dispatch_request-ok t.tested_at t.expired_at a h in
      let pinged = ping_all t.pinged_at 0 b.servers in
      rw e (
        record b { to_router = b.to_router ++ pinged.0; servers = pinged.1 },
        (
          refl,
          (
            ping_all-Named t.pinged_at 0 b.servers k.0,
            All-mono (Known b.servers) (Known pinged.1) b.actives
                (λ ep h. contains-ping_all t.pinged_at 0 b.servers ep ∙ h) k.1,
          ),
        ),
      )
