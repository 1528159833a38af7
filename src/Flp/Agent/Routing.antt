-- ===== src/Flp/Agent/Routing.antt =====
-- 10.FLP-Freelance Protocol/client/flcliapi.cpp: where the agent sends a request.
use zero_mq_rfc_implementati.Base.{
  ℕ, suc, ◌+◌, ◌≤◌, Bytes, ==_iff, Bool, true, false, Option, none, some, List, [], ◌∷◌, ◌++◌, ltb,
  ok, ◌≡◌, refl, ◌∙◌, ap, arith, le→ltb,
}
use zero_mq_rfc_implementati.Base.Zmqpp.{Message, Zmqpp, push_front, push_front_eq}
use zero_mq_rfc_implementati.Base.Dict.{Dict, lookup, assign, contains, lookup-assign}
use zero_mq_rfc_implementati.Base.Dict.Entries.{
  Entries, lookup-Entries, contains-assign, lookup_of_contains,
}
use zero_mq_rfc_implementati.Flp.Agent.{Server, Agent, find_server, dispatch_request}
use zero_mq_rfc_implementati.Flp.Agent.Known.{Named, IsKnown, assign-Named}
use zero_mq_rfc_implementati.Flp.Agent.Dispatch.{find_server-cons, dispatch_request-eq}
use zero_mq_rfc_implementati.Base.{length}

-- The server's expiry is before the time.
abbrev late_at : Option Server → ℕ → Bool
late_at none t = false
late_at (some s) t = ltb s.expiry t

abbrev pub is_late : Dict Server → Bytes → ℕ → Bool
is_late d ep t = late_at (lookup ep d) t

-- Each endpoint's server is late at the reading of its round.
abbrev pub AllLate : Dict Server → (ℕ → ℕ) → ℕ → List Bytes → Type 0
AllLate d clock n [] = Unit {0}
AllLate d clock n (ep ∷ eps) = (is_late d ep (clock n) ≡ true) × AllLate d clock (suc n) eps

is_late-assign :
    (ep j : Bytes) (srv : Server) (d : Dict Server) (t : ℕ)
    → lookup ep d ≡ some srv
    → is_late (assign ep (record srv { alive = false }) d) j t ≡ is_late d j t
is_late-assign ep j srv d t e =
    ground (arith, e, ==_iff ep j, lookup-assign ep j (record srv { alive = false }) d)

AllLate-assign :
    (ep : Bytes) (srv : Server) (d : Dict Server) (clock : ℕ → ℕ) (n : ℕ) (eps : List Bytes)
    → lookup ep d ≡ some srv
    → AllLate d clock n eps
    → AllLate (assign ep (record srv { alive = false }) d) clock n eps
AllLate-assign ep srv d clock n [] e h = tt
AllLate-assign ep srv d clock n (j ∷ eps) e h =
    (is_late-assign ep j srv d (clock n) e ∙ h.0, AllLate-assign ep srv d clock (suc n) eps e h.1)

late_server :
    (ep : Bytes) (d : Dict Server) (t : ℕ)
    → is_late d ep t ≡ true
    → (srv : Server) × (lookup ep d ≡ some srv)
late_server ep d t h = ground arith

module _ ⦃z : Zmqpp⦄ where
  find_server-first :
      (clock : ℕ → ℕ) (n : ℕ) (req : Message) (dead eps : List Bytes) (ep : Bytes) (a : Agent)
      → Entries Named a.servers
      → AllLate a.servers clock n dead
      → contains ep a.servers ≡ true
      → is_late a.servers ep (clock (n + length dead)) ≡ false
      → (b : Agent) × (find_server clock n req (dead ++ ep ∷ eps) a ≡ ok b)
        × (b.actives ≡ ep ∷ eps)
        × (b.to_router ≡ a.to_router ++ (ep ∷ req) ∷ [])
        × (b.request ≡ a.request)
        × (b.to_pipe ≡ a.to_pipe)
        × (b.seq ≡ a.seq)
        × (contains ep b.servers ≡ true)
  find_server-first clock n req [] eps ep a hs hd he hl =
      let (srv, e) = lookup_of_contains ep a.servers he in
      let here : n + 0 ≡ n = omega arith in
      let early : ltb srv.expiry (clock n) ≡ false = ground (arith, e, hl, ap clock here) in
      let named : push_front req srv.endpoint ≡ ep ∷ req =
        push_front_eq req srv.endpoint
        ∙ ap (λ k. k ∷ req) (lookup-Entries Named ep a.servers hs e) in
      rw (find_server-cons clock n req ep eps a srv e, early)
        (
          record a {
            actives = ep ∷ eps;
            to_router = a.to_router ++ push_front req srv.endpoint ∷ [];
          },
          refl,
          refl,
          ap (λ m. a.to_router ++ m ∷ []) named,
          refl,
          refl,
          refl,
          he,
        )
  find_server-first clock n req (d ∷ dead) eps ep a hs hd he hl =
      let (srv, e) = late_server d a.servers (clock n) hd.0 in
      let next : n + length (d ∷ dead) ≡ suc n + length dead = omega arith in
      let late : ltb srv.expiry (clock n) ≡ true = ground (arith, e, hd.0) in
      let s = record srv { alive = false } in
      rw (find_server-cons clock n req d (dead ++ ep ∷ eps) a srv e, late)
        (find_server-first clock (suc n) req dead eps ep
          (record a { servers = assign d s a.servers })
          (assign-Named d s a.servers (lookup-Entries Named d a.servers hs e) hs)
          (AllLate-assign d srv a.servers clock (suc n) dead e hd.1)
          (contains-assign d ep s a.servers he)
          (is_late-assign d ep srv a.servers (clock (suc n + length dead)) e
            ∙ ground (arith, hl, ap clock next)))

  -- An agent with a request that has not expired, where the servers of the first active endpoints
  -- have expired and the server of the endpoint behind them has not: the request goes to that
  -- endpoint, which is the first active one from then on, and the agent keeps the request and its number.
  pub dispatch_request-first :
      (now : ℕ) (clock : ℕ → ℕ) (req : Message) (dead eps : List Bytes) (ep : Bytes) (a : Agent)
      → IsKnown a
      → a.request ≡ some req
      → now ≤ a.expiry
      → a.actives ≡ dead ++ ep ∷ eps
      → AllLate a.servers clock 0 dead
      → contains ep a.servers ≡ true
      → is_late a.servers ep (clock (length dead)) ≡ false
      → (b : Agent) × (dispatch_request now clock a ≡ ok b)
        × (b.actives ≡ ep ∷ eps)
        × (b.to_router ≡ a.to_router ++ (ep ∷ req) ∷ [])
        × (b.request ≡ some req)
        × (b.to_pipe ≡ a.to_pipe)
        × (b.seq ≡ a.seq)
        × (contains ep b.servers ≡ true)
  dispatch_request-first now clock req dead eps ep a hk hr hn ha hd he hl =
      let start : 0 + length dead ≡ length dead = omega arith in
      let (b, e, acts, sent, r, p, n, k) =
        find_server-first clock 0 req dead eps ep a hk.0 hd he
          (ap (λ t. is_late a.servers ep (clock t)) start ∙ hl) in
      (
        b,
        (dispatch_request-eq now clock a).1 req hr
            ∙ rw (le→ltb a.expiry now hn) (ap (λ es. find_server clock 0 req es a) ha ∙ e),
        acts,
        sent,
        r ∙ hr,
        p,
        n,
        k,
      )
