-- ===== src/Mdp/Broker/Account/Dispatched.antt =====
-- The clients' requests in `service_dispatch` and `worker_waiting`.
use zero_mq_rfc_implementati.Base.{
  Post, Post-bind, Post-then, Post-mono, ℕ, ◌+◌, ◌≡◌, refl, inl, inr, Bytes, ◌==◌, ==_refl, ==_iff,
  Bool, false, Option, none, some, [], ◌∷◌, arith, subst, Bool-cases, ok, ◌>>=◌, or_fault,
  out_of_range,
}
use zero_mq_rfc_implementati.Base.Zmqpp.{Message, Zmqpp}
use zero_mq_rfc_implementati.Base.Dict.{Dict, lookup, assign}
use zero_mq_rfc_implementati.Base.Dict.Entries.{
  Entries, IsMap, Entries-mono, assign-Entries, insert-Entries, assign-IsMap, insert-IsMap,
}
use zero_mq_rfc_implementati.Mdp.Registry.{
  Service, Broker, update_expiry, add_waiting_worker, push_request, service_require, purge_workers,
}
use zero_mq_rfc_implementati.Mdp.Registry.Totals.{
  weight, tally, handed_over, tally-append, pending-assign, pending-service_require,
}
use zero_mq_rfc_implementati.Mdp.Broker.{
  can_dispatch, count, dispatch_loop, queue_request, service_dispatch, worker_waiting,
}
use zero_mq_rfc_implementati.Mdp.Broker.Account.{
  Idle, Settled, Moves, Handed, purge_workers-Moves, dispatch_loop-Handed,
}

pub or_fault-ok {ℓ} :
    {A : Type ℓ} (o : Option A) (a : A) → or_fault o out_of_range ≡ ok a → o ≡ some a
or_fault-ok none a e = cc
or_fault-ok (some b) a e = cc

assign-exempt :
    (name : Bytes) (s : Service) (d : Dict Service)
    → Settled (some name) d
    → Settled (some name) (assign name s d)
assign-exempt name s d h = (
  assign-IsMap name s d h.0,
  assign-Entries (Idle (some name)) name s d (λ e. absurd (ground (arith, ==_refl name))) h.1,
)

exempts_none :
    (name : Bytes) (d : Dict Service)
    → lookup name d ≡ none
    → Entries (Idle (some name)) d
    → Entries (Idle none) d
unfolding lookup
exempts_none name [] e h = tt
exempts_none name ((j, t) ∷ d) e h = elim (Bool-cases (j == name)) [
  | inl same ↦ ground arith
  | inr other ↦ (
    (λ q. h.0 (ground (arith, ==_iff j name, ==_iff name j))),
    exempts_none name d (ground arith) h.1,
  )
]

assign-Idle :
    (name : Bytes) (s : Service) (d : Dict Service)
    → can_dispatch s ≡ false
    → IsMap d
    → Entries (Idle (some name)) d
    → Entries (Idle none) (assign name s d)
unfolding assign
assign-Idle name s [] c m h = ((λ e. c), tt)
assign-Idle name s ((j, t) ∷ d) c m h = elim (Bool-cases (j == name)) [
  | inl same ↦ rw same (
    (λ e. c),
    exempts_none name d (subst (λ k. lookup k d ≡ none) ((==_iff j name).0 same) m.0) h.1,
  )
  | inr other ↦
      rw other
        ((λ e. h.0 (ground (arith, ==_iff j name, ==_iff name j))), assign-Idle name s d c m.1 h.1)
]

assign-Settled :
    (name : Bytes) (s : Service) (d : Dict Service)
    → can_dispatch s ≡ false
    → Settled (some name) d
    → Settled none (assign name s d)
assign-Settled name s d c h = (assign-IsMap name s d h.0, assign-Idle name s d c h.0 h.1)

pub except : (name : Bytes) (d : Dict Service) → Settled none d → Settled (some name) d
except name d h = (h.0, Entries-mono (Idle none) (Idle (some name)) d (λ k s q e. q refl) h.1)

service_require-Settled :
    (name : Bytes) (b : Broker)
    → Settled none b.services
    → Settled none (service_require name b).services
unfolding service_require
service_require-Settled name b h = (
  insert-IsMap name _ b.services h.0,
  insert-Entries (Idle none) name _ b.services (λ e. refl) h.1,
)

module _ ⦃z : Zmqpp⦄ (p : Message → Bool) where
  abbrev pub weight_of : Option Message → ℕ
  weight_of none = 0
  weight_of (some m) = weight p m

  service_require-handed_over :
      (name : Bytes) (b : Broker)
      → handed_over p (service_require name b).sent ≡ handed_over p b.sent
  unfolding service_require
  service_require-handed_over name b = refl

  pub service_require-Moves :
      (name : Bytes) (b : Broker) → Moves p none none 0 b (service_require name b)
  service_require-Moves name b = (
    service_require-Settled name b,
    omega (arith, pending-service_require p name b, service_require-handed_over name b),
  )

  tally-queue_request :
      (m : Option Message) (s : Service)
      → tally p (queue_request m s).requests ≡ tally p s.requests + weight_of m
  unfolding push_request
  tally-queue_request none s = omega arith
  tally-queue_request (some m) s = omega (arith, tally-append p s.requests (m ∷ []))

  -- A service is replaced by one with `n` more requests.
  assign-Moves :
      (name : Bytes) (s s' : Service) (n : ℕ) (b : Broker)
      → lookup name b.services ≡ some s
      → tally p s'.requests ≡ tally p s.requests + n
      → Moves p (some name) (some name) n b (record b { services = assign name s' b.services })
  assign-Moves name s s' n b e t =
      (assign-exempt name s' b.services, omega (arith, pending-assign p name s s' b.services e))

  dispatch_stored-Moves :
      (name : Bytes) (b : Broker)
      → Post (Moves p (some name) none 0 b) (do
        s₁ ← or_fault (lookup name b.services) out_of_range
        (s₂, b₂) ← dispatch_loop (count s₁.requests) s₁ b
        ok (record b₂ { services = assign name s₂ b₂.services }))
  dispatch_stored-Moves name b =
      Post-bind _ (or_fault (lookup name b.services) out_of_range) _ (λ s e.
        Post-then (Handed p s b) _ (dispatch_loop (count s.requests) s b) _
          (dispatch_loop-Handed p (count s.requests) s.name s.waiting_workers s.requests b
            (omega arith))
          (λ (s', b') (c, v, t). (
            (λ h. rw v (assign-Settled name s' b.services c h)),
            rw v (
                omega (
                  arith,
                  t,
                  pending-assign p name s s' b.services (or_fault-ok (lookup name b.services) s e),
                )),
          )))

  pub service_dispatch-Moves :
      (now : ℕ) (name : Bytes) (m : Option Message) (b : Broker)
      → Post (Moves p (some name) none (weight_of m) b) (service_dispatch now name m b)
  unfolding service_dispatch
  service_dispatch-Moves now name m b =
      Post-bind _ (or_fault (lookup name b.services) out_of_range) _ (λ s e.
        let b₀ : Broker = record b { services = assign name (queue_request m s) b.services } in
        let a : Moves p (some name) (some name) (weight_of m) b b₀ =
          assign-Moves name s (queue_request m s) (weight_of m) b
            (or_fault-ok (lookup name b.services) s e) (tally-queue_request m s) in
        Post-then (Moves p (some name) (some name) 0 b₀) _ (purge_workers now b₀) _
          (purge_workers-Moves p (some name) now b₀)
          (λ b₁ q.
            Post-mono (Moves p (some name) none 0 b₁) _ _
              (λ b₂ r. ((λ h. r.0 (q.0 (a.0 h))), omega (arith, a.1, q.1, r.1)))
              (dispatch_stored-Moves name b₁)))

  pub worker_waiting-Moves :
      (t u : ℕ) (key : Bytes) (b : Broker) → Post (Moves p none none 0 b) (worker_waiting t u key b)
  unfolding worker_waiting
  worker_waiting-Moves t u key b =
      Post-bind _ (or_fault (lookup key b.workers) out_of_range) _ (λ w e.
        let name = w.service_name in
        let b₀ : Broker = record b { workers = assign key (update_expiry t w) b.workers } in
        let b₁ : Broker = service_require name b₀ in
        let q : Moves p none none 0 b₀ b₁ = service_require-Moves name b₀ in
        Post-bind _ (or_fault (lookup name b₁.services) out_of_range) _ (λ s e₁.
          let s' : Service = add_waiting_worker w.identity s in
          let b₂ : Broker = record b₁ { services = assign name s' b₁.services } in
          let a : Moves p (some name) (some name) 0 b₁ b₂ =
            assign-Moves name s s' 0 b₁ (or_fault-ok (lookup name b₁.services) s e₁)
              (unfold add_waiting_worker in omega arith) in
          Post-mono (Moves p (some name) none 0 b₂) _ _
            (λ b₃ r.
              ((λ h. r.0 (a.0 (except name b₁.services (q.0 h)))), omega (arith, a.1, r.1, q.1)))
            (service_dispatch-Moves u name none b₂)))
