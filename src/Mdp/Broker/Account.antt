-- ===== src/Mdp/Broker/Account.antt =====
-- What the broker's operations do with the clients' requests, whatever state they start from: none is
-- lost or made up, and none waits beside a worker of its service.
pub mod Dispatched
pub mod Handled
use zero_mq_rfc_implementati.Base.{
  Post, Post-bind, Post-then, Post-mono, ℕ, zero, suc, ◌+◌, ◌≤◌, ◌≡◌, refl, inl, inr, Bytes, ◌==◌,
  Bool, ◌&&◌, false, Option, none, some, List, [], ◌∷◌, ◌++◌, arith, Bool-cases,
}
use zero_mq_rfc_implementati.Base.Zmqpp.{Message, Zmqpp}
use zero_mq_rfc_implementati.Base.Dict.{Dict, contains}
use zero_mq_rfc_implementati.Base.Dict.Entries.{
  Entries, IsMap, map_values-Entries, map_values-IsMap,
}
use zero_mq_rfc_implementati.Mdp.Protocol.{request, disconnect}
use zero_mq_rfc_implementati.Mdp.Registry.{
  Service, Broker, remove_all, delete_waiting_worker, remove_own, pop_request, worker_envelope,
  worker_send, worker_delete, delete_all, purge_workers, expired,
}
use zero_mq_rfc_implementati.Mdp.Registry.Known.{without}
use zero_mq_rfc_implementati.Mdp.Registry.Purge.{
  worker_send_lem, worker_delete-quiet, worker_delete-disconnect,
}
use zero_mq_rfc_implementati.Mdp.Registry.Totals.{
  tally, handed_over, total, handed_over-append, pending-delete, carried-request,
  carried-disconnect,
}
use zero_mq_rfc_implementati.Mdp.Broker.{min_element, some_left, can_dispatch, count, dispatch_loop}

abbrev exempt : Option Bytes → Bytes → Bool
exempt none k = false
exempt (some name) k = name == k

-- No request waits in the service while a worker waits in it, unless the service is the exempt one.
abbrev pub Idle : Option Bytes → Bytes → Service → Type 0
Idle o k s = exempt o k ≡ false → can_dispatch s ≡ false

-- No service stands twice, and only the exempt one may hold a request beside a waiting worker.
abbrev pub Settled : Option Bytes → Dict Service → Type 0
Settled o d = IsMap d × Entries (Idle o) d

remove_all-Idle :
    (i : Bytes) (xs : List Bytes) (ms : List Message)
    → some_left xs && some_left ms ≡ false
    → some_left (remove_all i xs) && some_left ms ≡ false
unfolding remove_all
remove_all-Idle i [] ms h = refl
remove_all-Idle i (x ∷ xs) [] h = ground arith
remove_all-Idle i (x ∷ xs) (m ∷ ms) h = cc

delete-Idle :
    (i : Bytes) (s : Service)
    → can_dispatch s ≡ false
    → can_dispatch (delete_waiting_worker i s) ≡ false
unfolding delete_waiting_worker
delete-Idle i s h = remove_all-Idle i s.waiting_workers s.requests h

module _ ⦃z : Zmqpp⦄ (p : Message → Bool) where
  -- The first of the two brokers settled but for `o`, the second is but for `o'`; and the requests
  -- that pass the test have become `n` more.
  abbrev pub Moves : Option Bytes → Option Bytes → ℕ → Broker → Broker → Type 0
  Moves o o' n b b' = (Settled o b.services → Settled o' b'.services) × (total p b' ≡ total p b + n)

  pub Moves-trans :
      (o o' o'' : Option Bytes) (m n : ℕ) (a b c : Broker)
      → Moves o o' m a b
      → Moves o' o'' n b c
      → Moves o o'' (m + n) a c
  Moves-trans o o' o'' m n a b c x y = ((λ h. y.0 (x.0 h)), omega (arith, x.1, y.1))

  without-Moves : (o : Option Bytes) (i : Bytes) (b : Broker) → Moves o o 0 b (without i b)
  without-Moves o i b = (
    (λ h. (
      map_values-IsMap _ b.services h.0,
      map_values-Entries (Idle o) (Idle o) _ b.services (λ k s q e. delete-Idle i s (q e)) h.1,
    )),
    omega (arith, pending-delete p i b.services),
  )

  disconnect-Moves :
      (o : Option Bytes) (i : Bytes) (b : Broker)
      → Moves o o 0 b (record b { sent = b.sent ++ worker_envelope i disconnect [] [] ∷ [] })
  disconnect-Moves o i b = (
    (λ h. h),
    omega (
      arith,
      handed_over-append p b.sent (worker_envelope i disconnect [] [] ∷ []),
      carried-disconnect p i,
    ),
  )

  pub worker_delete-Moves :
      (o : Option Bytes) (i : Bytes) (d : Bool) (b : Broker)
      → Post (Moves o o 0 b) (worker_delete i d b)
  worker_delete-Moves o i d b = elim (Bool-cases (contains i b.workers)) [
    | inr new ↦ unfold worker_delete in rw new tt
    | inl old ↦ elim (Bool-cases d) [
      | inl loud ↦
          rw (loud, worker_delete-disconnect i b old)
            (let b' : Broker = record b {
              sent = b.sent ++ worker_envelope i disconnect [] [] ∷ [];
            } in
              Moves-trans o o o 0 0 b b' (without i b') (disconnect-Moves o i b)
                (without-Moves o i b'))
      | inr quiet ↦ rw (quiet, worker_delete-quiet i b old) (without-Moves o i b)
    ]
  ]

  pub delete_all-Moves :
      (o : Option Bytes) (is : List Bytes) (b : Broker) → Post (Moves o o 0 b) (delete_all is b)
  unfolding delete_all
  delete_all-Moves o [] b = ((λ h. h), omega arith)
  delete_all-Moves o (i ∷ is) b =
      Post-then (Moves o o 0 b) (Moves o o 0 b) (worker_delete i false b) (delete_all is)
        (worker_delete-Moves o i false b)
        (λ b' m.
          Post-mono (Moves o o 0 b') (Moves o o 0 b) (delete_all is b')
            (λ c m'. Moves-trans o o o 0 0 b b' c m m') (delete_all-Moves o is b'))

  pub purge_workers-Moves :
      (o : Option Bytes) (now : ℕ) (b : Broker) → Post (Moves o o 0 b) (purge_workers now b)
  unfolding purge_workers
  purge_workers-Moves o now b = delete_all-Moves o (expired now b.workers) b

  -- What the loop leaves of a service and a broker.
  abbrev pub Handed : Service → Broker → Service × Broker → Type 0
  Handed s b (s', b') =
      (can_dispatch s' ≡ false)
      × (b'.services ≡ b.services)
      × (handed_over p b'.sent + tally p s'.requests ≡ handed_over p b.sent + tally p s.requests)

  -- The loop loses no request and makes none up, and leaves none beside a waiting worker.
  pub dispatch_loop-Handed :
      (n : ℕ) (name : Bytes) (xs : List Bytes) (ms : List Message) (b : Broker)
      → count ms ≤ n
      → let s : Service = record { name = name; waiting_workers = xs; requests = ms } in
        Post (Handed s b) (dispatch_loop n s b)
  unfolding dispatch_loop pop_request
  dispatch_loop-Handed zero name [] ms b h = (refl, refl, refl)
  dispatch_loop-Handed zero name (x ∷ xs) [] b h = (refl, refl, refl)
  dispatch_loop-Handed zero name (x ∷ xs) (m ∷ ms) b h = absurd (omega arith)
  dispatch_loop-Handed (suc n) name [] ms b h = (refl, refl, refl)
  dispatch_loop-Handed (suc n) name (x ∷ xs) [] b h = (refl, refl, refl)
  dispatch_loop-Handed (suc n) name (x ∷ xs) (m ∷ ms) b h =
      Post-bind _ (min_element b.workers (x ∷ xs)) _ (λ (place, i) e.
        elim (Bool-cases (contains i b.workers)) [
          | inr new ↦ unfold worker_send in rw new tt
          | inl old ↦ rw (worker_send_lem i request [] m b old) (
              Post-mono _ _ (dispatch_loop n _ _)
                (λ (s', b') (c, v, t). (
                  c,
                  v,
                  omega (
                    arith,
                    t,
                    handed_over-append p b.sent (worker_envelope i request [] m ∷ []),
                    carried-request p i m,
                  ),
                ))
                (dispatch_loop-Handed n name (remove_own i (some place) (x ∷ xs)) ms
                  (record b { sent = b.sent ++ worker_envelope i request [] m ∷ [] })
                  (omega arith)))
        ])
