-- ===== src/Mdp/Broker/Dispatch.antt =====
-- Which worker gets which request.
use zero_mq_rfc_implementati.Base.{
  ℕ, zero, suc, ◌≤◌, ◌≡◌, refl, ◌∙◌, Bytes, false, some, List, [], ◌∷◌, ◌++◌, All, arith, Result,
  ok,
}
use zero_mq_rfc_implementati.Base.Zmqpp.{Message, Zmqpp}
use zero_mq_rfc_implementati.Base.Dict.{Dict}
use zero_mq_rfc_implementati.Base.Dict.Entries.{lookup_of_contains}
use zero_mq_rfc_implementati.Mdp.Protocol.{request}
use zero_mq_rfc_implementati.Mdp.Registry.{
  Worker, Service, Broker, remove_own, pop_request, worker_envelope,
}
use zero_mq_rfc_implementati.Mdp.Registry.Known.{IsWorker, Distinct}
use zero_mq_rfc_implementati.Mdp.Registry.Purge.{worker_send_lem}
use zero_mq_rfc_implementati.Mdp.Registry.Erase.{remove_own-head, remove_own-All}
use zero_mq_rfc_implementati.Mdp.Broker.{
  earlier, min_from, min_element, dispatch_loop, can_dispatch, count,
}

earlier_never : (ws : Dict Worker) (a b : Bytes) → IsWorker ws a → earlier ws a b ≡ ok false
unfolding earlier
earlier_never ws a b h = ground (arith, lookup_of_contains a ws h)

min_from-first :
    (ws : Dict Worker) (i : ℕ) (x : Bytes) (n : ℕ) (ys : List Bytes)
    → All (IsWorker ws) ys
    → min_from ws i x n ys ≡ ok (i, x)
unfolding min_from
min_from-first ws i x n [] h = refl
min_from-first ws i x n (y ∷ ys) h =
    rw (earlier_never ws y x h.0) (min_from-first ws i x (suc n) ys h.1)

-- The comparison reads one worker twice and never holds, so the first waiting worker is chosen,
-- whatever the workers' times.
pub min_element-first :
    (ws : Dict Worker) (x : Bytes) (xs : List Bytes)
    → All (IsWorker ws) xs
    → min_element ws (x ∷ xs) ≡ ok (0, x)
unfolding min_element
min_element-first ws x xs h = min_from-first ws 0 x 1 xs h

module _ ⦃z : Zmqpp⦄ where
  abbrev pub handed : List Bytes → List Message → List Message → List Message
  handed [] ms sent = sent
  handed (x ∷ xs) [] sent = sent
  handed (x ∷ xs) (m ∷ ms) sent = handed xs ms (sent ++ worker_envelope x request [] m ∷ [])

  abbrev pub left_workers : List Bytes → List Message → List Bytes
  left_workers [] ms = []
  left_workers (x ∷ xs) [] = x ∷ xs
  left_workers (x ∷ xs) (m ∷ ms) = left_workers xs ms

  abbrev pub left_requests : List Bytes → List Message → List Message
  left_requests [] ms = ms
  left_requests (x ∷ xs) [] = []
  left_requests (x ∷ xs) (m ∷ ms) = left_requests xs ms

  dispatch_round :
      (n : ℕ) (name x : Bytes) (xs : List Bytes) (m : Message) (ms : List Message) (b : Broker)
      → All (IsWorker b.workers) (x ∷ xs)
      → dispatch_loop
          (suc n)
          (record { name = name; waiting_workers = x ∷ xs; requests = m ∷ ms })
          b
        ≡ dispatch_loop n
            (record {
              name = name;
              waiting_workers = remove_own x (some 0) (x ∷ xs);
              requests = ms;
            })
            (record b { sent = b.sent ++ worker_envelope x request [] m ∷ [] })
  unfolding dispatch_loop pop_request
  dispatch_round n name x xs m ms b h =
      rw (min_element-first b.workers x xs h.1, worker_send_lem x request [] m b h.0)

  -- With as many rounds as there are requests, and waiting workers that are registered and wait once
  -- each: the loop gives the requests, in their order, to the workers in the order in which they began to
  -- wait, one each, as REQUEST messages. What is left over of either keeps waiting.
  pub dispatch_loop-Distinct :
      (n : ℕ) (name : Bytes) (xs : List Bytes) (ms : List Message) (b : Broker)
      → count ms ≤ n
      → Distinct xs
      → All (IsWorker b.workers) xs
      → dispatch_loop n (record { name = name; waiting_workers = xs; requests = ms }) b
        ≡ ok (
          record {
            name = name;
            waiting_workers = left_workers xs ms;
            requests = left_requests xs ms;
          },
          record b { sent = handed xs ms b.sent },
        )
  dispatch_loop-Distinct zero name [] ms b f d h = unfold dispatch_loop in refl
  dispatch_loop-Distinct zero name (x ∷ xs) [] b f d h = unfold dispatch_loop in refl
  dispatch_loop-Distinct zero name (x ∷ xs) (m ∷ ms) b f d h = absurd (omega arith)
  dispatch_loop-Distinct (suc n) name [] ms b f d h = unfold dispatch_loop in refl
  dispatch_loop-Distinct (suc n) name (x ∷ xs) [] b f d h = unfold dispatch_loop in refl
  dispatch_loop-Distinct (suc n) name (x ∷ xs) (m ∷ ms) b f d h =
      dispatch_round n name x xs m ms b h
      ∙ rw (remove_own-head x xs d) (
          dispatch_loop-Distinct n name xs ms
            (record b { sent = b.sent ++ worker_envelope x request [] m ∷ [] }) (omega arith) d.1
            h.1)

  -- What the loop leaves.
  abbrev pub Finished : Broker → Result (Service × Broker) → Type 0
  Finished b r =
      (s' : Service) × (b' : Broker) × (r ≡ ok (s', b'))
      × (b'.workers ≡ b.workers)
      × (b'.services ≡ b.services)
      × All (IsWorker b.workers) s'.waiting_workers
      × (can_dispatch s' ≡ false)

  no_workers :
      (n : ℕ) (name : Bytes) (ms : List Message) (b : Broker)
      → Finished b (dispatch_loop n (record { name = name; waiting_workers = []; requests = ms }) b)
  unfolding dispatch_loop
  no_workers zero name ms b =
      (record { name = name; waiting_workers = []; requests = ms }, b, refl, refl, refl, tt, refl)
  no_workers (suc n) name ms b =
      (record { name = name; waiting_workers = []; requests = ms }, b, refl, refl, refl, tt, refl)

  no_requests :
      (n : ℕ) (name x : Bytes) (xs : List Bytes) (b : Broker)
      → All (IsWorker b.workers) (x ∷ xs)
      → Finished b
          (dispatch_loop n (record { name = name; waiting_workers = x ∷ xs; requests = [] }) b)
  unfolding dispatch_loop
  no_requests zero name x xs b h = (
    record { name = name; waiting_workers = x ∷ xs; requests = [] },
    b,
    refl,
    refl,
    refl,
    h,
    refl,
  )
  no_requests (suc n) name x xs b h = (
    record { name = name; waiting_workers = x ∷ xs; requests = [] },
    b,
    refl,
    refl,
    refl,
    h,
    refl,
  )

  -- With as many rounds as there are requests, and waiting workers that are registered, though they may
  -- wait more than once: the loop never fails. It changes no worker and no other service, and leaves
  -- nothing that could be handed out, and only registered workers waiting.
  pub dispatch_loop-total :
      (n : ℕ) (name : Bytes) (xs : List Bytes) (ms : List Message) (b : Broker)
      → count ms ≤ n
      → All (IsWorker b.workers) xs
      → Finished b (dispatch_loop n (record { name = name; waiting_workers = xs; requests = ms }) b)
  dispatch_loop-total zero name [] ms b f h = no_workers _ name ms b
  dispatch_loop-total zero name (x ∷ xs) [] b f h = no_requests _ name x xs b h
  dispatch_loop-total zero name (x ∷ xs) (m ∷ ms) b f h = absurd (omega arith)
  dispatch_loop-total (suc n) name [] ms b f h = no_workers _ name ms b
  dispatch_loop-total (suc n) name (x ∷ xs) [] b f h = no_requests _ name x xs b h
  dispatch_loop-total (suc n) name (x ∷ xs) (m ∷ ms) b f h =
      let (s', b', e, w, v, k, c) =
        dispatch_loop-total n name (remove_own x (some 0) (x ∷ xs)) ms
          (record b { sent = b.sent ++ worker_envelope x request [] m ∷ [] }) (omega arith)
          (remove_own-All (IsWorker b.workers) x (some 0) (x ∷ xs) h) in
      (s', b', dispatch_round n name x xs m ms b h ∙ e, w, v, k, c)
