-- ===== src/Mdp/Broker.antt =====
-- 7.MDF-Majordomo Protocol/broker/mdbroker.cpp: the broker's handlers and its loop.
pub mod Dispatch
pub mod Mmi
pub mod Replies
pub mod Waiting
pub mod Invariant
pub mod Account
pub mod Owned
use zero_mq_rfc_implementati.Base.{
  ℕ, zero, suc, ◌+◌, Bytes, ◌==◌, c_str, Bool, true, false, not, ◌&&◌, ◌||◌, Option, none, some,
  List, [], ◌∷◌, ◌++◌, ltb, leb, nat_eq, if◌then◌else◌, Result, ok, err, contract, out_of_range,
  undefined, guard, or_fault, ◌>>=◌, ◌>>◌,
}
use zero_mq_rfc_implementati.Base.Zmqpp.{
  Message, Zmqpp, parts, push_front, pop_front, get_text, take_text,
}
use zero_mq_rfc_implementati.Base.Dict.{Dict, lookup, contains, assign}
use zero_mq_rfc_implementati.Mdp.Protocol.{
  mdpc_client, mdpw_worker, ready, request, reply, heartbeat, disconnect, mmi_service, mmi_found,
  mmi_not_found, mmi_not_implemented, mmi_key,
}
use zero_mq_rfc_implementati.Mdp.Registry.{
  Worker, Service, Broker, update_expiry, remove_own, add_waiting_worker, push_request, pop_request,
  worker_require, service_require, worker_send, worker_delete, purge_workers,
}

abbrev pub mem : ℕ → Bytes → Bool
mem a [] = false
mem a (x ∷ xs) = nat_eq a x || mem a xs

abbrev add_one : Option ℕ → Option ℕ
add_one none = none
add_one (some n) = some (suc n)

-- `find_first_of`: the place of the first byte that is in the set; `none` is `npos`.
unfoldable pub find_first_of : Bytes → Bytes → Option ℕ
find_first_of [] set = none
find_first_of (x ∷ xs) set = if mem x set then some 0 else add_one (find_first_of xs set)

abbrev is_zero : Option ℕ → Bool
is_zero (some zero) = true
is_zero _ = false

-- `0 == text.find_first_of(MMI_KEY)`
unfoldable pub is_mmi : Bytes → Bool
unfolding find_first_of
is_mmi text = is_zero (find_first_of text mmi_key)

-- The comparison of `service_dispatch`, which reads its first argument twice.
unfoldable pub earlier : Dict Worker → Bytes → Bytes → Result Bool
earlier ws a b = do
  x ← or_fault (lookup a ws) out_of_range
  y ← or_fault (lookup a ws) out_of_range
  ok (ltb x.expiry y.expiry)

-- `min_element` from the second element on: the place and the value of the smallest so far, and the
-- place of the next element.
unfoldable pub min_from : Dict Worker → ℕ → Bytes → ℕ → List Bytes → Result (ℕ × Bytes)
min_from ws i x n [] = ok (i, x)
min_from ws i x n (y ∷ ys) = do
  less ← earlier ws y x
  min_from ws (if less then n else i) (if less then y else x) (suc n) ys

unfoldable pub min_element : Dict Worker → List Bytes → Result (ℕ × Bytes)
min_element ws [] = err out_of_range
min_element ws (x ∷ xs) = min_from ws 0 x 1 xs

abbrev pub some_left {ℓ} : {A : Type ℓ} → List A → Bool
some_left [] = false
some_left (x ∷ xs) = true

-- The test of the `while` loop.
abbrev pub can_dispatch : Service → Bool
can_dispatch s = some_left s.waiting_workers && some_left s.requests

-- The times at which a handler reads the clock: in `worker_require`, in `update_expiry` and in
-- `purge_workers`.
pub record Times : Type 0 where
  pub required_at : ℕ
  pub updated_at : ℕ
  pub purged_at : ℕ

abbrev pub queue_request : Option Message → Service → Service
queue_request none s = s
queue_request (some m) s = push_request m s

abbrev pub count : List Message → ℕ
count [] = 0
count (m ∷ ms) = suc (count ms)

-- `isnotvalid`
abbrev pub not_valid : Bytes → Bool → Bytes → Bool
not_valid cmd is_ready sender =
    (cmd == heartbeat && not is_ready)
    || (cmd == reply && not is_ready)
    || (cmd == ready && is_ready)
    || (cmd == ready && not is_ready && is_mmi sender)

module _ ⦃z : Zmqpp⦄ where
  -- The `while` loop of `service_dispatch`; each round takes one request, so their number is fuel
  -- enough.
  unfoldable pub dispatch_loop : ℕ → Service → Broker → Result (Service × Broker)
  dispatch_loop zero s b = ok (s, b)
  dispatch_loop (suc n) s b = elim (can_dispatch s) [
    | false ↦ ok (s, b)
    | true ↦ do
      (place, i) ← min_element b.workers s.waiting_workers
      (req, s') ← pop_request s
      b' ← worker_send i request [] req b
      dispatch_loop n (record s' { waiting_workers = remove_own i (some place) s'.waiting_workers })
          b'
  ]

  -- The service is given by its key; it is a reference into `services_`.
  unfoldable pub service_dispatch : ℕ → Bytes → Option Message → Broker → Result Broker
  service_dispatch now name m b = do
    s ← or_fault (lookup name b.services) out_of_range
    b₁ ← purge_workers now (record b { services = assign name (queue_request m s) b.services })
    s₁ ← or_fault (lookup name b₁.services) out_of_range
    (s₂, b₂) ← dispatch_loop (count s₁.requests) s₁ b₁
    ok (record b₂ { services = assign name s₂ b₂.services })

  -- The worker is given by its key; it is a reference into `workers_`.
  unfoldable pub worker_waiting : ℕ → ℕ → Bytes → Broker → Result Broker
  worker_waiting updated_at purged_at key b = do
    w ← or_fault (lookup key b.workers) out_of_range
    let b₁ =
        service_require w.service_name
          (record b { workers = assign key (update_expiry updated_at w) b.workers })
    s ← or_fault (lookup w.service_name b₁.services) out_of_range
    service_dispatch purged_at w.service_name none (record b₁ {
      services = assign w.service_name (add_waiting_worker w.identity s) b₁.services;
    })

  -- The envelope of a reply to a client.
  unfoldable pub client_envelope : Bytes → Bytes → Message → Message
  client_envelope client service m =
      push_front (push_front (push_front (push_front m service) mdpc_client) []) client

  -- Both frames of the client's address are removed, whether or not the second one is there.
  unfoldable pub on_worker_reply : Times → Bytes → Worker → Message → Broker → Result Broker
  on_worker_reply t key w m b = do
    (client, m') ← take_text m
    guard (leb 1 (parts m')) undefined
    worker_waiting t.updated_at t.purged_at key
        (record b { sent = b.sent ++ client_envelope client w.service_name (pop_front m') ∷ [] })

  unfoldable pub on_worker_ready : Times → Bytes → Worker → Message → Broker → Result Broker
  on_worker_ready t key w m b = do
    name ← get_text m 0
    worker_waiting t.updated_at t.purged_at key
        (record b { workers = assign key (record w { service_name = name }) b.workers })

  unfoldable pub worker_process : Times → Bytes → Message → Broker → Result Broker
  worker_process t sender msg b = do
    (cmd, m) ← take_text msg
    let is_ready = contains sender b.workers
    let b₁ = worker_require t.required_at sender b
    w ← or_fault (lookup sender b₁.workers) out_of_range
    if not_valid cmd is_ready sender
        then worker_delete w.identity true b₁
        else if cmd == heartbeat
        then ok (record b₁ { workers = assign sender (update_expiry t.updated_at w) b₁.workers })
        else if cmd == reply
        then on_worker_reply t sender w m b₁
        else if cmd == ready
        then on_worker_ready t sender w m b₁
        else if cmd == disconnect
        then worker_delete w.identity false b₁
        else ok b₁

  -- The answer to a management request; the service's name passes as a C string.
  unfoldable pub service_internal : Bytes → Message → Broker → Result Broker
  service_internal name msg b = do
    (client, m₁) ← take_text msg
    m₃ ←
        if name == mmi_service
        then (do
          (body, m₂) ← take_text (pop_front m₁)
          ok (push_front m₂ (if contains body b.services then mmi_found else mmi_not_found)))
        else ok (push_front (pop_front m₁) mmi_not_implemented)
    ok (record b { sent = b.sent ++ client_envelope client (c_str name) m₃ ∷ [] })

  unfoldable pub client_process : Times → Bytes → Message → Broker → Result Broker
  client_process t sender msg b = do
    guard (leb 2 (parts msg)) contract
    (name, m) ← take_text msg
    let b₁ = service_require name b
    let m' = push_front (push_front m []) sender
    if is_mmi name
        then service_internal name m' b₁
        else service_dispatch t.purged_at name (some m') b₁

  -- `cbsock`
  unfoldable pub on_message : Times → Message → Broker → Result Broker
  on_message t msg b = do
    (sender, m₁) ← take_text msg
    (header, m₂) ← take_text (pop_front m₁)
    if header == mdpc_client
        then client_process t sender m₂ b
        else if header == mdpw_worker
        then worker_process t sender m₂ b
        else ok b
