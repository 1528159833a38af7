-- ===== src/Ppp/Broker/Passes.antt =====
-- What passes through the broker in a round.
use zero_mq_rfc_implementati.Base.{
  ℕ, suc, ◌<◌, ◌≡◌, refl, ◌∙◌, sym, ap, Bytes, true, false, Option, none, some, List, [], ◌∷◌, ◌++◌,
  ltb, nat_eq, arith, Bool-cases, inl, inr, thrown, guard, map, append-nil, Post, Post-bind,
  Post-then,
}
use zero_mq_rfc_implementati.Base.Zmqpp.{
  Message, Zmqpp, parts_eq, push_front_eq, push_back_eq, pop_front_eq, get_text_zero, get_text_eq,
}
use zero_mq_rfc_implementati.Ppp.WorkerQueue.{Worker, WorkerQueue, size}
use zero_mq_rfc_implementati.Ppp.WorkerQueue
use zero_mq_rfc_implementati.Ppp.Broker.{
  Round, Broker, control, on_backend, on_frontend, beat, polled_frontend, round, heartbeat_to,
}
use zero_mq_rfc_implementati.Ppp.Broker.Queueing.{size-push, size-control, head_of}

-- The requests among the messages to workers: those of more than two frames, without the worker's
-- identity.
abbrev pub requests_in : List Message → List Message
requests_in [] = []
requests_in ((i ∷ x ∷ y ∷ m) ∷ ms) = (x ∷ y ∷ m) ∷ requests_in ms
requests_in (m ∷ ms) = requests_in ms

requests_in-append :
    (xs ys : List Message) → requests_in (xs ++ ys) ≡ requests_in xs ++ requests_in ys
requests_in-append [] ys = refl
requests_in-append ([] ∷ xs) ys = requests_in-append xs ys
requests_in-append ((i ∷ []) ∷ xs) ys = requests_in-append xs ys
requests_in-append ((i ∷ x ∷ []) ∷ xs) ys = requests_in-append xs ys
requests_in-append ((i ∷ x ∷ y ∷ m) ∷ xs) ys = ap (λ l. (x ∷ y ∷ m) ∷ l) (requests_in-append xs ys)

abbrev pub as_list : Option Message → List Message
as_list none = []
as_list (some m) = m ∷ []

-- The reply in a worker's message: a message of two frames is a control message.
abbrev pub reply_in : Option Message → List Message
reply_in none = []
reply_in (some []) = []
reply_in (some (i ∷ x ∷ [])) = []
reply_in (some (i ∷ m)) = m ∷ []

-- A client's message as a router socket delivers it, with the identity and a frame.
abbrev pub IsLong : Option Message → Type 0
IsLong none = Unit {0}
IsLong (some []) = ⊥
IsLong (some (i ∷ [])) = ⊥
IsLong (some (i ∷ f ∷ m)) = Unit {0}

-- A worker is queued for the message.
abbrev HasWorker : Option Message → Broker → Type 0
HasWorker none b = Unit {0}
HasWorker (some m) b = 0 < size b.queue

HasWorker-mono :
    (e : Option Message) (a b : Broker)
    → (0 < size a.queue → 0 < size b.queue)
    → HasWorker e a
    → HasWorker e b
HasWorker-mono none a b f h = tt
HasWorker-mono (some m) a b f h = f h

HasWorker-any : (e : Option Message) (b : Broker) → 0 < size b.queue → HasWorker e b
HasWorker-any none b h = tt
HasWorker-any (some m) b h = h

polled-HasWorker : ⦃z : Zmqpp⦄ (r : Round) (b : Broker) → HasWorker (polled_frontend r b) b
unfolding polled_frontend
polled-HasWorker r b = elim (Bool-cases (ltb 0 (size b.queue))) [
  | inl more ↦ rw more (HasWorker-any r.frontend b (ground arith))
  | inr empty ↦ rw empty tt
]

polled-IsLong :
    ⦃z : Zmqpp⦄ (r : Round) (b : Broker) → IsLong r.frontend → IsLong (polled_frontend r b)
unfolding polled_frontend
polled-IsLong r b h = elim (Bool-cases (ltb 0 (size b.queue))) [
  | inl more ↦ rw more h
  | inr empty ↦ rw empty tt
]

three : (n : ℕ) → nat_eq (suc (suc (suc n))) 2 ≡ false
three n = ground arith

control-sockets :
    (now : ℕ) (i c : Bytes) (b : Broker)
    → ((control now i c b).to_backend ≡ b.to_backend)
      × ((control now i c b).to_frontend ≡ b.to_frontend)
unfolding control
control-sockets now i c b = ground arith

module _ ⦃z : Zmqpp⦄ where
  requests_in-heartbeats : (q : WorkerQueue) → requests_in (map heartbeat_to q) ≡ []
  requests_in-heartbeats [] = refl
  requests_in-heartbeats (w ∷ q) = rw (push_back_eq, push_back_eq) (requests_in-heartbeats q)

  abbrev Backed : Option Message → Broker → Broker → Type 0
  Backed e b b' =
      (b'.to_backend ≡ b.to_backend)
      × (b'.to_frontend ≡ b.to_frontend ++ reply_in e)
      × (0 < size b.queue → 0 < size b'.queue)

  on_backend-Backed :
      (now : ℕ) (e : Option Message) (b : Broker) → Post (Backed e b) (on_backend now e b)
  unfolding on_backend
  on_backend-Backed now none b = (refl, sym (append-nil b.to_frontend), (λ h. h))
  on_backend-Backed now (some []) b = rw get_text_eq tt
  on_backend-Backed now (some (i ∷ [])) b =
      rw (get_text_zero, parts_eq, pop_front_eq) (refl, refl, (λ h. size-push now i b.queue))
  on_backend-Backed now (some (i ∷ c ∷ [])) b =
      let (s, t) = control-sockets now i c b in
      rw (get_text_zero, parts_eq)
        (simp get_text_eq (s, t ∙ sym (append-nil b.to_frontend), size-control now i c b))
  on_backend-Backed now (some (i ∷ x ∷ y ∷ m)) b =
      rw (get_text_zero, parts_eq, three, pop_front_eq) (refl, refl, (λ h. size-push now i b.queue))

  abbrev Fronted : Option Message → Broker → Broker → Type 0
  Fronted e b b' =
      (requests_in b'.to_backend ≡ requests_in b.to_backend ++ as_list e)
      × (b'.to_frontend ≡ b.to_frontend)

  on_frontend-Fronted :
      (e : Option Message) (b : Broker)
      → IsLong e
      → HasWorker e b
      → Post (Fronted e b) (on_frontend e b)
  unfolding on_frontend WorkerQueue.pop
  on_frontend-Fronted none b l h = (sym (append-nil (requests_in b.to_backend)), refl)
  on_frontend-Fronted (some []) b l h = absurd l
  on_frontend-Fronted (some (c ∷ [])) b l h = absurd l
  on_frontend-Fronted (some (c ∷ f ∷ m)) b l h =
      let (w, q, e) = head_of b.queue h in
      let more : ltb 0 (size b.queue) ≡ true = ground arith in
      rw (more, e)
        (rw push_front_eq (requests_in-append b.to_backend ((w.identity ∷ c ∷ f ∷ m) ∷ [])), refl)

  beat-sockets :
      (t u : ℕ) (b : Broker)
      → (requests_in (beat t u b).to_backend ≡ requests_in b.to_backend)
        × ((beat t u b).to_frontend ≡ b.to_frontend)
  unfolding beat
  beat-sockets t u b = elim (Bool-cases (ltb b.heartbeat_at t)) [
    | inl due ↦ rw due (
      requests_in-append b.to_backend (map heartbeat_to b.queue)
          ∙ rw requests_in-heartbeats (append-nil (requests_in b.to_backend)),
      refl,
    )
    | inr early ↦ rw early (refl, refl)
  ]

  -- What a round passes on.
  abbrev pub Passes : List Message → List Message → Broker → Broker → Type 0
  Passes ms rs b b' =
      (requests_in b'.to_backend ≡ requests_in b.to_backend ++ ms)
      × (b'.to_frontend ≡ b.to_frontend ++ rs)

  pub round-Passes :
      (r : Round) (b : Broker)
      → IsLong r.frontend
      → Post (Passes (as_list (polled_frontend r b)) (reply_in r.backend) b) (round r b)
  unfolding round
  round-Passes r b l =
      let e = polled_frontend r b in
      Post-bind _ (guard r.poll_ok thrown) _ (λ u p.
        Post-then (Backed r.backend b) _ (on_backend r.seen_at r.backend b) _
          (on_backend-Backed r.seen_at r.backend b)
          (λ b₁ (s, t, f).
            Post-then (Fronted e b₁) _ (on_frontend e b₁) _
              (on_frontend-Fronted e b₁ (polled-IsLong r b l)
                (HasWorker-mono e b b₁ f (polled-HasWorker r b)))
              (λ b₂ (v, w).
                let (x, y) = beat-sockets r.tested_at r.renewed_at b₂ in
                (x ∙ v ∙ ap (λ ms. requests_in ms ++ as_list e) s, y ∙ w ∙ t))))
