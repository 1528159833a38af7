-- ===== src/Ppp/WorkerQueue/Laws.antt =====
-- The worker queue as a map from identities to times, and its order.
use zero_mq_rfc_implementati.Base.{
  ℕ, ◌≡◌, refl, Bytes, ◌==◌, ==_iff, Option, none, some, [], ◌∷◌, ◌++◌, ltb, if◌then◌else◌, arith,
}
use zero_mq_rfc_implementati.Ppp.WorkerQueue.{
  Worker, WorkerQueue, find, expiry, push, erase, refresh, purge,
}

-- No two entries have one identity.
abbrev pub IsUnique : WorkerQueue → Type 0
IsUnique [] = Unit {0}
IsUnique (w ∷ q) = (find w.identity q ≡ none) × IsUnique q

abbrev pub or_else {ℓ} : {A : Type ℓ} → Option A → Option A → Option A
or_else none d = d
or_else (some a) d = some a

pub find-append : (i : Bytes) (q r : WorkerQueue) → find i (q ++ r) ≡ or_else (find i q) (find i r)
unfolding find
find-append i [] r = refl
find-append i (w ∷ q) r = ground (arith, find-append i q r)

pub find-push :
    (now : ℕ) (i j : Bytes) (q : WorkerQueue)
    → find j (push now i q)
      ≡ or_else
          (find j q)
          (if i == j then some (record { identity = i; due = expiry now }) else none)
unfolding push find
find-push now i j q =
    ground (arith, find-append j q (record { identity = i; due = expiry now } ∷ []), ==_iff i j)

pub find-erase :
    (i j : Bytes) (q : WorkerQueue) → find j (erase i q) ≡ (if i == j then none else find j q)
unfolding find erase
find-erase i j [] = ground arith
find-erase i j (w ∷ q) =
    ground (arith, find-erase i j q, ==_iff w.identity i, ==_iff w.identity j, ==_iff i j)

abbrev pub with_due : ℕ → Option Worker → Option Worker
with_due t none = none
with_due t (some w) = some (record w { due = t })

pub find-refresh :
    (now : ℕ) (i j : Bytes) (q : WorkerQueue)
    → find j (refresh now i q) ≡ (if i == j then with_due (expiry now) (find j q) else find j q)
unfolding find refresh
find-refresh now i j [] = ground arith
find-refresh now i j (w ∷ q) =
    ground (arith, find-refresh now i j q, ==_iff w.identity i, ==_iff w.identity j, ==_iff i j)

pub find-purge-none :
    (now : ℕ) (j : Bytes) (q : WorkerQueue) → find j q ≡ none → find j (purge now q) ≡ none
unfolding find purge
find-purge-none now j [] h = refl
find-purge-none now j (w ∷ q) h = ground (arith, find-purge-none now j q)

-- What is left of an entry at `now`.
abbrev pub unexpired : ℕ → Option Worker → Option Worker
unexpired now none = none
unexpired now (some w) = if ltb w.due now then none else some w

pub find-purge :
    (now : ℕ) (j : Bytes) (q : WorkerQueue)
    → IsUnique q
    → find j (purge now q) ≡ unexpired now (find j q)
unfolding find purge
find-purge now j [] u = refl
find-purge now j (w ∷ q) u =
    ground (arith, find-purge now j q u.1, find-purge-none now j q, ==_iff w.identity j)

pub erase-IsUnique : (i : Bytes) (q : WorkerQueue) → IsUnique q → IsUnique (erase i q)
unfolding erase
erase-IsUnique i [] u = tt
erase-IsUnique i (w ∷ q) u = ground (arith, erase-IsUnique i q u.1, find-erase i w.identity q)

pub refresh-IsUnique :
    (now : ℕ) (i : Bytes) (q : WorkerQueue) → IsUnique q → IsUnique (refresh now i q)
unfolding refresh
refresh-IsUnique now i [] u = tt
refresh-IsUnique now i (w ∷ q) u =
    ground (arith, refresh-IsUnique now i q u.1, find-refresh now i w.identity q)

pub purge-IsUnique : (now : ℕ) (q : WorkerQueue) → IsUnique q → IsUnique (purge now q)
unfolding purge
purge-IsUnique now [] u = tt
purge-IsUnique now (w ∷ q) u =
    ground (arith, purge-IsUnique now q u.1, find-purge-none now w.identity q)

snoc-IsUnique :
    (w : Worker) (q : WorkerQueue) → find w.identity q ≡ none → IsUnique q → IsUnique (q ++ w ∷ [])
unfolding find
snoc-IsUnique w [] h u = ground arith
snoc-IsUnique w (x ∷ q) h u = ground (
  arith,
  snoc-IsUnique w q,
  find-append x.identity q (w ∷ []),
  ==_iff x.identity w.identity,
  ==_iff w.identity x.identity,
)

pub push-IsUnique : (now : ℕ) (i : Bytes) (q : WorkerQueue) → IsUnique q → IsUnique (push now i q)
unfolding push
push-IsUnique now i q u =
    ground (arith, snoc-IsUnique (record { identity = i; due = expiry now }) q)

-- The operations that give back the queue alone.
pub data Op : Type 0 where
  pushes refreshes : ℕ → Bytes → Op
  erases : Bytes → Op
  purges : ℕ → Op

abbrev pub apply : Op → WorkerQueue → WorkerQueue
apply (pushes now i) = push now i
apply (refreshes now i) = refresh now i
apply (erases i) = erase i
apply (purges now) = purge now

pub apply-IsUnique : (o : Op) (q : WorkerQueue) → IsUnique q → IsUnique (apply o q)
apply-IsUnique (pushes now i) q u = push-IsUnique now i q u
apply-IsUnique (refreshes now i) q u = refresh-IsUnique now i q u
apply-IsUnique (erases i) q u = erase-IsUnique i q u
apply-IsUnique (purges now) q u = purge-IsUnique now q u

-- The abstract queue: for each identity the time at which it is given up, if it is waiting.
abbrev pub View : Type 0
View = Bytes → Option ℕ

abbrev due_of : Option Worker → Option ℕ
due_of none = none
due_of (some w) = some w.due

abbrev pub view : WorkerQueue → View
view q i = due_of (find i q)

abbrev renew : ℕ → Option ℕ → Option ℕ
renew t none = none
renew t (some u) = some t

abbrev keep_from : ℕ → Option ℕ → Option ℕ
keep_from now none = none
keep_from now (some t) = if ltb t now then none else some t

abbrev pub apply_view : Op → View → View
apply_view (pushes now i) v j = or_else (v j) (if i == j then some (expiry now) else none)
apply_view (refreshes now i) v j = if i == j then renew (expiry now) (v j) else v j
apply_view (erases i) v j = if i == j then none else v j
apply_view (purges now) v j = keep_from now (v j)

-- Each operation of the queue acts on the abstract queue as specified: a push adds an identity that
-- is not waiting and leaves the time of one that is, a refresh renews the time of one that is
-- waiting, an erase removes one, and a purge removes those whose time is before `now`.
pub view-apply :
    (o : Op) (q : WorkerQueue) (j : Bytes)
    → IsUnique q
    → view (apply o q) j ≡ apply_view o (view q) j
view-apply (pushes now i) q j u = ground (arith, find-push now i j q)
view-apply (refreshes now i) q j u = ground (arith, find-refresh now i j q)
view-apply (erases i) q j u = ground (arith, find-erase i j q)
view-apply (purges now) q j u = ground (arith, find-purge now j q u)
