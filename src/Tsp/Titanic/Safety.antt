-- ===== src/Tsp/Titanic/Safety.antt =====
-- 9.TSP-Titanic Service Protocol/titanic: no accepted request is lost before it is closed.
use zero_mq_rfc_implementati.Base.{
  ℕ, ◌≡◌, refl, Bytes, IsPlain, true, false, Option-cases, some, List, [], ◌∷◌, length, inl, inr,
  ◌⊎◌, arith,
}
use zero_mq_rfc_implementati.Base.Dict.{contains}
use zero_mq_rfc_implementati.Base.Zmqpp.{Zmqpp}
use zero_mq_rfc_implementati.Tsp.Directory.{FileSystem, Directory, rep_path, read, exists}
use zero_mq_rfc_implementati.Tsp.Workers.{own_call}
use zero_mq_rfc_implementati.Tsp.Queue.Scan.{Entry, encode}
use zero_mq_rfc_implementati.Tsp.Titanic.{
  Titanic, start, Step, request, reply, close, take, pass, Reach, begin, next,
}
use zero_mq_rfc_implementati.Tsp.Titanic.Invariant.{
  Piped, Inv, request-Inv, reply-Inv, close-Inv, take-Inv, pass-Inv,
}

-- The queue file has a pending entry of the identifier.
abbrev pub Pending : Bytes → List Entry → Type 0
Pending u [] = ⊥
Pending u ((pending, v) ∷ es) = ((v ≡ u) × (pending ≡ true)) ⊎ Pending u es

-- The identifier is on its way to the queue, or pending in it.
abbrev pub Waits : Bytes → Titanic → Type 0
Waits u t =
    Piped u t.shared.piped ⊎ ((es : List Entry) × (t.queue ≡ encode 13 10 es) × Pending u es)

pub read-of_exists :
    ⦃f : FileSystem⦄ (p : Bytes) (fs : Directory)
    → exists p fs ≡ true
    → (text : Bytes) × (read p fs ≡ some text)
unfolding exists read contains
read-of_exists p fs h = elim (Option-cases (read p fs)) [ inl e ↦ cc (e, h) | inr found ↦ found ]

module _ ⦃z : Zmqpp⦄ ⦃f : FileSystem⦄ (uuid_at : ℕ → Bytes)
    (long : (n : ℕ) → length (uuid_at n) ≡ 36) (plain : (n : ℕ) → IsPlain (uuid_at n)) where
  start-Inv : Inv uuid_at start
  start-Inv = ([], refl, tt, tt, λ n lt opened. absurd (omega arith))

  Step-Inv : {t t' : Titanic} → Step uuid_at t t' → Inv uuid_at t → Inv uuid_at t'
  Step-Inv {t} (request req rep w h) inv = request-Inv uuid_at long t req rep w h inv
  Step-Inv {t} (reply req rep w h) inv = reply-Inv uuid_at t req rep w h inv
  Step-Inv {t} (close u m rep w h) inv = close-Inv uuid_at t u m rep w h inv
  Step-Inv {t} (take m ms queue e h) inv = take-Inv uuid_at t m ms queue e h inv
  Step-Inv {t} (pass answers queue fs h) inv = pass-Inv uuid_at t (own_call answers) queue fs h inv

  pub Reach-Inv : {t : Titanic} → Reach uuid_at t → Inv uuid_at t
  Reach-Inv begin = start-Inv
  Reach-Inv (next r s) = Step-Inv s (Reach-Inv r)

  -- No reply has been stored.
  abbrev NoReply : Directory → Type 0
  NoReply fs = (v : Bytes) → IsPlain v → exists (rep_path v) fs ≡ false
