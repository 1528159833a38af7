-- ===== src/Ppp/Worker/Backoff.antt =====
-- The worker's reconnection: how long it waits, and how much of its liveness is left.
use zero_mq_rfc_implementati.Base.{
  ℕ, zero, suc, ◌*◌, ◌^◌, ◌≤◌, ◌<◌, ◌≡◌, refl, inl, inr, Option, none, some, List, [], ◌∷◌, ltb,
  if◌then◌else◌, ok, Result-cases, arith,
}
use zero_mq_rfc_implementati.Base.Zmqpp.{Message, Zmqpp}
use zero_mq_rfc_implementati.Ppp.Constants.{heartbeat_liveness, interval_init, interval_max}
use zero_mq_rfc_implementati.Ppp.Worker.{
  Round, Worker, on_silence, on_message, on_poll, beat, round, run, start,
}

-- The liveness never reaches 0, and the pause before a reconnection is 1, 2, 4, 8, 16 or 32 s.
pub record Inv (w : Worker) : Type 0 where
  pub alive : 0 < w.liveness
  pub full : w.liveness ≤ heartbeat_liveness
  pub doublings : (k : ℕ) × (k ≤ 5) × (w.interval ≡ interval_init * 2 ^ k)

start-Inv : (now : ℕ) → Inv (start now)
unfolding start
start-Inv now = record {
  alive = omega arith;
  full = omega arith;
  doublings = (0, omega arith, refl);
}

doubled :
    (k i : ℕ)
    → k ≤ 5
    → i ≡ interval_init * 2 ^ k
    → (k : ℕ) × (k ≤ 5) × ((if ltb i interval_max then i * 2 else i) ≡ interval_init * 2 ^ k)
doubled zero i h e = (1, omega arith, ground arith)
doubled (suc zero) i h e = (2, omega arith, ground arith)
doubled (suc (suc zero)) i h e = (3, omega arith, ground arith)
doubled (suc (suc (suc zero))) i h e = (4, omega arith, ground arith)
doubled (suc (suc (suc (suc zero)))) i h e = (5, omega arith, ground arith)
doubled (suc (suc (suc (suc (suc zero))))) i h e = (5, omega arith, ground arith)
doubled (suc (suc (suc (suc (suc (suc k)))))) i h e = absurd (omega arith)

on_silence-Inv : (w : Worker) → Inv w → Inv (on_silence w)
unfolding on_silence
on_silence-Inv w v = ground (arith, doubled v.doublings.0 w.interval v.doublings.1 v.doublings.2)

init-Inv :
    (w : Worker)
    → 0 < w.liveness
    → w.liveness ≤ heartbeat_liveness
    → w.interval ≡ interval_init
    → Inv w
init-Inv w a f e = record { alive = a; full = f; doublings = (0, omega arith, e) }

module _ ⦃z : Zmqpp⦄ where
  on_message-Inv : (msg : Message) (w w' : Worker) → Inv w → on_message msg w ≡ ok w' → Inv w'
  unfolding on_message
  on_message-Inv msg w w' v e = init-Inv w' (ground arith) (ground arith) (ground arith)

  on_poll-Inv : (e : Option Message) (w w' : Worker) → Inv w → on_poll e w ≡ ok w' → Inv w'
  unfolding on_poll
  on_poll-Inv (some msg) w w' v e = on_message-Inv msg w w' v e
  on_poll-Inv none w w' v e = ground (arith, on_silence-Inv w v)

  beat-Inv : (t u : ℕ) (w : Worker) → Inv w → Inv (beat t u w)
  unfolding beat
  beat-Inv t u w v = ground arith

  round-Inv : (r : Round) (w w' : Worker) → Inv w → round r w ≡ ok w' → Inv w'
  unfolding round
  round-Inv r w w' v e = grind (arith, on_poll-Inv, beat-Inv)

  run-Inv : (w : Worker) (rs : List Round) → Inv w → Inv (run w rs)
  unfolding run
  run-Inv w [] v = v
  run-Inv w (r ∷ rs) v = elim (Result-cases (round r w)) [
    | inl (w', e) ↦ rw (e, run) (run-Inv w' rs (round-Inv r w w' v e))
    | inr (f, e) ↦ rw (e, run) v
  ]

  -- In every run of a worker, whatever it receives, its liveness stays between 1 and 5, and the pause
  -- before the next reconnection is one second doubled at most five times.
  pub run-start-Inv : (now : ℕ) (rs : List Round) → Inv (run (start now) rs)
  run-start-Inv now rs = run-Inv (start now) rs (start-Inv now)

-- `n` polls in a row that bring no message.
abbrev pub silences : ℕ → Worker → Worker
silences zero w = w
silences (suc n) w = silences n (on_silence w)
