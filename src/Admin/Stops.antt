-- ===== src/Admin/Stops.antt =====
-- interface/iworker.cpp and admin/sub_admin.cpp: starting a worker, and what ends the wait for it.
use zero_mq_rfc_implementati.Base.{
  ℕ, zero, suc, ◌≡◌, refl, ◌∙◌, ap, Bytes, Bool, true, false, none, some, List, [], ◌∷◌, ◌++◌, All,
}
use zero_mq_rfc_implementati.Admin.Subscriber
use zero_mq_rfc_implementati.Admin.Subscriber.{Received, text, failed, stop}
use zero_mq_rfc_implementati.Admin.Iworker.{Iworker, new_worker, start, wait}

-- `start`, called so often.
abbrev pub starts : ℕ → Iworker → Iworker
starts zero w = w
starts (suc n) w = starts n (start w)

abbrev pub started : Iworker
started = record {
  has_thread = true;
  spawned = 1;
  admin = record { has_thread = true; joinable = true; spawned = 1 };
}

starts-started : (n : ℕ) → starts n started ≡ started
unfolding start
starts-started zero = refl
starts-started (suc n) = starts-started n

start-new : start new_worker ≡ started
unfolding start
start-new = refl

module _ (iequals : Bytes → Bytes → Bool) where
  -- A text that is not STOP.
  abbrev pub IsOther : Received → Type 0
  IsOther (text m) = iequals stop m ≡ false
  IsOther failed = ⊥

  abbrev pub Ends : Received → Type 0
  Ends (text m) = iequals stop m ≡ true
  Ends failed = Unit {0}

  run-other : (rs : List Received) → All IsOther rs → Subscriber.run iequals rs ≡ false
  unfolding Subscriber.run
  run-other [] h = refl
  run-other (text m ∷ rs) h = rw h.0 (run-other rs h.1)
  run-other (failed ∷ rs) h = absurd h.0

  run-Ends :
      (rs later : List Received) (r : Received)
      → All IsOther rs
      → Ends r
      → Subscriber.run iequals (rs ++ r ∷ later) ≡ true
  unfolding Subscriber.run
  run-Ends [] later (text m) h e = rw e refl
  run-Ends [] later failed h e = refl
  run-Ends (text m ∷ rs) later r h e = rw h.0 (run-Ends rs later r h.1 e)
  run-Ends (failed ∷ rs) later r h e = absurd h.0

  -- However often a worker is started, it has one thread, and its administration one. A wait for it
  -- goes on while other texts than STOP, in whatever case, come in on the administration channel; the first
  -- STOP or failure ends it.
  pub starts-wait :
      (n : ℕ) (rs later : List Received) (r : Received)
      → All IsOther rs
      → Ends r
      → (starts (suc n) new_worker ≡ started)
        × (wait iequals rs (starts (suc n) new_worker) ≡ none)
        × (wait iequals (rs ++ r ∷ later) (starts (suc n) new_worker)
            ≡ some (record started { admin = record started.admin { joinable = false } }))
  unfolding wait
  starts-wait n rs later r h e =
      let same : starts (suc n) new_worker ≡ started = ap (starts n) start-new ∙ starts-started n in
      (same, rw same (rw (run-other rs h) refl), rw same (rw (run-Ends rs later r h e) refl))
