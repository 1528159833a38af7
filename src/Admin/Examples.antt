-- ===== src/Admin/Examples.antt =====
-- Tests of admin and interface.
use zero_mq_rfc_implementati.Base.{
  ◌≡◌, refl, Bytes, codes, ◌==◌, Bool, false, none, some, [], ◌∷◌, ◌++◌, ◌||◌,
}
use zero_mq_rfc_implementati.Admin.Subscriber.{text, failed}
use zero_mq_rfc_implementati.Admin.Iworker.{new_worker, wait}
use zero_mq_rfc_implementati.Admin.Stops.{starts, started, starts-wait}

-- A comparison that knows two spellings.
abbrev iequals : Bytes → Bytes → Bool
iequals a b = a == b || b == codes "stop"

starts-wait_example :
    (starts 3 new_worker ≡ started)
    × (wait iequals (text (codes "GO") ∷ []) (starts 3 new_worker) ≡ none)
    × (wait iequals
          ((text (codes "GO") ∷ []) ++ text (codes "stop") ∷ failed ∷ [])
          (starts 3 new_worker)
        ≡ some (record started { admin = record started.admin { joinable = false } }))
unfolding ◌==◌
starts-wait_example =
    starts-wait iequals 2 (text (codes "GO") ∷ []) (failed ∷ []) (text (codes "stop")) (refl, tt)
      refl
