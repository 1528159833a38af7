-- ===== src/Admin/Iworker.antt =====
-- interface/iworker.cpp: the thread of a worker beside its administration.
use zero_mq_rfc_implementati.Base.{
  ℕ, suc, Bytes, Bool, true, false, Option, none, some, List, if◌then◌else◌,
}
use zero_mq_rfc_implementati.Admin.Subscriber
use zero_mq_rfc_implementati.Admin.Subscriber.{SubAdmin, Received, new_admin}

-- `has_thread` is the test of `thread_`; `spawned` counts the threads in which `run` was started.
pub record Iworker : Type 0 where
  pub has_thread : Bool
  pub spawned : ℕ
  pub admin : SubAdmin

-- The constructor.
abbrev pub new_worker : Iworker
new_worker = record { has_thread = false; spawned = 0; admin = new_admin }

unfoldable pub start : Iworker → Iworker
unfolding Subscriber.start
start w =
    if w.has_thread
    then w
    else record w { has_thread = true; spawned = suc w.spawned; admin = Subscriber.start w.admin }

abbrev put_admin : Iworker → Option SubAdmin → Option Iworker
put_admin w none = none
put_admin w (some a) = some (record w { admin = a })

module _ (iequals : Bytes → Bytes → Bool) where
  unfoldable pub wait : List Received → Iworker → Option Iworker
  unfolding Subscriber.wait
  wait rs w = put_admin w (Subscriber.wait iequals rs w.admin)
