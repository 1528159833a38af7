-- ===== src/Admin/Subscriber.antt =====
-- admin/sub_admin.cpp. A thread is a count of those made; where it waits for a message, it is given what the
-- socket's `receive` brings.
use zero_mq_rfc_implementati.Base.{
  ℕ, suc, Bytes, codes, Bool, true, false, ◌&&◌, Option, none, some, List, [], ◌∷◌, if◌then◌else◌,
}

-- `failed`: `receive` throws, which ends the loop.
pub data Received : Type 0 where
  text : Bytes → Received
  failed : Received

abbrev pub stop : Bytes
stop = codes "STOP"

-- `has_thread` is the test of `thread_`, `joinable` that of the thread.
pub record SubAdmin : Type 0 where
  pub has_thread : Bool
  pub joinable : Bool
  pub spawned : ℕ

-- The constructor.
abbrev pub new_admin : SubAdmin
new_admin = record { has_thread = false; joinable = false; spawned = 0 }

unfoldable pub start : SubAdmin → SubAdmin
start a =
    if a.has_thread
    then a
    else record a { has_thread = true; joinable = true; spawned = suc a.spawned }

-- `iequals` is Boost's comparison without case.
module _ (iequals : Bytes → Bytes → Bool) where
  -- The loop of `run`: whether it has ended after what it received.
  unfoldable pub run : List Received → Bool
  run [] = false
  run (failed ∷ rs) = true
  run (text msg ∷ rs) = if iequals stop msg then true else run rs

  -- `wait`, where the thread receives `rs`; `none`: it still waits.
  unfoldable pub wait : List Received → SubAdmin → Option SubAdmin
  unfolding run
  wait rs a =
      if a.has_thread && a.joinable
      then (if run rs then some (record a { joinable = false }) else none)
      else some a
