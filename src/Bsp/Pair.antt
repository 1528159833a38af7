-- ===== src/Bsp/Pair.antt =====
-- Two `bstar` servers, the one created as primary and the other as backup, that exchange states and
-- serve clients, stop and start again. A server that is down is `none`.
pub mod Safety
use zero_mq_rfc_implementati.Base.{Bool, ℕ, ◌<◌, ◌≢◌, Option, none, some, true, false}
use zero_mq_rfc_implementati.Bsp.States.{active}
use zero_mq_rfc_implementati.Bsp.Bstar.{
  Bstar, create, new_active, new_passive, update_peer_expiry, execute, on_request,
}
use zero_mq_rfc_implementati.Bsp.Agreement.{peer_event}

pub record Pair : Type 0 where
  pub one : Option Bstar
  pub two : Option Bstar

-- A server as the program starts it: created, its handlers set, the expiry set by `start`.
unfoldable pub boot : Bool → ℕ → Bstar
unfolding create new_active new_passive update_peer_expiry
boot is_primary now = update_peer_expiry now (new_passive (new_active (create is_primary)))

-- A server hears its peer's present state.
unfoldable pub hear : ℕ → ℕ → Bstar → Bstar → Bstar
unfolding execute update_peer_expiry
hear heard now peer b =
    (execute now (update_peer_expiry heard (record b { event = peer_event peer.state }))).0

-- The peer, if it is up, is not active.
abbrev pub NotActive : Option Bstar → Type 0
NotActive none = Unit {0}
NotActive (some b) = b.state ≢ active

-- State messages arrive while the state they tell is still the peer's; a server takes its peer's time
-- to have run out only if the peer is not active. Both may stop and start at any time.
pub data Step : Pair → Pair → Type 0 where
  tell_one :
      (a b : Bstar) (heard now : ℕ)
      → Step
          (record { one = some a; two = some b })
          (record { one = some (hear heard now b a); two = some b })
  tell_two :
      (a b : Bstar) (heard now : ℕ)
      → Step
          (record { one = some a; two = some b })
          (record { one = some a; two = some (hear heard now a b) })
  ask_one :
      (a : Bstar) (b : Option Bstar) (now : ℕ)
      → (a.peer_expiry < now → NotActive b)
      → Step (record { one = some a; two = b }) (record { one = some (on_request now a); two = b })
  ask_two :
      (a : Option Bstar) (b : Bstar) (now : ℕ)
      → (b.peer_expiry < now → NotActive a)
      → Step (record { one = a; two = some b }) (record { one = a; two = some (on_request now b) })
  stop_one :
      (a b : Option Bstar) → Step (record { one = a; two = b }) (record { one = none; two = b })
  stop_two :
      (a b : Option Bstar) → Step (record { one = a; two = b }) (record { one = a; two = none })
  boot_one :
      (a b : Option Bstar) (now : ℕ)
      → Step (record { one = a; two = b }) (record { one = some (boot true now); two = b })
  boot_two :
      (a b : Option Bstar) (now : ℕ)
      → Step (record { one = a; two = b }) (record { one = a; two = some (boot false now) })

pub data Reach (p : Pair) : Pair → Type 0 where
  here : Reach p p
  next : {q r : Pair} → Reach p q → Step q r → Reach p r
