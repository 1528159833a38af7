-- ===== src/Mdp/Registry.antt =====
-- 7.MDF-Majordomo Protocol/broker/mdbroker.hpp and mdbroker.cpp: the broker's workers and services,
-- and the operations on them below the handlers. Each reading of the clock is an argument; what is
-- sent on the router socket is appended to `sent`.
pub mod Erase
pub mod Known
pub mod Purge
pub mod Totals
use zero_mq_rfc_implementati.Base.{
  ℕ, zero, suc, ◌+◌, Bytes, ◌==◌, c_str, is_empty, Bool, false, Option, none, some, List, [], ◌∷◌,
  ◌++◌, ltb, if◌then◌else◌, Result, ok, err, contract, guard, ◌>>=◌, ◌>>◌,
}
use zero_mq_rfc_implementati.Base.Zmqpp.{Message, Zmqpp, push_front}
use zero_mq_rfc_implementati.Base.Dict.{Dict, contains, insert, erase, map_values}
use zero_mq_rfc_implementati.Mdp.Protocol.{heartbeat_expiry, mdpw_worker, disconnect, heartbeat}

-- `expiry` is the field `expiry_`.
pub record Worker : Type 0 where
  pub identity : Bytes
  pub service_name : Bytes
  pub expiry : ℕ

pub record Service : Type 0 where
  pub name : Bytes
  pub waiting_workers : List Bytes
  pub requests : List Message

pub record Broker : Type 0 where
  pub services : Dict Service
  pub workers : Dict Worker
  pub sent : List Message

unfoldable pub update_expiry : ℕ → Worker → Worker
update_expiry now w = record w { expiry = now + heartbeat_expiry }

-- `std::erase` of a value that lies outside of the list.
unfoldable pub remove_all : Bytes → List Bytes → List Bytes
remove_all v [] = []
remove_all v (x ∷ xs) = let rest = remove_all v xs in if x == v then rest else x ∷ rest

abbrev below : Option ℕ → Option ℕ
below none = none
below (some zero) = none
below (some (suc n)) = some n

abbrev stored : Option ℕ → Bytes → Bytes → Bytes
stored (some zero) v x = x
stored _ v x = v

-- `std::erase` of a value that is an element of the list itself, by reference: `v` is what the
-- referenced slot holds now, and the slot is overwritten when as many more elements as `slot` says
-- have been kept before it. From then on the comparison is with the element that came there.
unfoldable pub remove_own : Bytes → Option ℕ → List Bytes → List Bytes
remove_own v slot [] = []
remove_own v slot (x ∷ xs) =
    let same = x == v in
    let rest =
      remove_own (if same then v else stored slot v x) (if same then slot else below slot) xs in
    if same then rest else x ∷ rest

unfoldable pub delete_waiting_worker : Bytes → Service → Service
unfolding remove_all
delete_waiting_worker i s = record s { waiting_workers = remove_all i s.waiting_workers }

unfoldable pub add_waiting_worker : Bytes → Service → Service
add_waiting_worker i s = record s { waiting_workers = s.waiting_workers ++ i ∷ [] }

unfoldable pub push_request : Message → Service → Service
push_request m s = record s { requests = s.requests ++ m ∷ [] }

abbrev take_request : Service → List Message → Result (Message × Service)
take_request s [] = err contract
take_request s (m ∷ rest) = ok (m, record s { requests = rest })

unfoldable pub pop_request : Service → Result (Message × Service)
pop_request s = take_request s s.requests

unfoldable pub worker_require : ℕ → Bytes → Broker → Broker
worker_require now sender b = record b {
  workers =
      insert sender
        (record { identity = sender; service_name = []; expiry = now + heartbeat_expiry })
        b.workers;
}

unfoldable pub service_require : Bytes → Broker → Broker
service_require name b = record b {
  services = insert name (record { name = name; waiting_workers = []; requests = [] }) b.services;
}

-- `to_cull`
unfoldable pub expired : ℕ → Dict Worker → List Bytes
expired now [] = []
expired now ((k, w) ∷ ws) =
    let rest = expired now ws in if ltb w.expiry now then w.identity ∷ rest else rest

module _ ⦃z : Zmqpp⦄ where
  -- The envelope of a message to a worker; `option` and `command` pass as C strings.
  unfoldable pub worker_envelope : Bytes → Bytes → Bytes → Message → Message
  worker_envelope i command option m =
      let m' = if is_empty option then m else push_front m (c_str option) in
      push_front (push_front (push_front (push_front m' (c_str command)) mdpw_worker) []) i

  unfoldable pub worker_send : Bytes → Bytes → Bytes → Message → Broker → Result Broker
  worker_send i command option m b = do
    guard (contains i b.workers) contract
    ok (record b { sent = b.sent ++ worker_envelope i command option m ∷ [] })

  unfoldable pub worker_delete : Bytes → Bool → Broker → Result Broker
  unfolding worker_send
  worker_delete i disconnects b = do
    guard (contains i b.workers) contract
    b' ← if disconnects then worker_send i disconnect [] [] b else ok b
    ok (record b' {
      services = map_values (delete_waiting_worker i) b'.services;
      workers = erase i b'.workers;
    })

  unfoldable pub delete_all : List Bytes → Broker → Result Broker
  delete_all [] b = ok b
  delete_all (i ∷ is) b = do b' ← worker_delete i false b; delete_all is b'

  unfoldable pub purge_workers : ℕ → Broker → Result Broker
  purge_workers now b = delete_all (expired now b.workers) b

  unfoldable pub heartbeat_all : List Bytes → Broker → Result Broker
  heartbeat_all [] b = ok b
  heartbeat_all (i ∷ is) b = do b' ← worker_send i heartbeat [] [] b; heartbeat_all is b'

  unfoldable pub heartbeat_services : Dict Service → Broker → Result Broker
  heartbeat_services [] b = ok b
  heartbeat_services ((k, s) ∷ ss) b = do
    b' ← heartbeat_all s.waiting_workers b
    heartbeat_services ss b'

  -- The new `heartbeat_at` is computed by the caller's `now`.
  unfoldable pub worker_send_heartbeat : Broker → Result Broker
  worker_send_heartbeat b = heartbeat_services b.services b
