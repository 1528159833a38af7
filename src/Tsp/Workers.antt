-- ===== src/Tsp/Workers.antt =====
-- 9.TSP-Titanic Service Protocol/titanic: what the request, reply and close workers do with a request
-- that `recv` gives them, and `service_success` of titanic.cpp.
pub mod Answered
use zero_mq_rfc_implementati.Base.{
  Bytes, codes, c_str, Bool, true, false, Option, [], nat_eq, ◌==◌, if◌then◌else◌, Result, ok,
  ◌>>=◌,
}
use zero_mq_rfc_implementati.Base.Zmqpp.{
  Message, Zmqpp, parts, push_front, push_back, get_text, take_text,
}
use zero_mq_rfc_implementati.Utils.Files.{save, load}
use zero_mq_rfc_implementati.Mdp.Protocol.{mmi_service, mmi_found}
use zero_mq_rfc_implementati.Mdp.ClientApi.{create, send, recv}
use zero_mq_rfc_implementati.Tsp.Directory.{
  FileSystem, Directory, req_path, rep_path, read, exists, write, remove, contents,
}

module _ ⦃z : Zmqpp⦄ where
  -- What the session of `service_success` gives for a message to a service: its constructor leaves the
  -- session unconnected, and `recv` polls `answers service msg`.
  unfoldable pub own_call : (Bytes → Message → Option Message) → Bytes → Message → Result Message
  unfolding create send recv
  own_call answers service msg = do s ← send service msg create; recv (answers service msg) s

module _ ⦃z : Zmqpp⦄ ⦃f : FileSystem⦄ where
  -- request_worker: the files, the message to the queue's pipe, and the reply; `uuid` is the random
  -- identifier that the code draws.
  unfoldable pub on_request : Bytes → Message → Directory → Directory × Message × Message
  unfolding save write
  on_request uuid req fs = (
    write (req_path uuid) (save req) fs,
    push_back [] uuid,
    push_back (push_back [] mmi_found) uuid,
  )

  -- reply_worker
  unfoldable pub on_reply : Message → Directory → Result Message
  unfolding load exists read
  on_reply req fs = do
    uuid ← get_text req 0
    ok (
        if exists (rep_path uuid) fs
        then push_front (load (contents (read (rep_path uuid) fs))) (codes "200")
        else if exists (req_path uuid) fs
        then push_back [] (codes "300")
        else push_back [] (codes "400"))

  -- close_worker
  unfoldable pub on_close : Message → Directory → Result (Directory × Message)
  unfolding remove
  on_close req fs = do
    uuid ← get_text req 0
    ok (remove (rep_path uuid) (remove (req_path uuid) fs), push_back [] (codes "200"))

  -- `service_success` behind its session: `call` is what `send` of a message to a service and the
  -- `recv` after it give.
  unfoldable pub success_by :
      (Bytes → Message → Result Message) → Bytes → Directory → Result (Bool × Directory)
  unfolding load read save write
  success_by call uuid fs = do
    (srvname, req) ← take_text (load (contents (read (req_path uuid) fs)))
    mmireply ← call mmi_service (push_back [] (c_str srvname))
    if nat_eq (parts mmireply) 0 then ok (false, fs) else (do
      status ← get_text mmireply 0
      if status == mmi_found
          then (do
            reply ← call (c_str srvname) req
            ok (
                if nat_eq (parts reply) 0
                then (false, fs)
                else (true, write (rep_path uuid) (save reply) fs)))
          else ok (false, fs))

  unfoldable pub service_success :
      (Bytes → Message → Option Message) → Bytes → Directory → Result (Bool × Directory)
  unfolding own_call success_by
  service_success answers uuid fs = success_by (own_call answers) uuid fs
