-- ===== src/Chp/CloneServer.antt =====
-- 12.CHP-Clustered Hashmap Protocol/server/clonesrv.cpp: `snapshots` and `send_single`.
pub mod Snapshots
use zero_mq_rfc_implementati.Base.{
  ℕ, Bytes, codes, ◌==◌, is_empty, Bool, true, false, List, [], ◌∷◌, ◌++◌, nat_eq, if◌then◌else◌,
  Result, ok, ◌>>=◌, ◌>>◌, ◌&&◌,
}
use zero_mq_rfc_implementati.Base.Zmqpp.{Message, Zmqpp, get_text}
use zero_mq_rfc_implementati.Base.Dict.{Dict}
use zero_mq_rfc_implementati.Chp.Archive.{Archive}
use zero_mq_rfc_implementati.Chp.KvMsg.{KvMsg, Memory, kvmsg, get_key, set_key, set_body, send}

-- `seq` is `seq_`; `to_frontend` is the history of the voter's socket.
pub record CloneServer : Type 0 where
  pub kvmap : Dict KvMsg
  pub seq : ℕ
  pub to_frontend : List Message

unfoldable pub starts_with : Bytes → Bytes → Bool
starts_with s [] = true
starts_with [] (p ∷ ps) = false
starts_with (c ∷ s) (p ∷ ps) = nat_eq c p && starts_with s ps

abbrev pub icanhaz : Bytes
icanhaz = codes "ICANHAZ?"

abbrev pub kthxbai : Bytes
kthxbai = codes "KTHXBAI"

module _ ⦃z : Zmqpp⦄ where
  -- The text of frame 2 of a request, the empty one for another message.
  unfoldable pub subtree_of : Message → Result Bytes
  subtree_of msg = do request ← get_text msg 1; if request == icanhaz then get_text msg 2 else ok []

module _ ⦃z : Zmqpp⦄ (archive : Archive) where
  -- What is sent for a value of the map, and the value after it.
  unfoldable pub send_single : KvMsg → Bytes → Bytes → List Message × KvMsg
  send_single msg identity subtree =
      if starts_with (get_key msg) subtree
      then (let (sent, msg') = send archive identity msg in (sent ∷ [], msg'))
      else ([], msg)

  -- The loop over `kvmap_`.
  unfoldable pub send_all : Bytes → Bytes → Dict KvMsg → List Message × Dict KvMsg
  unfolding send_single
  send_all identity subtree [] = ([], [])
  send_all identity subtree ((k, v) ∷ d) =
      let (sent, v') = send_single v identity subtree in
      let (rest, d') = send_all identity subtree d in (sent ++ rest, (k, v') ∷ d')

  unfoldable pub snapshots : Memory → Message → CloneServer → Result CloneServer
  unfolding subtree_of send_all
  snapshots junk msg s = do
    identity ← get_text msg 0
    subtree ← subtree_of msg
    if is_empty subtree
        then ok s
        else (let (sent, kvmap) = send_all identity subtree s.kvmap in
            let (last, _) =
              send archive [] (set_body subtree (set_key kthxbai (kvmsg junk s.seq))) in
            ok (record s { kvmap = kvmap; to_frontend = s.to_frontend ++ sent ++ last ∷ [] }))
