-- ===== src/Chp/Examples.antt =====
-- Tests of 12.CHP-Clustered Hashmap Protocol: a message with a property, and a store of two messages.
mod TaggedArchive
use zero_mq_rfc_implementati.Base.{
  ltb, err, contract, ℕ, ◌^◌, ◌<◌, ◌≤◌, ◌≡◌, refl, Bytes, codes, c_str, is_empty, Bool, true, false,
  Option, none, some, List, [], ◌∷◌, ◌++◌, map, if◌then◌else◌, Result, ok, err, contract, arith,
}
use zero_mq_rfc_implementati.Base.Zmqpp.{Message}
use zero_mq_rfc_implementati.Base.ListMessages.{list_messages}
use zero_mq_rfc_implementati.Base.Dict.{Dict}
use zero_mq_rfc_implementati.Chp.Decimal.{padded}
use zero_mq_rfc_implementati.Chp.Archive.{Archive}
use zero_mq_rfc_implementati.Chp.KvMsg.{
  KvMsg, Frame, Memory, here, seq_len, kvmsg, set_sequence, get_sequence, set_key, set_body,
  set_uuid, add_prop, send, recv,
}
use zero_mq_rfc_implementati.Chp.KvMsg.Sequence.{get_sequence-set_sequence}
use zero_mq_rfc_implementati.Chp.KvMsg.Wire.{frames, recv-send}
use zero_mq_rfc_implementati.Chp.CloneServer.{CloneServer, icanhaz, kthxbai, snapshots}
use zero_mq_rfc_implementati.Chp.CloneServer.Snapshots.{addressed, matching, snapshots-icanhaz}
use TaggedArchive.{tagged_archive}

abbrev junk : Memory
junk = record { key = true; seq = false; uuid = true; props = false; body = false }

abbrev message : KvMsg
message = record {
  key = here (codes "key");
  seq = here (padded seq_len 42);
  uuid = here [];
  props = here [];
  body = here (codes "body");
  entries = (codes "ttl", codes "5") ∷ [];
}

small : 42 < 2 ^ 64
small = omega arith

recv-send_example :
    recv tagged_archive junk (codes "id") (send tagged_archive [] message).0
    ≡ ok (record {
      key = here message.key.text;
      seq = here (padded seq_len 42);
      uuid = here (if is_empty message.uuid.text then codes "id" else message.uuid.text);
      props = here (tagged_archive.encode message.entries);
      body = here message.body.text;
      entries = message.entries;
    })
recv-send_example = recv-send tagged_archive junk (codes "id") 42 message small refl

get_sequence-set_sequence_example :
    get_sequence (set_sequence 42 message) ≡ (if ltb 42 (10 ^ 8) then ok 42 else err contract)
get_sequence-set_sequence_example = get_sequence-set_sequence 42 message small

abbrev store : CloneServer
store = record {
  kvmap =
      (codes "key", message) ∷ (codes "other", record message { key = here (codes "other") }) ∷ [];
  seq = 43;
  to_frontend = [];
}

snapshots-icanhaz_example :
    (t : CloneServer) × (snapshots tagged_archive junk
        (codes "client" ∷ icanhaz ∷ codes "ke" ∷ [])
        store
      ≡ ok t)
    × (t.to_frontend
        ≡ store.to_frontend
          ++ map (addressed tagged_archive (codes "client")) (matching (codes "ke") store.kvmap)
          ++ (kthxbai ∷ padded seq_len store.seq ∷ [] ∷ tagged_archive.encode [] ∷ codes "ke" ∷ [])
            ∷ [])
    × (t.seq ≡ store.seq)
snapshots-icanhaz_example =
    snapshots-icanhaz tagged_archive junk (b'c') (b'k') (codes "lient") (codes "e") [] store
