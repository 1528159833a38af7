-- ===== src/Chp/CloneServer/Snapshots.antt =====
-- 12.CHP-Clustered Hashmap Protocol/server/clonesrv.cpp: the messages of a snapshot.
use zero_mq_rfc_implementati.Base.{
  ℕ, Bytes, ◌==◌, c_str, List, [], ◌∷◌, ◌++◌, if◌then◌else◌, ok, ◌≡◌, refl, ◌∙◌,
}
use zero_mq_rfc_implementati.Base.Zmqpp.{Message, Zmqpp, get_text_eq}
use zero_mq_rfc_implementati.Base.Dict.{Dict}
use zero_mq_rfc_implementati.Chp.Archive.{Archive}
use zero_mq_rfc_implementati.Chp.KvMsg.{KvMsg, Memory, kvmsg, get_key, set_key, set_body, send}
use zero_mq_rfc_implementati.Base.{map, Bool-cases, inl, inr}
use zero_mq_rfc_implementati.Chp.Decimal.{padded}
use zero_mq_rfc_implementati.Chp.KvMsg.{seq_len, set_sequence}
use zero_mq_rfc_implementati.Chp.KvMsg.Wire.{frames, send-frames, send-identity}
use zero_mq_rfc_implementati.Chp.CloneServer.{
  CloneServer, starts_with, icanhaz, kthxbai, send_single, send_all, subtree_of, snapshots,
}

-- The values whose key starts with a text.
abbrev pub matching : Bytes → Dict KvMsg → List KvMsg
matching subtree [] = []
matching subtree ((k, v) ∷ d) =
    let rest = matching subtree d in if starts_with (get_key v) subtree then v ∷ rest else rest

module _ ⦃z : Zmqpp⦄ (archive : Archive) where
  abbrev pub addressed : Bytes → KvMsg → Message
  addressed identity m = c_str identity ∷ frames archive m

  send_all-matching :
      (c : ℕ) (identity subtree : Bytes) (d : Dict KvMsg)
      → (send_all archive (c ∷ identity) subtree d).0
        ≡ map (addressed (c ∷ identity)) (matching subtree d)
  unfolding send_all send_single
  send_all-matching c identity subtree [] = refl
  send_all-matching c identity subtree ((k, v) ∷ d) =
      elim (Bool-cases (starts_with (get_key v) subtree)) [
        | inl found ↦ rw found (
            rw ((send-identity archive c identity v).1, send_all-matching c identity subtree d)
              refl)
        | inr other ↦ rw other (send_all-matching c identity subtree d)
      ]

  -- A request for a subtree, which is a text with a byte, from an identity with a byte: the frontend
  -- gets each value of the map whose key starts with the text, in the order of the map, addressed to
  -- the identity as a C string, and then the end message with the sequence number. The end message is not
  -- addressed: its first frame, where the socket looks for the identity, is the text "KTHXBAI".
  pub snapshots-icanhaz :
      (junk : Memory) (c b : ℕ) (identity subtree : Bytes) (m : Message) (s : CloneServer)
      → (t : CloneServer) × (snapshots archive junk ((c ∷ identity) ∷ icanhaz ∷ (b ∷ subtree) ∷ m) s
          ≡ ok t)
        × (t.to_frontend
            ≡ s.to_frontend
              ++ map (addressed (c ∷ identity)) (matching (b ∷ subtree) s.kvmap)
              ++ (kthxbai ∷ padded seq_len s.seq ∷ [] ∷ archive.encode [] ∷ (b ∷ subtree) ∷ [])
                ∷ [])
        × (t.seq ≡ s.seq)
  unfolding snapshots subtree_of ◌==◌
  snapshots-icanhaz junk c b identity subtree m s =
      let last = set_body (b ∷ subtree) (set_key kthxbai (kvmsg junk s.seq)) in
      let end : (send archive [] last).0
          ≡ kthxbai ∷ padded seq_len s.seq ∷ [] ∷ archive.encode [] ∷ (b ∷ subtree) ∷ [] =
        send-frames archive last ∙ unfold set_body set_key kvmsg set_sequence in refl in
      simp get_text_eq (
        record s {
          kvmap = (send_all archive (c ∷ identity) (b ∷ subtree) s.kvmap).1;
          to_frontend =
              s.to_frontend
              ++ (send_all archive (c ∷ identity) (b ∷ subtree) s.kvmap).0
              ++ (send archive [] last).0 ∷ [];
        },
        refl,
        rw (send_all-matching c identity (b ∷ subtree) s.kvmap, end) refl,
        refl,
      )
