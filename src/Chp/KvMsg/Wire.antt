-- ===== src/Chp/KvMsg/Wire.antt =====
-- 12.CHP-Clustered Hashmap Protocol/kvmsg.cpp: messages sent and received.
use zero_mq_rfc_implementati.Base.{
  ℕ, ◌^◌, ◌<◌, Bytes, is_empty, c_str, true, false, [], ◌∷◌, nat_eq, length, if◌then◌else◌, ok, err,
  contract, ◌≡◌, ◌≢◌, refl, ◌∙◌, ap, arith,
}
use zero_mq_rfc_implementati.Base.Zmqpp.{
  Message, Zmqpp, parts, parts_eq, push_back_eq, push_front_eq, get_text_eq,
}
use zero_mq_rfc_implementati.Chp.Archive.{Archive}
use zero_mq_rfc_implementati.Chp.Decimal.{padded, stoull, padded-fixed, stoull-fixed}
use zero_mq_rfc_implementati.Chp.KvMsg.{
  KvMsg, here, seq_len, kvmsg, Memory, set_sequence, set_key, set_uuid, set_prop, set_body,
  encode_props, decode_props, send, recv, kvmsg_frames,
}

stoull-padded : (n : ℕ) → n < 2 ^ 64 → stoull (padded 8 n) ≡ ok n
stoull-padded n b =
    let (k, e, w, f) = padded-fixed 8 n (omega arith) b in
    ap stoull e ∙ stoull-fixed k n (omega (arith, w)) f b

module _ ⦃z : Zmqpp⦄ (archive : Archive) where
  -- The frames that `m` is sent in.
  abbrev pub frames : KvMsg → Message
  frames m = m.key.text ∷ m.seq.text ∷ m.uuid.text ∷ archive.encode m.entries ∷ m.body.text ∷ []

  pub send-frames : (m : KvMsg) → (send archive [] m).0 ≡ frames m
  unfolding send encode_props
  send-frames m = simp push_back_eq refl

  -- A message sent to no identity has its five frames; one sent to an identity has before them the
  -- bytes of the identity that come before its first zero byte. So an identity whose first byte is
  -- zero is sent as the empty one.
  pub send-identity :
      (c : ℕ) (identity : Bytes) (m : KvMsg)
      → ((send archive [] m).0 ≡ frames m)
        × ((send archive (c ∷ identity) m).0 ≡ c_str (c ∷ identity) ∷ frames m)
        × ((send archive (0 ∷ identity) m).0 ≡ [] ∷ frames m)
  unfolding send encode_props c_str
  send-identity c identity m = (
    send-frames m,
    simp (push_back_eq, push_front_eq) refl,
    simp (push_back_eq, push_front_eq) refl,
  )

  recv-five :
      (junk : Memory) (fresh k s u p b : Bytes) (n : ℕ)
      → stoull s ≡ ok n
      → recv archive junk fresh (k ∷ s ∷ u ∷ p ∷ b ∷ [])
        ≡ decode_props archive
            (set_body b (set_prop p (set_uuid fresh u (set_sequence n (set_key k (kvmsg junk 0))))))
  unfolding recv
  recv-five junk fresh k s u p b n e =
      let five : nat_eq (parts (k ∷ s ∷ u ∷ p ∷ b ∷ [])) kvmsg_frames ≡ true = rw parts_eq refl in
      rw five (simp (get_text_eq, e) refl)

  -- What is sent, with a sequence number that was set, is received with the same key, number,
  -- properties and body, all frames present. An empty UUID becomes a new one.
  pub recv-send :
      (junk : Memory) (fresh : Bytes) (n : ℕ) (m : KvMsg)
      → n < 2 ^ 64
      → m.seq.text ≡ padded seq_len n
      → recv archive junk fresh (send archive [] m).0
        ≡ ok (record {
          key = here m.key.text;
          seq = here (padded seq_len n);
          uuid = here (if is_empty m.uuid.text then fresh else m.uuid.text);
          props = here (archive.encode m.entries);
          body = here m.body.text;
          entries = m.entries;
        })
  recv-send junk fresh n m b e =
      ap (recv archive junk fresh) (send-frames m)
      ∙ recv-five junk fresh m.key.text m.seq.text m.uuid.text (archive.encode m.entries)
          m.body.text n (ap stoull e ∙ stoull-padded n b)
      ∙ unfold decode_props set_body set_prop set_uuid set_sequence set_key kvmsg in
        simp (archive.encode_lem, archive.decode-encode) refl

  -- A message of another number of frames is a contract violation.
  pub recv-not_five :
      (junk : Memory) (fresh : Bytes) (msg : Message)
      → length msg ≢ 5
      → recv archive junk fresh msg ≡ err contract
  unfolding recv
  recv-not_five junk fresh msg n =
      let differs : nat_eq (parts msg) kvmsg_frames ≡ false = rw parts_eq (ground (arith, n)) in
      rw differs refl
