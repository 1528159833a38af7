-- ===== src/Chp/KvMsg/Sequence.antt =====
-- 12.CHP-Clustered Hashmap Protocol/kvmsg.cpp: the sequence number as text.
use zero_mq_rfc_implementati.Base.{
  ltb, ltb→lt, ltb→le, Bool-cases, inl, inr, if◌then◌else◌, ℕ, ◌^◌, ◌<◌, false, nat_eq, nat_eq_iff,
  length, ok, err, contract, ◌≡◌, refl, ◌∙◌, sym, ap, arith,
}
use zero_mq_rfc_implementati.Chp.Decimal.{
  padded, from_chars, fixed, from_chars-fixed, length-padded_small, length-padded_large,
  width_from-first,
}
use zero_mq_rfc_implementati.Chp.KvMsg.{KvMsg, set_sequence, get_sequence}

padded_small : (n : ℕ) → n < 10 ^ 8 → padded 8 n ≡ fixed 8 n
unfolding padded
padded_small n h = ap (λ k. fixed k n) (width_from-first 20 8 n h)

-- A sequence number below 10 ^ 8 is read as it was set. From 10 ^ 8 on, the text that is set has
-- more than eight digits, and reading it is a contract violation.
pub get_sequence-set_sequence :
    (n : ℕ) (m : KvMsg)
    → n < 2 ^ 64
    → get_sequence (set_sequence n m) ≡ (if ltb n (10 ^ 8) then ok n else err contract)
unfolding get_sequence set_sequence
get_sequence-set_sequence n m b = elim (Bool-cases (ltb n (10 ^ 8))) [
  | inl small ↦
      let h = ltb→lt n (10 ^ 8) small in
      rw (small, (nat_eq_iff 8 (length (padded 8 n))).1 (sym (length-padded_small 8 n h)))
        (ap ok (ap from_chars (padded_small n h) ∙ from_chars-fixed 8 n h b))
  | inr large ↦
      let long = length-padded_large 8 n (ltb→le n (10 ^ 8) large) in
      let differs : nat_eq 8 (length (padded 8 n)) ≡ false = ground (arith, long) in
      rw (large, differs) refl
]
