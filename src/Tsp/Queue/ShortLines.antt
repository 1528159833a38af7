-- ===== src/Tsp/Queue/ShortLines.antt =====
-- 9.TSP-Titanic Service Protocol/titanic/titanic.cpp: a pass over a queue file whose lines end in one
-- byte, as they do where streams do not translate the end of line.
use zero_mq_rfc_implementati.Base.{
  ℕ, Bytes, Bool, true, false, not, [], ◌∷◌, ◌++◌, append_assoc, append-nil, length, length-append,
  ltb, ◌≡◌, ◌≢◌, refl, ◌∙◌, sym, ap, arith,
}
use zero_mq_rfc_implementati.Tsp.Queue.{
  uuid_length, take, drop, read_at, is_pending, process, step, scan_from, scan, zeros,
}
use zero_mq_rfc_implementati.Tsp.Queue.Scan.{
  mark, fresh, drop-append, take-append, drop-all, step-entry, scan_from-within, scan_from-over,
}

-- The file of two pending entries, the second identifier without its first byte.
abbrev pub two_entries : ℕ → Bytes → ℕ → Bytes → Bytes
two_entries lf u c v = (b'-' ∷ u) ++ lf ∷ b'-' ∷ c ∷ (v ++ lf ∷ [])

abbrev pub first_done : ℕ → Bytes → ℕ → Bytes → Bool → Bytes
first_done lf u c v success = (mark (not success) ∷ u) ++ lf ∷ b'-' ∷ c ∷ (v ++ lf ∷ [])

length-two :
    (d lf c : ℕ) (u v : Bytes)
    → length u ≡ 36
    → length v ≡ 35
    → length ((d ∷ u) ++ lf ∷ b'-' ∷ c ∷ (v ++ lf ∷ [])) ≡ 76
length-two d lf c u v h k =
    omega (arith, length-append u (lf ∷ b'-' ∷ c ∷ (v ++ lf ∷ [])), length-append v (lf ∷ []), h, k)

read_at-second :
    (lf d c : ℕ) (u v buffer : Bytes)
    → length u ≡ 36
    → length v ≡ 35
    → length buffer ≡ 37
    → read_at 39 (fresh ((d ∷ u) ++ lf ∷ b'-' ∷ c ∷ (v ++ lf ∷ [])) buffer)
      ≡ fresh ((d ∷ u) ++ lf ∷ b'-' ∷ c ∷ (v ++ lf ∷ [])) (c ∷ (v ++ lf ∷ []))
unfolding read_at
read_at-second lf d c u v buffer h k hb =
    let front = (d ∷ u) ++ lf ∷ b'-' ∷ [] in
    let back = c ∷ (v ++ lf ∷ []) in
    let front_long : length front ≡ 39 = omega (arith, length-append u (lf ∷ b'-' ∷ []), h) in
    let back_long : length back ≡ 37 = omega (arith, length-append v (lf ∷ []), k) in
    let file : (d ∷ u) ++ lf ∷ b'-' ∷ back ≡ front ++ back =
      sym (append_assoc (d ∷ u) (lf ∷ b'-' ∷ []) back) in
    let got : take uuid_length (drop 39 ((d ∷ u) ++ lf ∷ b'-' ∷ back)) ≡ back =
      ap (λ x. take uuid_length (drop 39 x)) file
      ∙ ap (λ n. take uuid_length (drop n (front ++ back))) (sym front_long)
      ∙ ap (take uuid_length) (drop-append front back)
      ∙ ap (λ n. take n back) (sym back_long)
      ∙ ap (take (length back)) (sym (append-nil back))
      ∙ take-append back [] in
    let none_left : drop (length back) buffer ≡ [] =
      ap (λ n. drop n buffer) (back_long ∙ sym hb) ∙ drop-all buffer in
    let enough : ltb (length back) uuid_length ≡ false = ground (arith, back_long) in
    rw (got, none_left, enough, append-nil) refl

module _ {ℓ} {S : Type ℓ} (service : Bytes → S → Bool × S) where
  process-not_pending :
      (file buffer : Bytes) (pos : ℕ) (w : S)
      → is_pending buffer ≡ false
      → process service pos (fresh file buffer) w ≡ (fresh file buffer, w)
  unfolding process
  process-not_pending file buffer pos w h = rw h refl

  -- A pass over two pending entries whose lines end in one byte: the first is served, and marked if that
  -- succeeds. The second is not served and not marked, unless its identifier starts with '-' itself:
  -- the pass reads it from its second byte on.
  pub scan-two_entries :
      (lf c : ℕ) (u v : Bytes) (w : S)
      → length u ≡ 36
      → length v ≡ 35
      → c ≢ b'-'
      → scan service (two_entries lf u c v) w
        ≡ (first_done lf u c v (service u w).0, (service u w).1)
  unfolding scan
  scan-two_entries lf c u v w h k n =
      let rest = lf ∷ b'-' ∷ c ∷ (v ++ lf ∷ []) in
      let back = c ∷ (v ++ lf ∷ []) in
      let d = mark (not (service u w).0) in
      let w' = (service u w).1 in
      let file' = (d ∷ u) ++ rest in
      let buffer = b'-' ∷ u in
      let run = λ (i : ℕ). scan_from service i i 0 (fresh (two_entries lf u c v) (zeros 37)) w in
      let second : step service 39 (fresh file' buffer) w' ≡ (fresh file' back, w') =
        ap (λ s. process service 39 s w') (read_at-second lf d c u v buffer h k (omega (arith, h)))
        ∙ process-not_pending file' back 39 w' (ground (arith, n)) in
      ap (λ r. (r.0.file, r.1))
        (ap run (length-two b'-' lf c u v h k)
          ∙ scan_from-within service 75 76 0 (fresh (two_entries lf u c v) (zeros 37)) w refl
          ∙ ap (λ r. scan_from service 75 76 39 r.0 r.1)
              (step-entry service [] rest (zeros 37) true u w h refl)
          ∙ scan_from-within service 74 76 39 (fresh file' buffer) w' refl
          ∙ ap (λ r. scan_from service 74 76 78 r.0 r.1) second
          ∙ scan_from-over service 73 76 78 (fresh file' back) w' refl)
