-- ===== src/Tsp/Queue/Scan.antt =====
-- 9.TSP-Titanic Service Protocol/titanic/titanic.cpp: what a pass over the queue file does.
use zero_mq_rfc_implementati.Base.{
  ℕ, zero, suc, ◌+◌, ◌*◌, ◌≤◌, Bytes, Bool, true, false, Bool-cases, not, List, [], ◌∷◌, ◌++◌,
  append_assoc, append-nil, length, length-append, ltb, if◌then◌else◌, All, ◌≡◌, refl, ◌∙◌, sym, ap,
  arith, inl, inr,
}
use zero_mq_rfc_implementati.Tsp.Queue.{
  uuid_length, take, drop, put_at, Stream, read_at, process, step, scan_from, scan, zeros,
}

-- An entry of the queue: whether it is pending, and its identifier.
abbrev pub Entry : Type 0
Entry = Bool × Bytes

abbrev pub mark : Bool → ℕ
mark pending = if pending then b'-' else b'+'

-- The file of a queue whose lines end in the two bytes `cr` and `lf`.
abbrev pub encode : ℕ → ℕ → List Entry → Bytes
encode cr lf [] = []
encode cr lf ((p, u) ∷ es) = (mark p ∷ u) ++ cr ∷ lf ∷ encode cr lf es

abbrev pub IsEntry : Entry → Type 0
IsEntry e = length e.1 ≡ 36

-- A stream that has not failed.
abbrev pub fresh : Bytes → Bytes → Stream
fresh file buffer = record { file = file; uuid = buffer; failed = false }

pub drop-append : (xs ys : Bytes) → drop (length xs) (xs ++ ys) ≡ ys
drop-append [] ys = refl
drop-append (x ∷ xs) ys = drop-append xs ys

pub take-append : (xs ys : Bytes) → take (length xs) (xs ++ ys) ≡ xs
take-append [] ys = refl
take-append (x ∷ xs) ys = ap (λ zs. x ∷ zs) (take-append xs ys)

put_at-append : (xs ys : Bytes) (b c : ℕ) → put_at (length xs) b (xs ++ c ∷ ys) ≡ xs ++ b ∷ ys
put_at-append [] ys b c = refl
put_at-append (x ∷ xs) ys b c = ap (λ zs. x ∷ zs) (put_at-append xs ys b c)

pub drop-all : (xs : Bytes) → drop (length xs) xs ≡ []
drop-all [] = refl
drop-all (x ∷ xs) = drop-all xs

length-encode :
    (cr lf : ℕ) (es : List Entry) → All IsEntry es → length (encode cr lf es) ≡ 39 * length es
length-encode cr lf [] h = omega arith
length-encode cr lf ((p, u) ∷ es) h =
    omega (arith, length-append u (cr ∷ lf ∷ encode cr lf es), h.0, length-encode cr lf es h.1)

line_end :
    (cr lf c : ℕ) (done u tail : Bytes)
    → done ++ c ∷ (u ++ cr ∷ lf ∷ tail) ≡ (done ++ c ∷ (u ++ cr ∷ lf ∷ [])) ++ tail
line_end cr lf c done u tail = sym (
    append_assoc done (c ∷ (u ++ cr ∷ lf ∷ [])) tail
    ∙ ap (λ x. done ++ c ∷ x) (append_assoc u (cr ∷ lf ∷ []) tail))

module _ {ℓ} {S : Type ℓ} (service : Bytes → S → Bool × S) where
  -- What becomes of an entry.
  abbrev pub served : Entry → S → Entry × S
  served (false, u) w = ((false, u), w)
  served (true, u) w = let (success, w') = service u w in ((not success, u), w')

  -- Each entry in turn.
  abbrev pub serve_all : List Entry → S → List Entry × S
  serve_all [] w = ([], w)
  serve_all (e ∷ es) w =
      let (e', w') = served e w in let (es', w'') = serve_all es w' in (e' ∷ es', w'')

  pub read_at-entry :
      (done rest buffer : Bytes) (c : ℕ) (u : Bytes)
      → length u ≡ 36
      → length buffer ≡ 37
      → read_at (length done) (fresh (done ++ c ∷ (u ++ rest)) buffer)
        ≡ fresh (done ++ c ∷ (u ++ rest)) (c ∷ u)
  unfolding read_at
  read_at-entry done rest buffer c u h hb =
      let long : length (c ∷ u) ≡ 37 = omega (arith, h) in
      let got : take uuid_length (drop (length done) (done ++ c ∷ (u ++ rest))) ≡ c ∷ u =
        ap (take uuid_length) (drop-append done (c ∷ (u ++ rest)))
        ∙ ap (λ n. take n (c ∷ (u ++ rest))) (sym long)
        ∙ take-append (c ∷ u) rest in
      let none_left : drop (length (c ∷ u)) buffer ≡ [] =
        ap (λ n. drop n buffer) (long ∙ sym hb) ∙ drop-all buffer in
      let enough : ltb (length (c ∷ u)) uuid_length ≡ false = ground (arith, long) in
      rw (got, none_left, enough, append-nil) refl

  pub process-entry :
      (done rest : Bytes) (p : Bool) (u : Bytes) (w : S)
      → process service (length done) (fresh (done ++ mark p ∷ (u ++ rest)) (mark p ∷ u)) w ≡ (
        fresh (done ++ mark (served (p, u) w).0.0 ∷ (u ++ rest)) (mark p ∷ u),
        (served (p, u) w).1,
      )
  unfolding process
  process-entry done rest false u w = refl
  process-entry done rest true u w = elim (Bool-cases (service u w).0) [
    | inl success ↦ rw success (
        ap (λ f. (fresh f (mark true ∷ u), (service u w).1))
          (put_at-append done (u ++ rest) b'+' b'-'))
    | inr failure ↦ rw failure refl
  ]

  pub step-entry :
      (done rest buffer : Bytes) (p : Bool) (u : Bytes) (w : S)
      → length u ≡ 36
      → length buffer ≡ 37
      → step service (length done) (fresh (done ++ mark p ∷ (u ++ rest)) buffer) w ≡ (
        fresh (done ++ mark (served (p, u) w).0.0 ∷ (u ++ rest)) (mark p ∷ u),
        (served (p, u) w).1,
      )
  unfolding step
  step-entry done rest buffer p u w h hb =
      ap (λ s. process service (length done) s w) (read_at-entry done rest buffer (mark p) u h hb)
      ∙ process-entry done rest p u w

  served-uuid : (e : Entry) (w : S) → (served e w).0.1 ≡ e.1
  served-uuid (false, u) w = refl
  served-uuid (true, u) w = refl

  pub scan_from-over :
      (fuel size pos : ℕ) (s : Stream) (w : S)
      → ltb pos size ≡ false
      → scan_from service (suc fuel) size pos s w ≡ (s, w)
  unfolding scan_from
  scan_from-over fuel size pos s w h = rw (scan_from, h) refl

  pub scan_from-within :
      (fuel size pos : ℕ) (s : Stream) (w : S)
      → ltb pos size ≡ true
      → scan_from service (suc fuel) size pos s w
        ≡ scan_from service fuel size
            (pos + uuid_length + 2)
            (step service pos s w).0
            (step service pos s w).1
  unfolding scan_from
  scan_from-within fuel size pos s w h = rw (scan_from, h) refl

  -- With as many rounds as bytes are left, one more changes nothing.
  scan_from-enough :
      (fuel size pos : ℕ) (s : Stream) (w : S)
      → size ≤ pos + fuel
      → scan_from service (suc fuel) size pos s w ≡ scan_from service fuel size pos s w
  scan_from-enough zero size pos s w h =
      scan_from-over 0 size pos s w (ground (arith, h)) ∙ unfold scan_from in refl
  scan_from-enough (suc fuel) size pos s w h = elim (Bool-cases (ltb pos size)) [
    | inl within ↦
        scan_from-within (suc fuel) size pos s w within
        ∙ scan_from-enough fuel size (pos + uuid_length + 2) (step service pos s w).0
            (step service pos s w).1 (omega (arith, h))
        ∙ sym (scan_from-within fuel size pos s w within)
    | inr over ↦
        scan_from-over (suc fuel) size pos s w over ∙ sym (scan_from-over fuel size pos s w over)
  ]

  scan_from-entries :
      (cr lf fuel size : ℕ) (done buffer : Bytes) (es : List Entry) (w : S)
      → length buffer ≡ 37
      → All IsEntry es
      → size ≡ length done + 39 * length es
      → length es ≤ fuel
      → (b : Bytes) × (scan_from service fuel size
            (length done)
            (fresh (done ++ encode cr lf es) buffer)
            w
          ≡ (fresh (done ++ encode cr lf (serve_all es w).0) b, (serve_all es w).1))
  scan_from-entries cr lf zero size done buffer [] w hb he hs hf =
      (buffer, unfold scan_from in refl)
  scan_from-entries cr lf zero size done buffer (e ∷ es) w hb he hs hf = absurd (omega (arith, hf))
  scan_from-entries cr lf (suc fuel) size done buffer [] w hb he hs hf =
      let over : ltb (length done) size ≡ false = ground (arith, hs) in
      (buffer, scan_from-over fuel size (length done) (fresh (done ++ []) buffer) w over)
  scan_from-entries cr lf (suc fuel) size done buffer ((p, u) ∷ es) w hb he hs hf =
      let within : ltb (length done) size ≡ true = ground (arith, hs) in
      let rest = cr ∷ lf ∷ encode cr lf es in
      let w' = (served (p, u) w).1 in
      let c = mark (served (p, u) w).0.0 in
      let line = c ∷ (u ++ cr ∷ lf ∷ []) in
      let done' = done ++ line in
      let long : length (u ++ cr ∷ lf ∷ []) ≡ 38 =
        omega (arith, length-append u (cr ∷ lf ∷ []), he.0) in
      let pos : length (done ++ line) ≡ length done + 37 + 2 =
        omega (arith, length-append done line, long) in
      let (b, e) =
        scan_from-entries cr lf fuel size done' (mark p ∷ u) es w' (omega (arith, he.0)) he.1
          (omega (arith, pos, hs)) (omega (arith, hf)) in
      let start = fresh (done ++ mark p ∷ (u ++ rest)) buffer in
      (
        b,
        scan_from-within fuel size (length done) start w within
            ∙ ap (λ r. scan_from service fuel size (length done + uuid_length + 2) r.0 r.1)
                (step-entry done rest buffer p u w he.0 hb)
            ∙ ap
                (λ i.
                  scan_from service fuel size i (fresh (done ++ c ∷ (u ++ rest)) (mark p ∷ u)) w')
                (sym pos)
            ∙ ap (λ f. scan_from service fuel size (length done') (fresh f (mark p ∷ u)) w')
                (line_end cr lf c done u (encode cr lf es))
            ∙ e
            ∙ ap (λ f. (fresh f b, (serve_all es w').1))
                (sym (line_end cr lf c done u (encode cr lf (serve_all es w').0))
                  ∙ ap (λ v. done ++ c ∷ (v ++ cr ∷ lf ∷ encode cr lf (serve_all es w').0))
                      (sym (served-uuid (p, u) w))),
      )

  -- A pass over a queue file whose lines end in two bytes: each pending entry is served once, in the
  -- order of the file, and it is marked as done if that succeeds; the others stay as they are, and so does
  -- all the rest of the file. Each identifier has 36 bytes.
  pub scan-encode :
      (cr lf : ℕ) (es : List Entry) (w : S)
      → All IsEntry es
      → scan service (encode cr lf es) w ≡ (encode cr lf (serve_all es w).0, (serve_all es w).1)
  unfolding scan
  scan-encode cr lf es w h =
      let size = length (encode cr lf es) in
      let full : size ≡ 0 + 39 * length es = omega (arith, length-encode cr lf es h) in
      let (b, e) =
        scan_from-entries cr lf size size [] (zeros 37) es w refl h full (omega (arith, full)) in
      ap (λ r. (r.0.file, r.1)) e
