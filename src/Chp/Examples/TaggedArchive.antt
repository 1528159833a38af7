-- ===== src/Chp/Examples/TaggedArchive.antt =====
-- A concrete archive for tests: each byte of a key stands behind a 1 and each byte of a value behind a
-- 2, and each entry and the whole begin with a 0.
use zero_mq_rfc_implementati.Base.{
  ℕ, zero, suc, Bytes, [], ◌∷◌, ◌++◌, Result, ok, err, bad_value, ◌≡◌, refl, ap, ◌∙◌, append-nil,
}
use zero_mq_rfc_implementati.Base.Dict.{Dict}
use zero_mq_rfc_implementati.Chp.Archive.{Archive}

abbrev tag : ℕ → Bytes → Bytes → Bytes
tag t [] rest = rest
tag t (b ∷ bs) rest = t ∷ b ∷ tag t bs rest

abbrev entries : Dict Bytes → Bytes
entries [] = []
entries ((k, v) ∷ d) = 0 ∷ tag 1 k (tag 2 v (entries d))

-- The rest of a key, the rest of a value, and the entries behind them.
abbrev Parsed : Type 0
Parsed = Bytes × Bytes × Dict Bytes

abbrev entry : Parsed → Parsed
entry p = ([], [], (p.0, p.1) ∷ p.2)

abbrev parse : Bytes → Parsed
parse (zero ∷ cs) = entry (parse cs)
parse (suc zero ∷ b ∷ cs) = let p = parse cs in (b ∷ p.0, p.1, p.2)
parse (suc (suc zero) ∷ b ∷ cs) = let p = parse cs in (p.0, b ∷ p.1, p.2)
parse _ = ([], [], [])

abbrev decode : Bytes → Result (Dict Bytes)
decode (c ∷ cs) = ok (parse cs).2
decode [] = err bad_value

parse-key :
    (k rest : Bytes) → parse (tag 1 k rest) ≡ (k ++ (parse rest).0, (parse rest).1, (parse rest).2)
parse-key [] rest = refl
parse-key (b ∷ k) rest = ap (λ p. (b ∷ p.0, p.1, p.2)) (parse-key k rest)

parse-value :
    (v rest : Bytes) → parse (tag 2 v rest) ≡ ((parse rest).0, v ++ (parse rest).1, (parse rest).2)
parse-value [] rest = refl
parse-value (b ∷ v) rest = ap (λ p. (p.0, b ∷ p.1, p.2)) (parse-value v rest)

parse-entries : (d : Dict Bytes) → parse (entries d) ≡ ([], [], d)
parse-entries [] = refl
parse-entries ((k, v) ∷ d) =
    ap entry (
      parse-key k (tag 2 v (entries d))
      ∙ ap (λ p. (k ++ p.0, p.1, p.2))
          (parse-value v (entries d) ∙ ap (λ p. (p.0, v ++ p.1, p.2)) (parse-entries d)))
    ∙ rw (append-nil k, append-nil v) refl

pub decode_entries : (d : Dict Bytes) → decode (0 ∷ entries d) ≡ ok d
decode_entries d = ap (λ p. ok p.2) (parse-entries d)

abbrev pub tagged_archive : Archive
tagged_archive = record {
  encode = λ d. 0 ∷ entries d;
  decode = decode;
  encode_lem = λ d. refl;
  decode-encode = decode_entries;
}
