-- ===== src/Tsp/PlainFiles.antt =====
-- A concrete file system, for tests: each path names a file of its own.
use zero_mq_rfc_implementati.Base.{
  ℕ, zero, suc, Bytes, codes, c_str, IsPlain, c_str-of_IsPlain, ◌==◌, ==_iff, false, Bool-cases,
  inl, inr, [], ◌∷◌, ◌++◌, ◌≡◌, refl, ◌∙◌, sym, ap, arith,
}
use zero_mq_rfc_implementati.Tsp.Directory.{FileSystem, req_path, rep_path}

abbrev last_or : ℕ → Bytes → ℕ
last_or d [] = d
last_or d (c ∷ cs) = last_or c cs

last_or-append : (d c : ℕ) (xs ys : Bytes) → last_or d (xs ++ c ∷ ys) ≡ last_or c ys
last_or-append d c [] ys = refl
last_or-append d c (x ∷ xs) ys = last_or-append x c xs ys

IsPlain-append : (xs ys : Bytes) → IsPlain xs → IsPlain ys → IsPlain (xs ++ ys)
IsPlain-append [] ys hx hy = hy
IsPlain-append (zero ∷ xs) ys hx hy = hx
IsPlain-append (suc x ∷ xs) ys hx hy = IsPlain-append xs ys hx hy

c_str-req_path : (uuid : Bytes) → IsPlain uuid → c_str (req_path uuid) ≡ req_path uuid
c_str-req_path uuid h = c_str-of_IsPlain (req_path uuid) (
    IsPlain-append (codes ".titanic/") (uuid ++ codes ".req") tt
      (IsPlain-append uuid (codes ".req") h tt))

c_str-rep_path : (uuid : Bytes) → IsPlain uuid → c_str (rep_path uuid) ≡ rep_path uuid
c_str-rep_path uuid h = c_str-of_IsPlain (rep_path uuid) (
    IsPlain-append (codes ".titanic/") (uuid ++ codes ".rep") tt
      (IsPlain-append uuid (codes ".rep") h tt))

last-req : (uuid : Bytes) → last_or 0 (req_path uuid) ≡ b'q'
last-req uuid = last_or-append b'/' b'.' uuid (codes "req")

last-rep : (uuid : Bytes) → last_or 0 (rep_path uuid) ≡ b'p'
last-rep uuid = last_or-append b'/' b'.' uuid (codes "rep")

req_path-rep_path : (u v : Bytes) → (req_path u == rep_path v) ≡ false
req_path-rep_path u v = elim (Bool-cases (req_path u == rep_path v)) [
  | inl same ↦
      let e = ap (last_or 0) ((==_iff (req_path u) (rep_path v)).0 same) in
      absurd (omega (arith, sym (last-req u) ∙ e ∙ last-rep v))
  | inr other ↦ other
]

pub req_rep-plain :
    (u v : Bytes) → IsPlain u → IsPlain v → (c_str (req_path u) == c_str (rep_path v)) ≡ false
req_rep-plain u v plain_u plain_v =
    ap (λ p. p == c_str (rep_path v)) (c_str-req_path u plain_u)
    ∙ ap (λ p. req_path u == p) (c_str-rep_path v plain_v)
    ∙ req_path-rep_path u v

instance abbrev pub plain_files : FileSystem
plain_files = record { file_of = λ path. path; req_rep_lem = req_rep-plain }
