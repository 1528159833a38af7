-- ===== src/Tsp/Titanic/Passes.antt =====
-- 9.TSP-Titanic Service Protocol/titanic/titanic.cpp: what a pass keeps of the files and of the queue.
use zero_mq_rfc_implementati.Base.{
  ◌≡◌, refl, ◌∙◌, sym, ap, subst, Bytes, c_str, ◌==◌, ==_refl, Bool, true, false, not, Option-cases,
  none, some, List, [], ◌∷◌, if◌then◌else◌, nat_eq, Result, Result-cases, ok, err, ◌>>=◌, inl, inr,
  ◌⊎◌, arith,
}
use zero_mq_rfc_implementati.Base.Dict.{contains, lookup-assign, lookup-erase}
use zero_mq_rfc_implementati.Base.Zmqpp.{Message, Zmqpp, parts, get_text, take_text, push_back}
use zero_mq_rfc_implementati.Utils.Files.{save, load}
use zero_mq_rfc_implementati.Mdp.Protocol.{mmi_service, mmi_found}
use zero_mq_rfc_implementati.Tsp.Directory.{
  FileSystem, Directory, file, req_path, rep_path, read, exists, write, remove, contents,
}
use zero_mq_rfc_implementati.Tsp.Workers.{success_by}
use zero_mq_rfc_implementati.Tsp.Queue.Scan.{Entry, serve_all}
use zero_mq_rfc_implementati.Tsp.Titanic.{serve}

module _ ⦃f : FileSystem⦄ where
  pub exists-write :
      (q p text : Bytes) (fs : Directory)
      → exists p (write q text fs) ≡ (if file q == file p then true else exists p fs)
  unfolding exists write contains
  exists-write q p text fs = ground (arith, lookup-assign (file q) (file p) text fs)

  pub exists-remove :
      (q p : Bytes) (fs : Directory)
      → exists p (remove q fs) ≡ (if file q == file p then false else exists p fs)
  unfolding exists remove contains
  exists-remove q p fs = ground (arith, lookup-erase (file q) (file p) fs)

  -- Every file of the one directory is in the other.
  abbrev pub Within : Directory → Directory → Type 0
  Within fs gs = (p : Bytes) → exists p fs ≡ true → exists p gs ≡ true

  pub Within-write : (q text : Bytes) (fs : Directory) → Within fs (write q text fs)
  Within-write q text fs p h = ground (arith, exists-write q p text fs)

  pub exists-write_self : (q text : Bytes) (fs : Directory) → exists q (write q text fs) ≡ true
  exists-write_self q text fs = ground (arith, exists-write q q text fs, ==_refl (file q))

  -- The directories have the same files but for the reply's.
  abbrev pub SameBut : Bytes → Directory → Directory → Type 0
  SameBut u fs gs = (p : Bytes) → (file (rep_path u) == file p) ≡ false → exists p gs ≡ exists p fs

  -- What `success_by` does to the files: it removes none and adds the reply's at most, and it
  -- succeeds only with a reply.
  abbrev pub Served : Bytes → Bool → Directory → Directory → Type 0
  Served u success fs gs =
      Within fs gs × ((success ≡ false) ⊎ (exists (rep_path u) gs ≡ true)) × SameBut u fs gs

  module _ (u : Bytes) (fs : Directory) where
    abbrev Leads : Result (Bool × Directory) → Type 0
    Leads r = (b : Bool) (gs : Directory) → r ≡ ok (b, gs) → Served u b fs gs

    Leads-bind {ℓ} :
        {A : Type ℓ} (m : Result A) (k : A → Result (Bool × Directory))
        → ((a : A) → Leads (k a))
        → Leads (m >>= k)
    Leads-bind (err x) k h b gs e = cc
    Leads-bind (ok a) k h b gs e = h a b gs e

    Leads-if :
        (c : Bool) (r r' : Result (Bool × Directory))
        → Leads r
        → Leads r'
        → Leads (if c then r else r')
    Leads-if true r r' h h' = h
    Leads-if false r r' h h' = h'

    Leads-failure : Leads (ok (false, fs))
    Leads-failure b gs e =
        let of_b : false ≡ b = cc in
        let of_fs : fs ≡ gs = cc in
        (
          λ p h. subst (λ d. exists p d ≡ true) of_fs h,
          inl (sym of_b),
          λ p o. ap (exists p) (sym of_fs),
        )

    Leads-success : (text : Bytes) → Leads (ok (true, write (rep_path u) text fs))
    Leads-success text b gs e =
        let of_fs : write (rep_path u) text fs ≡ gs = cc in
        (
          λ p h. subst (λ d. exists p d ≡ true) of_fs (Within-write (rep_path u) text fs p h),
          inr (
              subst (λ d. exists (rep_path u) d ≡ true) of_fs
                (exists-write_self (rep_path u) text fs)),
          λ p o. ap (exists p) (sym of_fs) ∙ exists-write (rep_path u) p text fs ∙ rw o refl,
        )

    Leads-reply :
        (c : Bool) (text : Bytes)
        → Leads (ok (if c then (false, fs) else (true, write (rep_path u) text fs)))
    Leads-reply true text = Leads-failure
    Leads-reply false text = Leads-success text

  -- An identifier that the queue holds, pending or with its reply.
  abbrev pub Queued : Bytes → List Entry → Directory → Type 0
  Queued u [] fs = ⊥
  Queued u ((pending, v) ∷ es) fs =
      ((v ≡ u) × ((pending ≡ true) ⊎ (exists (rep_path u) fs ≡ true))) ⊎ Queued u es fs

  pub Queued-mono :
      (u : Bytes) (es : List Entry) (fs gs : Directory)
      → (exists (rep_path u) fs ≡ true → exists (rep_path u) gs ≡ true)
      → Queued u es fs
      → Queued u es gs
  Queued-mono u [] fs gs h q = q
  Queued-mono u ((p, v) ∷ es) fs gs h (inl (same, inl pending)) = inl (same, inl pending)
  Queued-mono u ((p, v) ∷ es) fs gs h (inl (same, inr replied)) = inl (same, inr (h replied))
  Queued-mono u ((p, v) ∷ es) fs gs h (inr q) = inr (Queued-mono u es fs gs h q)

module _ ⦃z : Zmqpp⦄ ⦃f : FileSystem⦄ where
  pub success_by-Served :
      (call : Bytes → Message → Result Message) (u : Bytes) (fs gs : Directory) (b : Bool)
      → success_by call u fs ≡ ok (b, gs)
      → Served u b fs gs
  unfolding success_by
  success_by-Served call u fs gs b =
      let at_request = take_text (load (contents (read (req_path u) fs))) in
      Leads-bind u fs at_request _
        (λ r. Leads-bind u fs (call mmi_service (push_back [] (c_str r.0))) _ (λ m.
          Leads-if u fs (nat_eq (parts m) 0) (ok (false, fs)) _ (Leads-failure u fs) (
            Leads-bind u fs (get_text m 0) _ (λ status.
              Leads-if u fs (status == mmi_found) _ (ok (false, fs))
                (Leads-bind u fs (call (c_str r.0) r.1) _
                  (λ a. Leads-reply u fs (nat_eq (parts a) 0) (save a)))
                (Leads-failure u fs)))))
        b gs

  pub serve-Served :
      (call : Bytes → Message → Result Message) (u : Bytes) (fs gs : Directory)
      → (serve call u (some fs)).1 ≡ some gs
      → Served u (serve call u (some fs)).0 fs gs
  unfolding serve
  serve-Served call u fs gs h = elim (Result-cases (success_by call u fs)) [
    | inr (x, e) ↦ cc (rw (e, serve) at h)
    | inl ((b, gs'), e) ↦
        let same : some gs' ≡ some gs = rw (e, serve) at h in
        rw (e, serve) (success_by-Served call u fs gs b (e ∙ ap (λ d. ok (b, d)) (cc same)))
  ]

  pub serve_all-none :
      (call : Bytes → Message → Result Message) (es : List Entry)
      → (serve_all (serve call) es none).1 ≡ none
  unfolding serve
  serve_all-none call [] = refl
  serve_all-none call ((true, u) ∷ es) = serve_all-none call es
  serve_all-none call ((false, u) ∷ es) = serve_all-none call es

  head-Queued :
      (call : Bytes → Message → Result Message) (v u : Bytes) (success : Bool)
      (fs fs₁ gs : Directory)
      → Served v success fs fs₁
      → Within fs₁ gs
      → v ≡ u
      → (not success ≡ true) ⊎ (exists (rep_path u) gs ≡ true)
  head-Queued call v u success fs fs₁ gs (kept, inl failed, others) within same =
      inl (rw failed refl)
  head-Queued call v u success fs fs₁ gs (kept, inr replied, others) within same =
      inr (within (rep_path u) (subst (λ x. exists (rep_path x) fs₁ ≡ true) same replied))

  -- A pass that does not end the program removes no file, and each identifier that the queue held stays
  -- there, pending or with its reply.
  pub serve_all-keeps :
      (call : Bytes → Message → Result Message) (es : List Entry) (fs gs : Directory)
      → (serve_all (serve call) es (some fs)).1 ≡ some gs
      → Within fs gs
        × ((u : Bytes) → Queued u es fs → Queued u (serve_all (serve call) es (some fs)).0 gs)
  serve_all-keeps call [] fs gs h =
      (λ p e. subst (λ d. exists p d ≡ true) (cc h) e, λ u q. absurd q)
  serve_all-keeps call ((false, v) ∷ es) fs gs h =
      let (within, keeps) = serve_all-keeps call es fs gs h in
      (
        within,
        λ u q. elim q [
          | inl (same, inl pending) ↦ cc
          | inl (same, inr replied) ↦ inl (same, inr (within (rep_path u) replied))
          | inr q' ↦ inr (keeps u q')
        ],
      )
  serve_all-keeps call ((true, v) ∷ es) fs gs h = elim (Option-cases (serve call v (some fs)).1) [
    | inl died ↦ cc (rw (died, serve_all-none call es) at h)
    | inr (fs₁, e) ↦
        let of_v = serve-Served call v fs fs₁ e in
        let (within, keeps) = serve_all-keeps call es fs₁ gs (rw e at h) in
        (
          λ p h'. within p (of_v.0 p h'),
          λ u q. elim q [
            | inl (same, was) ↦
                inl
                  (same, head-Queued call v u (serve call v (some fs)).0 fs fs₁ gs of_v within same)
            | inr q' ↦ rw e (inr (keeps u (Queued-mono u es fs fs₁ (of_v.0 (rep_path u)) q')))
          ],
        )
  ]
