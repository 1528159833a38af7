-- ===== src/Tsp/Titanic/Closed.antt =====
-- 9.TSP-Titanic Service Protocol/titanic: a request that is closed while it is pending.
use zero_mq_rfc_implementati.Base.{
  ◌≡◌, refl, ◌∙◌, sym, ap, subst, Bytes, IsPlain, ==_refl, true, false, Option-cases, none, some,
  List, [], ◌∷◌, All, Result, ok, err, missing_part, inl, inr,
}
use zero_mq_rfc_implementati.Base.Dict.{contains}
use zero_mq_rfc_implementati.Base.Zmqpp.{Message, Zmqpp, get_text_zero, take_text-nil}
use zero_mq_rfc_implementati.Tsp.Directory.{
  FileSystem, file, rep_req_differ, Directory, req_path, rep_path, read, exists, remove,
}
use zero_mq_rfc_implementati.Tsp.Workers.{success_by, on_close}
use zero_mq_rfc_implementati.Tsp.Queue.{scan}
use zero_mq_rfc_implementati.Tsp.Queue.Scan.{Entry, IsEntry, encode, serve_all, scan-encode}
use zero_mq_rfc_implementati.Tsp.Titanic.{serve}
use zero_mq_rfc_implementati.Tsp.Titanic.Passes.{exists-remove, serve_all-none, serve-Served}
use zero_mq_rfc_implementati.Tsp.Titanic.Safety.{Pending}

read-of_absent :
    ⦃f : FileSystem⦄ (p : Bytes) (fs : Directory) → exists p fs ≡ false → read p fs ≡ none
unfolding exists read contains
read-of_absent p fs h = elim (Option-cases (read p fs)) [ inl e ↦ e | inr (text, e) ↦ cc (e, h) ]

exists-close_self :
    ⦃f : FileSystem⦄ (u : Bytes) (fs : Directory)
    → IsPlain u
    → exists (req_path u) (remove (rep_path u) (remove (req_path u) fs)) ≡ false
exists-close_self u fs plain =
    exists-remove (rep_path u) (req_path u) (remove (req_path u) fs)
    ∙ rw (rep_req_differ u u plain plain)
        (exists-remove (req_path u) (req_path u) fs ∙ rw (==_refl (file (req_path u))) refl)

module _ ⦃z : Zmqpp⦄ ⦃f : FileSystem⦄ (call : Bytes → Message → Result Message) where
  success_by-absent :
      (u : Bytes) (fs : Directory)
      → exists (req_path u) fs ≡ false
      → success_by call u fs ≡ err missing_part
  unfolding success_by
  success_by-absent u fs h = rw (read-of_absent (req_path u) fs h) (rw take_text-nil refl)

  serve-absent :
      (u : Bytes) (fs : Directory)
      → exists (req_path u) fs ≡ false
      → (serve call u (some fs)).1 ≡ none
  unfolding serve
  serve-absent u fs h = rw (success_by-absent u fs h, serve) refl

  serve_all-absent :
      (u : Bytes) (plain : IsPlain u) (es : List Entry) (fs : Directory)
      → All (λ e. IsPlain e.1) es
      → Pending u es
      → exists (req_path u) fs ≡ false
      → (serve_all (serve call) es (some fs)).1 ≡ none
  serve_all-absent u plain [] fs plains p h = absurd p
  serve_all-absent u plain ((false, v) ∷ es) fs plains (inl (same, pending)) h = cc
  serve_all-absent u plain ((false, v) ∷ es) fs plains (inr p) h =
      serve_all-absent u plain es fs plains.1 p h
  serve_all-absent u plain ((true, v) ∷ es) fs plains (inl (same, pending)) h =
      rw (serve-absent v fs (subst (λ x. exists (req_path x) fs ≡ false) (sym same) h))
        (serve_all-none call es)
  serve_all-absent u plain ((true, v) ∷ es) fs plains (inr p) h =
      elim (Option-cases (serve call v (some fs)).1) [
        | inl died ↦ rw died (serve_all-none call es)
        | inr (fs₁, e) ↦ rw e (
            serve_all-absent u plain es fs₁ plains.1 p (
              (serve-Served call v fs fs₁ e).2 (req_path u) (rep_req_differ v u plains.0 plain)
              ∙ h))
      ]

  -- Closing a request while its entry in the queue file is pending makes the next pass end the program,
  -- whatever the services answer and whatever else is in the queue: there is no file to read its
  -- service from. The identifiers have no zero byte and 36 bytes in the queue.
  pub close-pass :
      (u : Bytes) (m rep : Message) (es : List Entry) (fs gs : Directory)
      → IsPlain u
      → All IsEntry es
      → All (λ e. IsPlain e.1) es
      → Pending u es
      → on_close (u ∷ m) fs ≡ ok (gs, rep)
      → (scan (serve call) (encode 13 10 es) (some gs)).1 ≡ none
  unfolding on_close
  close-pass u m rep es fs gs plain sized plains p h =
      let done : remove (rep_path u) (remove (req_path u) fs) ≡ gs =
        cc (rw (get_text_zero u m) at h) in
      let gone : exists (req_path u) gs ≡ false =
        subst (λ d. exists (req_path u) d ≡ false) done (exists-close_self u fs plain) in
      ap (λ r. r.1) (scan-encode (serve call) 13 10 es (some gs) sized)
      ∙ serve_all-absent u plain es gs plains p gone
