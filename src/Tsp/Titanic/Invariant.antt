-- ===== src/Tsp/Titanic/Invariant.antt =====
-- 9.TSP-Titanic Service Protocol/titanic: what holds of the requests that are not closed, at every step.
use zero_mq_rfc_implementati.Base.{
  ℕ, suc, nat_eq, ◌<◌, ◌≡◌, refl, ◌∙◌, sym, ap, subst, Bytes, Bool, true, false, Bool-cases, some,
  List, [], ◌∷◌, ◌++◌, append_assoc, length, All, All-append, Result, Result-cases, ok, inl, inr,
  ◌⊎◌, arith, if◌then◌else◌,
}
use zero_mq_rfc_implementati.Base.Zmqpp.{Message, Zmqpp, push_back_eq, get_text_zero}
use zero_mq_rfc_implementati.Utils.Files.{save}
use zero_mq_rfc_implementati.Tsp.Directory.{
  FileSystem, Directory, req_path, rep_path, exists, write, remove,
}
use zero_mq_rfc_implementati.Tsp.Workers.{on_request, on_reply, on_close}
use zero_mq_rfc_implementati.Tsp.Queue.{append_uuid, on_pipe, scan}
use zero_mq_rfc_implementati.Tsp.Queue.Scan.{Entry, IsEntry, encode, serve_all, scan-encode}
use zero_mq_rfc_implementati.Tsp.Threads.{Shared, request_handler, reply_handler, close_handler}
use zero_mq_rfc_implementati.Tsp.Titanic.{Titanic, eol, serve}
use zero_mq_rfc_implementati.Tsp.Titanic.Passes.{
  Within, Within-write, exists-write_self, Queued, Queued-mono, serve_all-keeps,
}
use zero_mq_rfc_implementati.Tsp.Titanic.Paths.{Apart, exists-close}

abbrev pub Piped : Bytes → List Message → Type 0
Piped u [] = ⊥
Piped u (m ∷ ms) = (m ≡ u ∷ []) ⊎ Piped u ms

-- No identifier that was closed names a file of this one.
abbrev pub IsOpen : ⦃f : FileSystem⦄ → Bytes → List Bytes → Type 0
IsOpen u closed = All (λ v. Apart v u) closed

abbrev pub IsUuid : Message → Type 0
IsUuid m = (u : Bytes) × (m ≡ u ∷ []) × (length u ≡ 36)

-- A request under way: its file is there, and its identifier is on its way to the queue or in it.
abbrev pub Stored : ⦃f : FileSystem⦄ → Bytes → Directory → List Message → List Entry → Type 0
Stored u fs piped es = (exists (req_path u) fs ≡ true) × (Piped u piped ⊎ Queued u es fs)

-- Each identifier that was drawn and is not closed.
abbrev pub Kept : ⦃f : FileSystem⦄ → (ℕ → Bytes) → Shared → List Bytes → List Entry → Type 0
Kept uuid_at w closed es =
    (n : ℕ) → n < w.drawn → IsOpen (uuid_at n) closed → Stored (uuid_at n) w.fs w.piped es

abbrev pub Inv : ⦃f : FileSystem⦄ → (ℕ → Bytes) → Titanic → Type 0
Inv uuid_at t =
    (es : List Entry) × (t.queue ≡ encode 13 10 es)
    × All IsEntry es
    × All IsUuid t.shared.piped
    × Kept uuid_at t.shared t.closed es

Piped-append : (u : Bytes) (ms ns : List Message) → Piped u ms → Piped u (ms ++ ns)
Piped-append u [] ns h = absurd h
Piped-append u (m ∷ ms) ns (inl e) = inl e
Piped-append u (m ∷ ms) ns (inr h) = inr (Piped-append u ms ns h)

Piped-last : (u : Bytes) (ms : List Message) → Piped u (ms ++ (u ∷ []) ∷ [])
Piped-last u [] = inl refl
Piped-last u (m ∷ ms) = inr (Piped-last u ms)

Queued-append :
    ⦃f : FileSystem⦄ (u : Bytes) (es fs : List Entry) (d : Directory)
    → Queued u es d
    → Queued u (es ++ fs) d
Queued-append u [] fs d h = absurd h
Queued-append u ((p, v) ∷ es) fs d (inl e) = inl e
Queued-append u ((p, v) ∷ es) fs d (inr h) = inr (Queued-append u es fs d h)

Queued-last :
    ⦃f : FileSystem⦄ (u : Bytes) (es : List Entry) (d : Directory)
    → Queued u (es ++ (true, u) ∷ []) d
Queued-last u [] d = inl (refl, inl refl)
Queued-last u ((p, v) ∷ es) d = inr (Queued-last u es d)

encode-append :
    (es : List Entry) (u : Bytes)
    → append_uuid eol u (encode 13 10 es) ≡ encode 13 10 (es ++ (true, u) ∷ [])
unfolding append_uuid
encode-append [] u = refl
encode-append ((p, v) ∷ es) u =
    ap (λ z. (if p then b'-' else b'+') ∷ z)
      (ap (λ z. z ++ eol) (append_assoc v (13 ∷ 10 ∷ encode 13 10 es) (b'-' ∷ u))
        ∙ append_assoc v (13 ∷ 10 ∷ encode 13 10 es ++ b'-' ∷ u) eol
        ∙ ap (λ z. v ++ 13 ∷ 10 ∷ z) (encode-append es u))

serve_all-IsEntry {ℓ} :
    {S : Type ℓ} (service : Bytes → S → Bool × S) (es : List Entry) (w : S)
    → All IsEntry es
    → All IsEntry (serve_all service es w).0
serve_all-IsEntry service [] w h = tt
serve_all-IsEntry service ((true, u) ∷ es) w h =
    (h.0, serve_all-IsEntry service es (service u w).1 h.1)
serve_all-IsEntry service ((false, u) ∷ es) w h = (h.0, serve_all-IsEntry service es w h.1)

lt_suc-cases : (n d : ℕ) → n < suc d → (n ≡ d) ⊎ (n < d)
lt_suc-cases n d h = elim (Bool-cases (nat_eq n d)) [
  | inl e ↦ inl (ground (arith, e))
  | inr e ↦ inr (ground (arith, e))
]

Stored-Within :
    ⦃f : FileSystem⦄ (u : Bytes) (fs gs : Directory) (ms : List Message) (es : List Entry)
    → Within fs gs
    → Stored u fs ms es
    → Stored u gs ms es
Stored-Within u fs gs ms es within (there, inl piped) = (within (req_path u) there, inl piped)
Stored-Within u fs gs ms es within (there, inr queued) =
    (within (req_path u) there, inr (Queued-mono u es fs gs (within (rep_path u)) queued))

Stored-piped :
    ⦃f : FileSystem⦄ (u : Bytes) (fs : Directory) (ms ns : List Message) (es : List Entry)
    → Stored u fs ms es
    → Stored u fs (ms ++ ns) es
Stored-piped u fs ms ns es (there, inl piped) = (there, inl (Piped-append u ms ns piped))
Stored-piped u fs ms ns es (there, inr queued) = (there, inr queued)

Stored-take :
    ⦃f : FileSystem⦄ (v u : Bytes) (fs : Directory) (m : Message) (ms : List Message)
    (es : List Entry)
    → m ≡ u ∷ []
    → Stored v fs (m ∷ ms) es
    → Stored v fs ms (es ++ (true, u) ∷ [])
Stored-take v u fs m ms es is (there, inl (inl e)) =
    let same : u ≡ v = cc in
    (there, inr (subst (λ x. Queued x (es ++ (true, u) ∷ []) fs) same (Queued-last u es fs)))
Stored-take v u fs m ms es is (there, inl (inr piped)) = (there, inl piped)
Stored-take v u fs m ms es is (there, inr queued) =
    (there, inr (Queued-append v es ((true, u) ∷ []) fs queued))

module _ ⦃z : Zmqpp⦄ ⦃f : FileSystem⦄ (uuid_at : ℕ → Bytes) where
  pub request-Inv :
      (long : (n : ℕ) → length (uuid_at n) ≡ 36) (t : Titanic) (req rep : Message) (w : Shared)
      → request_handler uuid_at req t.shared ≡ ok (rep, w)
      → Inv uuid_at t
      → Inv uuid_at (record t { shared = w })
  unfolding request_handler on_request
  request-Inv long t req rep w h (es, file, sized, uuids, kept) =
      let u = uuid_at t.shared.drawn in
      let fs' = write (req_path u) (save req) t.shared.fs in
      let w₁ : Shared = record {
        fs = fs';
        piped = t.shared.piped ++ (u ∷ []) ∷ [];
        drawn = suc t.shared.drawn;
      } in
      let e : w₁ ≡ w = cc (h, push_back_eq [] u) in
      let kept' : Kept uuid_at w₁ t.closed es = λ n lt opened.
        elim (lt_suc-cases n t.shared.drawn lt) [
          | inl new ↦
              subst (λ k. Stored (uuid_at k) fs' (t.shared.piped ++ (u ∷ []) ∷ []) es) (sym new)
                (
                  exists-write_self (req_path u) (save req) t.shared.fs,
                  inl (Piped-last u t.shared.piped),
                )
          | inr old ↦ Stored-piped (uuid_at n) fs' t.shared.piped ((u ∷ []) ∷ []) es (
              Stored-Within (uuid_at n) t.shared.fs fs' t.shared.piped es
                (Within-write (req_path u) (save req) t.shared.fs) (kept n old opened))
        ] in
      subst (λ v. Inv uuid_at (record t { shared = v })) e
        (
          es,
          file,
          sized,
          All-append IsUuid t.shared.piped ((u ∷ []) ∷ []) uuids
              ((u, refl, long t.shared.drawn), tt),
          kept',
        )

  pub reply-Inv :
      (t : Titanic) (req rep : Message) (w : Shared)
      → reply_handler req t.shared ≡ ok (rep, w)
      → Inv uuid_at t
      → Inv uuid_at (record t { shared = w })
  unfolding reply_handler
  reply-Inv t req rep w h inv = elim (Result-cases (on_reply req t.shared.fs)) [
    | inr (x, e) ↦ cc (rw e at h)
    | inl (m, e) ↦
        let same : t.shared ≡ w = cc (rw e at h) in
        subst (λ v. Inv uuid_at (record t { shared = v })) same inv
  ]

  pub close-Inv :
      (t : Titanic) (u : Bytes) (m rep : Message) (w : Shared)
      → close_handler (u ∷ m) t.shared ≡ ok (rep, w)
      → Inv uuid_at t
      → Inv uuid_at (record t { shared = w; closed = u ∷ t.closed })
  unfolding close_handler on_close
  close-Inv t u m rep w h (es, file, sized, uuids, kept) =
      let fs' = remove (rep_path u) (remove (req_path u) t.shared.fs) in
      let e : record t.shared { fs = fs' } ≡ w = cc (rw (get_text_zero u m) at h) in
      let kept' : Kept uuid_at (record t.shared { fs = fs' }) (u ∷ t.closed) es = λ n lt opened.
        let v = uuid_at n in
        let req = exists-close u (req_path v) t.shared.fs opened.0.0 in
        let rep = exists-close u (rep_path v) t.shared.fs opened.0.1 in
        let (there, place) = kept n lt opened.1 in
        (
          req ∙ there,
          elim place [
            | inl piped ↦ inl piped
            | inr queued ↦ inr (Queued-mono v es t.shared.fs fs' (λ replied. rep ∙ replied) queued)
          ],
        ) in
      subst (λ v. Inv uuid_at (record t { shared = v; closed = u ∷ t.closed })) e
        (es, file, sized, uuids, kept')

  pub take-Inv :
      (t : Titanic) (m : Message) (ms : List Message) (queue : Bytes)
      → t.shared.piped ≡ m ∷ ms
      → on_pipe eol m t.queue ≡ ok queue
      → Inv uuid_at t
      → Inv uuid_at (record t { shared = record t.shared { piped = ms }; queue = queue })
  unfolding on_pipe
  take-Inv t m ms queue e h (es, file, sized, uuids, kept) =
      let ((u, is, long), uuids') = subst (All IsUuid) e uuids in
      let h' : ok (append_uuid eol u t.queue) ≡ ok queue = rw (is, get_text_zero u []) at h in
      let es' = es ++ (true, u) ∷ [] in
      let file' : queue ≡ encode 13 10 es' =
        sym (cc h') ∙ ap (append_uuid eol u) file ∙ encode-append es u in
      let kept' : Kept uuid_at (record t.shared { piped = ms }) t.closed es' = λ n lt opened.
        Stored-take (uuid_at n) u t.shared.fs m ms es is
          (subst (λ l. Stored (uuid_at n) t.shared.fs l es) e (kept n lt opened)) in
      (es', file', All-append IsEntry es ((true, u) ∷ []) sized (long, tt), uuids', kept')

  pub pass-Inv :
      (t : Titanic) (call : Bytes → Message → Result Message) (queue : Bytes) (fs : Directory)
      → scan (serve call) t.queue (some t.shared.fs) ≡ (queue, some fs)
      → Inv uuid_at t
      → Inv uuid_at (record t { shared = record t.shared { fs = fs }; queue = queue })
  pass-Inv t call queue fs h (es, file, sized, uuids, kept) =
      let es' = (serve_all (serve call) es (some t.shared.fs)).0 in
      let run : (encode 13 10 es', (serve_all (serve call) es (some t.shared.fs)).1)
          ≡ (queue, some fs) =
        sym (scan-encode (serve call) 13 10 es (some t.shared.fs) sized)
        ∙ ap (λ q. scan (serve call) q (some t.shared.fs)) (sym file)
        ∙ h in
      let (within, keeps) = serve_all-keeps call es t.shared.fs fs (ap (λ r. r.1) run) in
      let kept' : Kept uuid_at (record t.shared { fs = fs }) t.closed es' = λ n lt opened.
        let v = uuid_at n in
        let (there, place) = kept n lt opened in
        (
          within (req_path v) there,
          elim place [ inl piped ↦ inl piped | inr queued ↦ inr (keeps v queued) ],
        ) in
      (
        es',
        sym (ap (λ r. r.0) run),
        serve_all-IsEntry (serve call) es (some t.shared.fs) sized,
        uuids,
        kept',
      )
