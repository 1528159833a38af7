-- ===== src/Tsp/Threads/Accepts.antt =====
-- 9.TSP-Titanic Service Protocol/titanic/request_worker.cpp: what the thread of the request worker does.
use zero_mq_rfc_implementati.Base.{
  ℕ, suc, ◌+◌, ◌≡◌, ◌∙◌, sym, ap, Bytes, codes, List, [], ◌∷◌, ◌++◌, append-nil, append_assoc,
  length, All, ok, arith,
}
use zero_mq_rfc_implementati.Base.Zmqpp.{Message, Zmqpp, push_back_eq}
use zero_mq_rfc_implementati.Utils.Files.{save}
use zero_mq_rfc_implementati.Mdp.Protocol.{mmi_found}
use zero_mq_rfc_implementati.Mdp.WorkerApi.{Session, Round}
use zero_mq_rfc_implementati.Mdp.Worker.Received.{Asked, replies}
use zero_mq_rfc_implementati.Mdp.Worker.Answers.{all_asked, handle_all, reply_to_client}
use zero_mq_rfc_implementati.Mdp.Worker.Served.{Returns, IsGood, run-serves}
use zero_mq_rfc_implementati.Tsp.Directory.{FileSystem, Directory, req_path, write}
use zero_mq_rfc_implementati.Tsp.Workers.{on_request}
use zero_mq_rfc_implementati.Tsp.Threads.{Shared, request_handler, run_request}

shared_of :
    (fs : Directory) (p q : List Message) (d e : ℕ)
    → p ≡ q
    → d ≡ e
    → ◌≡◌ {A = Shared}
        (record { fs = fs; piped = p; drawn = d })
        (record { fs = fs; piped = q; drawn = e })
shared_of fs p q d e same equal = cc

module _ (uuid_at : ℕ → Bytes) where
  -- The answers to requests that get the identifiers from the `n`th on.
  abbrev pub accepted : ℕ → List Asked → List Message
  accepted n [] = []
  accepted n ((client, body) ∷ rest) =
      reply_to_client client (mmi_found ∷ uuid_at n ∷ []) ∷ accepted (suc n) rest

  abbrev pub uuids_from : ℕ → List Asked → List Message
  uuids_from n [] = []
  uuids_from n (a ∷ rest) = (uuid_at n ∷ []) ∷ uuids_from (suc n) rest

  abbrev pub stored : ⦃f : FileSystem⦄ → ℕ → List Asked → Directory → Directory
  stored n [] fs = fs
  stored n ((client, body) ∷ rest) fs =
      stored (suc n) rest (write (req_path (uuid_at n)) (save body) fs)

  abbrev pub after_requests : ⦃f : FileSystem⦄ → List Asked → Shared → Shared
  after_requests requests w = record {
    fs = stored w.drawn requests w.fs;
    piped = w.piped ++ uuids_from w.drawn requests;
    drawn = w.drawn + length requests;
  }

  module _ ⦃z : Zmqpp⦄ ⦃f : FileSystem⦄ where
    request_handler-eq :
        (body : Message) (w : Shared)
        → request_handler uuid_at body w
          ≡ ok (
            mmi_found ∷ uuid_at w.drawn ∷ [],
            record {
              fs = write (req_path (uuid_at w.drawn)) (save body) w.fs;
              piped = w.piped ++ (uuid_at w.drawn ∷ []) ∷ [];
              drawn = suc w.drawn;
            },
          )
    unfolding request_handler on_request
    request_handler-eq body w = simp push_back_eq

    handle_all-request :
        (requests : List Asked) (w : Shared)
        → handle_all (request_handler uuid_at) requests w
          ≡ ok (accepted w.drawn requests, after_requests requests w)
    handle_all-request [] w =
        ap (λ v. ok ([], v))
          (shared_of w.fs w.piped (w.piped ++ []) w.drawn (w.drawn + 0) (sym (append-nil w.piped))
            (omega arith))
    handle_all-request ((client, body) ∷ rest) w =
        let uuid = uuid_at w.drawn in
        let w₁ : Shared = record {
          fs = write (req_path uuid) (save body) w.fs;
          piped = w.piped ++ (uuid ∷ []) ∷ [];
          drawn = suc w.drawn;
        } in
        rw (request_handler-eq body w, handle_all-request rest w₁)
          (ap (λ v. ok (accepted w.drawn ((client, body) ∷ rest), v))
            (shared_of (stored (suc w.drawn) rest w₁.fs) (w₁.piped ++ uuids_from (suc w.drawn) rest)
              (w.piped ++ uuids_from w.drawn ((client, body) ∷ rest)) (suc w.drawn + length rest)
              (w.drawn + suc (length rest))
              (append_assoc w.piped ((uuid ∷ []) ∷ []) (uuids_from (suc w.drawn) rest))
              (omega arith)))

    request_handler-Returns : (m : Message) (w : Shared) → Returns (request_handler uuid_at m w)
    request_handler-Returns m w = (_, request_handler-eq m w)

    -- While no stop is requested, no poll fails and the broker keeps to the protocol, the thread of the
    -- request worker goes on. Each request that its calls of `recv` took is stored under the next
    -- identifier that is drawn, that identifier is put into the pipe, and the client gets it behind a
    -- 200; all in the order of the requests, and nothing else is sent as a reply or put into the pipe.
    pub run_request-accepts :
        (now : ℕ) (calls : List (List Round)) (w : Shared)
        → All (All IsGood) calls
        → (s' : Session) × (run_request uuid_at now calls w
            ≡ ok (s', after_requests (all_asked calls) w))
          × (replies s'.sent ≡ accepted w.drawn (all_asked calls))
    unfolding run_request
    run_request-accepts now calls w h =
        let (s', w', e, all) =
          run-serves (request_handler uuid_at) request_handler-Returns (codes "titanic.request") now
            calls w h in
        let both : ok (accepted w.drawn (all_asked calls), after_requests (all_asked calls) w)
            ≡ ok (replies s'.sent, w') =
          sym (handle_all-request (all_asked calls) w) ∙ all in
        let end : w' ≡ after_requests (all_asked calls) w = cc both in
        (s', e ∙ ap (λ v. ok (s', v)) end, cc both)
