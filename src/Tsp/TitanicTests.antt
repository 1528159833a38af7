-- ===== src/Tsp/TitanicTests.antt =====
-- Tests of 9.TSP-Titanic Service Protocol/titanic: one request from its arrival to a pass.
use zero_mq_rfc_implementati.Base.{
  ℕ, suc, ◌≡◌, refl, Bytes, codes, c_str, ◌==◌, true, false, Option, none, some, [], ◌∷◌, ◌++◌,
  Result, ok, err, null_socket, inl, inr,
}
use zero_mq_rfc_implementati.Base.Zmqpp.{Message, get_text, take_text}
use zero_mq_rfc_implementati.Base.ListMessages.{list_messages}
use zero_mq_rfc_implementati.Base.Dict.{lookup, assign, erase}
use zero_mq_rfc_implementati.Utils.Files.{save, load, lines, append_all}
use zero_mq_rfc_implementati.Mdp.Protocol.{mdpc_client, mdpw_worker, request, mmi_found}
use zero_mq_rfc_implementati.Mdp.ClientApi.{create, send}
use zero_mq_rfc_implementati.Mdp.WorkerApi.{Session, Round}
use zero_mq_rfc_implementati.Mdp.Worker.Received.{replies}
use zero_mq_rfc_implementati.Mdp.Worker.Answers.{all_asked}
use zero_mq_rfc_implementati.Tsp.Directory.{read, write, remove, req_path, rep_path}
use zero_mq_rfc_implementati.Tsp.Workers.{on_close, success_by, own_call, service_success}
use zero_mq_rfc_implementati.Tsp.Queue.{scan}
use zero_mq_rfc_implementati.Tsp.Queue.Scan.{encode, scan-encode}
use zero_mq_rfc_implementati.Tsp.Threads.{run_request}
use zero_mq_rfc_implementati.Tsp.Threads.Accepts.{accepted, after_requests, run_request-accepts}
use zero_mq_rfc_implementati.Tsp.Titanic.{Titanic, start, serve, Step}
use zero_mq_rfc_implementati.Tsp.Titanic
use zero_mq_rfc_implementati.Tsp.PlainFiles.{plain_files}
use zero_mq_rfc_implementati.Tsp.Titanic.Closed.{close-pass}

-- 36 bytes, of which the last tells the number.
abbrev uuid_at : ℕ → Bytes
uuid_at n = codes "0b1c2d3e-0000-4000-8000-00000000000" ++ suc n ∷ []

abbrev req : Message
req = codes "echo" ∷ codes "hello" ∷ []

abbrev taken : Titanic
taken = record {
  shared = record {
    fs = (req_path (uuid_at 0), save req) ∷ [];
    piped = (uuid_at 0 ∷ []) ∷ [];
    drawn = 1;
  };
  queue = [];
  closed = [];
}

abbrev queued : Titanic
queued = record taken {
  shared = record taken.shared { piped = [] };
  queue = encode 13 10 ((true, uuid_at 0) ∷ []);
}

-- After another identifier has been closed.
abbrev other_closed : Titanic
other_closed = record queued { closed = uuid_at 1 ∷ [] }

-- The management service and the service answer.
abbrev call : Bytes → Message → Result Message
call service m = ok (mmi_found ∷ codes "hi" ∷ [])

-- A pass with that call serves the pending request.
one_pass : scan (serve call) queued.queue (some queued.shared.fs) ≡ (
  encode 13 10 ((false, uuid_at 0) ∷ []),
  some (
      (req_path (uuid_at 0), save req)
      ∷ (rep_path (uuid_at 0), save (mmi_found ∷ codes "hi" ∷ []))
      ∷ []),
)
unfolding serve success_by ◌==◌ c_str assign lookup get_text take_text read write load save
one_pass =
    scan-encode (serve call) 13 10 ((true, uuid_at 0) ∷ []) (some queued.shared.fs) (refl, tt)

-- The same answers, at the sessions of the program.
abbrev answers : Bytes → Message → Option Message
answers service m = some ([] ∷ mdpc_client ∷ service ∷ mmi_found ∷ codes "hi" ∷ [])

close-pass_example :
    (scan (serve call) (encode 13 10 ((false, uuid_at 1) ∷ (true, uuid_at 0) ∷ [])) (some [])).1
    ≡ none
unfolding on_close remove erase c_str ◌==◌ get_text
close-pass_example =
    close-pass call (uuid_at 0) [] (codes "200" ∷ []) ((false, uuid_at 1) ∷ (true, uuid_at 0) ∷ [])
      ((req_path (uuid_at 0), save req) ∷ []) [] tt (refl, (refl, tt)) (tt, (tt, tt))
      (inr (inl (refl, refl))) refl

unconnected : service_success answers (uuid_at 0) queued.shared.fs ≡ err null_socket
unfolding service_success success_by own_call create send ◌==◌ c_str read lookup load save lines
    append_all take_text get_text
unconnected = refl

abbrev asking : Round
asking = record {
  stop_requested = false;
  poll_ok = true;
  message = some ([] ∷ mdpw_worker ∷ request ∷ codes "client" ∷ [] ∷ req);
  connected_at = 10;
  tested_at = 20;
  renewed_at = 30;
}

run_request-accepts_example :
    (s' : Session) × (run_request uuid_at 0 ((asking ∷ []) ∷ []) start.shared
      ≡ ok (s', after_requests uuid_at (all_asked ((asking ∷ []) ∷ [])) start.shared))
    × (replies s'.sent ≡ accepted uuid_at 0 (all_asked ((asking ∷ []) ∷ [])))
unfolding ◌==◌
run_request-accepts_example =
    run_request-accepts uuid_at 0 ((asking ∷ []) ∷ []) start.shared
      (((refl, refl, (refl, refl, inr (refl, (refl, refl)))), tt), tt)
