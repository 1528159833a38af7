-- ===== src/Tsp/Titanic.antt =====
-- 9.TSP-Titanic Service Protocol/titanic/titanic.cpp: `run` with the workers beside it. The handling
-- of one request by a worker, one message from the pipe and one pass over the queue file are each one step.
pub mod Passes
pub mod Paths
pub mod Invariant
pub mod Safety
pub mod Unconnected
pub mod Closed
use zero_mq_rfc_implementati.Base.{
  ℕ, ◌≡◌, Bytes, Bool, false, Option, none, some, List, [], ◌∷◌, Result, ok, err,
}
use zero_mq_rfc_implementati.Base.Zmqpp.{Message, Zmqpp}
use zero_mq_rfc_implementati.Tsp.Directory.{FileSystem, Directory}
use zero_mq_rfc_implementati.Tsp.Workers.{success_by, own_call}
use zero_mq_rfc_implementati.Tsp.Queue.{on_pipe, scan}
use zero_mq_rfc_implementati.Tsp.Threads.{Shared, request_handler, reply_handler, close_handler}

-- `queue` is the queue file, an empty one where there is none; `closed` lists the identifiers that were
-- closed.
pub record Titanic : Type 0 where
  pub shared : Shared
  pub queue : Bytes
  pub closed : List Bytes

abbrev pub start : Titanic
start = record { shared = record { fs = []; piped = []; drawn = 0 }; queue = []; closed = [] }

-- How the text mode of the program's platform writes an end of line: two bytes.
abbrev pub eol : Bytes
eol = 13 ∷ 10 ∷ []

module _ ⦃z : Zmqpp⦄ ⦃f : FileSystem⦄ where
  -- `service_success` in a pass, whose sessions get `call`. A fault in it ends the program: the state is
  -- then `none`.
  unfoldable pub serve :
      (Bytes → Message → Result Message) → Bytes → Option Directory → Bool × Option Directory
  unfolding success_by
  serve call uuid none = (false, none)
  serve call uuid (some fs) = elim (success_by call uuid fs) [
    | err f ↦ (false, none)
    | ok (success, fs') ↦ (success, some fs')
  ]

  -- The steps that do not end the program. `answers` is what the polls of a pass's sessions give.
  pub data Step (uuid_at : ℕ → Bytes) (t : Titanic) : Titanic → Type 0 where
    request :
        (req rep : Message) (w : Shared)
        → request_handler uuid_at req t.shared ≡ ok (rep, w)
        → Step uuid_at t (record t { shared = w })
    reply :
        (req rep : Message) (w : Shared)
        → reply_handler req t.shared ≡ ok (rep, w)
        → Step uuid_at t (record t { shared = w })
    close :
        (uuid : Bytes) (m rep : Message) (w : Shared)
        → close_handler (uuid ∷ m) t.shared ≡ ok (rep, w)
        → Step uuid_at t (record t { shared = w; closed = uuid ∷ t.closed })
    take :
        (m : Message) (ms : List Message) (queue : Bytes)
        → t.shared.piped ≡ m ∷ ms
        → on_pipe eol m t.queue ≡ ok queue
        → Step uuid_at t (record t { shared = record t.shared { piped = ms }; queue = queue })
    pass :
        (answers : Bytes → Message → Option Message) (queue : Bytes) (fs : Directory)
        → scan (serve (own_call answers)) t.queue (some t.shared.fs) ≡ (queue, some fs)
        → Step uuid_at t (record t { shared = record t.shared { fs = fs }; queue = queue })

  pub data Reach (uuid_at : ℕ → Bytes) : Titanic → Type 0 where
    begin : Reach uuid_at start
    next : {t u : Titanic} → Reach uuid_at t → Step uuid_at t u → Reach uuid_at u
