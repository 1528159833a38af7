-- ===== src/Tsp/Workers/Answered.antt =====
-- 9.TSP-Titanic Service Protocol/titanic/reply_worker.cpp: the answer by the files that are there.
use zero_mq_rfc_implementati.Base.{
  Bytes, codes, Bool, true, false, Option, none, some, [], ◌∷◌, if◌then◌else◌, ok, ◌≡◌, ap,
}
use zero_mq_rfc_implementati.Base.Zmqpp.{
  Message, Zmqpp, push_front, push_front_eq, push_back, push_back_eq, get_text_zero,
}
use zero_mq_rfc_implementati.Base.Dict.{lookup, contains}
use zero_mq_rfc_implementati.Utils.Files.{load}
use zero_mq_rfc_implementati.Tsp.Directory.{
  FileSystem, Directory, file, req_path, rep_path, read, exists, contents,
}
use zero_mq_rfc_implementati.Tsp.Workers.{on_reply}

abbrev has : Option Bytes → Bool
has none = false
has (some text) = true

abbrev pub status : Option Bytes → Message
status none = codes "400" ∷ []
status (some text) = codes "300" ∷ []

module _ ⦃z : Zmqpp⦄ ⦃f : FileSystem⦄ where
  abbrev pub answered : Option Bytes → Option Bytes → Message
  answered none req = status req
  answered (some text) req = codes "200" ∷ load text

  pub on_reply-eq :
      (u : Bytes) (m : Message) (fs : Directory)
      → on_reply (u ∷ m) fs ≡ ok (answered (read (rep_path u) fs) (read (req_path u) fs))
  unfolding on_reply exists read contains
  on_reply-eq u m fs = rw (get_text_zero u m) (
      ap ok
        (elim (lookup (file (rep_path u)) fs)
          as (λ o.
            (if has o
              then push_front (load (contents o)) (codes "200")
              else if has (lookup (file (req_path u)) fs)
              then push_back [] (codes "300")
              else push_back [] (codes "400"))
            ≡ answered o (lookup (file (req_path u)) fs)) [
              | some text ↦ push_front_eq (load text) (codes "200")
              | none ↦
                  elim (lookup (file (req_path u)) fs)
                    as (λ o.
                      (if has o then push_back [] (codes "300") else push_back [] (codes "400"))
                      ≡ status o) [
                        | some text ↦ push_back_eq [] (codes "300")
                        | none ↦ push_back_eq [] (codes "400")
                      ]
            ]))
