-- ===== src/Tsp/Examples.antt =====
-- Tests of 9.TSP-Titanic Service Protocol: a client's program, and queue files of
-- two entries.
use zero_mq_rfc_implementati.Base.{
  ℕ, ◌≡◌, ◌≢◌, refl, Bytes, codes, ◌==◌, Bool, true, false, List, [], ◌∷◌, if◌then◌else◌, some,
  arith,
}
use zero_mq_rfc_implementati.Base.Zmqpp.{Message}
use zero_mq_rfc_implementati.Base.ListMessages.{list_messages}
use zero_mq_rfc_implementati.Mdp.Protocol.{mdpc_client, mmi_found}
use zero_mq_rfc_implementati.Mdp.ClientMain
use zero_mq_rfc_implementati.Tsp.Queue.{scan}
use zero_mq_rfc_implementati.Tsp.Queue.Scan.{Entry, encode, serve_all, scan-encode}
use zero_mq_rfc_implementati.Tsp.Queue.ShortLines.{two_entries, first_done, scan-two_entries}

abbrev uuid : Bytes
uuid = codes "0b1c2d3e-0000-4000-8000-000000000001"

abbrev tail : Bytes
tail = codes "b1c2d3e-0000-4000-8000-000000000002"

-- A client's frames of an answer with the status 200.
abbrev answer : Message
answer = [] ∷ mdpc_client ∷ codes "echo" ∷ mmi_found ∷ []

abbrev greeted : ClientMain.Answers
greeted i = some answer

-- A service that fails for one text only.
abbrev service : Bytes → ℕ → Bool × ℕ
service u n = (if codes "x" == u then false else true, n)

abbrev entries : List Entry
entries = (true, uuid) ∷ (false, b'0' ∷ tail) ∷ (true, b'0' ∷ tail) ∷ []

scan-encode_example :
    scan service (encode 13 10 entries) 0
    ≡ (encode 13 10 (serve_all service entries 0).0, (serve_all service entries 0).1)
scan-encode_example = scan-encode service 13 10 entries 0 (refl, (refl, (refl, tt)))

abbrev digit : ℕ
digit = b'0'

zero_not_dash : digit ≢ b'-'
zero_not_dash = omega arith

scan-two_entries_example :
    scan service (two_entries 10 uuid digit tail) 0
    ≡ (first_done 10 uuid digit tail (service uuid 0).0, (service uuid 0).1)
scan-two_entries_example = scan-two_entries service 10 digit uuid tail 0 refl refl zero_not_dash
