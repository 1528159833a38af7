-- ===== src/Tsp/Program.antt =====
-- 9.TSP-Titanic Service Protocol/client/main.cpp: the program of a client, behind its arguments.
pub mod Unconnected
use zero_mq_rfc_implementati.Base.{Bytes, codes, Option, List, [], Result, ◌>>=◌}
use zero_mq_rfc_implementati.Base.Zmqpp.{Message, Zmqpp, push_back}
use zero_mq_rfc_implementati.Mdp.ClientApi.{create}
use zero_mq_rfc_implementati.Tsp.Client.{send, recv}

-- `main`, by the answers that its session polls: to the request, in the rounds of `recv`, and to the
-- closing. It prints the message that it returns; `none` is a client that still asks.
unfoldable pub main :
    ⦃z : Zmqpp⦄
    → Option Message
    → List (Option Message)
    → Option Message
    → Bytes
    → Result (Option Message)
unfolding create send recv
main sending polling closing srvname = do
  (uuid, client) ← send srvname (push_back [] (codes "hello world")) sending create
  recv closing polling uuid client
