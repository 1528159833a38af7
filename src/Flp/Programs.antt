-- ===== src/Flp/Programs.antt =====
-- 10.FLP-Freelance Protocol/client/main.cpp and server/main.cpp.
pub mod Failover
use zero_mq_rfc_implementati.Base.{
  ℕ, suc, Bytes, codes, List, [], ◌∷◌, nat_eq, if◌then◌else◌, Result, ok, ◌>>=◌,
}
use zero_mq_rfc_implementati.Base.Zmqpp.{Message, Zmqpp, push_back}
use zero_mq_rfc_implementati.Utils.Config.{Config, Items, get_value}
use zero_mq_rfc_implementati.Utils.Programs.{Program, usage, on_items}
use zero_mq_rfc_implementati.Flp.Agent.{Agent, Times, control_message}
use zero_mq_rfc_implementati.Flp.Api.{connect, request}
use zero_mq_rfc_implementati.Mdp.ClientMain.{hello}

abbrev pub server_host : Bytes
server_host = codes "server_host"

abbrev pub server_endpoint : Bytes
server_endpoint = codes "server_endpoint"

abbrev pub server_host2 : Bytes
server_host2 = codes "server_host2"

abbrev pub server_endpoint2 : Bytes
server_endpoint2 = codes "server_endpoint2"

abbrev pub server_host3 : Bytes
server_host3 = codes "server_host3"

abbrev pub server_endpoint3 : Bytes
server_endpoint3 = codes "server_endpoint3"

-- The arguments of a server's constructor: where it is bound, and its identity.
pub record Address : Type 0 where
  pub host : Bytes
  pub endpoint : Bytes

unfoldable pub address_of : ℕ → Config → Address
unfolding get_value
address_of idx conf =
    if nat_eq idx 2
    then record { host = get_value server_host2 conf; endpoint = get_value server_endpoint2 conf }
    else if nat_eq idx 3
    then record { host = get_value server_host3 conf; endpoint = get_value server_endpoint3 conf }
    else record { host = get_value server_host conf; endpoint = get_value server_endpoint conf }

-- The endpoints that the client connects to.
unfoldable pub endpoints_of : Config → List Bytes
unfolding get_value
endpoints_of conf =
    get_value server_endpoint conf
    ∷ get_value server_endpoint2 conf
    ∷ get_value server_endpoint3 conf
    ∷ []

module _ (atoi : Bytes → ℕ) (parse : Bytes → Result Items) where
  -- server/main.cpp; `atoi` gives an `int` by its pattern.
  unfoldable pub server_main : List Bytes → Program Address
  unfolding address_of
  server_main (program ∷ file ∷ index ∷ more) = on_items (parse file) (address_of (atoi index))
  server_main _ = usage

  -- client/main.cpp up to its requests
  unfoldable pub client_main : List Bytes → Program (List Bytes)
  unfolding endpoints_of
  client_main (program ∷ file ∷ more) = on_items (parse file) endpoints_of
  client_main _ = usage

module _ ⦃z : Zmqpp⦄ where
  -- What the client's calls of `connect` make the agent do; `t` gives the clock of each.
  unfoldable pub connect_all : (ℕ → Times) → ℕ → List Bytes → Agent → Result Agent
  connect_all t n [] a = ok a
  connect_all t n (ep ∷ eps) a = do
    a' ← control_message (t n) (connect ep) a
    connect_all t (suc n) eps a'

  -- The message of the loop's round `i` to the agent.
  unfoldable pub ask : ℕ → Message
  unfolding request
  ask i = request (push_back [] (hello i))
