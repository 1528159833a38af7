-- ===== src/Tsp/Client.antt =====
-- 9.TSP-Titanic Service Protocol/client/ticlient.cpp.
use zero_mq_rfc_implementati.Base.{
  Bytes, codes, c_str, Option, none, some, List, [], ◌∷◌, nat_eq, ◌==◌, if◌then◌else◌, Result, ok,
  err, thrown, ◌>>=◌,
}
use zero_mq_rfc_implementati.Base.Zmqpp.{Message, Zmqpp, parts, push_front, get_text}
use zero_mq_rfc_implementati.Mdp.Protocol.{mmi_found}
use zero_mq_rfc_implementati.Mdp.ClientApi
use zero_mq_rfc_implementati.Mdp.ClientApi.{Session}

abbrev pub titanic_request : Bytes
titanic_request = codes "titanic.request"

abbrev pub titanic_reply : Bytes
titanic_reply = codes "titanic.reply"

abbrev pub titanic_close : Bytes
titanic_close = codes "titanic.close"

-- `client_` is the session; the constructor leaves it as its own constructor does. Each `answer` is
-- what a `recv` of the session polls.
module _ ⦃z : Zmqpp⦄ where
  unfoldable pub service_call :
      Bytes → Message → Option Message → Session → Result (Message × Session)
  unfolding ClientApi.send ClientApi.recv
  service_call srvname req answer client = do
    client' ← ClientApi.send srvname req client
    reply ← ClientApi.recv answer client'
    if nat_eq (parts reply) 0
        then ok ([], client')
        else (do status ← get_text reply 0; ok (if status == mmi_found then reply else [], client'))

  unfoldable pub send : Bytes → Message → Option Message → Session → Result (Bytes × Session)
  unfolding service_call
  send srvname req answer client = do
    (reply, client') ← service_call titanic_request (push_front req (c_str srvname)) answer client
    if nat_eq (parts reply) 0 then err thrown else (do
      status ← get_text reply 0
      if status == mmi_found then (do uuid ← get_text reply 1; ok (uuid, client')) else err thrown)

  -- The loop of `recv`: each round has its own answer, and `closing` is the one to the closing. `none` is
  -- a loop that is still running when the rounds are over.
  unfoldable pub recv :
      Option Message → List (Option Message) → Bytes → Session → Result (Option Message)
  unfolding service_call
  recv closing [] uuid client = ok none
  recv closing (answer ∷ answers) uuid client = do
    (res, client') ← service_call titanic_reply (c_str uuid ∷ []) answer client
    let rest = recv closing answers uuid client'
    if nat_eq (parts res) 0
        then rest
        else (do _ ← service_call titanic_close (c_str uuid ∷ []) closing client'; ok (some res))
