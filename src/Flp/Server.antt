-- ===== src/Flp/Server.antt =====
-- 10.FLP-Freelance Protocol/server/flserver.cpp: the loop of `start`.
use zero_mq_rfc_implementati.Base.{
  ◌==◌, List, [], ◌∷◌, nat_eq, if◌then◌else◌, Option, none, some, Result, ok, err, ◌>>=◌,
}
use zero_mq_rfc_implementati.Base.Zmqpp.{Message, Zmqpp, parts, push_front, push_back, take_text}
use zero_mq_rfc_implementati.Flp.Constants.{command_ping, command_pong}

module _ ⦃z : Zmqpp⦄ where
  -- The reply to a message; `none` is the `break` on a message with no frame.
  unfoldable pub answer : Message → Result (Option Message)
  answer msg = if nat_eq (parts msg) 0 then ok none else do
    (identity, m₁) ← take_text msg
    (control, m₂) ← take_text m₁
    let reply = if control == command_ping then push_back [] command_pong else push_front m₂ control
    ok (some (push_front reply identity))

  -- The loop over the messages received; what it sends. A fault ends it like the `break`.
  unfoldable pub serve : List Message → List Message
  unfolding answer
  serve [] = []
  serve (m ∷ ms) = elim (answer m) [
    | err f ↦ []
    | ok reply ↦ elim reply [ none ↦ [] | some r ↦ r ∷ serve ms ]
  ]
