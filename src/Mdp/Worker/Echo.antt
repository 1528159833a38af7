-- ===== src/Mdp/Worker/Echo.antt =====
-- 7.MDF-Majordomo Protocol/worker/echoworker.cpp: what clients get.
use zero_mq_rfc_implementati.Base.{ℕ, ◌≡◌, refl, ◌∙◌, sym, List, [], ◌∷◌, All, ok}
use zero_mq_rfc_implementati.Base.Zmqpp.{Message, Zmqpp}
use zero_mq_rfc_implementati.Mdp.WorkerApi.{Session, Round}
use zero_mq_rfc_implementati.Mdp.Worker.{run, echo, echo_name}
use zero_mq_rfc_implementati.Mdp.Worker.Received.{Asked, replies}
use zero_mq_rfc_implementati.Mdp.Worker.Answers.{all_asked, handle_all, reply_to_client}
use zero_mq_rfc_implementati.Mdp.Worker.Served.{Returns, IsGood, run-serves}

abbrev pub echoes : List Asked → List Message
echoes [] = []
echoes ((client, body) ∷ rest) = reply_to_client client body ∷ echoes rest

handle_all-echo : (requests : List Asked) → handle_all echo requests tt ≡ ok (echoes requests, tt)
unfolding echo
handle_all-echo [] = refl
handle_all-echo ((client, body) ∷ rest) = rw (handle_all-echo rest) refl

echo-Returns : (m : Message) (w : Unit {0}) → Returns (echo m w)
unfolding echo
echo-Returns m w = (_, refl)

module _ ⦃z : Zmqpp⦄ where
  -- While no stop is requested, no poll fails and the broker keeps to the protocol, the loop of the
  -- echo worker goes on, and what it has sent as replies is each request that its calls of `recv` took,
  -- in their order: to the client that asked, the body of its request as it was.
  pub run-echoes :
      (now : ℕ) (calls : List (List Round))
      → All (All IsGood) calls
      → (s' : Session) × (run echo echo_name now calls tt ≡ ok (s', tt))
        × (replies s'.sent ≡ echoes (all_asked calls))
  run-echoes now calls h =
      let (s', w', e, all) = run-serves echo echo-Returns echo_name now calls tt h in
      let same : ok (echoes (all_asked calls), tt) ≡ ok (replies s'.sent, w') =
        sym (handle_all-echo (all_asked calls)) ∙ all in
      (s', e, cc same)
