-- ===== src/Mdp/Factory/Loaded.antt =====
-- 7.MDF-Majordomo Protocol/worker/mdworker_factory.cpp: the workers that the factory makes for a file.
use zero_mq_rfc_implementati.Base.{
  ℕ, zero, suc, ◌+◌, ◌≡◌, refl, ◌∙◌, sym, ap, Bytes, Bool, Bool-cases, List, [], ◌∷◌, ◌++◌,
  append_assoc, append-nil, if◌then◌else◌, arith, inl, inr, ok, err, thrown, ◌>>=◌,
}
use zero_mq_rfc_implementati.Utils.Config.{ServiceInfo, Items, load, empty_config, or_empty}
use zero_mq_rfc_implementati.Utils.Config.Loaded.{
  converts, services_in, text_in, loaded, load_lem, get_value-loaded, service_list-loaded,
}
use zero_mq_rfc_implementati.Mdp.Worker.{echo_name}
use zero_mq_rfc_implementati.Mdp.Factory.{
  EchoWorker, admin_endpoint, backend_endpoint, push_workers, create_for, create,
}

module _ (iequals : Bytes → Bytes → Bool) where
  -- How many echo workers the services ask for.
  abbrev pub echoes_in : List ServiceInfo → ℕ
  echoes_in [] = 0
  echoes_in (s ∷ ss) = (if iequals s.name echo_name then s.quantity else 0) + echoes_in ss

  abbrev pub copies : ℕ → EchoWorker → List EchoWorker
  copies zero w = []
  copies (suc n) w = w ∷ copies n w

  copies-add : (n m : ℕ) (w : EchoWorker) → copies (n + m) w ≡ copies n w ++ copies m w
  copies-add zero m w = let e : 0 + m ≡ m = omega arith in ap (λ k. copies k w) e
  copies-add (suc n) m w =
      let e : suc n + m ≡ suc (n + m) = omega arith in
      ap (λ k. copies k w) e ∙ ap (λ l. w ∷ l) (copies-add n m w)

  push_workers_lem :
      (n : ℕ) (w : EchoWorker) (wrks : List EchoWorker) → push_workers n w wrks ≡ wrks ++ copies n w
  unfolding push_workers
  push_workers_lem zero w wrks = sym (append-nil wrks)
  push_workers_lem (suc n) w wrks =
      push_workers_lem n w (wrks ++ w ∷ []) ∙ append_assoc wrks (w ∷ []) (copies n w)

  create_for_lem :
      (ss : List ServiceInfo) (w : EchoWorker) (wrks : List EchoWorker)
      → create_for iequals ss w wrks ≡ wrks ++ copies (echoes_in ss) w
  unfolding create_for
  create_for_lem [] w wrks = sym (append-nil wrks)
  create_for_lem (s ∷ ss) w wrks = elim (Bool-cases (iequals s.name echo_name)) [
    | inl is ↦ rw is (
        create_for_lem ss w (push_workers s.quantity w wrks)
        ∙ ap (λ l. l ++ copies (echoes_in ss) w) (push_workers_lem s.quantity w wrks)
        ∙ append_assoc wrks (copies s.quantity w) (copies (echoes_in ss) w)
        ∙ ap (λ l. wrks ++ l) (sym (copies-add s.quantity (echoes_in ss) w)))
    | inr other ↦ rw other (create_for_lem ss w wrks ∙ ap (λ k. wrks ++ copies k w) (omega arith))
  ]

  create-loaded :
      (is : Items)
      → create iequals (loaded is empty_config)
        ≡ copies (echoes_in (services_in is)) (record {
          broker = or_empty (text_in backend_endpoint is);
          admin = or_empty (text_in admin_endpoint is);
        })
  unfolding create
  create-loaded is =
      create_for_lem (loaded is empty_config).service_list _ []
      ∙ rw
          (
            get_value-loaded backend_endpoint is,
            get_value-loaded admin_endpoint is,
            service_list-loaded is empty_config,
          )
          refl

  -- A program that loads a configuration's object and gives it to the factory. Where "services" is a text
  -- or has an element that is no service, or another value is no text, the load throws. Otherwise the
  -- factory makes as many echo workers as the services whose names compare as equal to "echo" ask for in
  -- all, and no others; each gets the texts under the keys of the broker's and of the
  -- administration's endpoint, the empty text for a key that is not there.
  pub create-load :
      (is : Items)
      → (load is empty_config >>= λ c. ok (create iequals c)) ≡ (
          if converts is
          then ok (
              copies (echoes_in (services_in is)) (record {
                broker = or_empty (text_in backend_endpoint is);
                admin = or_empty (text_in admin_endpoint is);
              }))
          else err thrown)
  create-load is = rw (load_lem is empty_config) (elim (Bool-cases (converts is)) [
    | inl good ↦ rw good (ap ok (create-loaded is))
    | inr bad ↦ rw bad refl
  ])
