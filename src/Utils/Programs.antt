-- ===== src/Utils/Programs.antt =====
-- What the programs' files main.cpp have in common: the test of the arguments, the configuration and
-- the handler of exceptions. The items that the JSON library finds in a file, or its failure, are an
-- argument; a value of them that does not convert throws as well.
use zero_mq_rfc_implementati.Base.{Result, ok, err, ◌>>=◌}
use zero_mq_rfc_implementati.Utils.Config.{Config, Items, load, empty_config}

-- How a program goes on or ends: `usage` with EXIT_FAILURE, `caught` by the handler of its exceptions.
pub data Program {ℓ} (A : Type ℓ) : Type ℓ where
  usage : Program A
  caught : Program A
  runs : A → Program A

-- The program behind the reading of its file.
abbrev on_config {ℓ} : {A : Type ℓ} → Result Config → (Config → A) → Program A
on_config (err f) main = caught
on_config (ok c) main = runs (main c)

abbrev pub on_items {ℓ} : {A : Type ℓ} → Result Items → (Config → A) → Program A
on_items parsed main = on_config (parsed >>= λ is. load is empty_config) main
