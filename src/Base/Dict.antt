-- ===== src/Base/Dict.antt =====
-- `std::unordered_map` with text keys, as an association list. The order in which the program's
-- loops visit a map is the order of this list.
pub mod Entries
use mathlib.Core.Path.{◌≡◌, refl}
use mathlib.Core.Bool.{Bool, true, false}
use mathlib.Core.Option.{Option, none, some}
use mathlib.Core.List.{List, [], ◌∷◌}
use native.Mathlib.Omega.{arith}
use zero_mq_rfc_implementati.Base.Frames.{Bytes, ◌==◌, ==_iff}
use zero_mq_rfc_implementati.Base.Tests.{if◌then◌else◌}

abbrev pub Dict {ℓ} : Type ℓ → Type ℓ
Dict V = List (Bytes × V)

module _ {ℓ} {V : Type ℓ} where
  -- `at`; `none` where it throws
  unfoldable pub lookup : Bytes → Dict V → Option V
  lookup k [] = none
  lookup k ((j, v) ∷ d) = if j == k then some v else lookup k d

  abbrev has : Option V → Bool
  has none = false
  has (some v) = true

  -- `count(k) > 0`
  unfoldable pub contains : Bytes → Dict V → Bool
  unfolding lookup
  contains k d = has (lookup k d)

  -- `map[k] = v`
  unfoldable pub assign : Bytes → V → Dict V → Dict V
  assign k v [] = (k, v) ∷ []
  assign k v ((j, w) ∷ d) = if j == k then (j, v) ∷ d else (j, w) ∷ assign k v d

  -- `insert(make_pair(k, v))`: a key that is there keeps its value
  unfoldable pub insert : Bytes → V → Dict V → Dict V
  unfolding contains assign
  insert k v d = if contains k d then d else assign k v d

  -- `erase(k)`
  unfoldable pub erase : Bytes → Dict V → Dict V
  erase k [] = []
  erase k ((j, v) ∷ d) = let rest = erase k d in if j == k then rest else (j, v) ∷ rest

  -- a loop that changes every value in place
  unfoldable pub map_values : (V → V) → Dict V → Dict V
  map_values f [] = []
  map_values f ((j, v) ∷ d) = (j, f v) ∷ map_values f d

  abbrev map_found : (V → V) → Option V → Option V
  map_found f none = none
  map_found f (some v) = some (f v)

  pub lookup-assign :
      (k j : Bytes) (v : V) (d : Dict V)
      → lookup j (assign k v d) ≡ (if k == j then some v else lookup j d)
  unfolding lookup assign
  lookup-assign k j v [] = refl
  lookup-assign k j v ((i, w) ∷ d) =
      ground (arith, ==_iff k j, ==_iff i k, ==_iff i j, lookup-assign k j v d)

  pub lookup-erase :
      (k j : Bytes) (d : Dict V) → lookup j (erase k d) ≡ (if k == j then none else lookup j d)
  unfolding lookup erase
  lookup-erase k j [] = ground arith
  lookup-erase k j ((i, w) ∷ d) =
      ground (arith, ==_iff k j, ==_iff i k, ==_iff i j, lookup-erase k j d)

  pub lookup-insert :
      (k j : Bytes) (v : V) (d : Dict V)
      → lookup j (insert k v d)
        ≡ (if contains k d then lookup j d else if k == j then some v else lookup j d)
  unfolding insert
  lookup-insert k j v d = ground (arith, lookup-assign k j v d)

  pub lookup-map_values :
      (f : V → V) (j : Bytes) (d : Dict V) → lookup j (map_values f d) ≡ map_found f (lookup j d)
  unfolding lookup map_values
  lookup-map_values f j [] = refl
  lookup-map_values f j ((i, w) ∷ d) = ground (arith, lookup-map_values f j d)

  pub contains-eq : (k : Bytes) (d : Dict V) → contains k d ≡ has (lookup k d)
  unfolding contains
  contains-eq k d = refl

pub ruleset dict_laws = (lookup-assign, lookup-erase, lookup-insert, lookup-map_values, contains-eq)
