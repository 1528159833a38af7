-- ===== src/Mdp/Registry/Erase.antt =====
-- `std::erase` of a list's own element.
use zero_mq_rfc_implementati.Base.{
  inl, inr, ℕ, ◌≡◌, refl, Bytes, ◌==◌, ==_iff, ==_refl, false, Option, none, some, List, [], ◌∷◌,
  All, arith, Bool-cases,
}
use zero_mq_rfc_implementati.Mdp.Registry.{remove_own}
use zero_mq_rfc_implementati.Mdp.Registry.Known.{Distinct}

pub remove_own-All {κ} :
    (P : Bytes → Type κ) (v : Bytes) (slot : Option ℕ) (xs : List Bytes)
    → All P xs
    → All P (remove_own v slot xs)
unfolding remove_own
remove_own-All P v slot [] h = tt
remove_own-All P v slot (x ∷ xs) h = elim (Bool-cases (x == v)) [
  | inl same ↦ rw same (remove_own-All P _ _ xs h.1)
  | inr other ↦ rw other (h.0, remove_own-All P _ _ xs h.1)
]

remove_own_past :
    (v : Bytes) (xs : List Bytes) → All (λ j. (v == j) ≡ false) xs → remove_own v none xs ≡ xs
unfolding remove_own
remove_own_past v [] h = refl
remove_own_past v (x ∷ xs) h = ground (arith, remove_own_past v xs h.1, ==_iff x v, ==_iff v x)

remove_own_next :
    (v : Bytes) (xs : List Bytes)
    → All (λ j. (v == j) ≡ false) xs
    → Distinct xs
    → remove_own v (some 0) xs ≡ xs
unfolding remove_own
remove_own_next v [] h d = refl
remove_own_next v (x ∷ xs) h d = ground (arith, remove_own_past x xs d.0, ==_iff x v, ==_iff v x)

-- Among distinct elements, erasing the first by reference leaves the others.
pub remove_own-head :
    (x : Bytes) (xs : List Bytes) → Distinct (x ∷ xs) → remove_own x (some 0) (x ∷ xs) ≡ xs
unfolding remove_own
remove_own-head x xs d = ground (arith, remove_own_next x xs d.0 d.1, ==_refl x)
