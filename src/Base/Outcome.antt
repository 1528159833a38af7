-- ===== src/Base/Outcome.antt =====
-- Code that may not return normally.
use mathlib.Core.Bool.{Bool, true, false}
use mathlib.Core.Option.{Option, none, some}
use mathlib.Core.Path.{◌≡◌, refl}
use mathlib.Core.Logic.{◌⊎◌, inl, inr}
use zero_mq_rfc_implementati.Base.Tests.{if◌then◌else◌}

-- `contract`: a failed `Expects` or `Ensures`, which ends the process. `missing_part`: an access to
-- a frame that the message does not have. `out_of_range`: `at` with a missing key or index.
-- `thrown`: an exception that the code throws itself. `bad_value`: a text that does not convert.
-- `null_socket`: a use of a socket that has not been made. `undefined`: the removal of the first frame
-- of a message that has none.
pub data Fault : Type 0 where
  contract missing_part out_of_range thrown bad_value null_socket undefined : Fault

pub data Result {ℓ} (R : Type ℓ) : Type ℓ where
  err : Fault → Result R
  ok : R → Result R

-- `Expects` and `Ensures` with `contract`; other tests that throw.
abbrev pub guard : (condition : Bool) (fault : Fault) → Result (Unit {0})
guard false fault = err fault
guard true fault = ok tt

-- The code after a statement that may fail.
infixl 5 ◌>>=◌
abbrev pub ◌>>=◌ {ℓ κ} :
    {S : Type ℓ} {R : Type κ} (done : Result S) (rest : S → Result R) → Result R
err fault >>= rest = err fault
ok value >>= rest = rest value

infixl 5 ◌>>◌
abbrev pub ◌>>◌ {ℓ} : {R : Type ℓ} (done : Result (Unit {0})) (rest : Result R) → Result R
done >> rest = done >>= λ nothing. rest

abbrev pub or_fault {ℓ} : {A : Type ℓ} → Option A → Fault → Result A
or_fault none e = err e
or_fault (some a) e = ok a

pub Result-cases {ℓ} :
    {A : Type ℓ} (r : Result A) → ((a : A) × (r ≡ ok a)) ⊎ ((e : Fault) × (r ≡ err e))
Result-cases (ok a) = inl (a, refl)
Result-cases (err e) = inr (e, refl)

-- What holds of the result if there is one.
abbrev pub Post {ℓ κ} : {A : Type ℓ} → (A → Type κ) → Result A → Type κ
Post P (ok a) = P a
Post P (err f) = Unit

pub Post-bind {ℓ κ ι} :
    {A : Type ℓ} {B : Type κ} (P : B → Type ι) (r : Result A) (f : A → Result B)
    → ((a : A) → r ≡ ok a → Post P (f a))
    → Post P (r >>= f)
Post-bind P (ok a) f h = h a refl
Post-bind P (err e) f h = tt

pub Post-then {ℓ κ ι} :
    {A : Type ℓ} {B : Type κ} (Q : A → Type ι) (P : B → Type ι) (r : Result A) (f : A → Result B)
    → Post Q r
    → ((a : A) → Q a → Post P (f a))
    → Post P (r >>= f)
Post-then Q P (ok a) f q h = h a q
Post-then Q P (err e) f q h = tt

pub Post-if {ℓ κ} :
    {A : Type ℓ} (P : A → Type κ) (c : Bool) (x y : Result A)
    → Post P x
    → Post P y
    → Post P (if c then x else y)
Post-if P true x y h k = h
Post-if P false x y h k = k

pub Post-mono {ℓ κ ι} :
    {A : Type ℓ} (Q : A → Type κ) (P : A → Type ι) (r : Result A)
    → ((a : A) → Q a → P a)
    → Post Q r
    → Post P r
Post-mono Q P (ok a) h q = h a q
Post-mono Q P (err e) h q = tt

pub Post-test {ℓ κ} :
    {A : Type ℓ} (P : A → Type κ) (c : Bool) (x y : Result A)
    → (c ≡ true → Post P x)
    → (c ≡ false → Post P y)
    → Post P (if c then x else y)
Post-test P true x y h k = h refl
Post-test P false x y h k = k refl
