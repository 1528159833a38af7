-- ===== src/Chp/Decimal.antt =====
-- What `std::format` and `std::from_chars` and `std::stoull` do with unsigned decimal numbers.
use native.Mathlib.Omega.{pow_step}
use zero_mq_rfc_implementati.Base.{
  ℕ, zero, suc, ◌+◌, ◌-◌, ◌*◌, ◌/◌, ◌%◌, ◌^◌, ◌<◌, ◌≤◌, Bytes, Bool, true, ◌&&◌, ◌||◌, [], ◌∷◌,
  ◌++◌, length, length-append, All, All-append, ltb, leb, nat_eq, if◌then◌else◌, Result, ok, err,
  bad_value, out_of_range, ◌≡◌, ◌≢◌, subst, Bool-cases, inl, inr, refl, ◌∙◌, sym, ap, arith, lt→ltb,
  le→ltb, ltb→lt,
}

-- The last `k` decimal digits of a number.
unfoldable pub fixed : ℕ → ℕ → Bytes
fixed zero n = []
fixed (suc k) n = fixed k (n / 10) ++ (48 + n % 10) ∷ []

-- The first width from `w` on that the number fits in, at most `fuel` more.
unfoldable pub width_from : ℕ → ℕ → ℕ → ℕ
width_from zero w n = w
width_from (suc fuel) w n =
    let rest = width_from fuel (suc w) n in if ltb n (10 ^ w) then w else rest

-- A format `{0:0wd}`: at least `w` digits, and as many as the number has. A number of 64 bits has 20
-- digits at most.
unfoldable pub padded : ℕ → ℕ → Bytes
unfolding fixed width_from
padded w n = fixed (width_from 20 w n) n

abbrev pub is_digit : ℕ → Bool
is_digit c = leb 48 c && leb c 57

unfoldable pub leading_digits : Bytes → Bytes
leading_digits [] = []
leading_digits (c ∷ cs) = let rest = leading_digits cs in if is_digit c then c ∷ rest else []

unfoldable pub value_from : ℕ → Bytes → ℕ
value_from acc [] = acc
value_from acc (c ∷ cs) = value_from (acc * 10 + (c - 48)) cs

-- `std::from_chars` into a variable that is 0: a text with no number, or with one of more than 64
-- bits, leaves it.
unfoldable pub from_chars : Bytes → ℕ
unfolding leading_digits value_from
from_chars s = let v = value_from 0 (leading_digits s) in if ltb v (2 ^ 64) then v else 0

abbrev is_space : ℕ → Bool
is_space c = nat_eq c 32 || (leb 9 c && leb c 13)

unfoldable pub skip_spaces : Bytes → Bytes
skip_spaces [] = []
skip_spaces (c ∷ cs) = let rest = skip_spaces cs in if is_space c then rest else c ∷ cs

unfoldable number_of : Bytes → Result ℕ
unfolding value_from
number_of [] = err bad_value
number_of (c ∷ cs) =
    let v = value_from 0 (c ∷ cs) in if ltb v (2 ^ 64) then ok v else err out_of_range

-- The digits behind the sign: none is an error, and so is a number of more than 64 bits.
unfoldable pub unsigned_of : Bytes → Result ℕ
unfolding leading_digits number_of
unsigned_of s = number_of (leading_digits s)

abbrev negate : Result ℕ → Result ℕ
negate (ok v) = ok ((2 ^ 64 - v) % 2 ^ 64)
negate (err e) = err e

-- A sign is allowed; a negative number wraps around.
abbrev signed_of : Bytes → Result ℕ
signed_of [] = err bad_value
signed_of (c ∷ cs) =
    if nat_eq c 45
    then negate (unsigned_of cs)
    else if nat_eq c 43
    then unsigned_of cs
    else unsigned_of (c ∷ cs)

-- `std::stoull`
unfoldable pub stoull : Bytes → Result ℕ
unfolding skip_spaces unsigned_of
stoull s = signed_of (skip_spaces s)

value_from-snoc :
    (acc : ℕ) (cs : Bytes) (c : ℕ)
    → value_from acc (cs ++ c ∷ []) ≡ value_from acc cs * 10 + (c - 48)
unfolding value_from
value_from-snoc acc [] c = refl
value_from-snoc acc (b ∷ cs) c = value_from-snoc (acc * 10 + (b - 48)) cs c

pow_step_ten : (k : ℕ) → 10 ^ suc k ≡ 10 * 10 ^ k
pow_step_ten k = pow_step 10 k

div_small : (k n : ℕ) → n < 10 ^ suc k → n / 10 < 10 ^ k
div_small k n h = omega (arith, pow_step_ten k)

value_from-fixed : (k n : ℕ) → n < 10 ^ k → value_from 0 (fixed k n) ≡ n
unfolding fixed
value_from-fixed zero n h = unfold value_from in omega arith
value_from-fixed (suc k) n h =
    value_from-snoc 0 (fixed k (n / 10)) (48 + n % 10)
    ∙ omega (arith, value_from-fixed k (n / 10) (div_small k n h))

pub length-fixed : (k n : ℕ) → length (fixed k n) ≡ k
unfolding fixed
length-fixed zero n = refl
length-fixed (suc k) n =
    length-append (fixed k (n / 10)) ((48 + n % 10) ∷ []) ∙ omega (arith, length-fixed k (n / 10))

IsDigit : ℕ → Type 0
IsDigit c = is_digit c ≡ true

All-fixed : (k n : ℕ) → All IsDigit (fixed k n)
unfolding fixed IsDigit
All-fixed zero n = tt
All-fixed (suc k) n =
    All-append IsDigit (fixed k (n / 10)) ((48 + n % 10) ∷ []) (All-fixed k (n / 10))
      (ground arith, tt)

leading_digits-digits : (cs : Bytes) → All IsDigit cs → leading_digits cs ≡ cs
unfolding leading_digits IsDigit
leading_digits-digits [] h = refl
leading_digits-digits (c ∷ cs) h = rw h.0 (ap (λ ds. c ∷ ds) (leading_digits-digits cs h.1))

-- What `from_chars` reads of a number that was written with enough digits.
pub from_chars-fixed : (k n : ℕ) → n < 10 ^ k → n < 2 ^ 64 → from_chars (fixed k n) ≡ n
unfolding from_chars
from_chars-fixed k n h b =
    rw
      (
        leading_digits-digits (fixed k n) (All-fixed k n),
        value_from-fixed k n h,
        lt→ltb n (2 ^ 64) b,
      )
      refl

skip_spaces-digit : (c : ℕ) (cs : Bytes) → IsDigit c → skip_spaces (c ∷ cs) ≡ c ∷ cs
unfolding skip_spaces IsDigit
skip_spaces-digit c cs h = ground (arith, h)

signed_of-digit : (c : ℕ) (cs : Bytes) → IsDigit c → signed_of (c ∷ cs) ≡ unsigned_of (c ∷ cs)
unfolding IsDigit
signed_of-digit c cs h = ground (arith, h)

unsigned_of-digits :
    (c : ℕ) (cs : Bytes)
    → All IsDigit (c ∷ cs)
    → value_from 0 (c ∷ cs) < 2 ^ 64
    → unsigned_of (c ∷ cs) ≡ ok (value_from 0 (c ∷ cs))
unfolding unsigned_of number_of
unsigned_of-digits c cs h b =
    rw (leading_digits-digits (c ∷ cs) h, lt→ltb (value_from 0 (c ∷ cs)) (2 ^ 64) b) refl

stoull-digits :
    (s : Bytes) → s ≢ [] → All IsDigit s → value_from 0 s < 2 ^ 64 → stoull s ≡ ok (value_from 0 s)
unfolding stoull
stoull-digits [] n h b = absurd (n refl)
stoull-digits (c ∷ cs) n h b =
    rw (skip_spaces-digit c cs h.0) (signed_of-digit c cs h.0 ∙ unsigned_of-digits c cs h b)

pub stoull-fixed : (k n : ℕ) → 0 < k → n < 10 ^ k → n < 2 ^ 64 → stoull (fixed k n) ≡ ok n
stoull-fixed k n p h b =
    let v = value_from-fixed k n h in
    let some_digit : fixed k n ≢ [] = λ e. ground (arith, length-fixed k n, ap length e, p) in
    stoull-digits (fixed k n) some_digit (All-fixed k n) (subst (λ m. m < 2 ^ 64) (sym v) b)
    ∙ ap ok v

width_from-fits : (fuel w n : ℕ) → n < 10 ^ (fuel + w) → n < 10 ^ width_from fuel w n
unfolding width_from
width_from-fits zero w n h = subst (λ k. n < 10 ^ k) (omega arith) h
width_from-fits (suc fuel) w n h = elim (Bool-cases (ltb n (10 ^ w))) [
  | inl fits ↦ rw fits (ltb→lt n (10 ^ w) fits)
  | inr large ↦ rw large (width_from-fits fuel (suc w) n (subst (λ k. n < 10 ^ k) (omega arith) h))
]

pub width_from-first : (fuel w n : ℕ) → n < 10 ^ w → width_from fuel w n ≡ w
unfolding width_from
width_from-first zero w n h = refl
width_from-first (suc fuel) w n h = rw (lt→ltb n (10 ^ w) h) refl

width_from-le : (fuel w n : ℕ) → w ≤ width_from fuel w n
unfolding width_from
width_from-le zero w n = omega arith
width_from-le (suc fuel) w n = elim (Bool-cases (ltb n (10 ^ w))) [
  | inl fits ↦ rw fits (omega arith)
  | inr large ↦ rw large (omega (arith, width_from-le fuel (suc w) n))
]

width_from-larger : (fuel w n : ℕ) → 10 ^ w ≤ n → w < width_from (suc fuel) w n
unfolding width_from
width_from-larger fuel w n h =
    rw (le→ltb n (10 ^ w) h) (omega (arith, width_from-le fuel (suc w) n))

fits_twenty : (w n : ℕ) → n < 2 ^ 64 → n < 10 ^ (20 + w)
fits_twenty zero n b = omega (arith, b)
fits_twenty (suc w) n b =
    let larger : n < 10 ^ suc (20 + w) = omega (arith, pow_step_ten (20 + w), fits_twenty w n b) in
    subst (λ k. n < 10 ^ k) (omega arith) larger

module _ (w n : ℕ) where
  -- Twenty digits are enough for a number of 64 bits.
  pub padded-fixed :
      0 < w → n < 2 ^ 64 → (k : ℕ) × (padded w n ≡ fixed k n) × (w ≤ k) × (n < 10 ^ k)
  unfolding padded
  padded-fixed p b =
      (width_from 20 w n, refl, width_from-le 20 w n, width_from-fits 20 w n (fits_twenty w n b))

  pub length-padded_small : n < 10 ^ w → length (padded w n) ≡ w
  unfolding padded
  length-padded_small h = length-fixed (width_from 20 w n) n ∙ width_from-first 20 w n h

  pub length-padded_large : 10 ^ w ≤ n → w < length (padded w n)
  unfolding padded
  length-padded_large h =
      subst (λ k. w < k) (sym (length-fixed (width_from 20 w n) n)) (width_from-larger 19 w n h)
