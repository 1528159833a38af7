-- ===== src/Bsp/Pair/Safety.antt =====
-- The pair never has two actives, nor two passives, and settles.
use zero_mq_rfc_implementati.Base.{
  ℕ, ◌<◌, ◌≡◌, refl, ◌⊎◌, Option, none, some, true, false, Bool, arith,
}
use zero_mq_rfc_implementati.Bsp.States.{State, primary, backup, active, passive}
use zero_mq_rfc_implementati.Bsp.Bstar.{Bstar, on_request}
use zero_mq_rfc_implementati.Bsp.Pair.{
  Pair, boot, hear, NotActive, Step, Reach, tell_one, tell_two, ask_one, ask_two, stop_one,
  stop_two, boot_one, boot_two, here, next,
}

-- The states that the first and the second server can have together.
abbrev pub together : State → State → Bool
together primary backup = true
together primary active = true
together primary passive = true
together active backup = true
together active passive = true
together passive backup = true
together passive active = true
together s t = false

abbrev pub is_one : State → Bool
is_one primary = true
is_one active = true
is_one passive = true
is_one s = false

abbrev pub is_two : State → Bool
is_two backup = true
is_two active = true
is_two passive = true
is_two s = false

abbrev pub safe : Option Bstar → Option Bstar → Bool
safe none none = true
safe (some a) none = is_one a.state
safe none (some b) = is_two b.state
safe (some a) (some b) = together a.state b.state

abbrev pub IsSafe : Pair → Type 0
IsSafe p = safe p.one p.two ≡ true

hear_one :
    (a b : Bstar) (heard now : ℕ)
    → together a.state b.state ≡ true
    → together (hear heard now b a).state b.state ≡ true
unfolding hear
hear_one a b heard now h = ground arith

hear_two :
    (a b : Bstar) (heard now : ℕ)
    → together a.state b.state ≡ true
    → together a.state (hear heard now a b).state ≡ true
unfolding hear
hear_two a b heard now h = ground arith

ask_one_safe :
    (a : Bstar) (b : Option Bstar) (now : ℕ)
    → (a.peer_expiry < now → NotActive b)
    → safe (some a) b ≡ true
    → safe (some (on_request now a)) b ≡ true
unfolding on_request
ask_one_safe a none now k h = ground arith
ask_one_safe a (some b) now k h = ground arith

ask_two_safe :
    (a : Option Bstar) (b : Bstar) (now : ℕ)
    → (b.peer_expiry < now → NotActive a)
    → safe a (some b) ≡ true
    → safe a (some (on_request now b)) ≡ true
unfolding on_request
ask_two_safe none b now k h = ground arith
ask_two_safe (some a) b now k h = ground arith

stop_one_safe : (a b : Option Bstar) → safe a b ≡ true → safe none b ≡ true
stop_one_safe none b h = h
stop_one_safe (some a) none h = refl
stop_one_safe (some a) (some b) h = ground arith

stop_two_safe : (a b : Option Bstar) → safe a b ≡ true → safe a none ≡ true
stop_two_safe none b h = refl
stop_two_safe (some a) none h = h
stop_two_safe (some a) (some b) h = ground arith

boot_one_safe :
    (a b : Option Bstar) (now : ℕ) → safe a b ≡ true → safe (some (boot true now)) b ≡ true
unfolding boot
boot_one_safe a none now h = refl
boot_one_safe none (some b) now h = ground arith
boot_one_safe (some a) (some b) now h = ground arith

boot_two_safe :
    (a b : Option Bstar) (now : ℕ) → safe a b ≡ true → safe a (some (boot false now)) ≡ true
unfolding boot
boot_two_safe none b now h = refl
boot_two_safe (some a) none now h = ground arith
boot_two_safe (some a) (some b) now h = ground arith

Step-IsSafe : {p q : Pair} → Step p q → IsSafe p → IsSafe q
Step-IsSafe (tell_one a b heard now) h = hear_one a b heard now h
Step-IsSafe (tell_two a b heard now) h = hear_two a b heard now h
Step-IsSafe (ask_one a b now k) h = ask_one_safe a b now k h
Step-IsSafe (ask_two a b now k) h = ask_two_safe a b now k h
Step-IsSafe (stop_one a b) h = stop_one_safe a b h
Step-IsSafe (stop_two a b) h = stop_two_safe a b h
Step-IsSafe (boot_one a b now) h = boot_one_safe a b now h
Step-IsSafe (boot_two a b now) h = boot_two_safe a b now h

Reach-IsSafe : {p q : Pair} → IsSafe p → Reach p q → IsSafe q
Reach-IsSafe h here = h
Reach-IsSafe h (next r s) = Step-IsSafe s (Reach-IsSafe h r)

abbrev pub both_down : Pair
both_down = record { one = none; two = none }

not_both :
    (a b : Bstar)
    → together a.state b.state ≡ true
    → ¬ ((a.state ≡ active) × (b.state ≡ active)) × ¬ ((a.state ≡ passive) × (b.state ≡ passive))
not_both a b h = (λ k. ground arith, λ k. ground arith)

-- From two servers that are down, after any steps of the pair (states told while they hold, requests,
-- stops and starts, and a peer given up only while it is not active), the two servers are never both
-- active and never both passive.
pub Reach-not_both :
    (a b : Bstar)
    → Reach both_down (record { one = some a; two = some b })
    → ¬ ((a.state ≡ active) × (b.state ≡ active)) × ¬ ((a.state ≡ passive) × (b.state ≡ passive))
Reach-not_both a b r = not_both a b (Reach-IsSafe {p = both_down} refl r)

-- The two servers after the first, the second and the first again have heard their peer.
abbrev pub settled : ℕ → Bstar → Bstar → Bstar × Bstar
settled now a b =
    let a₁ = hear now now b a in let b₁ = hear now now a₁ b in (hear now now b₁ a₁, b₁)

settled_lem :
    (now : ℕ) (a b : Bstar)
    → together a.state b.state ≡ true
    → (((settled now a b).0.state ≡ active) × ((settled now a b).1.state ≡ passive))
      ⊎ (((settled now a b).0.state ≡ passive) × ((settled now a b).1.state ≡ active))
unfolding hear
settled_lem now a b h = ground arith

-- From any pair of running servers that is reached so, three state messages leave one server active
-- and the other passive.
pub Reach-settles :
    (now : ℕ) (a b : Bstar)
    → Reach both_down (record { one = some a; two = some b })
    → (((settled now a b).0.state ≡ active) × ((settled now a b).1.state ≡ passive))
      ⊎ (((settled now a b).0.state ≡ passive) × ((settled now a b).1.state ≡ active))
Reach-settles now a b r = settled_lem now a b (Reach-IsSafe {p = both_down} refl r)
