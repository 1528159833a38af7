-- ===== src/Base/Zmqpp.antt =====
-- What the program uses of zmqpp's messages. A message is seen as the list of its frames; the
-- operations are parameters, an instance argument of the code that calls them, with the documented
-- behaviour of each as a law.
use Prim.Native.Nat.{ℕ, ◌<◌, ◌^◌}
use mathlib.Core.Path.{◌≡◌}
use mathlib.Core.Option.{Option}
use mathlib.Core.List.{List, [], ◌∷◌, ◌++◌}
use zero_mq_rfc_implementati.Base.Frames.{Bytes}
use zero_mq_rfc_implementati.Base.Lists.{length, get_elem?}
use zero_mq_rfc_implementati.Base.Outcome.{Result, ok, err, missing_part, or_fault, ◌>>=◌}

abbrev pub Message : Type 0
Message = List Bytes

-- An `int` is given by its 32-bit pattern.
pub record Zmqpp : Type 0 where
  pub parts : Message → ℕ
  -- `get<std::string>(i)`; `none` where the message has no such frame
  pub get_text : Message → ℕ → Option Bytes
  pub pop_front : Message → Message
  pub push_front : Message → Bytes → Message
  pub push_back : Message → Bytes → Message
  -- the frame of an `int`, and the `int` of a frame
  pub put_int : ℕ → Bytes
  pub get_int : Bytes → ℕ
  pub parts_lem : (m : Message) → parts m ≡ length m
  pub get_text_lem : (m : Message) (i : ℕ) → get_text m i ≡ get_elem? m i
  pub pop_front_lem : (f : Bytes) (m : Message) → pop_front (f ∷ m) ≡ m
  pub push_front_lem : (m : Message) (f : Bytes) → push_front m f ≡ f ∷ m
  pub push_back_lem : (m : Message) (f : Bytes) → push_back m f ≡ m ++ f ∷ []
  pub get_int-put_int : (n : ℕ) → n < 2 ^ 32 → get_int (put_int n) ≡ n

module _ ⦃z : Zmqpp⦄ where
  abbrev pub parts : Message → ℕ
  parts = z.parts

  abbrev pub pop_front : Message → Message
  pop_front = z.pop_front

  abbrev pub push_front : Message → Bytes → Message
  push_front = z.push_front

  abbrev pub push_back : Message → Bytes → Message
  push_back = z.push_back

  abbrev pub put_int : ℕ → Bytes
  put_int = z.put_int

  -- `msg.get<std::string>(i)`
  unfoldable pub get_text : Message → ℕ → Result Bytes
  get_text m i = or_fault (z.get_text m i) missing_part

  -- `msg.get<int>(i)`
  unfoldable pub get_int : Message → ℕ → Result ℕ
  unfolding get_text
  get_int m i = do f ← get_text m i; ok (z.get_int f)

  -- `msg.get<std::string>(0)` and then `msg.pop_front()`
  unfoldable pub take_text : Message → Result (Bytes × Message)
  unfolding get_text
  take_text m = do f ← get_text m 0; ok (f, pop_front m)

  pub get_text_eq : (m : Message) (i : ℕ) → get_text m i ≡ or_fault (get_elem? m i) missing_part
  unfolding get_text
  get_text_eq m i = rw z.get_text_lem

  pub get_text_zero : (f : Bytes) (m : Message) → get_text (f ∷ m) 0 ≡ ok f
  get_text_zero f m = rw get_text_eq

  pub take_text-cons : (f : Bytes) (m : Message) → take_text (f ∷ m) ≡ ok (f, m)
  unfolding take_text
  take_text-cons f m = simp (z.get_text_lem, z.pop_front_lem)

  pub take_text-nil : take_text [] ≡ err missing_part
  unfolding take_text
  take_text-nil = simp z.get_text_lem

  pub get_int-cons_put : (n : ℕ) (m : Message) → n < 2 ^ 32 → get_int (put_int n ∷ m) 0 ≡ ok n
  unfolding get_int
  get_int-cons_put n m h = simp z.get_text_lem (rw (z.get_int-put_int n h))

  pub push_front_eq : (m : Message) (f : Bytes) → push_front m f ≡ f ∷ m
  push_front_eq = z.push_front_lem

  pub push_back_eq : (m : Message) (f : Bytes) → push_back m f ≡ m ++ f ∷ []
  push_back_eq = z.push_back_lem

  pub pop_front_eq : (f : Bytes) (m : Message) → pop_front (f ∷ m) ≡ m
  pop_front_eq = z.pop_front_lem

  pub parts_eq : (m : Message) → parts m ≡ length m
  parts_eq = z.parts_lem

pub ruleset frame_laws = (
  get_text_eq, take_text-cons, take_text-nil, push_front_eq, push_back_eq, pop_front_eq, parts_eq,
)
