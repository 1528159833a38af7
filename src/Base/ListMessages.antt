-- ===== src/Base/ListMessages.antt =====
-- A concrete instance of the message operations, for tests: plain lists, with an `int` as four bytes
-- in network order.
use zero_mq_rfc_implementati.Base.{
  ℕ, ◌+◌, ◌*◌, ◌/◌, ◌%◌, ◌^◌, ◌<◌, ◌≡◌, refl, Bytes, [], ◌∷◌, ◌++◌, length, get_elem?, arith,
}
use zero_mq_rfc_implementati.Base.Zmqpp.{Message, Zmqpp}

abbrev rest : Message → Message
rest [] = []
rest (f ∷ m) = m

abbrev four_bytes : ℕ → Bytes
four_bytes n = n / 2 ^ 24 % 256 ∷ n / 2 ^ 16 % 256 ∷ n / 2 ^ 8 % 256 ∷ n % 256 ∷ []

abbrev from_four_bytes : Bytes → ℕ
from_four_bytes (a ∷ b ∷ c ∷ d ∷ fs) = a * 2 ^ 24 + b * 2 ^ 16 + c * 2 ^ 8 + d
from_four_bytes _ = 0

pub four_bytes_round_trip : (n : ℕ) → n < 2 ^ 32 → from_four_bytes (four_bytes n) ≡ n
four_bytes_round_trip n h = omega arith

instance abbrev pub list_messages : Zmqpp
list_messages = record {
  parts = length;
  get_text = get_elem?;
  pop_front = rest;
  push_front = λ m f. f ∷ m;
  push_back = λ m f. m ++ f ∷ [];
  put_int = four_bytes;
  get_int = from_four_bytes;
  parts_lem = λ m. refl;
  get_text_lem = λ m i. refl;
  pop_front_lem = λ f m. refl;
  push_front_lem = λ m f. refl;
  push_back_lem = λ m f. refl;
  get_int-put_int = four_bytes_round_trip;
}
