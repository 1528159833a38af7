-- ===== src/Tsp/Queue.antt =====
-- 9.TSP-Titanic Service Protocol/titanic/titanic.cpp: `run`. The queue file is the list of its bytes,
-- with the bytes `eol` for each end of line; reads and positions count bytes.
pub mod Scan
pub mod ShortLines
use zero_mq_rfc_implementati.Base.{
  ℕ, zero, suc, ◌+◌, Bytes, Bool, true, false, ◌&&◌, not, [], ◌∷◌, ◌++◌, length, nat_eq, ltb,
  if◌then◌else◌, Result, ok, ◌>>=◌,
}
use zero_mq_rfc_implementati.Base.Zmqpp.{Message, Zmqpp, get_text}

abbrev pub uuid_length : ℕ
uuid_length = 37

abbrev pub take : ℕ → Bytes → Bytes
take zero xs = []
take (suc n) [] = []
take (suc n) (x ∷ xs) = x ∷ take n xs

abbrev pub drop : ℕ → Bytes → Bytes
drop zero xs = xs
drop (suc n) [] = []
drop (suc n) (x ∷ xs) = drop n xs

-- Writing one byte at a position of the file.
abbrev pub put_at : ℕ → ℕ → Bytes → Bytes
put_at i b [] = []
put_at zero b (x ∷ xs) = b ∷ xs
put_at (suc i) b (x ∷ xs) = x ∷ put_at i b xs

abbrev pub zeros : ℕ → Bytes
zeros zero = []
zeros (suc n) = 0 ∷ zeros n

-- `append UUID to queue, prefixed with '-' for pending`
unfoldable pub append_uuid : Bytes → Bytes → Bytes → Bytes
append_uuid eol uuid file = file ++ b'-' ∷ uuid ++ eol

-- What the pipe brings.
module _ ⦃z : Zmqpp⦄ where
  unfoldable pub on_pipe : Bytes → Message → Bytes → Result Bytes
  unfolding append_uuid
  on_pipe eol msg file = do uuid ← get_text msg 0; ok (append_uuid eol uuid file)

-- A stream with a short read behind it has failed: its reads and writes do nothing from then on.
pub record Stream : Type 0 where
  pub file : Bytes
  pub uuid : Bytes
  pub failed : Bool

unfoldable pub read_at : ℕ → Stream → Stream
read_at pos s =
    if s.failed
    then s
    else (let got = take uuid_length (drop pos s.file) in
        record s { uuid = got ++ drop (length got) s.uuid; failed = ltb (length got) uuid_length })

abbrev pub is_pending : Bytes → Bool
is_pending [] = false
is_pending (c ∷ cs) = nat_eq c b'-'

-- `S` is the state of the rest of the program, `service` stands for `service_success` on it.
module _ {ℓ} {S : Type ℓ} (service : Bytes → S → Bool × S) where
  -- The body of the loop over the file, after its read.
  unfoldable pub process : ℕ → Stream → S → Stream × S
  process pos s w =
      if is_pending s.uuid
      then (let (success, w') = service (drop 1 s.uuid) w in
          (if success && not s.failed then record s { file = put_at pos b'+' s.file } else s, w'))
      else (s, w)

  unfoldable pub step : ℕ → Stream → S → Stream × S
  unfolding read_at process
  step pos s w = process pos (read_at pos s) w

  -- The loop from `pos` to `size`; `fuel` rounds at most.
  unfoldable pub scan_from : ℕ → ℕ → ℕ → Stream → S → Stream × S
  unfolding step
  scan_from zero size pos s w = (s, w)
  scan_from (suc fuel) size pos s w = elim (ltb pos size) [
    | true ↦ (let (s', w') = step pos s w in scan_from fuel size (pos + uuid_length + 2) s' w')
    | false ↦ (s, w)
  ]

  -- One pass over the file.
  unfoldable pub scan : Bytes → S → Bytes × S
  unfolding scan_from
  scan file w =
      let (s, w') =
        scan_from (length file) (length file) 0
          (record { file = file; uuid = zeros uuid_length; failed = false }) w in
      (s.file, w')
