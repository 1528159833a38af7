-- ===== src/Utils/Files.antt =====
-- utils/zmqutil.cpp: `save` and `load`. A file is the list of its bytes; one that cannot be opened
-- reads as an empty one. Lines end in one byte 10, as in a file that is opened with no translation.
use zero_mq_rfc_implementati.Base.{ℕ, Bytes, List, [], ◌∷◌, ◌++◌, nat_eq, if◌then◌else◌}
use zero_mq_rfc_implementati.Base.Zmqpp.{Message, Zmqpp, push_back}

abbrev pub newline : ℕ
newline = b'\n'

-- The frames that the loop of `save` writes, each with an end of line.
unfoldable pub save : Message → Bytes
save [] = []
save (f ∷ m) = f ++ newline ∷ save m

abbrev last_line : Bytes → List Bytes
last_line [] = []
last_line (c ∷ cs) = (c ∷ cs) ∷ []

-- `getline` over the whole file: the lines, where the last one counts if it has a byte. `line` is the
-- line read so far.
unfoldable pub lines : Bytes → Bytes → List Bytes
lines line [] = last_line line
lines line (c ∷ cs) =
    let rest = lines (if nat_eq c newline then [] else line ++ c ∷ []) cs in
    if nat_eq c newline then line ∷ rest else rest

module _ ⦃z : Zmqpp⦄ where
  unfoldable pub append_all : Message → List Bytes → Message
  append_all msg [] = msg
  append_all msg (l ∷ ls) = append_all (push_back msg l) ls

  unfoldable pub load : Bytes → Message
  unfolding lines append_all
  load file = append_all [] (lines [] file)
