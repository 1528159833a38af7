-- ===== src/Tsp/Directory.antt =====
-- The files of 9.TSP-Titanic Service Protocol, a map from files to
-- their texts. The operating system takes a path up to its first zero byte.
use zero_mq_rfc_implementati.Base.{
  Bytes, codes, c_str, IsPlain, ◌==◌, ==_iff, Bool, false, Option, none, some, [], ◌++◌, ◌≡◌, arith,
}
use zero_mq_rfc_implementati.Base.Dict.{Dict, lookup, contains, assign, erase}

-- `TITANIC_DIR`/`uuid`.req and `TITANIC_DIR`/`uuid`.rep
abbrev pub req_path : Bytes → Bytes
req_path uuid = codes ".titanic/" ++ uuid ++ codes ".req"

abbrev pub rep_path : Bytes → Bytes
rep_path uuid = codes ".titanic/" ++ uuid ++ codes ".rep"

-- The platform's file system. `file_of` gives the file that a path names: other spellings, as "./U" or
-- another case of the letters, may name the same one. Files with the extensions .req and .rep differ.
pub record FileSystem : Type 0 where
  pub file_of : Bytes → Bytes
  pub req_rep_lem :
      (u v : Bytes)
      → IsPlain u
      → IsPlain v
      → (file_of (c_str (req_path u)) == file_of (c_str (rep_path v))) ≡ false

-- The texts of the files.
abbrev pub Directory : Type 0
Directory = Dict Bytes

module _ ⦃f : FileSystem⦄ where
  abbrev pub file : Bytes → Bytes
  file path = f.file_of (c_str path)

  unfoldable pub read : Bytes → Directory → Option Bytes
  read path fs = lookup (file path) fs

  unfoldable pub exists : Bytes → Directory → Bool
  exists path fs = contains (file path) fs

  unfoldable pub write : Bytes → Bytes → Directory → Directory
  write path text fs = assign (file path) text fs

  unfoldable pub remove : Bytes → Directory → Directory
  remove path fs = erase (file path) fs

  pub req_rep_differ :
      (u v : Bytes) → IsPlain u → IsPlain v → (file (req_path u) == file (rep_path v)) ≡ false
  req_rep_differ = f.req_rep_lem

  pub rep_req_differ :
      (u v : Bytes) → IsPlain u → IsPlain v → (file (rep_path u) == file (req_path v)) ≡ false
  rep_req_differ u v plain_u plain_v = ground (
    arith,
    f.req_rep_lem v u plain_v plain_u,
    ==_iff (file (rep_path u)) (file (req_path v)),
    ==_iff (file (req_path v)) (file (rep_path u)),
  )

-- What a stream on the path reads: nothing where there is no file.
abbrev pub contents : Option Bytes → Bytes
contents none = []
contents (some text) = text
