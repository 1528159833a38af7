-- ===== src/Tsp/Titanic/Paths.antt =====
-- 9.TSP-Titanic Service Protocol: closing an identifier leaves the files of those that name other files.
use zero_mq_rfc_implementati.Base.{◌≡◌, refl, ◌∙◌, Bytes, ◌==◌, false}
use zero_mq_rfc_implementati.Tsp.Directory.{
  FileSystem, Directory, file, req_path, rep_path, exists, remove,
}
use zero_mq_rfc_implementati.Tsp.Titanic.Passes.{exists-remove}

module _ ⦃f : FileSystem⦄ where
  -- Neither path of the first identifier names the file.
  abbrev pub Spares : Bytes → Bytes → Type 0
  Spares u path =
      ((file (req_path u) == file path) ≡ false) × ((file (rep_path u) == file path) ≡ false)

  -- No file that the first identifier names is one of the second.
  abbrev pub Apart : Bytes → Bytes → Type 0
  Apart u v = Spares u (req_path v) × Spares u (rep_path v)

  pub exists-close :
      (u path : Bytes) (fs : Directory)
      → Spares u path
      → exists path (remove (rep_path u) (remove (req_path u) fs)) ≡ exists path fs
  exists-close u path fs (req, rep) =
      exists-remove (rep_path u) path (remove (req_path u) fs)
      ∙ rw rep (exists-remove (req_path u) path fs ∙ rw req refl)
