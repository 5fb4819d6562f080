-- ===== src/Bundle/Inside.antt =====
-- What `Prepare` changes.
use cf_herdr_poc.Base.{ℕ, String, Bytes, ◌≡◌, List, [], ◌∷◌, ◌++◌, All}
use cf_herdr_poc.Base.Exec.{ok, Exec}
use cf_herdr_poc.Base.Preserves.{Preserves}
use cf_herdr_poc.Paths.{FilePath, clean, join_path}
use cf_herdr_poc.Paths.Laws.{IsPlain}
use cf_herdr_poc.Bundle.{Visit, System, Builder}
use cf_herdr_poc.Bundle.Clear.{IsClear}
use cf_herdr_poc.Bundle.Valid.{IsRuntime}
use cf_herdr_poc.Bundle.Overlay.{named, clone_args, revision_args}

-- The overlay itself or what lies below it.
abbrev pub Under : FilePath → FilePath → Type 0
Under overlay p =
    (p.rooted ≡ overlay.rooted) × (more : List String) × (p.names ≡ (clean overlay).names ++ more)

-- A walk comes to its root and to what lies below it, by plain names.
abbrev pub IsFound : FilePath → Visit → Type 0
IsFound source v =
    (source.rooted ≡ v.path.rooted)
    × (more : List String) × ((clean v.path).names ≡ (clean source).names ++ more)
    × All IsPlain more

module _ {W H : Type 0} (sys : System W H) where
  pub record IsDisk : Type 0 where
    pub found : (source : FilePath) (w : W) → All (IsFound source) (sys.walk source w)
    pub named :
        (p : FilePath) (mode : ℕ) (w : W) (h : H)
        → (sys.create_new p mode w).0 ≡ ok h
        → sys.name h ≡ p

  -- Changes below the overlay leave `P` true, as does what changes no file.
  pub record KeptBelow (overlay : FilePath) (P : W → Type 0) : Type 0 where
    pub made : (p : FilePath) (mode : ℕ) → Under overlay p → Preserves P (sys.mkdir_all p mode)
    pub linked :
        (target p from : FilePath) (w : W)
        → sys.readlink from w ≡ ok target
        → Under overlay p
        → Preserves P (sys.symlink target p)
    pub created : (p : FilePath) (mode : ℕ) → Under overlay p → Preserves P (sys.create_new p mode)
    pub copied : (h k : H) → Under overlay (sys.name h) → Preserves P (sys.copy h k)
    pub opened : (p : FilePath) → Preserves P (sys.open_file p)
    pub closed : (h : H) → Preserves P (sys.close h)

  -- `P` is left true by git and by the removal of the destination. `Q` holds with it where the
  -- runtime is valid and its place in the destination is free of links, and changes below that place
  -- leave `Q` true.
  pub record KeptBy (b : Builder) (url : Bytes) (destination : FilePath) (P Q : W → Type 0)
      : Type 0 where
    pub cloned : (w : W) → P w → P (sys.run (clone_args url destination) w).0
    pub resolved : (w : W) → P w → P (sys.run (revision_args destination) w).0
    pub removed : Preserves P (sys.remove_all destination)
    pub ready :
        (w : W)
        → P w
        → IsRuntime sys w b.runtime_dir
        → IsClear sys w b.runtime_dir b.work_root (join_path destination ("sandbox-runtime" ∷ []))
        → Q w
    pub below : KeptBelow (join_path destination ("sandbox-runtime" ∷ [])) Q
    pub over : (w : W) → Q w → P w
