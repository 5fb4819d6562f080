-- ===== src/Manager/Settings/Physical.antt =====
-- The directories that the manager has made sure of.
use mathlib.Core.Path.{subst}
use cf_herdr_poc.Base.{
  ℕ, String, true, ◌≡◌, refl, inl, inr, none, List, [], ◌∷◌, All, Bool-cases, Option-cases, sym,
  ◌∙◌, ap,
}
use cf_herdr_poc.Base.Exec.{ok, Result-cases}
use cf_herdr_poc.Paths.{FilePath}
use cf_herdr_poc.Bundle.{Info, System}
use cf_herdr_poc.Manager.Settings.{
  is_physical, look_at, look_again, make_dir, ensure_private_dir, ensure_dirs,
}

module _ {W H : Type 0} (sys : System W H) where
  -- A directory, and no link to one.
  pub record IsPhysical (w : W) (path : FilePath) : Type 0 where
    pub info : Info
    pub looked : sys.lstat path w ≡ ok info
    pub physical : is_physical sys info ≡ true

  -- `MkdirAll` leaves directories alone.
  pub record IsKeeping : Type 0 where
    pub kept :
        (path other : FilePath) (mode : ℕ) (w : W)
        → IsPhysical w path
        → IsPhysical (sys.mkdir_all other mode w).1 path

  look_at-physical :
      (path : FilePath) (info : Info) → look_at sys path info ≡ none → is_physical sys info ≡ true
  unfolding look_at
  look_at-physical path info h = elim (Bool-cases info.is_symlink) [
    | inl p ↦ let q = rw p at h in cc
    | inr p ↦ elim (Bool-cases info.is_dir) [
      | inl q ↦ rw p (rw q refl)
      | inr q ↦ let r = rw p at (rw q at h) in cc
    ]
  ]

  look_again-IsPhysical :
      (path : FilePath) (w : W) → look_again sys path w ≡ none → IsPhysical w path
  unfolding look_again
  look_again-IsPhysical path w h = elim (Result-cases (sys.lstat path w)) [
    | inl p ↦ let q = rw (p.1, look_again) at h in cc
    | inr p ↦ elim (Bool-cases (is_physical sys p.0)) [
      | inl q ↦ record { info = p.0; looked = p.1; physical = q }
      | inr q ↦ let r = rw (p.1, q, look_again) at h in cc
    ]
  ]

  make_dir-IsPhysical :
      (path : FilePath) (w : W)
      → (make_dir sys path w).1 ≡ none
      → IsPhysical (make_dir sys path w).0 path
  unfolding make_dir
  make_dir-IsPhysical path w h = elim (Result-cases (sys.mkdir_all path 0o700 w).0) [
    | inl p ↦ let q = rw (p.1, make_dir) at h in cc
    | inr p ↦
        rw (p.1, make_dir)
          (look_again-IsPhysical path (sys.mkdir_all path 0o700 w).1 (rw (p.1, make_dir) at h))
  ]

  ensure_private_dir-IsPhysical :
      (path : FilePath) (w : W)
      → (ensure_private_dir sys path w).1 ≡ none
      → IsPhysical (ensure_private_dir sys path w).0 path
  unfolding ensure_private_dir
  ensure_private_dir-IsPhysical path w h = elim (Result-cases (sys.lstat path w)) [
    | inr p ↦
        let found = look_at-physical path p.0 (rw (p.1, ensure_private_dir) at h) in
        rw (p.1, ensure_private_dir) (record { info = p.0; looked = p.1; physical = found })
    | inl p ↦ elim (Bool-cases (sys.not_exist p.0)) [
      | inl q ↦
          rw (p.1, q, ensure_private_dir)
            (make_dir-IsPhysical path w (rw (p.1, q, ensure_private_dir) at h))
      | inr q ↦ let r = rw (p.1, q, ensure_private_dir) at h in cc
    ]
  ]

  module _ (keeping : IsKeeping) where
    make_dir-keeps :
        (path other : FilePath) (w : W)
        → IsPhysical w path
        → IsPhysical (make_dir sys other w).0 path
    unfolding make_dir
    make_dir-keeps path other w h =
        let kept = keeping.kept path other 0o700 w h in
        elim (Result-cases (sys.mkdir_all other 0o700 w).0) [
          | inl p ↦ rw (p.1, make_dir) kept
          | inr p ↦ rw (p.1, make_dir) kept
        ]

    ensure_private_dir-keeps :
        (path other : FilePath) (w : W)
        → IsPhysical w path
        → IsPhysical (ensure_private_dir sys other w).0 path
    unfolding ensure_private_dir
    ensure_private_dir-keeps path other w h = elim (Result-cases (sys.lstat other w)) [
      | inr p ↦ rw (p.1, ensure_private_dir) h
      | inl p ↦ elim (Bool-cases (sys.not_exist p.0)) [
        | inl q ↦ rw (p.1, q, ensure_private_dir) (make_dir-keeps path other w h)
        | inr q ↦ rw (p.1, q, ensure_private_dir) h
      ]
    ]

    ensure_dirs-keeps :
        (path : FilePath) (dirs : List (String × FilePath)) (w : W)
        → IsPhysical w path
        → IsPhysical (ensure_dirs sys dirs w).0 path
    unfolding ensure_dirs
    ensure_dirs-keeps path [] w h = h
    ensure_dirs-keeps path ((name, other) ∷ rest) w h =
        let kept = ensure_private_dir-keeps path other w h in
        elim (Option-cases (ensure_private_dir sys other w).1) [
          | inl p ↦ rw (p, ensure_dirs) (ensure_dirs-keeps path rest _ kept)
          | inr p ↦ rw (p.1, ensure_dirs) kept
        ]

    ensure_dirs-next :
        (name : String) (path : FilePath) (rest : List (String × FilePath)) (w : W)
        → (ensure_private_dir sys path w).1 ≡ none
        → ensure_dirs sys ((name, path) ∷ rest) w
          ≡ ensure_dirs sys rest (ensure_private_dir sys path w).0
    unfolding ensure_dirs
    ensure_dirs-next name path rest w p = rw (p, ensure_dirs) refl

    -- If `MkdirAll` leaves directories alone, then in whatever order the manager makes sure of its
    -- directories: without an error each of them is a directory in the end, and none is a symbolic
    -- link.
    pub ensure_dirs-IsPhysical :
        (dirs : List (String × FilePath)) (w : W)
        → (ensure_dirs sys dirs w).1 ≡ none
        → All (λ d. IsPhysical (ensure_dirs sys dirs w).0 d.1) dirs
    unfolding ensure_dirs
    ensure_dirs-IsPhysical [] w h = tt
    ensure_dirs-IsPhysical ((name, path) ∷ rest) w h =
        elim (Option-cases (ensure_private_dir sys path w).1) [
          | inr p ↦ let q = rw (p.1, ensure_dirs) at h in cc
          | inl p ↦
              let u = (ensure_private_dir sys path w).0 in
              let made = ensure_private_dir-IsPhysical path w p in
              let next = ensure_dirs-next name path rest w p in
              let later : (ensure_dirs sys rest u).1 ≡ none = sym (ap (λ r. r.1) next) ∙ h in
              subst (λ r. All (λ (d : String × FilePath). IsPhysical r.0 d.1) ((name, path) ∷ rest))
                (sym next) (ensure_dirs-keeps path rest u made, ensure_dirs-IsPhysical rest u later)
        ]
