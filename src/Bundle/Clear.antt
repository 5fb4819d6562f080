-- ===== src/Bundle/Clear.antt =====
-- What holds of a destination that `validateOverlayDestination` accepts.
use cf_herdr_poc.Base.{
  String, true, false, not, ◌&&◌, ◌≡◌, inl, inr, List, [], ◌∷◌, All, All-imp, Bool-cases,
  if◌then◌else◌, Err,
}
use cf_herdr_poc.Base.Exec.{Result, ok, err, Result-cases}
use cf_herdr_poc.Base.Results.{
  ◌>>=◌, ◌>>◌, >>=-eq-ok, done, wrapped-ok, checked, refuse_if-ok, each-All,
}
use cf_herdr_poc.Paths.{FilePath, join_path, absolute, relative}
use cf_herdr_poc.Bundle.{Info, Visit, System}
use cf_herdr_poc.Bundle.Checks.{
  Checked, parts, wrap_about, reject_from, reject_symlink_components, overlay_target,
  validate_overlay_visit, validate_overlay_destination,
}

module _ {W H : Type 0} (sys : System W H) (w : W) where
  -- What is looked at is missing, or it is as told.
  abbrev pub IfThere : Result Err Info → (Info → Type 0) → Type 0
  IfThere (err e) P = sys.not_exist e ≡ true
  IfThere (ok info) P = P info

  -- Below `current`, none of the names is a symbolic link, up to one that is missing.
  abbrev pub NoLink : FilePath → List String → Type 0
  NoLink current [] = Unit
  NoLink current (n ∷ ns) =
      let next = join_path current (n ∷ []) in
      IfThere (sys.lstat next w) (λ info. (info.is_symlink ≡ false) × NoLink next ns)

  -- No part of `target` below `root` is a symbolic link.
  pub record IsLinkFree (root target : FilePath) : Type 0 where
    pub from : FilePath
    pub root_found : absolute (sys.getwd w) root ≡ ok from
    pub to : FilePath
    pub target_found : absolute (sys.getwd w) target ≡ ok to
    pub names : List String
    pub way : relative from to ≡ ok names
    pub free : NoLink from (parts names)

  -- The place of a file of the runtime is free of links, and a directory comes to a directory.
  pub record IsClearFor (source root overlay : FilePath) (v : Visit) : Type 0 where
    pub names : List String
    pub way : relative source v.path ≡ ok names
    pub free : IsLinkFree root (join_path overlay names)
    pub fits :
        IfThere
          (sys.lstat (join_path overlay names) w)
          (λ info. (info.is_symlink ≡ false) × ((v.is_dir && not info.is_dir) ≡ false))

  abbrev pub IsClear : FilePath → FilePath → FilePath → Type 0
  IsClear source root overlay = All (IsClearFor source root overlay) (sys.walk source w)

  reject_from-NoLink :
      (current : FilePath) (names : List String)
      → reject_from sys w current names ≡ done
      → NoLink current names
  unfolding reject_from
  reject_from-NoLink current [] h = tt
  reject_from-NoLink current (n ∷ ns) h =
      let next = join_path current (n ∷ []) in
      elim (Result-cases (sys.lstat next w)) [
        | inl (e, p) ↦
            let h1 = rw (p, reject_from) at h in
            rw p
              (elim (Bool-cases (sys.not_exist e)) [ inl q ↦ q | inr q ↦ let x = rw q at h1 in cc ])
        | inr (info, p) ↦
            let h1 = rw (p, reject_from) at h in
            rw p (elim (Bool-cases info.is_symlink) [
              | inl q ↦ let x = rw q at h1 in cc
              | inr q ↦ (q, reject_from-NoLink next ns (rw q at h1))
            ])
      ]

  reject-IsLinkFree :
      (root target : FilePath)
      → reject_symlink_components sys root target w ≡ done
      → IsLinkFree root target
  unfolding reject_symlink_components
  reject-IsLinkFree root target h =
      let (from, e1, h1) = >>=-eq-ok _ _ tt h in
      let (to, e2, h2) = >>=-eq-ok _ _ tt h1 in
      let (names, e3, h3) = >>=-eq-ok _ _ tt h2 in
      record {
        from = from;
        root_found = wrapped-ok _ _ _ e1;
        to = to;
        target_found = wrapped-ok _ _ _ e2;
        names = names;
        way = wrapped-ok _ _ _ e3;
        free = reject_from-NoLink from (parts names) h3;
      }

  -- What `validate_overlay_visit` does behind its first steps.
  abbrev placed : Visit → FilePath → Checked
  placed v target = elim (sys.lstat target w) [
    | err e ↦
        if sys.not_exist e
        then done
        else err (wrap_about sys "inspect overlay destination " target "" e)
    | ok info ↦ overlay_target sys v info target
  ]

  abbrev named : FilePath → FilePath → Visit → List String → Checked
  named root overlay v names =
      let target = join_path overlay names in
      reject_symlink_components sys root target w >> placed v target

  target_fits :
      (v : Visit) (target : FilePath)
      → placed v target ≡ done
      → IfThere
          (sys.lstat target w)
          (λ info. (info.is_symlink ≡ false) × ((v.is_dir && not info.is_dir) ≡ false))
  unfolding overlay_target
  target_fits v target h = elim (Result-cases (sys.lstat target w)) [
    | inl (e, p) ↦
        let h1 = rw (p, placed) at h in
        rw p (elim (Bool-cases (sys.not_exist e)) [ inl q ↦ q | inr q ↦ let x = rw q at h1 in cc ])
    | inr (info, p) ↦
        let (u, e1, h2) = >>=-eq-ok _ _ tt (rw (p, placed) at h) in
        rw p (refuse_if-ok _ _ e1, refuse_if-ok _ _ h2)
  ]

  visit-IsClearFor :
      (source root overlay : FilePath) (v : Visit)
      → validate_overlay_visit sys source root overlay w v ≡ done
      → IsClearFor source root overlay v
  unfolding validate_overlay_visit
  visit-IsClearFor source root overlay v h =
      let way = relative source v.path in
      let (u, e1, h1) = >>=-eq-ok (checked v.failure) (λ _. way >>= named root overlay v) tt h in
      let (names, e2, h2) = >>=-eq-ok way (named root overlay v) tt h1 in
      let target = join_path overlay names in
      let (u2, e3, h3) =
        >>=-eq-ok (reject_symlink_components sys root target w) (λ _. placed v target) tt h2 in
      record {
        names = names;
        way = e2;
        free = reject-IsLinkFree root target e3;
        fits = target_fits v target h3;
      }

  pub validate_overlay-IsClear :
      (source root overlay : FilePath)
      → validate_overlay_destination sys source root overlay w ≡ done
      → IsClear source root overlay
  unfolding validate_overlay_destination
  validate_overlay-IsClear source root overlay h =
      All-imp (visit-IsClearFor source root overlay) (sys.walk source w) (each-All _ _ h)
