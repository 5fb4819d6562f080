-- ===== src/Bundle/Valid.antt =====
-- What holds of a runtime that `validateRuntime` accepts.
use cf_herdr_poc.Base.{
  both_true, String, Bool, true, false, not, ◌≡◌, refl, List, error_new, wrap, All, All-imp,
  if◌then◌else◌,
}
use cf_herdr_poc.Base.Exec.{ok}
use cf_herdr_poc.Base.Results.{
  ◌>>=◌, ◌>>◌, >>=-eq-ok, done, wrapped, wrapped-ok, checked, checked-ok, refuse_if, refuse_if-ok,
  each, each-All,
}
use cf_herdr_poc.Paths.{FilePath, join_path, absolute}
use cf_herdr_poc.Paths.Laws.{IsChild, require_child_iff}
use cf_herdr_poc.Bundle.{Info, Visit, System}
use cf_herdr_poc.Bundle.Checks.{
  Checked, is_blank, wrap_about, assets, validate_symlink, validate_visit, validate_asset,
  validate_runtime,
}

module _ {W H : Type 0} (sys : System W H) (w : W) where
  -- A link that is relative and leads to a regular file below `root`.
  pub record LeadsInside (root path : FilePath) : Type 0 where
    pub target : FilePath
    pub link : sys.readlink path w ≡ ok target
    pub is_relative : target.rooted ≡ false
    pub found : FilePath
    pub evaluated : sys.eval_symlinks path w ≡ ok found
    pub resolved : FilePath
    pub located : absolute (sys.getwd w) found ≡ ok resolved
    pub inside : IsChild root resolved
    pub info : Info
    pub looked : sys.stat path w ≡ ok info
    pub is_file : info.is_regular ≡ true

  abbrev pub IsSafe : FilePath → FilePath → Bool → Type 0
  IsSafe root path true = LeadsInside root path
  IsSafe root path false = Unit

  abbrev pub IsAsset : FilePath → List String → Type 0
  IsAsset source names =
      (info : Info) × (sys.stat (join_path source names) w ≡ ok info)
      × (info.is_regular ≡ true)
      × (info.is_executable ≡ true)

  -- The physical root of the runtime, links that stay in it, and the assets.
  pub record IsRuntime (source : FilePath) : Type 0 where
    pub from : FilePath
    pub made : absolute (sys.getwd w) source ≡ ok from
    pub root : FilePath
    pub physical : sys.eval_symlinks from w ≡ ok root
    pub links : All (λ v. IsSafe root v.path v.is_symlink) (sys.walk source w)
    pub present : All (IsAsset source) assets

  not-false : (b : Bool) → not b ≡ false → b ≡ true
  not-false true h = refl
  not-false false h = cc

  validate_symlink-LeadsInside :
      (root path : FilePath) → validate_symlink sys root path w ≡ done → LeadsInside root path
  unfolding validate_symlink
  validate_symlink-LeadsInside root path h =
      let (target, e1, h1) = >>=-eq-ok _ _ tt h in
      let (u1, e2, h2) = >>=-eq-ok _ _ tt h1 in
      let (found, e3, h3) = >>=-eq-ok _ _ tt h2 in
      let (resolved, e4, h4) = >>=-eq-ok _ _ tt h3 in
      let (u2, e5, h5) = >>=-eq-ok _ _ tt h4 in
      let (info, e6, h6) = >>=-eq-ok _ _ tt h5 in
      record {
        target = target;
        link = wrapped-ok _ _ target e1;
        is_relative = refuse_if-ok _ _ e2;
        found = found;
        evaluated = wrapped-ok _ _ found e3;
        resolved = resolved;
        located = wrapped-ok _ _ resolved e4;
        inside = (require_child_iff root resolved).0 (checked-ok _ (wrapped-ok _ _ tt e5));
        info = info;
        looked = wrapped-ok _ _ info e6;
        is_file = not-false _ (refuse_if-ok _ _ h6);
      }

  link-IsSafe :
      (root path : FilePath) (link : Bool)
      → (if link then validate_symlink sys root path w else done) ≡ done
      → IsSafe root path link
  link-IsSafe root path true h = validate_symlink-LeadsInside root path h
  link-IsSafe root path false h = tt

  validate_visit-IsSafe :
      (root : FilePath) (v : Visit)
      → validate_visit sys root w v ≡ done
      → IsSafe root v.path v.is_symlink
  unfolding validate_visit
  validate_visit-IsSafe root v h =
      let next = if v.is_symlink then validate_symlink sys root v.path w else done in
      let (u, e, rest) = >>=-eq-ok (checked v.failure) (λ _. next) tt h in
      link-IsSafe root v.path v.is_symlink rest

  validate_asset-IsAsset :
      (source : FilePath) (names : List String)
      → validate_asset sys source w names ≡ done
      → IsAsset source names
  unfolding validate_asset
  validate_asset-IsAsset source names h =
      let (info, e, rest) = >>=-eq-ok _ _ tt h in
      let (regular, executable) = both_true _ _ (not-false _ (refuse_if-ok _ _ rest)) in
      (info, wrapped-ok _ _ info e, regular, executable)

  -- What `validateRuntime` does with the physical root, and with the path of the runtime.
  abbrev rooted : FilePath → FilePath → Checked
  rooted source root = do
    wrapped (wrap_about sys "validate runtime directory " source "")
        (each (validate_visit sys root w) (sys.walk source w))
    each (validate_asset sys source w) assets

  abbrev behind : FilePath → FilePath → Checked
  behind source from =
      wrapped (wrap "resolve runtime directory") (sys.eval_symlinks from w) >>= rooted source

  -- In a runtime that `validateRuntime` accepts, each symbolic link of the walk is relative and
  -- resolves to a regular file strictly below the physical root of the runtime, and each asset is
  -- there, as an executable regular file.
  pub validate_runtime-IsRuntime :
      (source : FilePath) → validate_runtime sys source w ≡ done → IsRuntime source
  unfolding validate_runtime
  validate_runtime-IsRuntime source h =
      let blank = refuse_if (is_blank source) (error_new "runtime directory is required") in
      let located = wrapped (wrap "resolve runtime directory") (absolute (sys.getwd w) source) in
      let (u1, e1, h1) = >>=-eq-ok blank (λ _. located >>= behind source) tt h in
      let (from, e2, h2) = >>=-eq-ok located (behind source) tt h1 in
      let (root, e3, h3) = >>=-eq-ok _ (rooted source) tt h2 in
      let (u2, e4, h4) = >>=-eq-ok _ (λ _. each (validate_asset sys source w) assets) tt h3 in
      let visited = each-All _ (sys.walk source w) (wrapped-ok _ _ tt e4) in
      record {
        from = from;
        made = wrapped-ok _ _ from e2;
        root = root;
        physical = wrapped-ok _ _ root e3;
        links = All-imp (validate_visit-IsSafe root) (sys.walk source w) visited;
        present = All-imp (validate_asset-IsAsset source) assets (each-All _ assets h4);
      }
