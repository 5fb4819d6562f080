-- ===== src/Bundle/Overlay.antt =====
-- The changes of internal/runtime/bundle.go: the clone, the copy of the runtime, an enrollment.
use cf_herdr_poc.Base.{
  ℕ, String, Bytes, codes, Bool, true, false, not, ◌||◌, none, some, List, [], ◌∷◌, ◌++◌, Err,
  error_new, wrap, join, if◌then◌else◌, ◌==◌, is_nil,
}
use cf_herdr_poc.Base.Exec.{
  Result, ok, err, Exec, pure, raise, lift, gets, check, ◌>>=◌, ◌>>◌, catch,
}
use cf_herdr_poc.Base.Results.{wrapped}
use cf_herdr_poc.Paths.{FilePath, join_path, relative, parent}
use cf_herdr_poc.Bundle.{Visit, Argument, word, file, System, Builder}
use cf_herdr_poc.Bundle.Checks.{
  within_work_root, reject_symlink_components, validate_runtime, validate_overlay_destination,
}

abbrev pub starts_in_dash : Bytes → Bool
starts_in_dash [] = false
starts_in_dash (c ∷ s) = c == b'-'

abbrev pub clone_args : Bytes → FilePath → List Argument
clone_args url destination =
    word (codes "git")
    ∷ word (codes "clone")
    ∷ word (codes "--depth")
    ∷ word (codes "1")
    ∷ word (codes "--")
    ∷ word url
    ∷ file destination
    ∷ []

abbrev pub revision_args : FilePath → List Argument
revision_args destination =
    word (codes "git")
    ∷ word (codes "-C")
    ∷ file destination
    ∷ word (codes "rev-parse")
    ∷ word (codes "HEAD")
    ∷ []

module _ {W H : Type 0} (sys : System W H) where
  -- What only reads.
  abbrev pub asks : {A : Type 0} → (W → Result Err A) → Exec W Err A
  asks f w = (f w, w)

  -- `defer`, where the error of the deferred call is dropped.
  unfoldable pub always : {A : Type 0} → Exec W Err (Unit {0}) → Exec W Err A → Exec W Err A
  always later m w = let (r, u) = m w in (r, (later u).1)

  abbrev pub named : {A : Type 0} → String → Exec W Err A → Exec W Err A
  named text m = catch m (λ e. raise (wrap text e))

  unfoldable pub close_failed : H → Err → Exec W Err (Unit {0})
  close_failed output e w = (err e, (sys.close output w).1)

  unfoldable pub fill_file : H → FilePath → ℕ → Exec W Err (Unit {0})
  unfolding close_failed
  fill_file input destination mode = do
    output ← sys.create_new destination mode
    catch (sys.copy output input) (close_failed output)
    sys.close output

  unfoldable pub copy_file : FilePath → FilePath → ℕ → Exec W Err (Unit {0})
  unfolding always fill_file
  copy_file source destination mode = do
    input ← sys.open_file source
    always (sys.close input) (fill_file input destination mode)

  unfoldable pub copy_link : FilePath → FilePath → Visit → Exec W Err (Unit {0})
  copy_link source destination v = do
    target ← asks (sys.readlink v.path)
    names ← lift (relative source v.path)
    let new = join_path destination names
    asks (reject_symlink_components sys (parent destination) new)
    sys.symlink target new

  unfoldable pub copy_entry : FilePath → FilePath → Visit → Exec W Err (Unit {0})
  copy_entry source destination v = do
    names ← lift (relative source v.path)
    let target = join_path destination names
    info ← lift v.info
    if v.is_dir then sys.mkdir_all target info.perm else copy_file v.path target info.perm

  unfoldable pub copy_visit : FilePath → FilePath → Visit → Exec W Err (Unit {0})
  unfolding copy_link copy_entry
  copy_visit source destination v = do
    check v.failure
    if v.is_symlink then copy_link source destination v else copy_entry source destination v

  unfoldable pub copy_visits : FilePath → FilePath → List Visit → Exec W Err (Unit {0})
  unfolding copy_visit
  copy_visits source destination [] = pure tt
  copy_visits source destination (v ∷ vs) =
      copy_visit source destination v >> copy_visits source destination vs

  unfoldable pub copy_runtime : FilePath → FilePath → Exec W Err (Unit {0})
  unfolding copy_visits
  copy_runtime source destination = do
    visits ← gets (sys.walk source)
    copy_visits source destination visits

  -- `fmt.Errorf("…: %w: %s", err, strings.TrimSpace(string(output)))`
  unfoldable pub git : String → List Argument → Exec W Err Bytes
  git text arguments w =
      let (u, output, e) = sys.run arguments w in
      elim e [
        | none ↦ (ok output, u)
        | some x ↦
            let cause = wrap text x in
            (err (record cause { text = cause.text ++ codes ": " ++ sys.trim_space output }), u)
      ]

  module _ (b : Builder) where
    unfoldable pub build : Bytes → FilePath → Exec W Err Bytes
    unfolding git copy_runtime
    build url destination = do
      git "clone repository" (clone_args url destination)
      asks (within_work_root sys b.work_root destination)
      asks (validate_runtime sys b.runtime_dir)
      let overlay = join_path destination ("sandbox-runtime" ∷ [])
      asks (validate_overlay_destination sys b.runtime_dir b.work_root overlay)
      named "overlay runtime" (copy_runtime b.runtime_dir overlay)
      output ← git "resolve revision" (revision_args destination)
      pure (sys.trim_space output)

    unfoldable pub remove_failed : FilePath → Err → Exec W Err Bytes
    remove_failed destination e w =
        let (r, u) = sys.remove_all destination w in
        elim r [
          | ok _ ↦ (err e, u)
          | err x ↦ (err (join e (some (wrap "remove failed destination" x))), u)
        ]

    unfoldable pub destination_absent : FilePath → W → Result Err Bool
    destination_absent destination w = elim (sys.lstat destination w) [
      | ok info ↦ ok false
      | err e ↦ if sys.not_exist e then ok true else err (wrap "inspect destination" e)
    ]

    -- `Prepare` returns the revision.
    unfoldable pub prepare : Bytes → FilePath → Exec W Err Bytes
    unfolding build remove_failed destination_absent
    prepare url destination = do
      if is_nil url || starts_in_dash url
          then raise (error_new "invalid repository URL")
          else pure tt
      if not b.has_runner then raise (error_new "command runner is required") else pure tt
      asks (within_work_root sys b.work_root destination)
      absent ← asks (destination_absent destination)
      if absent
          then catch (build url destination) (remove_failed destination)
          else build url destination

    unfoldable pub install_enrollment : FilePath → FilePath → Exec W Err (Unit {0})
    install_enrollment destination source = do
      asks (within_work_root sys b.work_root destination)
      let token = join_path destination ("sandbox-runtime" ∷ "join-token" ∷ [])
      asks (reject_symlink_components sys b.work_root token)
      contents ← asks (λ w. wrapped (wrap "read enrollment file") (sys.read_file source w))
      named "install enrollment file" (sys.write_file token contents 0o600)

  -- `Prepared` of the adapter `BundleRuntime`.
  unfoldable pub is_prepared : FilePath → W → Result Err Bool
  is_prepared path w = elim (sys.stat path w) [
    | ok info ↦ ok info.is_dir
    | err e ↦ if sys.not_exist e then ok false else err e
  ]
