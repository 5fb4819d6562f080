-- ===== src/Reconcile/Retry.antt =====
-- A failure, and `Retry` after it.
use cf_herdr_poc.Base.{
  ℕ, String, true, ◌≡◌, refl, ◌∙◌, sym, ap, ◌⊎◌, inl, inr, Option, none, some, [], Err, join,
  Option-cases, is_some,
}
use cf_herdr_poc.Base.Exec.{Result, ok, err}
use cf_herdr_poc.Model.{Phase, Sandbox, no_phase}
use cf_herdr_poc.Sanitize.{sanitize}
use cf_herdr_poc.Store.{FileSystem, File}
use cf_herdr_poc.Store
use cf_herdr_poc.Store.Update.{update_done}
use cf_herdr_poc.Reconcile.{Config, Services, Reconciler}
use cf_herdr_poc.Reconcile.Effects.{update, to_failed, fail, error_of}
use cf_herdr_poc.Reconcile.Loop.{is_failed, resume, resumed}

some_inj : {A : Type 0} {x y : A} → some x ≡ some y → x ≡ y
some_inj h = cc

module _ {W C : Type 0} (fs : FileSystem W C) (svc : Services W) (config : Config)
    (name : String) where
  -- An update without an error stores the changed sandbox.
  pub update_ok :
      (change : ℕ → Sandbox → Sandbox) (s : Reconciler W) {b : Sandbox}
      → Store.get s.file name ≡ some b
      → (update fs svc name change s).0 ≡ ok tt
      → Store.get (update fs svc name change s).1.file name ≡ some (change (svc.now s.file.world) b)
  unfolding update
  update_ok change s {b} held h =
      let now = svc.now s.file.world in
      let quiet = no_error (Store.update fs name (λ t. ok (change now t)) s.file).1 h in
      let (t, was, is) = update_done fs name (change now) s.file quiet in
      is ∙ ap (λ r. some (change now r)) (some_inj (sym was ∙ held))
    where
      no_error :
          (e : Option Err)
          → ◌≡◌ {A = Result Err (Unit {0})} (elim e [ none ↦ ok tt | some x ↦ err x ]) (ok tt)
          → e ≡ none
      no_error none h = refl
      no_error (some x) h = cc

  -- The sandbox that a failure in `p` with the text `message` makes of `b`.
  abbrev pub broken : Phase → Err → ℕ → Sandbox → Sandbox
  broken p e now b = to_failed fs svc p (sanitize svc.redact e.text) now b

  -- `fail` for a stored sandbox never returns normally. It returns the cause joined with what the
  -- store returned; and the store returned an error, or the sandbox is failed, with the phase to
  -- resume and the sanitized text of the cause.
  pub fail_stores :
      (p : Phase) (e : Err) (s : Reconciler W) {b : Sandbox}
      → Store.get s.file name ≡ some b
      → let (r, t) = fail fs svc {A = Unit {0}} name p e s in
        (x : Option Err) × (r ≡ err (join e x))
        × ((is_some x ≡ true)
            ⊎ (Store.get t.file name ≡ some (broken p e (svc.now s.file.world) b)))
  unfolding fail
  fail_stores p e s held =
      let change = to_failed fs svc p (sanitize svc.redact e.text) in
      let r = (update fs svc name change s).0 in
      (
        error_of r,
        refl,
        elim (Option-cases (error_of r)) [
          | inl q ↦ inr (update_ok change s held (no_failure r q))
          | inr q ↦ inl (rw q.1 refl)
        ],
      )
    where
      no_failure : (r : Result Err (Unit {0})) → error_of r ≡ none → r ≡ ok tt
      no_failure (ok tt) q = refl
      no_failure (err x) q = cc

  -- A failure of a stored sandbox in phase `p` whose write returned no error, and then a retry
  -- whose write returns none: the sandbox is stored with phase `p`, no phase to resume and no
  -- error text, and as before the failure otherwise, but for its time of update.
  pub resume-fail :
      (p : Phase) (e : Err) (s : Reconciler W) {b : Sandbox}
      → Store.get s.file name ≡ some b
      → (update fs svc name (broken p e) s).0 ≡ ok tt
      → let t = (fail fs svc {A = Unit {0}} name p e s).1 in
        let c = broken p e (svc.now s.file.world) b in
        (resume fs svc config name c t).0 ≡ ok tt
        → Store.get (resume fs svc config name c t).1.file name
          ≡ some (record b {
            phase = p;
            resume_phase = no_phase;
            last_error = [];
            updated_at = svc.now t.file.world;
          })
  unfolding resume is_failed fail
  resume-fail p e s {b} held w h =
      update_ok (resumed fs svc config) (update fs svc name (broken p e) s).1
        (update_ok (broken p e) s held w) h
