-- ===== src/Reconcile/Fuel.antt =====
-- How many rounds of the loop of `reconcileCreate` are enough.
use mathlib.Core.Path.{subst}
use cf_herdr_poc.Base.{
  ℕ, zero, suc, ◌≤◌, String, false, ◌≡◌, refl, ◌⊎◌, inl, inr, none, some, Err, lookup, arith,
  Bool-cases, Option-cases, true,
}
use cf_herdr_poc.Base.Exec.{Result, ok, err, ◌>>=◌, ◌>>◌, pure, catch}
use cf_herdr_poc.Base.Runs.{Runs}
use cf_herdr_poc.Model.{Phase, Sandbox, ready}
use cf_herdr_poc.Store.{FileSystem}
use cf_herdr_poc.Store
use cf_herdr_poc.Reconcile.{Enrollment, Config, Services, Reconciler}
use cf_herdr_poc.Reconcile.Effects.{get, fail, alive, is_alive}
use cf_herdr_poc.Reconcile.Create.{is_deleted, needs_enrollment, advance}
use cf_herdr_poc.Reconcile.Delete.{reconcile_delete}
use cf_herdr_poc.Reconcile.Loop.{
  Round, again, finished, Loop, returned, out_of_fuel, go_on, is_ready, phase_now, run_phase, gate,
  present_round, round, reconcile_create,
}
use cf_herdr_poc.Reconcile.Held.{Held}
use cf_herdr_poc.Reconcile.Removal.{reconcile_delete-removed}
use cf_herdr_poc.Reconcile.Success.{Side, Outlasts, At}

abbrev pub IsReady : Sandbox → Type 0
IsReady c = c.phase ≡ ready

-- The loop has ended: with an error, or such that a sandbox stored under the name is ready.
abbrev pub Outcome : {W : Type 0} → String → Result Err Loop × Reconciler W → Type 0
Outcome name (err e, t) = Unit
Outcome name (ok out_of_fuel, t) = ⊥
Outcome name (ok returned, t) = Held name IsReady t

module _ {W C : Type 0} (fs : FileSystem W C) (svc : Services W) (config : Config) where
  abbrev pub Enough : ℕ → String → Reconciler W → Type 0
  Enough k name s = (m : ℕ) → k ≤ m → Outcome name (reconcile_create fs svc config m name s)

  pub Enough-more :
      {j k : ℕ} (name : String) (s : Reconciler W) → j ≤ k → Enough j name s → Enough k name s
  Enough-more name s p h m q = h m (omega arith)

  -- A round that ends the loop, or leaves a state for which `k` rounds are enough.
  abbrev pub Leads : ℕ → String → Result Err Round × Reconciler W → Type 0
  Leads k name (err e, t) = Unit
  Leads k name (ok finished, t) = Held name IsReady t
  Leads k name (ok again, t) = Enough k name t

  pub round-Enough :
      (k : ℕ) (name : String) (s : Reconciler W)
      → Leads k name (round fs svc config name s)
      → Enough (suc k) name s
  unfolding reconcile_create ◌>>=◌
  round-Enough k name s h zero p = absurd (omega arith)
  round-Enough k name s h (suc m) p = next (round fs svc config name s) h
    where
      next :
          (r : Result Err Round × Reconciler W)
          → Leads k name r
          → Outcome name (elim r.0 as (λ _. Result Err Loop × Reconciler W) [
            | ok a ↦ go_on a (reconcile_create fs svc config m name) (pure returned) r.1
            | err e ↦ (err e, r.1)
          ])
      next (err e, t) h = tt
      next (ok finished, t) h = h
      next (ok again, t) h = h m (omega arith)

  module _ (k : ℕ) (b : Sandbox) where
    delete-Leads :
        (s : Reconciler W) → Leads k b.name ((reconcile_delete fs svc config b >> pure finished) s)
    unfolding ◌>>=◌
    delete-Leads s =
        gone (reconcile_delete fs svc config b s)
          (reconcile_delete-removed fs svc config b b.phase s)
      where
        gone :
            (r : Result Err (Unit {0}) × Reconciler W)
            → (r.0 ≡ ok tt → Store.get r.1.file b.name ≡ none)
            → Leads k b.name (elim r.0 as (λ _. Result Err Round × Reconciler W) [
              | ok a ↦ (ok finished, r.1)
              | err e ↦ (err e, r.1)
            ])
        gone (err e, t) h = tt
        gone (ok a, t) h = record { at = λ c p. cc (h refl, p) }

    pub stored-Leads :
        (s : Reconciler W)
        → Store.get s.file b.name ≡ some b
        → Leads k b.name (present_round fs svc config b s)
        → Leads k b.name (round fs svc config b.name s)
    unfolding round get ◌>>=◌
    stored-Leads s held h = elim (Bool-cases (is_deleted b.desired)) [
      | inl p ↦ rw (held, p) (delete-Leads s)
      | inr p ↦ rw (held, p) h
    ]

    -- An error of the switch ends the loop.
    run-Leads :
        (s : Reconciler W)
        → is_ready b.phase ≡ false
        → ((advance fs svc config b.phase b s).0 ≡ ok tt
            → Enough k b.name (advance fs svc config b.phase b s).1)
        → Leads k b.name (run_phase fs svc config b s)
    unfolding run_phase catch ◌>>=◌ phase_now fail
    run-Leads s r h = rw r (caught (advance fs svc config b.phase b s) h)
      where
        caught :
            (r : Result Err (Unit {0}) × Reconciler W)
            → (r.0 ≡ ok tt → Enough k b.name r.1)
            → Leads k b.name (
                (catch (λ u. r) (λ e. do p ← phase_now b.name b.phase; fail fs svc b.name p e)
                    >> pure again)
                  s)
        caught (err e, t) h = tt
        caught (ok a, t) h = h refl

    -- The enrollment is there, if the phase needs one.
    abbrev pub Passes : Reconciler W → Type 0
    Passes s =
        (needs_enrollment b.phase ≡ false)
        ⊎ ((e : Enrollment) × (lookup b.name s.enrollments ≡ some e) × Outlasts svc e)

    alive-Outlasts : (e : Enrollment) → Outlasts svc e → (w : W) → alive fs svc e w ≡ true
    unfolding alive
    alive-Outlasts e h w = elim (Option-cases e.expires_at) [
      | inl p ↦ rw p refl
      | inr p ↦ let before = h p.0 p.1 w in rw p.1 (ground (arith, before))
    ]

    pub present-Leads :
        (s : Reconciler W)
        → Passes s
        → Leads k b.name (run_phase fs svc config b s)
        → Leads k b.name (present_round fs svc config b s)
    unfolding present_round ◌>>=◌ gate is_alive
    present-Leads s (inl p) h = rw p h
    present-Leads s (inr (e, x, y)) h = elim (Bool-cases (needs_enrollment b.phase)) [
      | inr p ↦ rw p h
      | inl p ↦ rw (p, x, gate, alive-Outlasts e y s.file.world) h
    ]

module _ {W C : Type 0} (fs : FileSystem W C) (svc : Services W) (config : Config)
    (R : String → Side) {name : String} {p : Phase} where
  -- A round for a stored sandbox, whose case of the switch leads to where `k` rounds are enough.
  pub step-Enough :
      (k : ℕ) (Q : String → Reconciler W → Type 0) (s : Reconciler W) (h : At name (R name) p s)
      → is_ready p ≡ false
      → ((needs_enrollment p ≡ false)
          ⊎ ((e : Enrollment) × (lookup name s.enrollments ≡ some e) × Outlasts svc e))
      → ((b : Sandbox) → Runs (At b.name (R b.name) p) (Q b.name) (advance fs svc config p b))
      → ((t : Reconciler W) → Q name t → Enough fs svc config k name t)
      → Enough fs svc config (suc k) name s
  step-Enough k Q s h unready passes runs next =
      let b = h.held in
      subst
        (λ n.
          At n (R n) p s
          → ((needs_enrollment p ≡ false)
              ⊎ ((e : Enrollment) × (lookup n s.enrollments ≡ some e) × Outlasts svc e))
          → ((t : Reconciler W) → Q n t → Enough fs svc config k n t)
          → Enough fs svc config (suc k) n s)
        h.named
        (λ at pass more. round-Enough fs svc config k b.name s (
          stored-Leads fs svc config k b s (simp h.named h.stored) (
            present-Leads fs svc config k b s (simp h.phased pass) (
              run-Leads fs svc config k b s (simp h.phased unready) (
                simp h.phased
                  (λ e. more (advance fs svc config p b s).1 ((runs b).at s tt at e)))))))
        h passes next
