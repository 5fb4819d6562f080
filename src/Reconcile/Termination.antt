-- ===== src/Reconcile/Termination.antt =====
-- The end of the loop of `reconcileCreate`, where enrollments do not expire while the clock goes.
use mathlib.Core.Path.{subst}
use cf_herdr_poc.Base.{
  ℕ, ◌≤◌, String, true, ◌≡◌, refl, sym, ◌∙◌, inl, inr, none, some, Err, Assoc, lookup, arith,
  Bool-cases, Option-cases, insert, lookup-insert, str_eq, if◌then◌else◌,
}
use cf_herdr_poc.Base.Exec.{Result, ok, err, ◌>>=◌, pure}
use cf_herdr_poc.Base.Runs.{Runs-raise}
use cf_herdr_poc.Model.{
  Phase, Sandbox, creating, preparing_invite, staging, discovering_app, starting, securing_route,
  securing_manager_route, configuring_enrollment, waiting_for_app, waiting_for_route,
  triggering_enrollment, joining_pack, ready,
}
use cf_herdr_poc.Store.{FileSystem}
use cf_herdr_poc.Store
use cf_herdr_poc.Reconcile.{Enrollment, Config, Services, Reconciler}
use cf_herdr_poc.Reconcile.Effects.{get}
use cf_herdr_poc.Reconcile.Create.{needs_enrollment, advance}
use cf_herdr_poc.Reconcile.Loop.{
  again, is_ready, note_recovery, renew, gate, present_round, round, reconcile_create,
}
use cf_herdr_poc.Reconcile.Held.{Held}
use cf_herdr_poc.Reconcile.Success.{At, At-same, At-persist_phase}
use cf_herdr_poc.Reconcile.Steps.{creating-Runs}
use cf_herdr_poc.Reconcile.Enrolled.{
  IsUnexpiring, Calm, Invited, At-weaken, preparing_invite-Runs, staging-Runs,
}
use cf_herdr_poc.Reconcile.Fuel.{
  Outcome, Enough, Enough-more, Leads, round-Enough, stored-Leads, step-Enough,
}
use cf_herdr_poc.Reconcile.Chain.{
  ready-Enough, joining_pack-Enough, triggering-Enough, waiting_for_route-Enough,
  waiting_for_app-Enough, starting-Enough, configuring-Enough, manager_route-Enough,
  securing_route-Enough, discovering-Enough,
}

module _ {W C : Type 0} (fs : FileSystem W C) (svc : Services W) (config : Config)
    (unexpiring : IsUnexpiring svc) (name : String) where
  staging-Enough :
      (s : Reconciler W) → At name (Calm svc name) staging s → Enough fs svc config 12 name s
  unfolding is_ready advance needs_enrollment
  staging-Enough s h =
      step-Enough fs svc config (Calm svc) 11 (λ n. At n (Invited svc n) discovering_app) s h refl
        (inl refl) (λ b. staging-Runs fs svc config b unexpiring staging)
        (discovering-Enough fs svc config name)

  calm :
      {p : Phase} {s : Reconciler W} → At name (Invited svc name) p s → At name (Calm svc name) p s
  calm h = At-weaken (λ r. r.calm) h

  preparing-Enough :
      (s : Reconciler W)
      → At name (Calm svc name) preparing_invite s
      → Enough fs svc config 13 name s
  unfolding is_ready advance needs_enrollment
  preparing-Enough s h =
      step-Enough fs svc config (Calm svc) 12 (λ n. At n (Invited svc n) staging) s h refl
        (inl refl) (λ b. preparing_invite-Runs fs svc config b unexpiring preparing_invite)
        (λ t k. staging-Enough t (calm k))

  creating-Enough :
      (s : Reconciler W) → At name (Calm svc name) creating s → Enough fs svc config 14 name s
  unfolding is_ready advance needs_enrollment
  creating-Enough s h =
      step-Enough fs svc config (Calm svc) 13 (λ n. At n (Calm svc n) preparing_invite) s h refl
        (inl refl) (λ b. creating-Runs fs svc config b (Calm svc b.name) creating) preparing-Enough

  noted-Calm :
      (p : Phase) (es : Assoc Enrollment) (rs : Assoc Phase)
      → needs_enrollment p ≡ true
      → Calm svc name es rs
      → Calm svc name es (insert name p rs)
  noted-Calm p es rs n c = record {
    unlimited = c.unlimited;
    recovery = λ k q e. new k q (lookup-insert name k p rs) e;
  }
    where
      new :
          (k : String) (q : Phase)
          → lookup k (insert name p rs) ≡ (if str_eq name k then some p else lookup k rs)
          → lookup k (insert name p rs) ≡ some q
          → needs_enrollment q ≡ true
      new k q e x = elim (Bool-cases (str_eq name k)) [
        | inl y ↦ cc (rw y at e, x, n)
        | inr y ↦ c.recovery k q (sym (rw y at e) ∙ x)
      ]

  -- The enrollment is missing: the phase goes back to `preparing-invite`.
  renew-Leads :
      (b : Sandbox) (s : Reconciler W)
      → b.name ≡ name
      → needs_enrollment b.phase ≡ true
      → At name (Calm svc name) b.phase s
      → Leads fs svc config 13 name (renew fs svc config b s)
  unfolding renew note_recovery ◌>>=◌
  renew-Leads b s same n h = simp same (
      went _ (λ e.
        (At-persist_phase fs svc config preparing_invite).at _ tt
          (At-same refl h (noted-Calm b.phase s.enrollments s.recovery_phase n h.side)) e))
    where
      went :
          (r : Result Err (Unit {0}) × Reconciler W)
          → (r.0 ≡ ok tt → At name (Calm svc name) preparing_invite r.1)
          → Leads fs svc config 13 name (((λ u. r) >>= (λ u. pure again)) s)
      went (err e, t) k = tt
      went (ok a, t) k = preparing-Enough t (k refl)

  -- A phase that needs an enrollment.
  needing-Enough :
      (p : Phase) (s : Reconciler W)
      → needs_enrollment p ≡ true
      → At name (Calm svc name) p s
      → (At name (Invited svc name) p s → Enough fs svc config 14 name s)
      → Enough fs svc config 14 name s
  unfolding present_round gate ◌>>=◌
  needing-Enough p s n h enrolled = elim (Option-cases (lookup name s.enrollments)) [
    | inr x ↦ enrolled (At-weaken (λ c. record { calm = c; enrollment = x.0; kept = x.1 }) h)
    | inl x ↦
        let b = h.held in
        subst
          (λ k.
            Store.get s.file k ≡ some b
            → lookup k s.enrollments ≡ none
            → Leads fs svc config 13 k (renew fs svc config b s)
            → Enough fs svc config 14 k s)
          h.named
          (λ held lost back.
            round-Enough fs svc config 13 b.name s
              (stored-Leads fs svc config 13 b s held (rw (needed b h.phased, lost, gate) back)))
          h.stored x
          (renew-Leads b s h.named (needed b h.phased)
            (subst (λ q. At name (Calm svc name) q s) (sym h.phased) h))
  ]
    where
      needed : (b : Sandbox) → b.phase ≡ p → needs_enrollment b.phase ≡ true
      needed b e = rw e n

  -- A phase that the switch does not know ends the loop with an error.
  any-Enough :
      (p : Phase) (s : Reconciler W) → At name (Calm svc name) p s → Enough fs svc config 14 name s
  unfolding needs_enrollment is_ready advance
  any-Enough creating s h = creating-Enough s h
  any-Enough preparing_invite s h =
      Enough-more fs svc config name s (omega arith) (preparing-Enough s h)
  any-Enough staging s h = Enough-more fs svc config name s (omega arith) (staging-Enough s h)
  any-Enough discovering_app s h = needing-Enough discovering_app s refl h λ i.
      Enough-more fs svc config name s (omega arith) (discovering-Enough fs svc config name s i)
  any-Enough securing_route s h = needing-Enough securing_route s refl h λ i.
      Enough-more fs svc config name s (omega arith) (securing_route-Enough fs svc config name s i)
  any-Enough securing_manager_route s h = needing-Enough securing_manager_route s refl h λ i.
      Enough-more fs svc config name s (omega arith) (manager_route-Enough fs svc config name s i)
  any-Enough configuring_enrollment s h = needing-Enough configuring_enrollment s refl h λ i.
      Enough-more fs svc config name s (omega arith) (configuring-Enough fs svc config name s i)
  any-Enough starting s h =
      needing-Enough starting s refl h
        λ i. Enough-more fs svc config name s (omega arith) (starting-Enough fs svc config name s i)
  any-Enough waiting_for_app s h =
      Enough-more fs svc config name s (omega arith)
        (waiting_for_app-Enough fs svc config name (Calm svc) s h)
  any-Enough waiting_for_route s h =
      Enough-more fs svc config name s (omega arith)
        (waiting_for_route-Enough fs svc config name (Calm svc) s h)
  any-Enough triggering_enrollment s h =
      Enough-more fs svc config name s (omega arith)
        (triggering-Enough fs svc config name (Calm svc) s h)
  any-Enough joining_pack s h =
      Enough-more fs svc config name s (omega arith) (joining_pack-Enough fs svc config name s h)
  any-Enough ready s h =
      Enough-more fs svc config name s (omega arith) (ready-Enough fs svc config name s h)
  any-Enough p s h = Enough-more fs svc config name s (omega arith) (
      step-Enough fs svc config (Calm svc) 0 (λ n t. ⊥) s h refl (inl refl) (λ b. Runs-raise _)
        (λ t x. absurd x))

  -- If the clock does not reach the time at which an enrollment expires, neither a kept one nor one
  -- that the pack manager makes, the recorded recoveries are of phases that need an enrollment, and
  -- the sandbox is stored under its own name, then the loop ends within 14 rounds, whatever fails:
  -- with an error, or such that a sandbox stored under the name is ready. No request of the API
  -- changes the store meanwhile.
  pub reconcile_create-Outcome :
      (s : Reconciler W)
      → Calm svc name s.enrollments s.recovery_phase
      → Held name (λ b. b.name ≡ name) s
      → (rounds : ℕ) → 14 ≤ rounds
      → Outcome name (reconcile_create fs svc config rounds name s)
  unfolding round get ◌>>=◌
  reconcile_create-Outcome s c named rounds p = elim (Option-cases (Store.get s.file name)) [
    | inl x ↦
        round-Enough fs svc config 13 name s (rw (x, round) (record { at = λ b e. cc })) rounds p
    | inr x ↦
        any-Enough x.0.phase s
          (record { held = x.0; stored = x.1; named = named.at x.0 x.1; phased = refl; side = c })
          rounds p
  ]
