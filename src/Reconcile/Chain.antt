-- ===== src/Reconcile/Chain.antt =====
-- From each phase on, the rounds that the loop of `reconcileCreate` needs, if enrollments do not expire.
use mathlib.Core.Path.{subst}
use cf_herdr_poc.Base.{String, true, false, ◌≡◌, refl, ◌⊎◌, inl, inr, some, lookup, arith}
use cf_herdr_poc.Model.{
  Phase, discovering_app, starting, securing_route, securing_manager_route, configuring_enrollment,
  waiting_for_app, waiting_for_route, triggering_enrollment, joining_pack, ready,
}
use cf_herdr_poc.Store.{FileSystem}
use cf_herdr_poc.Store
use cf_herdr_poc.Reconcile.{Enrollment, Config, Services, Reconciler}
use cf_herdr_poc.Reconcile.Create.{needs_enrollment, advance}
use cf_herdr_poc.Reconcile.Loop.{is_ready, run_phase}
use cf_herdr_poc.Reconcile.Success.{Outlasts, Side, At}
use cf_herdr_poc.Reconcile.Steps.{
  securing_route-Runs, securing_manager_route-Runs, configuring_enrollment-Runs, starting-Runs,
  waiting_for_app-Runs, waiting_for_route-Runs, triggering_enrollment-Runs,
}
use cf_herdr_poc.Reconcile.Enrolled.{Nothing, Invited, Straight, At-weaken}
use cf_herdr_poc.Reconcile.Discovered.{discovering_app-Runs, straight_app-Runs, joining_pack-Runs}
use cf_herdr_poc.Reconcile.Fuel.{
  Enough, Enough-more, round-Enough, stored-Leads, present-Leads, step-Enough,
}

module _ {W C : Type 0} (fs : FileSystem W C) (svc : Services W) (config : Config) where
  module _ (name : String) where
    -- For each phase, rounds that are enough.
    pub ready-Enough :
        {R : Side} (s : Reconciler W) → At name R ready s → Enough fs svc config 1 name s
    unfolding run_phase is_ready needs_enrollment
    ready-Enough s h =
        let b = h.held in
        subst (λ n. Store.get s.file n ≡ some b → Enough fs svc config 1 n s) h.named
          (λ held. round-Enough fs svc config 0 b.name s (
            stored-Leads fs svc config 0 b s held (
              present-Leads fs svc config 0 b s (inl (simp h.phased refl))
                (simp h.phased (record { at = λ c e. cc (e, held, h.phased) })))))
          h.stored

    pub joining_pack-Enough :
        {R : Side} (s : Reconciler W) → At name R joining_pack s → Enough fs svc config 2 name s
    unfolding is_ready needs_enrollment advance
    joining_pack-Enough s h =
        step-Enough fs svc config Nothing 1 (λ n. At n (Nothing n) ready) s (At-weaken (λ r. tt) h)
          refl (inl refl) (λ b. joining_pack-Runs fs svc config b joining_pack) ready-Enough

    module _ (R : String → Side) where
      pub triggering-Enough :
          (s : Reconciler W)
          → At name (R name) triggering_enrollment s
          → Enough fs svc config 3 name s
      unfolding is_ready needs_enrollment advance
      triggering-Enough s h =
          step-Enough fs svc config R 2 (λ n. At n (R n) joining_pack) s h refl (inl refl)
            (λ b. triggering_enrollment-Runs fs svc config b (R b.name) triggering_enrollment)
            joining_pack-Enough

      pub waiting_for_route-Enough :
          (s : Reconciler W) → At name (R name) waiting_for_route s → Enough fs svc config 4 name s
      unfolding is_ready needs_enrollment advance
      waiting_for_route-Enough s h =
          step-Enough fs svc config R 3 (λ n. At n (R n) triggering_enrollment) s h refl (inl refl)
            (λ b. waiting_for_route-Runs fs svc config b (R b.name) waiting_for_route)
            triggering-Enough

      pub waiting_for_app-Enough :
          (s : Reconciler W) → At name (R name) waiting_for_app s → Enough fs svc config 5 name s
      unfolding is_ready needs_enrollment advance
      waiting_for_app-Enough s h =
          step-Enough fs svc config R 4 (λ n. At n (R n) waiting_for_route) s h refl (inl refl)
            (λ b. waiting_for_app-Runs fs svc config b (R b.name) waiting_for_app)
            waiting_for_route-Enough

    -- The enrollment lets a round pass.
    passes :
        (p : Phase) (s : Reconciler W)
        → At name (Invited svc name) p s
        → (needs_enrollment p ≡ false)
          ⊎ ((e : Enrollment) × (lookup name s.enrollments ≡ some e) × Outlasts svc e)
    passes p s h =
        let i = h.side in inr (i.enrollment, i.kept, i.calm.unlimited i.enrollment i.kept)

    pub starting-Enough :
        (s : Reconciler W) → At name (Invited svc name) starting s → Enough fs svc config 6 name s
    unfolding is_ready advance
    starting-Enough s h =
        step-Enough fs svc config (Invited svc) 5 (λ n. At n (Invited svc n) waiting_for_app) s h
          refl (passes starting s h)
          (λ b. starting-Runs fs svc config b (Invited svc b.name) starting)
          (waiting_for_app-Enough (Invited svc))

    pub configuring-Enough :
        (s : Reconciler W)
        → At name (Invited svc name) configuring_enrollment s
        → Enough fs svc config 7 name s
    unfolding is_ready advance
    configuring-Enough s h =
        step-Enough fs svc config (Invited svc) 6 (λ n. At n (Invited svc n) starting) s h refl
          (passes configuring_enrollment s h)
          (λ b.
            configuring_enrollment-Runs fs svc config b (Invited svc b.name) configuring_enrollment)
          starting-Enough

    pub manager_route-Enough :
        (s : Reconciler W)
        → At name (Invited svc name) securing_manager_route s
        → Enough fs svc config 8 name s
    unfolding is_ready advance
    manager_route-Enough s h =
        step-Enough fs svc config (Invited svc) 7 (λ n. At n (Invited svc n) configuring_enrollment)
          s h refl (passes securing_manager_route s h)
          (λ b.
            securing_manager_route-Runs fs svc config b (Invited svc b.name) securing_manager_route)
          configuring-Enough

    pub securing_route-Enough :
        (s : Reconciler W)
        → At name (Invited svc name) securing_route s
        → Enough fs svc config 9 name s
    unfolding is_ready advance
    securing_route-Enough s h =
        step-Enough fs svc config (Invited svc) 8 (λ n. At n (Invited svc n) securing_manager_route)
          s h refl (passes securing_route s h)
          (λ b. securing_route-Runs fs svc config b (Invited svc b.name) securing_route)
          manager_route-Enough

    invited :
        {p : Phase} {s : Reconciler W}
        → At name (Straight svc name) p s
        → At name (Invited svc name) p s
    invited h = At-weaken (λ r. r.invited) h

    -- Where no recovery is under way.
    direct-Enough :
        (s : Reconciler W)
        → At name (Straight svc name) discovering_app s
        → Enough fs svc config 10 name s
    unfolding is_ready advance
    direct-Enough s h =
        step-Enough fs svc config (Straight svc) 9 (λ n. At n (Straight svc n) securing_route) s h
          refl (passes discovering_app s (invited h))
          (λ b. straight_app-Runs fs svc config b discovering_app)
          (λ t k. securing_route-Enough t (invited k))

    landed-Enough :
        (q : Phase) (s : Reconciler W)
        → needs_enrollment q ≡ true
        → At name (Straight svc name) q s
        → Enough fs svc config 10 name s
    unfolding needs_enrollment
    landed-Enough discovering_app s e h = direct-Enough s h
    landed-Enough securing_route s e h =
        Enough-more fs svc config name s (omega arith) (securing_route-Enough s (invited h))
    landed-Enough securing_manager_route s e h =
        Enough-more fs svc config name s (omega arith) (manager_route-Enough s (invited h))
    landed-Enough configuring_enrollment s e h =
        Enough-more fs svc config name s (omega arith) (configuring-Enough s (invited h))
    landed-Enough starting s e h =
        Enough-more fs svc config name s (omega arith) (starting-Enough s (invited h))
    landed-Enough _ s e h = cc

    pub discovering-Enough :
        (s : Reconciler W)
        → At name (Invited svc name) discovering_app s
        → Enough fs svc config 11 name s
    unfolding is_ready advance
    discovering-Enough s h =
        step-Enough fs svc config (Invited svc) 10
          (λ n t. (q : Phase) × (needs_enrollment q ≡ true) × At n (Straight svc n) q t) s h refl
          (passes discovering_app s h) (λ b. discovering_app-Runs fs svc config b discovering_app)
          (λ t k. landed-Enough k.0 t k.1 k.2)
