-- ===== src/Reconcile/Phases/Moves.antt =====
-- The order of the phases: the cases of the switch but `discovering-app`.
use mathlib.Core.Path.{subst⁻¹}
use cf_herdr_poc.Base.{ℕ, String, ◌≡◌, refl, ◌⊎◌, inl, inr, Option, none, some, Err}
use cf_herdr_poc.Base.Preserves.{Preserves, Preserves-if, ◌⟫◌, ◌⟫=◌}
use cf_herdr_poc.Model.{
  Phase, Sandbox, creating, preparing_invite, staging, discovering_app, starting, securing_route,
  securing_manager_route, configuring_enrollment, waiting_for_app, waiting_for_route,
  triggering_enrollment, joining_pack, ready,
}
use cf_herdr_poc.Store.{FileSystem}
use cf_herdr_poc.Reconcile.{Enrollment, Config, Call, Services}
use cf_herdr_poc.Reconcile.Effects.{update, operate_on, persist_phase}
use cf_herdr_poc.Reconcile.Create.{
  set_revision, set_host, set_member, do_creating, do_preparing_invite, do_staging, enrollment_path,
  do_securing_route, do_securing_manager_route, do_configuring_enrollment, do_starting, app_is_up,
  do_waiting_for_app, do_waiting_for_route, unless_joined, do_triggering_enrollment,
  do_joining_pack,
}
use cf_herdr_poc.Reconcile.Held.{
  Held, Held-update, Held-persist_phase, held_rules, Held-operate_on, Held-poll,
}
use cf_herdr_poc.Reconcile.Phases.{IsNext, Within, Within-lasting}

module _ {W C : Type 0} (fs : FileSystem W C) (svc : Services W) (config : Config)
    (b : Sandbox) where
  Held-app_is_up :
      (p : Phase) (g : String) → Preserves (Held b.name (Within p)) (app_is_up fs svc config g)
  unfolding app_is_up
  Held-app_is_up p g = search held_rules

  pub stay : (p : Phase) → Preserves (Held b.name (Within p)) (persist_phase fs svc b.name p)
  unfolding Within
  stay p = Held-persist_phase fs svc b.name (Within p) p (λ now c h. inl refl)

  move :
      (p q : Phase)
      → IsNext p q
      → Preserves (Held b.name (Within p)) (persist_phase fs svc b.name q)
  unfolding Within
  move p q n = Held-persist_phase fs svc b.name (Within p) q (λ now c h. inr n)

  -- A write that leaves the phase alone.
  write :
      (p : Phase) (change : ℕ → Sandbox → Sandbox)
      → ((now : ℕ) (c : Sandbox) → (change now c).phase ≡ c.phase)
      → Preserves (Held b.name (Within p)) (update fs svc b.name change)
  unfolding Within
  write p change e =
      Held-update fs svc b.name (Within p) change
        (λ now c h. subst⁻¹ (λ q. (q ≡ p) ⊎ IsNext p q) (e now c) h)

  write_revision :
      (p : Phase) (r : String)
      → Preserves (Held b.name (Within p)) (update fs svc b.name (set_revision r))
  unfolding set_revision
  write_revision p r = write p (set_revision r) (λ now c. refl)

  -- A call with an operation, in phase `p`.
  op : (p : Phase) (c : Call) → Preserves (Held b.name (Within p)) (operate_on fs svc b.name c)
  op p c = Held-operate_on fs svc b.name (Within p) (Within-lasting p) c

  pub creating-Within : Preserves (Held b.name (Within creating)) (do_creating fs svc config b)
  unfolding do_creating
  creating-Within = stay creating ⟫ search held_rules ⟫= λ r.
      search held_rules ⟫ write_revision creating r.revision ⟫ move creating preparing_invite refl

  pub preparing_invite-Within :
      Preserves (Held b.name (Within preparing_invite)) (do_preparing_invite fs svc config b)
  unfolding do_preparing_invite
  preparing_invite-Within =
      stay preparing_invite ⟫ search held_rules ⟫ move preparing_invite staging refl

  pub staging-Within : Preserves (Held b.name (Within staging)) (do_staging fs svc config b)
  unfolding do_staging
  staging-Within =
      stay staging ⟫ search held_rules ⟫ search held_rules ⟫ search held_rules ⟫= λ found.
      stay staging ⟫ search held_rules ⟫= λ held. source held ⟫= λ path. search held_rules ⟫= λ e.
      search held_rules ⟫ stay staging ⟫ op staging _ ⟫= λ e.
      search held_rules ⟫ move staging discovering_app refl
    where
      source :
          (o : Option Enrollment)
          → Preserves (Held b.name (Within staging)) (enrollment_path fs svc config o)
      source none = search held_rules
      source (some e) = search held_rules

  pub securing_route-Within :
      Preserves (Held b.name (Within securing_route)) (do_securing_route fs svc config b)
  unfolding do_securing_route set_host
  securing_route-Within = stay securing_route ⟫ op securing_route _ ⟫= λ e.
      search held_rules
      ⟫ write securing_route _ (λ now c. refl)
      ⟫ move securing_route securing_manager_route refl

  pub securing_manager_route-Within :
      Preserves
        (Held b.name (Within securing_manager_route))
        (do_securing_manager_route fs svc config b)
  unfolding do_securing_manager_route
  securing_manager_route-Within = stay securing_manager_route ⟫ op securing_manager_route _ ⟫= λ e.
      search held_rules ⟫ move securing_manager_route configuring_enrollment refl

  pub configuring_enrollment-Within :
      Preserves
        (Held b.name (Within configuring_enrollment))
        (do_configuring_enrollment fs svc config b)
  unfolding do_configuring_enrollment
  configuring_enrollment-Within = stay configuring_enrollment ⟫ op configuring_enrollment _ ⟫= λ e.
      search held_rules ⟫ move configuring_enrollment starting refl

  pub starting-Within : Preserves (Held b.name (Within starting)) (do_starting fs svc config b)
  unfolding do_starting
  starting-Within =
      stay starting ⟫ op starting _ ⟫= λ e. search held_rules ⟫ move starting waiting_for_app refl

  pub waiting_for_app-Within :
      Preserves (Held b.name (Within waiting_for_app)) (do_waiting_for_app fs svc config b)
  unfolding do_waiting_for_app
  waiting_for_app-Within =
      stay waiting_for_app
      ⟫ Held-poll fs svc config b.name _ _ _ (Held-app_is_up waiting_for_app _)
      ⟫ move waiting_for_app waiting_for_route refl

  pub waiting_for_route-Within :
      Preserves (Held b.name (Within waiting_for_route)) (do_waiting_for_route fs svc config b)
  unfolding do_waiting_for_route
  waiting_for_route-Within =
      stay waiting_for_route ⟫ search held_rules ⟫ move waiting_for_route triggering_enrollment refl

  unless_joined-Within :
      (o : Option Err)
      → Preserves (Held b.name (Within triggering_enrollment)) (unless_joined fs svc config b o)
  unfolding unless_joined
  unless_joined-Within none = search held_rules
  unless_joined-Within (some e) = search held_rules

  pub triggering_enrollment-Within :
      Preserves
        (Held b.name (Within triggering_enrollment))
        (do_triggering_enrollment fs svc config b)
  unfolding do_triggering_enrollment
  triggering_enrollment-Within = stay triggering_enrollment ⟫ search held_rules ⟫= λ joined.
      Preserves-if joined _ _ (search held_rules)
        (stay triggering_enrollment ⟫ op triggering_enrollment _ ⟫= unless_joined-Within)
      ⟫ move triggering_enrollment joining_pack refl

  pub joining_pack-Within :
      Preserves (Held b.name (Within joining_pack)) (do_joining_pack fs svc config b)
  unfolding do_joining_pack set_member
  joining_pack-Within =
      stay joining_pack
      ⟫ search held_rules
      ⟫ search held_rules
      ⟫ write joining_pack _ (λ now c. refl)
      ⟫ move joining_pack ready refl
