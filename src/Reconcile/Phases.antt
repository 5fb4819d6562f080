-- ===== src/Reconcile/Phases.antt =====
-- The order of the phases: what the cases of the switch may store.
pub mod Moves
pub mod Recovered
pub mod Switch
use mathlib.Core.Path.{subst⁻¹}
use cf_herdr_poc.Base.{
  ℕ, String, true, ◌≡◌, refl, ◌⊎◌, inl, inr, Option, none, some, Err, lookup, is_nil, Bool-cases,
}
use cf_herdr_poc.Base.Exec.{Result, ok, err, ◌>>=◌, check}
use cf_herdr_poc.Base.Preserves.{Preserves, Preserves-if, Preserves-check, ◌⟫◌, ◌⟫=◌}
use cf_herdr_poc.Model.{
  Phase, Sandbox, Operation, creating, preparing_invite, staging, discovering_app, starting,
  securing_route, securing_manager_route, configuring_enrollment, waiting_for_app,
  waiting_for_route, triggering_enrollment, joining_pack, ready,
}
use cf_herdr_poc.Store.{FileSystem}
use cf_herdr_poc.Reconcile.{Enrollment, Config, Call, Services, Reconciler, M}
use cf_herdr_poc.Reconcile.Effects.{update, operate_on, persist_phase, to_phase, append_operation}
use cf_herdr_poc.Reconcile.Create.{
  set_revision, set_guid, set_host, set_member, mismatched, recovered, needs_enrollment,
  do_creating, do_preparing_invite, do_staging, enrollment_path, effect_guid, take_recovery,
  do_discovering_app, do_securing_route, do_securing_manager_route, do_configuring_enrollment,
  do_starting, app_is_up, do_waiting_for_app, do_waiting_for_route, unless_joined,
  do_triggering_enrollment, do_joining_pack, advance,
}
use cf_herdr_poc.Reconcile.Held.{
  Held, IsLasting, Held-update, Held-persist_phase, held_rules, Held-operate_on,
  Held-append_operation, Held-poll, Held-same,
}

-- What may follow a phase. Behind `discovering_app` comes `securing_route`, or the phase that a lost
-- enrollment interrupted.
abbrev pub IsNext : Phase → Phase → Type 0
IsNext creating q = q ≡ preparing_invite
IsNext preparing_invite q = q ≡ staging
IsNext staging q = q ≡ discovering_app
IsNext discovering_app q = needs_enrollment q ≡ true
IsNext securing_route q = q ≡ securing_manager_route
IsNext securing_manager_route q = q ≡ configuring_enrollment
IsNext configuring_enrollment q = q ≡ starting
IsNext starting q = q ≡ waiting_for_app
IsNext waiting_for_app q = q ≡ waiting_for_route
IsNext waiting_for_route q = q ≡ triggering_enrollment
IsNext triggering_enrollment q = q ≡ joining_pack
IsNext joining_pack q = q ≡ ready
IsNext _ q = ⊥

unfoldable pub Within : Phase → Sandbox → Type 0
Within p b = (b.phase ≡ p) ⊎ IsNext p b.phase

pub Within-lasting : (p : Phase) → IsLasting (Within p)
unfolding Within
Within-lasting p = record { operations = λ b ops now h. h }

-- The recorded recoveries are of phases that need an enrollment, since `renew` alone records them.
pub record IsRecoverable {W : Type 0} (s : Reconciler W) : Type 0 where
  pub recovery :
      (k : String) (p : Phase) → lookup k s.recovery_phase ≡ some p → needs_enrollment p ≡ true

abbrev pub Sound : {W : Type 0} → String → (Sandbox → Type 0) → Reconciler W → Type 0
Sound name Q s = Held name Q s × IsRecoverable s
