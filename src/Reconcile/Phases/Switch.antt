-- ===== src/Reconcile/Phases/Switch.antt =====
-- The order of the phases: the whole switch.

use cf_herdr_poc.Model.{
  Phase, Sandbox, creating, preparing_invite, staging, discovering_app, starting, securing_route,
  securing_manager_route, configuring_enrollment, waiting_for_app, waiting_for_route,
  triggering_enrollment, joining_pack,
}
use cf_herdr_poc.Store.{FileSystem}
use cf_herdr_poc.Reconcile.{Config, Services, Reconciler}
use cf_herdr_poc.Reconcile.Create.{advance}
use cf_herdr_poc.Reconcile.Held.{Held}
use cf_herdr_poc.Reconcile.Phases.{Within, Sound}
use cf_herdr_poc.Reconcile.Phases.Moves.{
  creating-Within, preparing_invite-Within, staging-Within, securing_route-Within,
  securing_manager_route-Within, configuring_enrollment-Within, starting-Within,
  waiting_for_app-Within, waiting_for_route-Within, triggering_enrollment-Within,
  joining_pack-Within,
}
use cf_herdr_poc.Reconcile.Phases.Recovered.{discovering_app-Within}

module _ {W C : Type 0} (fs : FileSystem W C) (svc : Services W) (config : Config)
    (b : Sandbox) where
  -- The cases of the switch: a phase is left as it is, or goes on to a next one.
  pub advance-Within :
      (p : Phase) (s : Reconciler W)
      → Sound b.name (Within p) s
      → Held b.name (Within p) (advance fs svc config p b s).1
  unfolding advance
  advance-Within creating s h = (creating-Within fs svc config b).step s h.0
  advance-Within preparing_invite s h = (preparing_invite-Within fs svc config b).step s h.0
  advance-Within staging s h = (staging-Within fs svc config b).step s h.0
  advance-Within discovering_app s h = discovering_app-Within fs svc config b s h
  advance-Within securing_route s h = (securing_route-Within fs svc config b).step s h.0
  advance-Within securing_manager_route s h =
      (securing_manager_route-Within fs svc config b).step s h.0
  advance-Within configuring_enrollment s h =
      (configuring_enrollment-Within fs svc config b).step s h.0
  advance-Within starting s h = (starting-Within fs svc config b).step s h.0
  advance-Within waiting_for_app s h = (waiting_for_app-Within fs svc config b).step s h.0
  advance-Within waiting_for_route s h = (waiting_for_route-Within fs svc config b).step s h.0
  advance-Within triggering_enrollment s h =
      (triggering_enrollment-Within fs svc config b).step s h.0
  advance-Within joining_pack s h = (joining_pack-Within fs svc config b).step s h.0
  advance-Within _ s h = h.0
