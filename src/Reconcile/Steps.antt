-- ===== src/Reconcile/Steps.antt =====
-- The cases of the switch that return no error: the phase that each one goes on to.
use cf_herdr_poc.Base.{String, refl, Option, none, some, Err}
use cf_herdr_poc.Base.Runs.{Runs, Runs-if, ◌⟫◌, ◌▹◌, ◌▹=◌}
use cf_herdr_poc.Model.{
  Phase, Sandbox, creating, preparing_invite, starting, securing_route, securing_manager_route,
  configuring_enrollment, waiting_for_app, waiting_for_route, triggering_enrollment, joining_pack,
}
use cf_herdr_poc.Store.{FileSystem}
use cf_herdr_poc.Reconcile.{Config, Services, Reconciler}
use cf_herdr_poc.Reconcile.Effects.{persist_phase}
use cf_herdr_poc.Reconcile.Create.{
  set_revision, set_host, do_creating, do_securing_route, do_securing_manager_route,
  do_configuring_enrollment, do_starting, app_is_up, do_waiting_for_app, do_waiting_for_route,
  unless_joined, do_triggering_enrollment,
}
use cf_herdr_poc.Reconcile.Success.{Side, At, At-update, At-persist_phase, At-poll, at_rules}

module _ {W C : Type 0} (fs : FileSystem W C) (svc : Services W) (config : Config) (b : Sandbox)
    (R : Side) (p : Phase) where
  abbrev From : Phase → Reconciler W → Type 0
  From q = At b.name R q

  into : {o : Phase} (q : Phase) → Runs (From o) (From q) (persist_phase fs svc b.name q)
  into q = At-persist_phase fs svc config q

  pub creating-Runs : Runs (From p) (From preparing_invite) (do_creating fs svc config b)
  unfolding do_creating set_revision
  creating-Runs = into creating ⟫ search at_rules ▹= λ r.
      search at_rules
      ▹ At-update fs svc config creating _ (λ now c. refl) (λ now c e. e)
      ▹ into preparing_invite

  pub securing_route-Runs :
      Runs (From p) (From securing_manager_route) (do_securing_route fs svc config b)
  unfolding do_securing_route set_host
  securing_route-Runs = into securing_route ⟫ search at_rules ▹= λ e.
      search at_rules
      ▹ At-update fs svc config securing_route _ (λ now c. refl) (λ now c e. e)
      ▹ into securing_manager_route

  pub securing_manager_route-Runs :
      Runs (From p) (From configuring_enrollment) (do_securing_manager_route fs svc config b)
  unfolding do_securing_manager_route
  securing_manager_route-Runs = into securing_manager_route ⟫ search at_rules ▹= λ e.
      search at_rules ▹ into configuring_enrollment

  pub configuring_enrollment-Runs :
      Runs (From p) (From starting) (do_configuring_enrollment fs svc config b)
  unfolding do_configuring_enrollment
  configuring_enrollment-Runs =
      into configuring_enrollment ⟫ search at_rules ▹= λ e. search at_rules ▹ into starting

  pub starting-Runs : Runs (From p) (From waiting_for_app) (do_starting fs svc config b)
  unfolding do_starting
  starting-Runs = into starting ⟫ search at_rules ▹= λ e. search at_rules ▹ into waiting_for_app

  app_is_up-Runs : (q : Phase) (g : String) → Runs (From q) (From q) (app_is_up fs svc config g)
  unfolding app_is_up
  app_is_up-Runs q g = search at_rules

  pub waiting_for_app-Runs :
      Runs (From p) (From waiting_for_route) (do_waiting_for_app fs svc config b)
  unfolding do_waiting_for_app
  waiting_for_app-Runs =
      into waiting_for_app
      ⟫ At-poll fs svc config _ _ (app_is_up-Runs waiting_for_app _)
      ▹ into waiting_for_route

  pub waiting_for_route-Runs :
      Runs (From p) (From triggering_enrollment) (do_waiting_for_route fs svc config b)
  unfolding do_waiting_for_route
  waiting_for_route-Runs = into waiting_for_route ⟫ search at_rules ▹ into triggering_enrollment

  unless_joined-Runs :
      (q : Phase) (o : Option Err) → Runs (From q) (From q) (unless_joined fs svc config b o)
  unfolding unless_joined
  unless_joined-Runs q none = search at_rules
  unless_joined-Runs q (some e) = search at_rules

  pub triggering_enrollment-Runs :
      Runs (From p) (From joining_pack) (do_triggering_enrollment fs svc config b)
  unfolding do_triggering_enrollment
  triggering_enrollment-Runs = into triggering_enrollment ⟫ search at_rules ▹= λ joined.
      Runs-if joined _ _ (search at_rules)
        (into triggering_enrollment ⟫ search at_rules ▹= unless_joined-Runs triggering_enrollment)
      ▹ into joining_pack
