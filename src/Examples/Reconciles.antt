-- ===== src/Examples/Reconciles.antt =====
-- A reconciliation where every call succeeds.
use cf_herdr_poc.Base.{
  ◌∙◌, ℕ, ◌≤◌, arith, ◌≡◌, refl, ◌⊎◌, inl, inr, Option, none, some, List, [], ◌∷◌, Assoc, Bool,
  true, is_some, String, Err, error_new, join, ap, sym, codes,
}
use cf_herdr_poc.Base.Exec.{Result, ok, err, ok-injective}
use cf_herdr_poc.Model.{Sandbox, Operation, staging, no_phase}
use cf_herdr_poc.Store.{File}
use cf_herdr_poc.Store
use cf_herdr_poc.Reconcile.{Config, Services, Reconciler, Enrollment}
use cf_herdr_poc.Reconcile.Enrolled.{IsUnexpiring, Calm}
use cf_herdr_poc.Reconcile.Fuel.{Outcome}
use cf_herdr_poc.Reconcile.Termination.{reconcile_create-Outcome}
use cf_herdr_poc.Reconcile.Effects.{update, fail}
use cf_herdr_poc.Reconcile.Loop.{run_phase, resume, reconcile_create}
use cf_herdr_poc.Reconcile.Delete.{reconcile_delete}
use cf_herdr_poc.Reconcile.Held.{Held}
use cf_herdr_poc.Reconcile.Phases.{Within, Sound}
use cf_herdr_poc.Reconcile.Rounds.{After, run_phase-After}
use cf_herdr_poc.Reconcile.Removal.{Leaving, reconcile_delete-Leaving, reconcile_delete-removed}
use cf_herdr_poc.Reconcile.Retry.{broken, resume-fail}
use cf_herdr_poc.Examples.{box}
use cf_herdr_poc.Examples.Stores.{Machine, disk}

abbrev done : Operation
done = record {
  name = codes "done";
  command = [];
  summary = [];
  started_at = 1;
  duration = 1;
  success = true;
  error = [];
}

abbrev services : Services Machine
services = record {
  now = λ w. 7;
  act = λ c w. (w, none);
  operate = λ c w. (w, done, none);
  ask_bool = λ c w. (w, ok true);
  ask_prepared = λ c w. (w, ok (record { path = "/work/blue"; revision = "r1" }));
  ask_enrollment = λ c w. (w, ok (record { path = "/tmp/token"; expires_at = some 100 }));
  ask_app = λ c w. (w, ok (record { running = true; ready = true }));
  ask_guid = λ c w. (w, "6f1e", done, none);
  redact = λ s. s;
  join_path = λ a b. b;
  quote = λ s. codes s;
}

abbrev config : Config
config = record {
  work_root = "/work";
  identity_domain = "apps.internal";
  manager_route_host = "manager";
  manager_pack_host = "pack";
  manager_app_guid = "0a1b";
  cf_api = "https://api";
  cf_username = "u";
  cf_password = "p";
  cf_org = "o";
  cf_space = "s";
  poll_attempts = 2;
  poll_interval = 1;
  scan_interval = 1;
}

abbrev kept : Enrollment
kept = record { path = "/tmp/token"; expires_at = some 100 }

abbrev start : Reconciler Machine
start = record {
  file = record { sandboxes = ("blue", box) ∷ []; world = record { file = none; temp = none } };
  enrollments = ("blue", kept) ∷ [];
  prepared = ("blue", record { path = "/work/blue"; revision = "r1" }) ∷ [];
  recovery_phase = [];
  calls = [];
}

the_box : (c : Sandbox) → Store.get start.file "blue" ≡ some c → c.phase ≡ staging
unfolding Store.get cf_herdr_poc.Base.lookup
the_box c h = cc

start-Sound : Sound "blue" (Within staging) start
unfolding Within cf_herdr_poc.Base.lookup
start-Sound = (record { at = λ c h. inl (the_box c h) }, record { recovery = λ k p h. cc })

start-Leaving : Held "blue" (Leaving staging) start
unfolding Leaving
start-Leaving = record { at = λ c h. inl (the_box c h) }

run_phase-After_example : Held "blue" (After staging) (run_phase disk services config box start).1
run_phase-After_example = run_phase-After disk services config box start start-Sound

reconcile_delete-Leaving_example :
    Held "blue" (Leaving staging) (reconcile_delete disk services config box start).1
reconcile_delete-Leaving_example =
    reconcile_delete-Leaving disk services config box staging start start-Leaving

delete_done : (reconcile_delete disk services config box start).0 ≡ ok tt
unfolding reconcile_delete cf_herdr_poc.Base.Exec.◌>>=◌ cf_herdr_poc.Base.Exec.catch
    cf_herdr_poc.Base.lookup cf_herdr_poc.Base.insert cf_herdr_poc.Base.remove update fail
    Store.update Store.commit Store.write_atomic Store.delete Store.fill_temp Store.replace
    Store.save_changed Store.sort Store.insert_sorted cf_herdr_poc.Reconcile.Effects.persist_phase
    cf_herdr_poc.Reconcile.Effects.ask_bool cf_herdr_poc.Reconcile.Effects.act
    cf_herdr_poc.Reconcile.Effects.fail_if cf_herdr_poc.Reconcile.Effects.unless_absent
    cf_herdr_poc.Reconcile.Effects.operate_on cf_herdr_poc.Reconcile.Effects.operate
    cf_herdr_poc.Reconcile.Effects.append_operation cf_herdr_poc.Reconcile.Effects.called
    cf_herdr_poc.Reconcile.Effects.called_act cf_herdr_poc.Reconcile.Effects.called_operate
    cf_herdr_poc.Reconcile.Effects.cleanup_enrollment_of
    cf_herdr_poc.Reconcile.Effects.cleanup_prepared_of
    cf_herdr_poc.Reconcile.Effects.cleanup_transient
    cf_herdr_poc.Reconcile.Effects.forget_enrollment cf_herdr_poc.Reconcile.Effects.forget_prepared
    cf_herdr_poc.Reconcile.Effects.is_absent cf_herdr_poc.Reconcile.Effects.is_already_exists
    cf_herdr_poc.Reconcile.Effects.record_call cf_herdr_poc.Reconcile.Delete.delete_member
    cf_herdr_poc.Reconcile.Delete.check_absent cf_herdr_poc.Reconcile.Delete.delete_policy
    cf_herdr_poc.Reconcile.Delete.delete_route cf_herdr_poc.Reconcile.Delete.delete_the_app
    cf_herdr_poc.Reconcile.Delete.delete_files cf_herdr_poc.Reconcile.Delete.delete_record
    cf_herdr_poc.Reconcile.Delete.app_exists
delete_done = refl

reconcile_delete-removed_example :
    Store.get (reconcile_delete disk services config box start).1.file "blue" ≡ none
reconcile_delete-removed_example =
    reconcile_delete-removed disk services config box staging start delete_done

fourteen : 14 ≤ 14
fourteen = omega arith

services-IsUnexpiring : IsUnexpiring services
services-IsUnexpiring = record {
  unlimited = λ c w e h t p u.
      let same = ap (λ (x : Enrollment). x.expires_at) (ok-injective h) in
      let at : t ≡ 100 = cc (same, p) in rw at (omega arith);
}

start-Calm : Calm services "blue" start.enrollments start.recovery_phase
unfolding cf_herdr_poc.Base.lookup
start-Calm = record {
  unlimited = λ e h t p w.
      let same : kept ≡ e = cc in
      let at = ap (λ (x : Enrollment). x.expires_at) same ∙ p in
      let time : t ≡ 100 = cc in rw time (omega arith);
  recovery = λ k q h. cc;
}

the_name : (c : Sandbox) → Store.get start.file "blue" ≡ some c → c.name ≡ "blue"
unfolding Store.get cf_herdr_poc.Base.lookup
the_name c h = cc

reconcile_create-Outcome_example :
    Outcome "blue" (reconcile_create disk services config 14 "blue" start)
reconcile_create-Outcome_example =
    reconcile_create-Outcome disk services config services-IsUnexpiring "blue" start start-Calm
      (record { at = the_name }) 14 fourteen

abbrev cause : Err
cause = error_new "stage failed"

abbrev failure : Result Err (Unit {0}) × Reconciler Machine
failure = fail disk services {A = Unit {0}} "blue" staging cause start

abbrev changed : ℕ → Sandbox → Sandbox
changed = broken disk services config "blue" staging cause

box_stored : Store.get start.file "blue" ≡ some box
unfolding Store.get cf_herdr_poc.Base.lookup
box_stored = refl

update_done : (update disk services "blue" changed start).0 ≡ ok tt
unfolding update Store.update Store.save_changed Store.commit Store.write_atomic
    cf_herdr_poc.Base.lookup
update_done = refl

resume_done : (resume disk services config "blue" (changed 7 box) failure.1).0 ≡ ok tt
unfolding resume cf_herdr_poc.Reconcile.Loop.is_failed update Store.update cf_herdr_poc.Base.lookup
    fail Store.commit Store.write_atomic cf_herdr_poc.Base.insert
resume_done = refl

resume-fail_example :
    Store.get (resume disk services config "blue" (changed 7 box) failure.1).1.file "blue"
    ≡ some
        (record box { phase = staging; resume_phase = no_phase; last_error = []; updated_at = 7 })
resume-fail_example =
    resume-fail disk services config "blue" staging cause start box_stored update_done resume_done
