-- ===== src/Manager/Run/Orderly.antt =====
-- Services are started one upon the other, and the stop of each is called in the reverse order.

use cf_herdr_poc.Base.{
  Bool, true, false, ◌≡◌, refl, inl, inr, Option, none, some, List, [], Err, arith, is_some,
}
use cf_herdr_poc.Base.Exec.{Result, ok, err, Result-cases}
use cf_herdr_poc.Base.Does.{Does, ◌then_do◌}
use cf_herdr_poc.Manager.Run.{
  herdr, collie, reconciler, web, Step, Call, setting_up, starting, awaiting, stopping,
  watching_pack, waiting, canceling, closing_api, Entry, Process, attempt, perform, ignore, launch,
  set_up, start_services, stop_all, cancel_if, shut_down, run,
}
use cf_herdr_poc.Manager.Run.Traces.{
  Down, HerdrUp, CollieUp, ReconcilerUp, AllUp, At, is_neutral, noted, neutral-Up, attempt-step,
  perform-Does, ignore-Does, launch-Does, naming-Does, or_undo-Does,
}

module _ {W : Type 0} (answer : Call → W → W × Option Err) where
  step-Does : (x : Step) → Does (At Down) (At Down) (At Down) (perform answer (setting_up x))
  step-Does x =
      let keep = λ (good : Bool) (calls : List Entry).
        neutral-Up (setting_up x) good calls false false false false refl refl in
      perform-Does answer Down Down Down (setting_up x) (keep true) (keep false)

  set_up-Does : Does (At Down) (At Down) (At Down) (set_up answer)
  unfolding set_up
  set_up-Does =
      naming-Does answer "load manager config" (step-Does _)
      then_do naming-Does answer "validate manager config" (step-Does _)
      then_do step-Does _
      then_do naming-Does answer "validate manager sandbox runtime" (step-Does _)
      then_do naming-Does answer "initialize manager runtime directories" (step-Does _)
      then_do step-Does _
      then_do naming-Does answer "authenticate manager CF CLI" (step-Does _)
      then_do step-Does _
      then_do naming-Does answer "load sandbox state" (step-Does _)
      then_do naming-Does answer "build HTTP gateway" (step-Does _)

  start_herdr : Does (At Down) (At HerdrUp) (At Down) (perform answer (starting herdr))
  start_herdr =
      perform-Does answer Down HerdrUp Down _ (λ calls u. ground arith) (λ calls u. ground arith)

  await_herdr : Does (At HerdrUp) (At HerdrUp) (At HerdrUp) (perform answer (awaiting herdr))
  await_herdr =
      perform-Does answer HerdrUp HerdrUp HerdrUp _ (λ calls u. ground arith)
        (λ calls u. ground arith)

  start_collie : Does (At HerdrUp) (At CollieUp) (At HerdrUp) (perform answer (starting collie))
  start_collie =
      perform-Does answer HerdrUp CollieUp HerdrUp _ (λ calls u. ground arith)
        (λ calls u. ground arith)

  await_collie : Does (At CollieUp) (At CollieUp) (At CollieUp) (perform answer (awaiting collie))
  await_collie =
      perform-Does answer CollieUp CollieUp CollieUp _ (λ calls u. ground arith)
        (λ calls u. ground arith)

  stop_herdr : Does (At HerdrUp) (At Down) (At Down) (ignore answer (stopping herdr))
  stop_herdr = ignore-Does answer HerdrUp Down Down _ (λ good calls u. ground arith)

  stop_collie : Does (At CollieUp) (At HerdrUp) (At Down) (ignore answer (stopping collie))
  stop_collie = ignore-Does answer CollieUp HerdrUp Down _ (λ good calls u. ground arith)

  watch_pack : Does (At CollieUp) (At CollieUp) (At Down) (launch answer watching_pack)
  watch_pack = launch-Does answer CollieUp CollieUp Down _ (λ calls u. ground arith)

  start_reconciler :
      Does (At CollieUp) (At ReconcilerUp) (At Down) (launch answer (starting reconciler))
  start_reconciler = launch-Does answer CollieUp ReconcilerUp Down _ (λ calls u. ground arith)

  start_web : Does (At ReconcilerUp) (At AllUp) (At Down) (launch answer (starting web))
  start_web = launch-Does answer ReconcilerUp AllUp Down _ (λ calls u. ground arith)

  start_services-Does : Does (At Down) (At AllUp) (At Down) (start_services answer)
  unfolding start_services
  start_services-Does =
      naming-Does answer "start Herdr" start_herdr
      then_do or_undo-Does answer "wait for Herdr" await_herdr stop_herdr
      then_do or_undo-Does answer "start lead Collie" start_collie stop_herdr
      then_do or_undo-Does answer "wait for lead Collie" await_collie
          (stop_collie then_do stop_herdr)
      then_do watch_pack
      then_do start_reconciler
      then_do start_web

  all_up :
      (call : Call) (good : Bool) (calls : List Entry)
      → is_neutral call ≡ true
      → AllUp calls
      → AllUp (noted call good calls)
  all_up call good calls n u = neutral-Up call good calls true true true true n refl u

  stop_all-Down : (p : Process W) → At AllUp p → At Down (stop_all answer p).0
  unfolding stop_all
  stop_all-Down p u =
      let p1 = (attempt answer (stopping web) p).0 in
      let p2 = (attempt answer closing_api p1).0 in
      let p3 = (attempt answer (stopping reconciler) p2).0 in
      let p4 = (attempt answer (stopping collie) p3).0 in
      let u1 =
        attempt-step answer AllUp ReconcilerUp (stopping web) p (λ good calls v. ground arith) u in
      let u2 =
        attempt-step answer ReconcilerUp ReconcilerUp closing_api p1 (λ good calls v. ground arith)
          u1 in
      let u3 =
        attempt-step answer ReconcilerUp CollieUp (stopping reconciler) p2
          (λ good calls v. ground arith) u2 in
      let u4 =
        attempt-step answer CollieUp HerdrUp (stopping collie) p3 (λ good calls v. ground arith)
          u3 in
      attempt-step answer HerdrUp Down (stopping herdr) p4 (λ good calls v. ground arith) u4

  cancel_if-AllUp : (b : Bool) (p : Process W) → At AllUp p → At AllUp (cancel_if answer b p)
  cancel_if-AllUp true p u =
      attempt-step answer AllUp AllUp canceling p
        (λ good calls v. all_up canceling good calls refl v) u
  cancel_if-AllUp false p u = u

  state_of_join :
      (o : Option Err) (p : Process W)
      → At Down p
      → At Down
          (elim o as (λ _. Result Err (Unit {0}) × Process W) [
            | none ↦ (ok tt, p)
            | some e ↦ (err e, p)
          ]).1
  state_of_join none p u = u
  state_of_join (some e) p u = u

  shut_down-Down : (p : Process W) → At AllUp p → At Down (shut_down answer p).1
  unfolding shut_down
  shut_down-Down p u =
      let p1 = (attempt answer waiting p).0 in
      let u1 =
        attempt-step answer AllUp AllUp waiting p (λ good calls v. all_up waiting good calls refl v)
          u in
      let serve_error = (attempt answer waiting p).1 in
      let p2 = cancel_if answer (is_some serve_error) p1 in
      state_of_join _ (stop_all answer p2).0 (stop_all-Down p2 (cancel_if-AllUp _ p1 u1))

  shut_down-Does : Does (At AllUp) (At Down) (At Down) (shut_down answer)
  shut_down-Does = record {
    good = λ p a h e. shut_down-Down p h;
    bad = λ p e h q. shut_down-Down p h;
  }

  run-Does : Does (At Down) (At Down) (At Down) (run answer)
  unfolding run
  run-Does = set_up-Does then_do start_services-Does then_do shut_down-Does

  -- Whatever the calls of `run` return: behind `run`, each service that it started without an error
  -- has been asked to stop since; and as long as Collie is started and not asked to stop, so is Herdr,
  -- and likewise Collie for the reconciler, and the reconciler for the HTTP server. Only calls that
  -- `run` itself makes are spoken of: no restart of Collie by the monitor of the pack or by the pack
  -- manager, and not whether a service that was asked to stop has ended.
  pub run-Down : (w : W) → Down (run answer (record { world = w; calls = [] })).1.calls
  run-Down w =
      let p : Process W = record { world = w; calls = [] } in
      elim (Result-cases (run answer p).0) [
        | inl x ↦ run-Does.bad p x.0 (refl, refl, refl, refl, refl) x.1
        | inr x ↦ run-Does.good p x.0 (refl, refl, refl, refl, refl) x.1
      ]
