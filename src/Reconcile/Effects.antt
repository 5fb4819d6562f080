-- ===== src/Reconcile/Effects.antt =====
-- Calls, and the writes to the store between them.

use cf_herdr_poc.Base.{
  ℕ, zero, suc, String, Bytes, codes, Bool, true, false, ◌||◌, Option, none, some, [], ◌∷◌, ◌++◌,
  str_eq, Assoc, lookup, insert, remove, is_nil, Err, error_text, join, if◌then◌else◌, ltb, ◌==◌,
}
use cf_herdr_poc.Base.Exec.{Result, ok, err, maybe, pure, raise, check, ◌>>=◌, ◌>>◌}
use cf_herdr_poc.Model.{Phase, Operation, Sandbox, no_phase, failed}
use cf_herdr_poc.Sanitize.{sanitize}
use cf_herdr_poc.Store.{FileSystem, File}
use cf_herdr_poc.Store
use cf_herdr_poc.Reconcile.{
  Prepared, Enrollment, Config, Call, Services, Reconciler, M, prepare, find_prepared, cleanup,
  prepare_enrollment, cleanup_enrollment, wait,
}

unfoldable pub is_absent : Err → Bool
is_absent e = e.unsupported || elim e.class [ none ↦ false | some c ↦ c.absent ]

unfoldable pub is_already_exists : Err → Bool
is_already_exists e = elim e.class [ none ↦ false | some c ↦ c.already_exists ]

-- `err != nil && !isAbsent(err)`.
unfoldable pub unless_absent : Option Err → Option Err
unfolding is_absent
unless_absent none = none
unless_absent (some e) = if is_absent e then none else some e

unfoldable pub unless_already_exists : Option Err → Option Err
unfolding is_already_exists
unless_already_exists none = none
unless_already_exists (some e) = if is_already_exists e then none else some e

abbrev pub error_of : {A : Type 0} → Result Err A → Option Err
error_of (ok _) = none
error_of (err e) = some e

module _ {W : Type 0} where
  -- A call: the machine moves on, and the call is recorded. It does not change the map of the store:
  -- what requests of the API, which run beside the reconciler, do to the store (a deletion that is
  -- marked, a retry) is taken to happen before or behind the method of the reconciler.
  unfoldable pub record_call : Call → Option Err → W → Reconciler W → Reconciler W
  record_call c e w s = record s { file = record s.file { world = w }; calls = (c, e) ∷ s.calls }

  unfoldable pub called : {A : Type 0} → Call → (W → W × Result Err A) → M W A
  unfolding record_call
  called c f s = let (w, r) = f s.file.world in (r, record_call c (error_of r) w s)

  unfoldable pub called_act : Call → (W → W × Option Err) → M W (Option Err)
  unfolding record_call
  called_act c f s = let (w, e) = f s.file.world in (ok e, record_call c e w s)

  unfoldable pub called_operate :
      Call → (W → W × Operation × Option Err) → M W (Operation × Option Err)
  unfolding record_call
  called_operate c f s = let (w, op, e) = f s.file.world in (ok (op, e), record_call c e w s)

  unfoldable pub get : String → M W (Option Sandbox)
  get name s = (ok (Store.get s.file name), s)

  abbrev pub find : {V : Type 0} → (Reconciler W → Assoc V) → String → M W (Option V)
  find field name s = (ok (lookup name (field s)), s)

  unfoldable pub forget_enrollment : String → M W (Unit {0})
  forget_enrollment name s = (ok tt, record s { enrollments = remove name s.enrollments })

  unfoldable pub keep_enrollment : String → Enrollment → M W (Unit {0})
  keep_enrollment name e s = (ok tt, record s { enrollments = insert name e s.enrollments })

  unfoldable pub forget_prepared : String → M W (Unit {0})
  forget_prepared name s = (ok tt, record s { prepared = remove name s.prepared })

  unfoldable pub keep_prepared : String → Prepared → M W (Unit {0})
  keep_prepared name p s = (ok tt, record s { prepared = insert name p s.prepared })

module _ {W C : Type 0} (fs : FileSystem W C) (svc : Services W) where
  -- `store.Update` with a callback that never fails. It is given the time of the update.
  unfoldable pub update : String → (ℕ → Sandbox → Sandbox) → M W (Unit {0})
  update name change s =
      let (file, e) = Store.update fs name (λ b. ok (change (svc.now s.file.world) b)) s.file in
      (elim e [ none ↦ ok tt | some x ↦ err x ], record s { file = file })

  abbrev pub to_phase : Phase → ℕ → Sandbox → Sandbox
  to_phase phase now b = record b {
    phase = phase;
    resume_phase = no_phase;
    last_error = [];
    updated_at = now;
  }

  -- Every call in the source passes a nil operation.
  unfoldable pub persist_phase : String → Phase → M W (Unit {0})
  persist_phase name phase = update name (to_phase phase)

  abbrev pub clean_operation : Operation → Operation
  clean_operation op = record op {
    name = sanitize svc.redact op.name;
    command = sanitize svc.redact op.command;
    summary = sanitize svc.redact op.summary;
    error = sanitize svc.redact op.error;
  }

  unfoldable pub append_operation : String → Operation → M W (Unit {0})
  append_operation name op =
      if is_nil op.name
      then pure tt
      else update name (λ now b. record b {
        operations = b.operations ++ clean_operation op ∷ [];
        updated_at = now;
      })

  abbrev pub to_failed : Phase → Bytes → ℕ → Sandbox → Sandbox
  to_failed resume message now b = record b {
    phase = failed;
    resume_phase = resume;
    last_error = message;
    updated_at = now;
  }

  -- Returns the cause, joined with the error of the store if there is one.
  unfoldable pub fail : {A : Type 0} → String → Phase → Err → M W A
  fail name resume cause s =
      let (r, t) = update name (to_failed resume (sanitize svc.redact cause.text)) s in
      (err (join cause (error_of r)), t)

  -- `if err != nil { return r.fail(name, resume, err) }`
  unfoldable pub fail_if : String → Phase → Option Err → M W (Unit {0})
  fail_if name resume none = pure tt
  fail_if name resume (some e) = fail name resume e

  unfoldable pub act : Call → M W (Option Err)
  unfolding called_act
  act c = called_act c (svc.act c)

  unfoldable pub operate : Call → M W (Operation × Option Err)
  unfolding called_operate
  operate c = called_operate c (svc.operate c)

  unfoldable pub ask_bool : Call → M W Bool
  unfolding called
  ask_bool c = called c (svc.ask_bool c)

  -- A call that returns an operation, which is stored before its error is looked at.
  unfoldable pub operate_on : String → Call → M W (Option Err)
  operate_on name c = do (op, e) ← operate c; append_operation name op; pure e

  -- The rounds left, not the attempts made: `attempt + 1 < PollAttempts` is `rounds ≢ 0`.
  unfoldable pub poll_rounds : Config → String → M W Bool → ℕ → M W (Unit {0})
  poll_rounds config name condition zero = raise (error_text (codes name ++ codes " timed out"))
  poll_rounds config name condition (suc rounds) =
      let rest = poll_rounds config name condition rounds in
      do
        done ← condition
        if done
            then pure tt
            else if rounds == 0
            then rest
            else do e ← act (wait config.poll_interval); check e; rest

  unfoldable pub poll : Config → String → M W Bool → M W (Unit {0})
  poll config name condition = poll_rounds config name condition config.poll_attempts

  unfoldable pub alive : Enrollment → W → Bool
  alive e w = elim e.expires_at [ none ↦ true | some t ↦ ltb (svc.now w) t ]

  unfoldable pub is_alive : Enrollment → M W Bool
  is_alive e s = (ok (alive e s.file.world), s)

  unfoldable pub effect_prepare : Config → Sandbox → M W Prepared
  effect_prepare config b =
      let c = prepare b.repository (svc.join_path config.work_root b.name) in
      called c (svc.ask_prepared c)

  unfoldable pub prepare_again : Config → Sandbox → M W (Unit {0})
  prepare_again config b = do
    let path = svc.join_path config.work_root b.name
    present ← if str_eq b.revision "" then pure false else ask_bool (find_prepared path)
    if present
        then keep_prepared b.name (record { path = path; revision = b.revision })
        else do result ← effect_prepare config b; keep_prepared b.name result

  unfoldable pub ensure_prepared : Config → Sandbox → M W (Unit {0})
  ensure_prepared config b = do
    found ← find (λ s. s.prepared) b.name
    maybe found (prepare_again config b) (λ _. pure tt)

  unfoldable pub invite : Config → String → M W (Unit {0})
  invite config name = do
    let c = prepare_enrollment config.manager_pack_host name
    e ← called c (svc.ask_enrollment c)
    keep_enrollment name e

  -- The error of the cleanup of an expired enrollment is dropped.
  unfoldable pub ensure_enrollment : Config → Sandbox → M W (Unit {0})
  ensure_enrollment config b = do
    found ← find (λ s. s.enrollments) b.name
    maybe found (invite config b.name) (λ old. do
      live ← is_alive old
      if live
          then pure tt
          else do act (cleanup_enrollment old); forget_enrollment b.name; invite config b.name)

  unfoldable pub cleanup_enrollment_of : String → M W (Unit {0})
  cleanup_enrollment_of name = do
    found ← find (λ s. s.enrollments) name
    maybe found (pure tt)
        (λ e. do failure ← act (cleanup_enrollment e); check failure; forget_enrollment name)

  unfoldable pub cleanup_prepared_of : String → M W (Unit {0})
  cleanup_prepared_of name = do
    found ← find (λ s. s.prepared) name
    maybe found (pure tt) (λ p. do
      failure ← act (cleanup p.path)
      check (unless_absent failure)
      forget_prepared name)

  unfoldable pub cleanup_transient : String → M W (Unit {0})
  cleanup_transient name = do cleanup_enrollment_of name; cleanup_prepared_of name
