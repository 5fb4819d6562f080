-- ===== src/Reconcile/Loop.antt =====
-- The loop of `reconcileCreate`, and `ReconcileOne`, `Retry` and `scan`.

use cf_herdr_poc.Base.{
  ℕ, zero, suc, String, Bool, true, false, not, Option, none, some, List, [], ◌∷◌, insert,
  error_new, if◌then◌else◌,
}
use cf_herdr_poc.Base.Exec.{ok, maybe, pure, raise, ◌>>=◌, ◌>>◌, catch}
use cf_herdr_poc.Model.{Phase, Sandbox, no_phase, preparing_invite, ready, failed}
use cf_herdr_poc.Store.{FileSystem}
use cf_herdr_poc.Store
use cf_herdr_poc.Reconcile.{Enrollment, Config, Services, Reconciler, M, cleanup_enrollment}
use cf_herdr_poc.Reconcile.Effects.{
  persist_phase, fail, fail_if, act, update, get, find, is_alive, forget_enrollment,
}
use cf_herdr_poc.Reconcile.Delete.{reconcile_delete}
use cf_herdr_poc.Reconcile.Create.{needs_enrollment, is_deleted, advance}

-- One round of the loop returns, or goes on to the next.
pub data Round : Type 0 where
  again finished : Round

-- `out_of_fuel` stands for a loop that is still running after the rounds that it was given.
pub data Loop : Type 0 where
  returned out_of_fuel : Loop

abbrev pub go_on : {A : Type 0} → Round → A → A → A
go_on again a b = a
go_on finished a b = b

unfoldable pub is_ready : Phase → Bool
is_ready ready = true
is_ready _ = false

unfoldable pub is_failed : Phase → Bool
is_failed failed = true
is_failed _ = false

module _ {W : Type 0} where
  unfoldable pub note_recovery : String → Phase → M W (Unit {0})
  note_recovery name p s = (ok tt, record s { recovery_phase = insert name p s.recovery_phase })

  unfoldable pub phase_now : String → Phase → M W Phase
  phase_now name p s = (ok (elim (Store.get s.file name) [ none ↦ p | some t ↦ t.phase ]), s)

module _ {W C : Type 0} (fs : FileSystem W C) (svc : Services W) (config : Config) where
  -- The enrollment is lost or has expired: go back and prepare another.
  unfoldable pub renew : Sandbox → M W Round
  renew b = do
    note_recovery b.name b.phase
    persist_phase fs svc b.name preparing_invite
    pure again

  unfoldable pub drop_expired : Sandbox → Enrollment → M W (Unit {0})
  drop_expired b e = do
    failure ← act fs svc (cleanup_enrollment e)
    fail_if fs svc b.name b.phase failure
    forget_enrollment b.name

  -- Behind the switch: an error is stored with the phase that the store has by then.
  unfoldable pub run_phase : Sandbox → M W Round
  run_phase b = if is_ready b.phase then pure finished else do
    catch (advance fs svc config b.phase b)
        (λ e. do p ← phase_now b.name b.phase; fail fs svc b.name p e)
    pure again

  unfoldable pub gate : Sandbox → Option Enrollment → M W Round
  gate b none = renew b
  gate b (some e) = do
    live ← is_alive fs svc e
    if live then run_phase b else do drop_expired b e; renew b

  unfoldable pub present_round : Sandbox → M W Round
  present_round b = do
    found ← find (λ s. s.enrollments) b.name
    if needs_enrollment b.phase then gate b found else run_phase b

  unfoldable pub round : String → M W Round
  round name = do
    current ← get name
    maybe current (pure finished) (λ b.
        if is_deleted b.desired
        then (reconcile_delete fs svc config b >> pure finished)
        else present_round b)

  unfoldable pub reconcile_create : ℕ → String → M W Loop
  reconcile_create zero name = pure out_of_fuel
  reconcile_create (suc fuel) name =
      let rest = reconcile_create fuel name in do r ← round name; go_on r rest (pure returned)

  -- `ReconcileOne` behind its two locks.
  unfoldable pub reconcile_one : ℕ → String → M W Loop
  reconcile_one fuel name = do
    current ← get name
    maybe current (pure returned) (λ b.
        if is_deleted b.desired
        then (reconcile_delete fs svc config b >> pure returned)
        else if is_failed b.phase
        then pure returned
        else reconcile_create fuel name)

  abbrev pub resumed : ℕ → Sandbox → Sandbox
  resumed now t = record t {
    phase = t.resume_phase;
    resume_phase = no_phase;
    last_error = [];
    updated_at = now;
  }

  unfoldable pub resume : String → Sandbox → M W (Unit {0})
  resume name b = if is_failed b.phase then update fs svc name resumed else pure tt

  unfoldable pub retry : ℕ → String → M W Loop
  retry fuel name = do
    current ← get name
    maybe current (raise (error_new "sandbox does not exist"))
        (λ b. do resume name b; reconcile_one fuel name)

  unfoldable pub allows_actions : Reconciler W → String → Bool
  allows_actions s name = elim (Store.get s.file name) [
    | none ↦ false
    | some b ↦ not (is_deleted b.desired)
  ]

  -- `scan`: errors are dropped.
  unfoldable pub scan_names : ℕ → List Sandbox → Reconciler W → Reconciler W
  scan_names fuel [] s = s
  scan_names fuel (b ∷ rest) s = scan_names fuel rest (reconcile_one fuel b.name s).1

  unfoldable pub scan : ℕ → Reconciler W → Reconciler W
  scan fuel s = scan_names fuel (Store.list s.file) s
