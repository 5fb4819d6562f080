-- ===== src/Reconcile/Success.antt =====
-- Methods of the reconciler that return no error: where they leave the sandbox of one name.
use cf_herdr_poc.Base.{
  ℕ, ◌<◌, zero, suc, String, Bool, ◌≡◌, refl, ◌∙◌, Option, some, Err, is_nil, Assoc,
}
use cf_herdr_poc.Base.Exec.{Result}
use cf_herdr_poc.Base.Runs.{Runs, runs_rules, Runs-if, Runs-pure}
use cf_herdr_poc.Model.{Sandbox, Operation, Phase}
use cf_herdr_poc.Store.{FileSystem, File}
use cf_herdr_poc.Store
use cf_herdr_poc.Reconcile.{Prepared, Enrollment, Config, Call, Services, Reconciler, M}
use cf_herdr_poc.Reconcile.Effects.{
  called, called_act, called_operate, forget_prepared, keep_prepared, update, to_phase,
  persist_phase, append_operation, act, operate, ask_bool, operate_on, poll_rounds, poll, is_alive,
  effect_prepare, prepare_again, ensure_prepared, cleanup_prepared_of,
}
use cf_herdr_poc.Reconcile.Retry.{update_ok}

-- What holds of the enrollments and of the recoveries.
-- The clock does not reach the time at which the enrollment expires, if it has one.
abbrev pub Outlasts : {W : Type 0} → Services W → Enrollment → Type 0
Outlasts svc e = (t : ℕ) → e.expires_at ≡ some t → (w : _) → svc.now w < t

abbrev pub Side : Type 1
Side = Assoc Enrollment → Assoc Phase → Type 0

-- A sandbox in the phase is stored under its name, and the other fact holds.
pub record At {W : Type 0} (name : String) (R : Side) (p : Phase) (s : Reconciler W) : Type 0 where
  pub held : Sandbox
  pub stored : Store.get s.file name ≡ some held
  pub named : held.name ≡ name
  pub phased : held.phase ≡ p
  pub side : R s.enrollments s.recovery_phase

module _ {W : Type 0} {name : String} {R Q : Side} {p : Phase} where
  -- What leaves the map alone.
  pub At-same :
      {s t : Reconciler W}
      → t.file.sandboxes ≡ s.file.sandboxes
      → At name R p s
      → Q t.enrollments t.recovery_phase
      → At name Q p t
  unfolding Store.get
  At-same e h r = record {
    held = h.held;
    stored = rw e h.stored;
    named = h.named;
    phased = h.phased;
    side = r;
  }

module _ {W : Type 0} {name : String} {R : Side} {p : Phase} where
  pub At-called :
      {A : Type 0} (c : Call) (f : W → W × Result Err A)
      → Runs (At name R p) (At name R p) (called c f)
  unfolding called
  At-called c f = record { at = λ s a h e. At-same refl h h.side }

  pub At-called_act :
      (c : Call) (f : W → W × Option Err) → Runs (At name R p) (At name R p) (called_act c f)
  unfolding called_act
  At-called_act c f = record { at = λ s a h e. At-same refl h h.side }

  pub At-called_operate :
      (c : Call) (f : W → W × Operation × Option Err)
      → Runs (At name R p) (At name R p) (called_operate c f)
  unfolding called_operate
  At-called_operate c f = record { at = λ s a h e. At-same refl h h.side }

  pub At-forget_prepared :
      (k : String) → Runs (At name R p) (At name R p) (forget_prepared {W = W} k)
  unfolding forget_prepared
  At-forget_prepared k = record { at = λ s a h e. At-same refl h h.side }

  pub At-keep_prepared :
      (k : String) (q : Prepared) → Runs (At name R p) (At name R p) (keep_prepared {W = W} k q)
  unfolding keep_prepared
  At-keep_prepared k q = record { at = λ s a h e. At-same refl h h.side }

pub ruleset at_calls =
    (runs_rules, At-called, At-called_act, At-called_operate, At-forget_prepared, At-keep_prepared)

module _ {W C : Type 0} (fs : FileSystem W C) (svc : Services W) (config : Config) {name : String}
    {R : Side} {p : Phase} where
  -- A write of a phase.
  pub At-update :
      (q : Phase) (change : ℕ → Sandbox → Sandbox)
      → ((now : ℕ) (b : Sandbox) → (change now b).name ≡ b.name)
      → ((now : ℕ) (b : Sandbox) → b.phase ≡ p → (change now b).phase ≡ q)
      → Runs (At name R p) (At name R q) (update fs svc name change)
  At-update q change same lands = record {
    at = λ s a h e. record {
      held = change (svc.now s.file.world) h.held;
      stored = update_ok fs svc config name change s h.stored e;
      named = same _ _ ∙ h.named;
      phased = lands _ _ h.phased;
      side = unfold update in h.side;
    };
  }

  pub At-persist_phase :
      (q : Phase) → Runs (At name R p) (At name R q) (persist_phase fs svc name q)
  unfolding persist_phase
  At-persist_phase q = At-update q (to_phase fs svc q) (λ now b. refl) (λ now b e. refl)

  pub At-append_operation :
      (op : Operation) → Runs (At name R p) (At name R p) (append_operation fs svc name op)
  unfolding append_operation
  At-append_operation op =
      Runs-if (is_nil op.name) _ _ (Runs-pure tt) (At-update p _ (λ now b. refl) (λ now b e. e))

module _ {W C : Type 0} (fs : FileSystem W C) (svc : Services W) (config : Config) {name : String}
    {R : Side} {p : Phase} where
  pub At-act : (c : Call) → Runs (At name R p) (At name R p) (act fs svc c)
  unfolding act
  At-act c = search at_calls

  pub At-operate : (c : Call) → Runs (At name R p) (At name R p) (operate fs svc c)
  unfolding operate
  At-operate c = search at_calls

  pub At-ask_bool : (c : Call) → Runs (At name R p) (At name R p) (ask_bool fs svc c)
  unfolding ask_bool
  At-ask_bool c = search at_calls

  pub At-is_alive : (e : Enrollment) → Runs (At name R p) (At name R p) (is_alive fs svc e)
  unfolding is_alive
  At-is_alive e = search at_calls

  pub At-operate_on : (c : Call) → Runs (At name R p) (At name R p) (operate_on fs svc name c)
  unfolding operate_on
  At-operate_on c = search (runs_rules, At-operate, At-append_operation fs svc config)

  At-poll_rounds :
      (what : String) (m : M W Bool) (n : ℕ)
      → Runs (At name R p) (At name R p) m
      → Runs (At name R p) (At name R p) (poll_rounds fs svc config what m n)
  unfolding poll_rounds
  At-poll_rounds what m zero h = search runs_rules
  At-poll_rounds what m (suc n) h =
      let rest = At-poll_rounds what m n h in search (runs_rules, At-act) depth 8

  pub At-poll :
      (what : String) (m : M W Bool)
      → Runs (At name R p) (At name R p) m
      → Runs (At name R p) (At name R p) (poll fs svc config what m)
  unfolding poll
  At-poll what m h = At-poll_rounds what m config.poll_attempts h

  pub At-effect_prepare :
      (b : Sandbox) → Runs (At name R p) (At name R p) (effect_prepare fs svc config b)
  unfolding effect_prepare
  At-effect_prepare b = search at_calls

  At-prepare_again :
      (b : Sandbox) → Runs (At name R p) (At name R p) (prepare_again fs svc config b)
  unfolding prepare_again
  At-prepare_again b = search (at_calls, At-ask_bool, At-effect_prepare) depth 8

  pub At-ensure_prepared :
      (b : Sandbox) → Runs (At name R p) (At name R p) (ensure_prepared fs svc config b)
  unfolding ensure_prepared
  At-ensure_prepared b = search (at_calls, At-prepare_again) depth 8

  pub At-cleanup_prepared_of :
      (k : String) → Runs (At name R p) (At name R p) (cleanup_prepared_of fs svc k)
  unfolding cleanup_prepared_of
  At-cleanup_prepared_of k = search (at_calls, At-act) depth 12

pub ruleset at_rules = (
  at_calls, At-act, At-operate, At-ask_bool, At-operate_on, At-poll, At-effect_prepare,
  At-ensure_prepared, At-cleanup_prepared_of,
)
