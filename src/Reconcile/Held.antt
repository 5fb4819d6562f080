-- ===== src/Reconcile/Held.antt =====
-- What holds of the stored sandbox of one name, as long as it is stored.
use cf_herdr_poc.Base.{
  ℕ, zero, suc, String, Bool, List, [], ◌∷◌, ◌++◌, ◌≡◌, refl, inl, inr, Option, some, Err, is_nil,
}
use cf_herdr_poc.Base.Exec.{Result}
use cf_herdr_poc.Base.Preserves.{Preserves, preserves_rules, Preserves-if, Preserves-pure}
use cf_herdr_poc.Model.{Sandbox, Operation, Phase}
use cf_herdr_poc.Store.{FileSystem, File}
use cf_herdr_poc.Store
use cf_herdr_poc.Store.Update.{update_held}
use cf_herdr_poc.Reconcile.{Prepared, Enrollment, Config, Call, Services, Reconciler, M}
use cf_herdr_poc.Reconcile.Effects.{
  called, called_act, called_operate, get, forget_enrollment, keep_enrollment, forget_prepared,
  keep_prepared, update, to_phase, persist_phase, clean_operation, append_operation, act, operate,
  ask_bool, operate_on, poll_rounds, poll, is_alive, effect_prepare, prepare_again, ensure_prepared,
  invite, ensure_enrollment, cleanup_enrollment_of, cleanup_prepared_of, cleanup_transient,
}

pub record Held {W : Type 0} (name : String) (Q : Sandbox → Type 0) (s : Reconciler W)
    : Type 0 where
  pub at : (b : Sandbox) → Store.get s.file name ≡ some b → Q b

module _ {W : Type 0} (name : String) (Q : Sandbox → Type 0) where
  -- What leaves the map alone keeps every such fact.
  pub Held-same :
      {s t : Reconciler W} → t.file.sandboxes ≡ s.file.sandboxes → Held name Q s → Held name Q t
  Held-same e h = record { at = λ b p. h.at b (unfold Store.get in rw e at p) }

  pub Held-called :
      {A : Type 0} (c : Call) (f : W → W × Result Err A) → Preserves (Held name Q) (called c f)
  unfolding called
  Held-called c f = record { step = λ s h. Held-same refl h }

  pub Held-called_act :
      (c : Call) (f : W → W × Option Err) → Preserves (Held name Q) (called_act c f)
  unfolding called_act
  Held-called_act c f = record { step = λ s h. Held-same refl h }

  pub Held-called_operate :
      (c : Call) (f : W → W × Operation × Option Err) → Preserves (Held name Q) (called_operate c f)
  unfolding called_operate
  Held-called_operate c f = record { step = λ s h. Held-same refl h }

  pub Held-get : (k : String) → Preserves (Held name Q) (get {W = W} k)
  unfolding get
  Held-get k = record { step = λ s h. h }

  pub Held-forget_enrollment : (k : String) → Preserves (Held name Q) (forget_enrollment {W = W} k)
  unfolding forget_enrollment
  Held-forget_enrollment k = record { step = λ s h. Held-same refl h }

  pub Held-keep_enrollment :
      (k : String) (e : Enrollment) → Preserves (Held name Q) (keep_enrollment {W = W} k e)
  unfolding keep_enrollment
  Held-keep_enrollment k e = record { step = λ s h. Held-same refl h }

  pub Held-forget_prepared : (k : String) → Preserves (Held name Q) (forget_prepared {W = W} k)
  unfolding forget_prepared
  Held-forget_prepared k = record { step = λ s h. Held-same refl h }

  pub Held-keep_prepared :
      (k : String) (p : Prepared) → Preserves (Held name Q) (keep_prepared {W = W} k p)
  unfolding keep_prepared
  Held-keep_prepared k p = record { step = λ s h. Held-same refl h }

pub ruleset held_calls = (
  preserves_rules, Held-called, Held-called_act, Held-called_operate, Held-get,
  Held-forget_enrollment, Held-keep_enrollment, Held-forget_prepared, Held-keep_prepared,
)

module _ {W C : Type 0} (fs : FileSystem W C) (svc : Services W) (name : String)
    (Q : Sandbox → Type 0) where
  -- A write keeps what its change keeps.
  pub Held-update :
      (change : ℕ → Sandbox → Sandbox)
      → ((now : ℕ) (b : Sandbox) → Q b → Q (change now b))
      → Preserves (Held name Q) (update fs svc name change)
  unfolding update
  Held-update change keep = record {
    step = λ s h. record {
      at = λ c p.
          let now = svc.now s.file.world in
          let (b, held, cases) = update_held fs name (change now) s.file p in
          elim cases [ inl e ↦ rw e (h.at b held) | inr e ↦ rw e (keep now b (h.at b held)) ];
    };
  }

  pub Held-persist_phase :
      (p : Phase)
      → ((now : ℕ) (b : Sandbox) → Q b → Q (to_phase fs svc p now b))
      → Preserves (Held name Q) (persist_phase fs svc name p)
  unfolding persist_phase
  Held-persist_phase p keep = Held-update (to_phase fs svc p) keep

module _ {W C : Type 0} (fs : FileSystem W C) (svc : Services W) (name : String)
    (Q : Sandbox → Type 0) where
  pub Held-act : (c : Call) → Preserves (Held name Q) (act fs svc c)
  unfolding act
  Held-act c = search held_calls

  pub Held-operate : (c : Call) → Preserves (Held name Q) (operate fs svc c)
  unfolding operate
  Held-operate c = search held_calls

  pub Held-ask_bool : (c : Call) → Preserves (Held name Q) (ask_bool fs svc c)
  unfolding ask_bool
  Held-ask_bool c = search held_calls

  pub Held-is_alive : (e : Enrollment) → Preserves (Held name Q) (is_alive fs svc e)
  unfolding is_alive
  Held-is_alive e = search held_calls

  Held-cleanup_enrollment_of :
      (k : String) → Preserves (Held name Q) (cleanup_enrollment_of fs svc k)
  unfolding cleanup_enrollment_of
  Held-cleanup_enrollment_of k = search (held_calls, Held-act) depth 12

  Held-cleanup_prepared_of : (k : String) → Preserves (Held name Q) (cleanup_prepared_of fs svc k)
  unfolding cleanup_prepared_of
  Held-cleanup_prepared_of k = search (held_calls, Held-act) depth 12

  pub Held-cleanup_transient : (k : String) → Preserves (Held name Q) (cleanup_transient fs svc k)
  unfolding cleanup_transient
  Held-cleanup_transient k =
      search (held_calls, Held-cleanup_enrollment_of, Held-cleanup_prepared_of)

-- A fact that does not depend on what the helpers of every phase write.
pub record IsLasting (Q : Sandbox → Type 0) : Type 0 where
  pub operations :
      (b : Sandbox) (ops : List Operation) (now : ℕ)
      → Q b
      → Q (record b { operations = ops; updated_at = now })

module _ {W C : Type 0} (fs : FileSystem W C) (svc : Services W) (name : String)
    (Q : Sandbox → Type 0) (lasting : IsLasting Q) where
  pub Held-append_operation :
      (op : Operation) → Preserves (Held name Q) (append_operation fs svc name op)
  unfolding append_operation
  Held-append_operation op = Preserves-if (is_nil op.name) _ _ (Preserves-pure tt) (
      Held-update fs svc name Q _
        (λ now b. lasting.operations b (b.operations ++ clean_operation fs svc op ∷ []) now))

  pub Held-operate_on : (c : Call) → Preserves (Held name Q) (operate_on fs svc name c)
  unfolding operate_on
  Held-operate_on c = search (preserves_rules, Held-operate, Held-append_operation)

module _ {W C : Type 0} (fs : FileSystem W C) (svc : Services W) (config : Config) (name : String)
    (Q : Sandbox → Type 0) where
  Held-poll_rounds :
      (what : String) (m : M W Bool) (n : ℕ)
      → Preserves (Held name Q) m
      → Preserves (Held name Q) (poll_rounds fs svc config what m n)
  unfolding poll_rounds
  Held-poll_rounds what m zero h = search preserves_rules
  Held-poll_rounds what m (suc n) h =
      let rest = Held-poll_rounds what m n h in search (preserves_rules, Held-act) depth 8

  pub Held-poll :
      (what : String) (m : M W Bool)
      → Preserves (Held name Q) m
      → Preserves (Held name Q) (poll fs svc config what m)
  unfolding poll
  Held-poll what m h = Held-poll_rounds what m config.poll_attempts h

  pub Held-effect_prepare : (b : Sandbox) → Preserves (Held name Q) (effect_prepare fs svc config b)
  unfolding effect_prepare
  Held-effect_prepare b = search held_calls

  Held-prepare_again : (b : Sandbox) → Preserves (Held name Q) (prepare_again fs svc config b)
  unfolding prepare_again
  Held-prepare_again b = search (held_calls, Held-ask_bool, Held-effect_prepare) depth 8

  pub Held-ensure_prepared :
      (b : Sandbox) → Preserves (Held name Q) (ensure_prepared fs svc config b)
  unfolding ensure_prepared
  Held-ensure_prepared b = search (held_calls, Held-prepare_again) depth 8

  Held-invite : (k : String) → Preserves (Held name Q) (invite fs svc config k)
  unfolding invite
  Held-invite k = search held_calls

  pub Held-ensure_enrollment :
      (b : Sandbox) → Preserves (Held name Q) (ensure_enrollment fs svc config b)
  unfolding ensure_enrollment
  Held-ensure_enrollment b = search (held_calls, Held-invite, Held-is_alive, Held-act) depth 12

pub ruleset held_rules = (
  held_calls, Held-append_operation, Held-act, Held-operate, Held-ask_bool, Held-operate_on,
  Held-is_alive, Held-poll, Held-effect_prepare, Held-ensure_prepared, Held-ensure_enrollment,
  Held-cleanup_transient,
)
