-- ===== src/Reconcile/Enrolled.antt =====
-- The cases of the switch that change the enrollments or the recoveries.
use mathlib.Core.Path.{subst}
use cf_herdr_poc.Base.{
  String, true, ◌≡◌, refl, inl, inr, Option, none, some, Assoc, lookup, insert, remove,
  lookup-insert_self, lookup-remove_self, lookup-remove, str_eq, arith, if◌then◌else◌,
}
use cf_herdr_poc.Base.Exec.{ok, Result-cases, ◌>>=◌, ◌>>◌, maybe, pure}
use cf_herdr_poc.Base.Runs.{Runs, Runs-if, Runs-pure, ◌⟫◌, ◌▹◌, ◌▹=◌}
use cf_herdr_poc.Model.{Phase, Sandbox, preparing_invite, staging, discovering_app}
use cf_herdr_poc.Store.{FileSystem}
use cf_herdr_poc.Reconcile.{
  Enrollment, Config, Call, Services, Reconciler, prepare_enrollment, cleanup_enrollment,
}
use cf_herdr_poc.Reconcile.Effects.{
  called, keep_enrollment, forget_enrollment, invite, ensure_enrollment, is_alive, act, record_call,
}
use cf_herdr_poc.Reconcile.Create.{
  needs_enrollment, do_preparing_invite, do_staging, enrollment_path,
}
use cf_herdr_poc.Reconcile.Success.{
  Side, Outlasts, At, At-same, At-persist_phase, At-act, At-is_alive, at_rules,
}

-- No enrollment of the pack manager expires, as far as the clock goes.
pub record IsUnexpiring {W : Type 0} (svc : Services W) : Type 0 where
  pub unlimited :
      (c : Call) (w : W) (e : Enrollment) → (svc.ask_enrollment c w).1 ≡ ok e → Outlasts svc e

module _ (name : String) where
  abbrev pub Nothing : Side
  Nothing es rs = Unit

module _ {W : Type 0} (svc : Services W) (name : String) where
  -- No kept enrollment expires, as far as the clock goes, and the recoveries are of phases that need an enrollment.
  pub record Calm (es : Assoc Enrollment) (rs : Assoc Phase) : Type 0 where
    pub unlimited : (e : Enrollment) → lookup name es ≡ some e → Outlasts svc e
    pub recovery : (k : String) (q : Phase) → lookup k rs ≡ some q → needs_enrollment q ≡ true

  -- There is also an enrollment.
  pub record Invited (es : Assoc Enrollment) (rs : Assoc Phase) : Type 0 where
    pub calm : Calm es rs
    pub enrollment : Enrollment
    pub kept : lookup name es ≡ some enrollment

  -- And no recovery is under way.
  pub record Straight (es : Assoc Enrollment) (rs : Assoc Phase) : Type 0 where
    pub invited : Invited es rs
    pub direct : lookup name rs ≡ none

  inserted-Invited :
      (es : Assoc Enrollment) (rs : Assoc Phase) (e : Enrollment)
      → Outlasts svc e
      → Calm es rs
      → Invited (insert name e es) rs
  inserted-Invited es rs e n c = record {
    calm = record {
      unlimited = λ d p.
          let same : e ≡ d = cc (lookup-insert_self name e es, p) in subst (Outlasts svc) same n;
      recovery = c.recovery;
    };
    enrollment = e;
    kept = lookup-insert_self name e es;
  }

  removed-Calm : (es : Assoc Enrollment) (rs : Assoc Phase) → Calm es rs → Calm (remove name es) rs
  removed-Calm es rs c = record {
    unlimited = λ d p. absurd (cc (lookup-remove_self name es, p));
    recovery = c.recovery;
  }

  pub removed-Straight :
      (es : Assoc Enrollment) (rs : Assoc Phase) → Invited es rs → Straight es (remove name rs)
  removed-Straight es rs c = record {
    invited = record {
      calm = record {
        unlimited = c.calm.unlimited;
        recovery = λ k q p. c.calm.recovery k q (left k q (lookup-remove name k rs) p);
      };
      enrollment = c.enrollment;
      kept = c.kept;
    };
    direct = lookup-remove_self name rs;
  }
    where
      left :
          (k : String) (q : Phase)
          → lookup k (remove name rs) ≡ (if str_eq name k then none else lookup k rs)
          → lookup k (remove name rs) ≡ some q
          → lookup k rs ≡ some q
      left k q e p = ground arith

module _ {W : Type 0} {name : String} {p : Phase} {R Q : Side} where
  pub At-weaken :
      {s : Reconciler W}
      → (R s.enrollments s.recovery_phase → Q s.enrollments s.recovery_phase)
      → At name R p s
      → At name Q p s
  At-weaken f h = At-same refl h (f h.side)

module _ {W C : Type 0} (fs : FileSystem W C) (svc : Services W) (config : Config) (name : String)
    (p : Phase) where
  forget-Calm :
      Runs
        (At name (Invited svc name) p)
        (At name (Calm svc name) p)
        (forget_enrollment {W = W} name)
  unfolding forget_enrollment
  forget-Calm = record { at = λ s a h e. At-same refl h (removed-Calm svc name _ _ h.side.calm) }

  pub forget-Nothing :
      Runs (At name (Nothing name) p) (At name (Nothing name) p) (forget_enrollment {W = W} name)
  unfolding forget_enrollment
  forget-Nothing = record { at = λ s a h e. At-same refl h tt }

  module _ (unexpiring : IsUnexpiring svc) where
    invite-Invited :
        Runs (At name (Calm svc name) p) (At name (Invited svc name) p) (invite fs svc config name)
    unfolding invite ◌>>=◌ called keep_enrollment record_call
    invite-Invited = record {
      at = λ s a h e.
          let c = prepare_enrollment config.manager_pack_host name in
          elim (Result-cases (svc.ask_enrollment c s.file.world).1) [
            | inl x ↦ cc (rw (x.1) at e)
            | inr x ↦ rw x.1 (
                At-same refl h (
                  inserted-Invited svc name s.enrollments s.recovery_phase x.0
                    (unexpiring.unlimited c _ x.0 x.1) h.side))
          ];
    }

module _ {W C : Type 0} (fs : FileSystem W C) (svc : Services W) (config : Config) (b : Sandbox)
    (unexpiring : IsUnexpiring svc) where
  abbrev CalmAt : Phase → Reconciler W → Type 0
  CalmAt q = At b.name (Calm svc b.name) q

  abbrev InvitedAt : Phase → Reconciler W → Type 0
  InvitedAt q = At b.name (Invited svc b.name) q

  ensure-Runs : (p : Phase) → Runs (CalmAt p) (InvitedAt p) (ensure_enrollment fs svc config b)
  unfolding ensure_enrollment ◌>>=◌
  ensure-Runs p = record { at = λ s a h e. found (lookup b.name s.enrollments) s a refl h e }
    where
      anew : Runs (CalmAt p) (InvitedAt p) (invite fs svc config b.name)
      anew = invite-Invited fs svc config b.name p unexpiring

      found :
          (o : Option Enrollment) (s : Reconciler W) (a : Unit {0})
          → lookup b.name s.enrollments ≡ o
          → CalmAt p s
          → (maybe o
              (invite fs svc config b.name)
              (λ old. do
                live ← is_alive fs svc old
                if live then pure tt else do
                  act fs svc (cleanup_enrollment old)
                  forget_enrollment b.name
                  invite fs svc config b.name)
              s).0
            ≡ ok a
          → InvitedAt p
              (maybe o
                (invite fs svc config b.name)
                (λ old. do
                  live ← is_alive fs svc old
                  if live then pure tt else do
                    act fs svc (cleanup_enrollment old)
                    forget_enrollment b.name
                    invite fs svc config b.name)
                s).1
      found none s a x h e = anew.at s a h e
      found (some old) s a x h e =
          (At-is_alive fs svc config old ▹= λ live. Runs-if live _ _ (Runs-pure tt) (
              At-act fs svc config (cleanup_enrollment old)
              ▹ forget-Calm fs svc config b.name p
              ⟫ anew)).at
            s a (At-weaken (λ c. record { calm = c; enrollment = old; kept = x }) h) e

  pub preparing_invite-Runs :
      (p : Phase) → Runs (CalmAt p) (InvitedAt staging) (do_preparing_invite fs svc config b)
  unfolding do_preparing_invite
  preparing_invite-Runs p =
      At-persist_phase fs svc config preparing_invite
      ⟫ ensure-Runs preparing_invite
      ⟫ At-persist_phase fs svc config staging

  source-Runs :
      (o : Option Enrollment)
      → Runs (InvitedAt staging) (InvitedAt staging) (enrollment_path fs svc config o)
  source-Runs none = search at_rules
  source-Runs (some e) = search at_rules

  pub staging-Runs :
      (p : Phase) → Runs (CalmAt p) (InvitedAt discovering_app) (do_staging fs svc config b)
  unfolding do_staging
  staging-Runs p =
      At-persist_phase fs svc config staging
      ⟫ search at_rules
      ▹ ensure-Runs staging
      ⟫ search at_rules
      ▹= λ found. At-persist_phase fs svc config staging ⟫ search at_rules ▹= λ held.
          source-Runs held ▹= λ path. search at_rules ▹= λ e.
          search at_rules ▹ At-persist_phase fs svc config staging ⟫ search at_rules ▹= λ e.
          search at_rules ▹ At-persist_phase fs svc config discovering_app
