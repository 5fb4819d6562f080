-- ===== src/Reconcile/Rounds.antt =====
-- One round of the loop of `reconcileCreate`, with the error path behind the switch.
use cf_herdr_poc.Base.{◌≡◌, refl, ◌⊎◌, inl, inr, some, Err, Bool-cases}
use cf_herdr_poc.Base.Exec.{◌>>=◌}
use cf_herdr_poc.Base.Preserves.{catch_ends, state-then_pure}
use cf_herdr_poc.Model.{Phase, Sandbox, failed}
use cf_herdr_poc.Sanitize.{sanitize}
use cf_herdr_poc.Store.{FileSystem, File}
use cf_herdr_poc.Store
use cf_herdr_poc.Store.Update.{update_held}
use cf_herdr_poc.Reconcile.{Config, Services, Reconciler}
use cf_herdr_poc.Reconcile.Effects.{update, to_failed, fail}
use cf_herdr_poc.Reconcile.Create.{advance}
use cf_herdr_poc.Reconcile.Loop.{is_ready, phase_now, run_phase, again}
use cf_herdr_poc.Reconcile.Held.{Held}
use cf_herdr_poc.Reconcile.Phases.{IsNext, Within, Sound}
use cf_herdr_poc.Reconcile.Phases.Switch.{advance-Within}

-- Failed, to be resumed in `p` or in a next phase.
abbrev pub FailedIn : Phase → Sandbox → Type 0
FailedIn p c = (c.phase ≡ failed) × ((c.resume_phase ≡ p) ⊎ IsNext p c.resume_phase)

unfoldable pub After : Phase → Sandbox → Type 0
After p c = ((c.phase ≡ p) ⊎ IsNext p c.phase) ⊎ FailedIn p c

module _ {W C : Type 0} (fs : FileSystem W C) (svc : Services W) (config : Config)
    (b : Sandbox) where
  Held-After : (p : Phase) {s : Reconciler W} → Held b.name (Within p) s → Held b.name (After p) s
  unfolding After Within
  Held-After p h = record { at = λ c e. inl (h.at c e) }

  fail-After :
      (p q : Phase) (e : Err) (s : Reconciler W)
      → ((c : Sandbox) → Store.get s.file b.name ≡ some c → q ≡ c.phase)
      → Held b.name (Within p) s
      → Held b.name (After p) (fail fs svc {A = Unit {0}} b.name q e s).1
  unfolding fail update After Within
  fail-After p q e s now h = record {
    at = λ c r.
        let message = sanitize svc.redact e.text in
        let (t, held, cases) =
          update_held fs b.name (to_failed fs svc q message (svc.now s.file.world)) s.file r in
        elim cases [
          | inl x ↦ rw x (inl (h.at t held))
          | inr x ↦ rw x (inr (refl, rw (now t held) (h.at t held)))
        ];
  }

  failed-After :
      (p : Phase) (e : Err) (s : Reconciler W)
      → Held b.name (Within p) s
      → Held b.name
          (After p)
          ((phase_now b.name p >>= λ q. fail fs svc {A = Unit {0}} b.name q e) s).1
  unfolding ◌>>=◌ phase_now
  failed-After p e s h = fail-After p _ e s (λ c r. rw r refl) h

  -- If a sandbox stored under the name is in the phase of `b` or a next one, and the recorded
  -- recoveries are of phases that need an enrollment, then one run of the switch for `b` leaves a
  -- sandbox stored there in that phase or a next one, or failed with one of these to resume,
  -- whatever fails, as far as no request of the API changes the store during the run.
  pub run_phase-After :
      (s : Reconciler W)
      → Sound b.name (Within b.phase) s
      → Held b.name (After b.phase) (run_phase fs svc config b s).1
  unfolding run_phase
  run_phase-After s h = elim (Bool-cases (is_ready b.phase)) [
    | inl r ↦ rw r (Held-After b.phase h.0)
    | inr r ↦
        rw (r, state-then_pure _ again s)
          (catch_ends (Held b.name (Within b.phase)) (Held b.name (After b.phase))
            (advance fs svc config b.phase b) _ s (advance-Within fs svc config b b.phase s h)
            (λ t k. Held-After b.phase k) (failed-After b.phase))
  ]
