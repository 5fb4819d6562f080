-- ===== src/Reconcile/Phases/Recovered.antt =====
-- The order of the phases: `discovering-app`, which may go on with a recorded phase.

use cf_herdr_poc.Base.{
  ℕ, String, true, ◌≡◌, refl, inl, inr, Option, none, some, Err, lookup, is_nil, Bool-cases,
}
use cf_herdr_poc.Base.Exec.{Result, ok, err, ◌>>=◌, check}
use cf_herdr_poc.Base.Preserves.{Preserves, Preserves-check}
use cf_herdr_poc.Model.{Phase, Sandbox, Operation, discovering_app, securing_route}
use cf_herdr_poc.Store.{FileSystem}
use cf_herdr_poc.Reconcile.{Config, Services, Reconciler, M}
use cf_herdr_poc.Reconcile.Effects.{update, persist_phase, to_phase, append_operation}
use cf_herdr_poc.Reconcile.Create.{
  set_guid, mismatched, recovered, needs_enrollment, effect_guid, take_recovery, do_discovering_app,
}
use cf_herdr_poc.Reconcile.Held.{Held, Held-update, Held-append_operation, Held-same}
use cf_herdr_poc.Reconcile.Phases.{Within, Within-lasting, Sound}
use cf_herdr_poc.Reconcile.Phases.Moves.{stay}

module _ {W C : Type 0} (fs : FileSystem W C) (svc : Services W) (config : Config)
    (b : Sandbox) where
  -- A method that leaves the recorded recoveries alone.
  steady :
      {A : Type 0} (p : Phase) {m : M W A}
      → Preserves (Held b.name (Within p)) m
      → ((s : Reconciler W) → (m s).1.recovery_phase ≡ s.recovery_phase)
      → Preserves (Sound b.name (Within p)) m
  steady p h e = record {
    step = λ s r. (h.step s r.0, record { recovery = λ k q f. r.1.recovery k q (rw (e s) at f) });
  }

  update_steady :
      (change : ℕ → Sandbox → Sandbox) (s : Reconciler W)
      → (update fs svc b.name change s).1.recovery_phase ≡ s.recovery_phase
  unfolding update
  update_steady change s = refl

  persist_steady :
      (p : Phase) (s : Reconciler W)
      → (persist_phase fs svc b.name p s).1.recovery_phase ≡ s.recovery_phase
  unfolding persist_phase
  persist_steady p s = update_steady (to_phase fs svc p) s

  append_steady :
      (o : Operation) (s : Reconciler W)
      → (append_operation fs svc b.name o s).1.recovery_phase ≡ s.recovery_phase
  unfolding append_operation
  append_steady o s = elim (Bool-cases (is_nil o.name)) [
    | inl e ↦ rw e refl
    | inr e ↦ rw e (update_steady _ s)
  ]

  check_steady :
      (e : Option Err) (s : Reconciler W) → (check e s).1.recovery_phase ≡ s.recovery_phase
  check_steady none s = refl
  check_steady (some x) s = refl

  Held-effect_guid :
      (p : Phase) → Preserves (Held b.name (Within p)) (effect_guid fs svc config b.name)
  unfolding effect_guid
  Held-effect_guid p = record { step = λ s h. Held-same b.name (Within p) refl h }

  guid_steady :
      (s : Reconciler W) → (effect_guid fs svc config b.name s).1.recovery_phase ≡ s.recovery_phase
  unfolding effect_guid
  guid_steady s = refl

  land :
      (guid : String) (q : Phase)
      → needs_enrollment q ≡ true
      → Preserves (Held b.name (Within discovering_app)) (update fs svc b.name (set_guid guid q))
  unfolding Within set_guid
  land guid q n =
      Held-update fs svc b.name (Within discovering_app) (set_guid guid q) (λ now c h. inr n)

  landed :
      (guid : String) (o : Option Phase) (s : Reconciler W)
      → ((q : Phase) → o ≡ some q → needs_enrollment q ≡ true)
      → Held b.name (Within discovering_app) s
      → Held b.name
          (Within discovering_app)
          ((recovered fs svc config b.name o >>= λ q. update fs svc b.name (set_guid guid q)) s).1
  unfolding ◌>>=◌ recovered needs_enrollment
  landed guid none s r h = (land guid securing_route refl).step s h
  landed guid (some q) s r h =
      (land guid q (r q refl)).step _ (Held-same b.name (Within discovering_app) refl h)

  take_landed :
      (guid : String) (s : Reconciler W)
      → Sound b.name (Within discovering_app) s
      → Held b.name
          (Within discovering_app)
          ((take_recovery fs svc config b.name >>= λ q. update fs svc b.name (set_guid guid q)) s).1
  unfolding ◌>>=◌ take_recovery
  take_landed guid s h = landed guid (lookup b.name s.recovery_phase) s (h.1.recovery b.name) h.0

  -- The end of a block, where the recoveries may change.
  ends :
      {A B : Type 0} (m : M W A) (f : A → M W B)
      → Preserves (Sound b.name (Within discovering_app)) m
      → ((a : A) (s : Reconciler W)
          → Sound b.name (Within discovering_app) s
          → Held b.name (Within discovering_app) (f a s).1)
      → (s : Reconciler W) → Sound b.name (Within discovering_app) s
      → Held b.name (Within discovering_app) ((m >>= f) s).1
  unfolding ◌>>=◌
  ends {A} {B} m f hm hf s h = ended (m s) (hm.step s h)
    where
      ended :
          (r : Result Err A × Reconciler W)
          → Sound b.name (Within discovering_app) r.1
          → Held b.name
              (Within discovering_app)
              (elim r.0 as (λ _. Result Err B × Reconciler W) [
                | ok a ↦ f a r.1
                | err e ↦ (err e, r.1)
              ]).1
      ended (ok a, t) h = hf a t h
      ended (err e, t) h = h.0

  pub discovering_app-Within :
      (s : Reconciler W)
      → Sound b.name (Within discovering_app) s
      → Held b.name (Within discovering_app) (do_discovering_app fs svc config b s).1
  unfolding do_discovering_app
  discovering_app-Within =
      ends _ _ (steady _ (stay fs svc config b discovering_app) (persist_steady discovering_app))
        λ _. ends _ _ (steady _ (Held-effect_guid discovering_app) guid_steady) λ (guid, o, e).
          ends _ _
            (steady _ (Held-append_operation fs svc b.name _ (Within-lasting discovering_app) o)
              (append_steady o))
            λ _. ends _ _ (steady _ (Preserves-check e) (check_steady e)) λ _ s h.
              elim (Bool-cases (mismatched fs svc config b guid)) [
                | inl m ↦ rw m h.0
                | inr m ↦ rw m (take_landed guid s h)
              ]
