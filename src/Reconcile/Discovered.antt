-- ===== src/Reconcile/Discovered.antt =====
-- The cases of the switch for `discovering-app` and `joining-pack`.
use cf_herdr_poc.Base.{String, true, ◌≡◌, refl, Option, none, some, lookup}
use cf_herdr_poc.Base.Exec.{ok, ◌>>=◌}
use cf_herdr_poc.Base.Runs.{
  Runs, Runs-read, Runs-pure, Runs-maybe, Runs-if, Runs-raise, Runs-check, ◌⟫◌, ◌▹◌, ◌▹=◌,
}
use cf_herdr_poc.Model.{Phase, Sandbox, discovering_app, securing_route, joining_pack, ready}
use cf_herdr_poc.Store.{FileSystem}
use cf_herdr_poc.Reconcile.{Config, Services, Reconciler, M, cleanup_enrollment}
use cf_herdr_poc.Reconcile.Effects.{update, cleanup_enrollment_of, cleanup_transient}
use cf_herdr_poc.Reconcile.Create.{
  needs_enrollment, effect_guid, mismatched, recovered, take_recovery, set_guid, set_member,
  do_discovering_app, do_joining_pack,
}
use cf_herdr_poc.Reconcile.Success.{
  Side, At, At-same, At-update, At-persist_phase, At-append_operation, At-act, at_rules,
}
use cf_herdr_poc.Reconcile.Enrolled.{
  Nothing, Invited, Straight, removed-Straight, At-weaken, forget-Nothing,
}

module _ {W C : Type 0} (fs : FileSystem W C) (svc : Services W) (config : Config)
    (b : Sandbox) where
  abbrev InvitedAt : Phase → Reconciler W → Type 0
  InvitedAt q = At b.name (Invited svc b.name) q

  abbrev StraightAt : Phase → Reconciler W → Type 0
  StraightAt q = At b.name (Straight svc b.name) q

  abbrev NothingAt : Phase → Reconciler W → Type 0
  NothingAt q = At b.name (Nothing b.name) q

  -- In a phase that needs the enrollment, which is there.
  abbrev pub Landed : Reconciler W → Type 0
  Landed t = (q : Phase) × (needs_enrollment q ≡ true) × StraightAt q t

  land :
      {R : Side} {p : Phase} (guid : String) (q : Phase)
      → Runs (At b.name R p) (At b.name R q) (update fs svc b.name (set_guid guid q))
  unfolding set_guid
  land guid q = At-update fs svc config q _ (λ now c. refl) (λ now c e. refl)

  abbrev landing : String → Option Phase → M W (Unit {0})
  landing guid o = recovered fs svc config b.name o >>= λ q. update fs svc b.name (set_guid guid q)

  landing-Runs :
      (guid : String) (o : Option Phase) (s : Reconciler W) (a : Unit {0})
      → lookup b.name s.recovery_phase ≡ o
      → InvitedAt discovering_app s
      → (landing guid o s).0 ≡ ok a
      → Landed (landing guid o s).1
  unfolding ◌>>=◌ recovered needs_enrollment
  landing-Runs guid none s a x h e = (
    securing_route,
    refl,
    (land guid securing_route).at s a (At-weaken (λ i. record { invited = i; direct = x }) h) e,
  )
  landing-Runs guid (some q) s a x h e = (
    q,
    h.side.calm.recovery b.name q x,
    (land guid q).at _ a (At-same refl h (removed-Straight svc b.name _ _ h.side)) e,
  )

  taken-Runs :
      (guid : String)
      → Runs
          (InvitedAt discovering_app)
          Landed
          (take_recovery fs svc config b.name >>= λ q. update fs svc b.name (set_guid guid q))
  unfolding ◌>>=◌ take_recovery
  taken-Runs guid = record {
    at = λ s a h e. landing-Runs guid (lookup b.name s.recovery_phase) s a refl h e;
  }

  straight-Runs :
      (guid : String)
      → Runs
          (StraightAt discovering_app)
          (StraightAt securing_route)
          (take_recovery fs svc config b.name >>= λ q. update fs svc b.name (set_guid guid q))
  unfolding ◌>>=◌ take_recovery recovered
  straight-Runs guid = record {
    at = λ s a h e. go (lookup b.name s.recovery_phase) s a h.side.direct h e;
  }
    where
      go :
          (o : Option Phase) (s : Reconciler W) (a : Unit {0})
          → o ≡ none
          → StraightAt discovering_app s
          → (landing guid o s).0 ≡ ok a
          → StraightAt securing_route (landing guid o s).1
      go none s a x h e = (land guid securing_route).at s a h e
      go (some q) s a x h e = cc

  guid-Runs :
      {R : Side} (q : Phase)
      → Runs (At b.name R q) (At b.name R q) (effect_guid fs svc config b.name)
  unfolding effect_guid
  guid-Runs q = record { at = λ s a h e. At-same refl h h.side }

  -- The case, up to its last line.
  discovering-Runs :
      {R : Side} {Q : Reconciler W → Type 0} (p : Phase)
      → ((guid : String)
          → Runs
              (At b.name R discovering_app)
              Q
              (take_recovery fs svc config b.name >>= λ q. update fs svc b.name (set_guid guid q)))
      → Runs (At b.name R p) Q (do_discovering_app fs svc config b)
  unfolding do_discovering_app
  discovering-Runs p last =
      At-persist_phase fs svc config discovering_app ⟫ guid-Runs discovering_app ▹= λ (guid, o, e).
      At-append_operation fs svc config o
      ▹ Runs-check e
      ▹ Runs-if (mismatched fs svc config b guid) _ _ (Runs-raise _) (last guid)

  pub discovering_app-Runs :
      (p : Phase) → Runs (InvitedAt p) Landed (do_discovering_app fs svc config b)
  discovering_app-Runs p = discovering-Runs p taken-Runs

  pub straight_app-Runs :
      (p : Phase)
      → Runs (StraightAt p) (StraightAt securing_route) (do_discovering_app fs svc config b)
  straight_app-Runs p = discovering-Runs p straight-Runs

  cleanup-Runs :
      Runs (NothingAt joining_pack) (NothingAt joining_pack) (cleanup_enrollment_of fs svc b.name)
  unfolding cleanup_enrollment_of
  cleanup-Runs = Runs-read _ ▹= λ found. Runs-maybe found _ _ (Runs-pure tt) λ e.
      At-act fs svc config (cleanup_enrollment e) ▹= λ failure.
      Runs-check failure ▹ forget-Nothing fs svc config b.name joining_pack

  transient-Runs :
      Runs (NothingAt joining_pack) (NothingAt joining_pack) (cleanup_transient fs svc b.name)
  unfolding cleanup_transient
  transient-Runs = search (at_rules, cleanup-Runs)

  pub joining_pack-Runs :
      (p : Phase) → Runs (NothingAt p) (NothingAt ready) (do_joining_pack fs svc config b)
  unfolding do_joining_pack set_member
  joining_pack-Runs p =
      At-persist_phase fs svc config joining_pack
      ⟫ search at_rules
      ▹ transient-Runs
      ▹ At-update fs svc config joining_pack _ (λ now c. refl) (λ now c e. e)
      ▹ At-persist_phase fs svc config ready
