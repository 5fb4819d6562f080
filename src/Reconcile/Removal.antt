-- ===== src/Reconcile/Removal.antt =====
-- What a deletion leaves in the store.
use cf_herdr_poc.Base.{
  not, ◌≡◌, refl, ◌⊎◌, inl, inr, Option, none, some, Err, arith, remove, lookup-remove_self,
  Option-cases,
}
use cf_herdr_poc.Base.Exec.{ok, pure}
use cf_herdr_poc.Base.Preserves.{
  Preserves, preserves_rules, Preserves-if, Preserves-catch, Preserves-maybe, Ends, Ends-bind, ◌⟫◌,
  ◌⟫=◌,
}
use cf_herdr_poc.Model.{Phase, Sandbox, deleting, failed}
use cf_herdr_poc.Store.{FileSystem, File}
use cf_herdr_poc.Store
use cf_herdr_poc.Store.Laws.{commit_cases}
use cf_herdr_poc.Reconcile.{Config, Call, Services, Reconciler}
use cf_herdr_poc.Reconcile.Effects.{
  fail, fail_if, persist_phase, operate_on, unless_absent, is_already_exists,
}
use cf_herdr_poc.Reconcile.Delete.{
  delete_member, check_absent, delete_policy, delete_route, delete_the_app, delete_files,
  delete_record, app_exists, reconcile_delete,
}
use cf_herdr_poc.Reconcile.Held.{
  Held, IsLasting, Held-update, Held-persist_phase, Held-operate_on, held_rules,
}

-- As before in `p`, being deleted, or failed with the deletion to resume.
unfoldable pub Leaving : Phase → Sandbox → Type 0
Leaving p c =
    (c.phase ≡ p) ⊎ ((c.phase ≡ deleting) ⊎ ((c.phase ≡ failed) × (c.resume_phase ≡ deleting)))

Leaving-lasting : (p : Phase) → IsLasting (Leaving p)
unfolding Leaving
Leaving-lasting p = record { operations = λ b ops now h. h }

module _ {W C : Type 0} (fs : FileSystem W C) (svc : Services W) (config : Config) (b : Sandbox)
    (p : Phase) where
  abbrev Kept : Reconciler W → Type 0
  Kept = Held b.name (Leaving p)

  mark : Preserves Kept (persist_phase fs svc b.name deleting)
  unfolding Leaving
  mark = Held-persist_phase fs svc b.name (Leaving p) deleting (λ now c h. inr (inl refl))

  failing : {A : Type 0} (e : Err) → Preserves Kept (fail fs svc {A = A} b.name deleting e)
  unfolding fail Leaving
  failing e = record {
    step = λ s h.
        (Held-update fs svc b.name (Leaving p) _ (λ now c k. inr (inr (refl, refl)))).step s h;
  }

  failing_if : (o : Option Err) → Preserves Kept (fail_if fs svc b.name deleting o)
  unfolding fail_if
  failing_if none = search preserves_rules
  failing_if (some e) = failing e

  op : (c : Call) → Preserves Kept (operate_on fs svc b.name c)
  op c = Held-operate_on fs svc b.name (Leaving p) (Leaving-lasting p) c

  delete_member-Kept : Preserves Kept (delete_member fs svc config b)
  unfolding delete_member
  delete_member-Kept = mark ⟫ Preserves-catch _ _ (search held_rules) failing ⟫= λ there.
      Preserves-if (not there) (pure tt) _ (search held_rules)
        (mark ⟫ search held_rules ⟫= λ e. failing_if (unless_absent e))

  check_absent-Kept : Preserves Kept (check_absent fs svc config b)
  unfolding check_absent
  check_absent-Kept = mark ⟫ op _ ⟫= λ e.
      Preserves-maybe e _ _ (search held_rules)
        (λ x. Preserves-if (is_already_exists x) _ _ (failing _) (failing x))

  delete_policy-Kept : Preserves Kept (delete_policy fs svc config b)
  unfolding delete_policy
  delete_policy-Kept = mark ⟫ op _ ⟫= λ e. failing_if (unless_absent e)

  delete_route-Kept : Preserves Kept (delete_route fs svc config b)
  unfolding delete_route
  delete_route-Kept = mark ⟫ op _ ⟫= λ e. failing_if (unless_absent e)

  delete_the_app-Kept : Preserves Kept (delete_the_app fs svc config b)
  unfolding delete_the_app
  delete_the_app-Kept = mark ⟫ op _ ⟫= λ e. failing_if (unless_absent e)

  delete_files-Kept : Preserves Kept (delete_files fs svc config b)
  unfolding delete_files
  delete_files-Kept =
      mark ⟫ Preserves-catch _ _ (search held_rules) failing ⟫ mark ⟫ search held_rules ⟫= λ e.
      failing_if (unless_absent e) ⟫ search held_rules

  -- `store.Delete` removes the sandbox or leaves it as it is.
  delete_held :
      (f : File W) {c : Sandbox}
      → Store.get (Store.delete fs b.name f).0 b.name ≡ some c
      → Store.get f b.name ≡ some c
  unfolding Store.delete Store.get
  delete_held f {c} h =
      ground (
        arith,
        commit_cases fs (remove b.name f.sandboxes) f,
        lookup-remove_self b.name f.sandboxes,
      )

  delete_done :
      (f : File W)
      → (Store.delete fs b.name f).1 ≡ none
      → Store.get (Store.delete fs b.name f).0 b.name ≡ none
  unfolding Store.delete Store.get
  delete_done f h =
      ground (
        arith,
        commit_cases fs (remove b.name f.sandboxes) f,
        lookup-remove_self b.name f.sandboxes,
      )

  delete_record-Kept : Preserves Kept (delete_record fs svc config b)
  unfolding delete_record
  delete_record-Kept = record {
    step = λ s h.
        (failing_if (Store.delete fs b.name s.file).1).step _
          (record { at = λ c r. h.at c (delete_held s.file r) });
  }

  abbrev Gone : Reconciler W → Type 0
  Gone s = Store.get s.file b.name ≡ none

  delete_record-Gone : Ends Gone (delete_record fs svc config b)
  unfolding delete_record fail_if fail
  delete_record-Gone = record {
    at = λ s a h. elim (Option-cases (Store.delete fs b.name s.file).1) [
      | inl e ↦ rw (e, fail_if) (delete_done s.file e)
      | inr e ↦ cc (rw (e.1, fail_if) at h)
    ];
  }

  reconcile_delete-Kept : Preserves Kept (reconcile_delete fs svc config b)
  unfolding reconcile_delete
  reconcile_delete-Kept =
      mark
      ⟫ delete_member-Kept
      ⟫ Preserves-if _ _ _ delete_policy-Kept check_absent-Kept
      ⟫ delete_route-Kept
      ⟫ Preserves-if (app_exists fs svc config b) _ (pure tt) delete_the_app-Kept
          (search held_rules)
      ⟫ delete_files-Kept
      ⟫ delete_record-Kept

  -- If a sandbox stored under the name is in phase `p`, in `deleting`, or failed with `deleting` to
  -- resume, then so is one stored there behind a deletion, whatever fails in it.
  pub reconcile_delete-Leaving :
      (s : Reconciler W)
      → Held b.name (Leaving p) s
      → Held b.name (Leaving p) (reconcile_delete fs svc config b s).1
  reconcile_delete-Leaving s h = reconcile_delete-Kept.step s h

  -- A deletion that returns no error has removed the sandbox from the store.
  pub reconcile_delete-removed :
      (s : Reconciler W)
      → (reconcile_delete fs svc config b s).0 ≡ ok tt
      → Store.get (reconcile_delete fs svc config b s).1.file b.name ≡ none
  unfolding reconcile_delete
  reconcile_delete-removed s h =
      (Ends-bind _ _ λ _. Ends-bind _ _ λ _.
          Ends-bind _ _
            λ _. Ends-bind _ _ λ _. Ends-bind _ _ λ _. Ends-bind _ _ λ _. delete_record-Gone).at
        s tt h
