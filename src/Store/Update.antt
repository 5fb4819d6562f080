-- ===== src/Store/Update.antt =====
-- `Update` with a callback that never fails, as the reconciler calls it.
use cf_herdr_poc.Base.{
  String, ◌≡◌, ◌⊎◌, inl, inr, none, some, arith, lookup, insert, lookup-insert_self, Option-cases,
}
use cf_herdr_poc.Base.Exec.{ok}
use cf_herdr_poc.Model.{Sandbox}
use cf_herdr_poc.Store.{FileSystem, File, save_changed, update, get}
use cf_herdr_poc.Store.Laws.{commit_cases}

module _ {W C : Type 0} (fs : FileSystem W C) (name : String) where
  save_changed_cases :
      (t : Sandbox) (f : File W)
      → let (g, e) = save_changed fs name (ok t) f in
        ((get g name ≡ some t) ⊎ (get g name ≡ get f name)) × (e ≡ none → get g name ≡ some t)
  unfolding save_changed get
  save_changed_cases t f =
      ground (
        arith,
        commit_cases fs (insert name t f.sandboxes) f,
        lookup-insert_self name t f.sandboxes,
      )

  -- Afterwards the name holds what it held, or that changed.
  pub update_held :
      (change : Sandbox → Sandbox) (f : File W) {c : Sandbox}
      → get (update fs name (λ b. ok (change b)) f).0 name ≡ some c
      → (b : Sandbox) × (get f name ≡ some b) × ((c ≡ b) ⊎ (c ≡ change b))
  unfolding update get
  update_held change f {c} h = elim (Option-cases (lookup name f.sandboxes)) [
    | inl p ↦ cc (p, rw (p, update) at h)
    | inr p ↦
        let cases = (save_changed_cases (change p.0) f).0 in
        (p.0, p.1, ground (arith, cases, rw (p.1, update) at h))
  ]

  -- If no error is returned, the name holds the changed sandbox.
  pub update_done :
      (change : Sandbox → Sandbox) (f : File W)
      → (update fs name (λ b. ok (change b)) f).1 ≡ none
      → (b : Sandbox) × (get f name ≡ some b)
        × (get (update fs name (λ b. ok (change b)) f).0 name ≡ some (change b))
  unfolding update get
  update_done change f h = elim (Option-cases (lookup name f.sandboxes)) [
    | inl p ↦ cc (rw (p, update) at h)
    | inr p ↦
        (p.0, p.1, rw (p.1, update) ((save_changed_cases (change p.0) f).1 (rw (p.1, update) at h)))
  ]
