-- ===== src/Store/Spec.antt =====
-- The abstract store: a partial function from names to sandboxes. Each operation of file.go either
-- does what this specification says, all of it, or nothing.
use mathlib.Core.Path.{fun_ext}
use cf_herdr_poc.Base.{
  String, true, ◌≡◌, refl, ◌≢◌, ◌∙◌, ap, ◌⊎◌, inl, inr, Option, none, some, str_eq, Assoc, lookup,
  insert, remove, lookup-insert, lookup-remove, if◌then◌else◌, Bool-cases, Option-cases, is_some,
  Err,
}
use cf_herdr_poc.Base.Exec.{Result, ok, err}
use cf_herdr_poc.Model.{Sandbox}
use cf_herdr_poc.Store.{
  FileSystem, File, commit, create, save_changed, update, delete, get, Request, loading, creating,
  updating, deleting, serve,
}
use cf_herdr_poc.Store.Laws.{commit_cases}

abbrev pub View : Type 0
View = String → Option Sandbox

abbrev pub put : String → Sandbox → View → View
put name s m k = if str_eq name k then some s else m k

abbrev pub drop : String → View → View
drop name m k = if str_eq name k then none else m k

abbrev pub spec_changed : String → Result Err Sandbox → View → Option View
spec_changed name (err e) m = none
spec_changed name (ok t) m = if str_eq t.name name then some (put name t m) else none

abbrev pub spec_update :
    String → (Sandbox → Result Err Sandbox) → Option Sandbox → View → Option View
spec_update name change none m = none
spec_update name change (some s) m = spec_changed name (change s) m

abbrev as_view : Assoc Sandbox → View
as_view m k = lookup k m

-- `none`: the request is refused. A reload has no place here, since it reads the disk.
unfoldable pub spec : Request → View → Option View
spec loading m = none
spec (creating s) m = if is_some (m s.name) then none else some (put s.name s m)
spec (updating name change) m = spec_update name change (m name) m
spec (deleting name) m = if is_some (m name) then some (drop name m) else none

-- What may come out where the specification gives `r`.
abbrev pub Outcome : {W : Type 0} → Option View → File W → File W × Option Err → Type 0
Outcome none f (g, e) = (g ≡ f) × (is_some e ≡ true)
Outcome (some m) f (g, e) = (get g ≡ m) ⊎ ((get g ≡ get f) × (is_some e ≡ true))

module _ {W C : Type 0} (fs : FileSystem W C) where
  view-insert :
      (name : String) (s : Sandbox) (m : Assoc Sandbox)
      → as_view (insert name s m) ≡ put name s (as_view m)
  view-insert name s m = fun_ext λ k. lookup-insert name k s m

  view-remove :
      (name : String) (m : Assoc Sandbox) → as_view (remove name m) ≡ drop name (as_view m)
  view-remove name m = fun_ext λ k. lookup-remove name k m

  commit-Outcome :
      (next : Assoc Sandbox) (f : File W) (m : View)
      → as_view next ≡ m
      → Outcome (some m) f (commit fs next f)
  unfolding get
  commit-Outcome next f m h =
      let (cases, done) = commit_cases fs next f in
      elim (Option-cases (commit fs next f).1) [
        | inl p ↦ inl (ap as_view (done p) ∙ h)
        | inr p ↦ elim cases [
          | inl q ↦ inl (ap as_view q ∙ h)
          | inr q ↦ inr (ap as_view q, rw p.1 refl)
        ]
      ]

  save_changed-Outcome :
      (name : String) (r : Result Err Sandbox) (f : File W)
      → Outcome (spec_changed name r (get f)) f (save_changed fs name r f)
  unfolding save_changed get
  save_changed-Outcome name (err e) f = (refl, refl)
  save_changed-Outcome name (ok t) f = elim (Bool-cases (str_eq t.name name)) [
    | inl p ↦ rw p (commit-Outcome (insert name t f.sandboxes) f _ (view-insert name t f.sandboxes))
    | inr p ↦ rw p (refl, refl)
  ]

  create-Outcome :
      (s : Sandbox) (f : File W) → Outcome (spec (creating s) (get f)) f (create fs s f)
  unfolding spec create get
  create-Outcome s f = elim (Bool-cases (is_some (lookup s.name f.sandboxes))) [
    | inl p ↦ rw p (refl, refl)
    | inr p ↦ rw p (commit-Outcome _ f _ (view-insert s.name s f.sandboxes))
  ]

  delete-Outcome :
      (name : String) (f : File W) → Outcome (spec (deleting name) (get f)) f (delete fs name f)
  unfolding spec delete get
  delete-Outcome name f = elim (Bool-cases (is_some (lookup name f.sandboxes))) [
    | inl p ↦ rw p (commit-Outcome _ f _ (view-remove name f.sandboxes))
    | inr p ↦ rw p (refl, refl)
  ]

  update-Outcome :
      (name : String) (change : Sandbox → Result Err Sandbox) (f : File W)
      → Outcome (spec (updating name change) (get f)) f (update fs name change f)
  unfolding spec update get
  update-Outcome name change f = elim (Option-cases (lookup name f.sandboxes)) [
    | inl p ↦ rw (p, update) (refl, refl)
    | inr p ↦ rw (p.1, update) (save_changed-Outcome name (change p.0) f)
  ]

  -- Create, update and delete refine the abstract store. A request that its specification refuses
  -- returns an error and changes neither the map nor the machine. Any other leaves the map that
  -- the specification gives, or the old one and an error.
  pub serve-Outcome :
      (f : File W) (r : Request) → r ≢ loading → Outcome (spec r (get f)) f (serve fs f r)
  unfolding serve
  serve-Outcome f loading h = absurd (h refl)
  serve-Outcome f (creating s) h = create-Outcome s f
  serve-Outcome f (updating name change) h = update-Outcome name change f
  serve-Outcome f (deleting name) h = delete-Outcome name f
