-- ===== src/Store/Laws.antt =====
-- What a client of the store sees of each operation, whatever the system calls return.
use cf_herdr_poc.Base.{
  String, ◌≡◌, refl, ◌⊎◌, inl, inr, Option, none, some, List, [], ◌∷◌, arith, str_eq, eq_iff, Assoc,
  lookup, insert, remove, Bool-cases, Option-cases, is_some, Err,
}
use cf_herdr_poc.Base.Exec.{Result, ok, err, ok-injective}
use cf_herdr_poc.Model.{Sandbox}
use cf_herdr_poc.Store.{
  FileSystem, File, Tail, eof, more, broken, load_all, load_document, load_opened, install, load,
  commit, create, save_changed, update, delete, Request, loading, creating, updating, deleting,
  serve, serve_all,
}
use cf_herdr_poc.Store.Order.{
  Distinct, Named, Distinct-insert, Distinct-remove, Named-insert, Named-remove,
}

-- Each sandbox has its own name for its key, and keys differ.
pub record IsWellFormed (m : Assoc Sandbox) : Type 0 where
  pub named : Named m
  pub distinct : Distinct m

module _ {W C : Type 0} (fs : FileSystem W C) where
  -- The map after a commit is the new one or the old one, and it is the new one if there is no
  -- error.
  pub commit_cases :
      (next : Assoc Sandbox) (f : File W)
      → let (g, e) = commit fs next f in
        ((g.sandboxes ≡ next) ⊎ (g.sandboxes ≡ f.sandboxes)) × (e ≡ none → g.sandboxes ≡ next)
  unfolding commit
  commit_cases next f = ground arith

  pub commit-IsWellFormed :
      (next : Assoc Sandbox) (f : File W)
      → IsWellFormed next
      → IsWellFormed f.sandboxes
      → IsWellFormed (commit fs next f).0.sandboxes
  commit-IsWellFormed next f hn hf = elim (commit_cases next f).0 [
    | inl p ↦ rw p hn
    | inr p ↦ rw p hf
  ]

  create-IsWellFormed :
      (s : Sandbox) (f : File W)
      → IsWellFormed f.sandboxes
      → IsWellFormed (create fs s f).0.sandboxes
  unfolding create
  create-IsWellFormed s f h = elim (Bool-cases (is_some (lookup s.name f.sandboxes))) [
    | inl p ↦ rw p h
    | inr p ↦ rw p (
        commit-IsWellFormed (insert s.name s f.sandboxes) f
          (record {
            named = Named-insert s.name s f.sandboxes refl h.named;
            distinct = Distinct-insert s.name s f.sandboxes h.distinct;
          })
          h)
  ]

  delete-IsWellFormed :
      (name : String) (f : File W)
      → IsWellFormed f.sandboxes
      → IsWellFormed (delete fs name f).0.sandboxes
  unfolding delete
  delete-IsWellFormed name f h = elim (Bool-cases (is_some (lookup name f.sandboxes))) [
    | inr p ↦ rw p h
    | inl p ↦ rw p (
        commit-IsWellFormed (remove name f.sandboxes) f
          (record {
            named = Named-remove name f.sandboxes h.named;
            distinct = Distinct-remove name f.sandboxes h.distinct;
          })
          h)
  ]

  save_changed-IsWellFormed :
      (name : String) (r : Result Err Sandbox) (f : File W)
      → IsWellFormed f.sandboxes
      → IsWellFormed (save_changed fs name r f).0.sandboxes
  unfolding save_changed
  save_changed-IsWellFormed name (err e) f h = h
  save_changed-IsWellFormed name (ok t) f h = elim (Bool-cases (str_eq t.name name)) [
    | inr p ↦ rw p h
    | inl p ↦ rw p (
        commit-IsWellFormed (insert name t f.sandboxes) f
          (record {
            named = Named-insert name t f.sandboxes ((eq_iff t.name name).0 p) h.named;
            distinct = Distinct-insert name t f.sandboxes h.distinct;
          })
          h)
  ]

  update-IsWellFormed :
      (name : String) (change : Sandbox → Result Err Sandbox) (f : File W)
      → IsWellFormed f.sandboxes
      → IsWellFormed (update fs name change f).0.sandboxes
  unfolding update
  update-IsWellFormed name change f h = elim (Option-cases (lookup name f.sandboxes)) [
    | inl p ↦ rw (p, update) h
    | inr p ↦ rw (p.1, update) (save_changed-IsWellFormed name (change p.0) f h)
  ]

  load_all-IsWellFormed :
      (m : Assoc Sandbox) (xs : List Sandbox) {n : Assoc Sandbox}
      → IsWellFormed m
      → load_all fs m xs ≡ ok n
      → IsWellFormed n
  unfolding load_all
  load_all-IsWellFormed m [] h e = ground arith
  load_all-IsWellFormed m (s ∷ xs) h e = elim (Bool-cases (is_some (lookup s.name m))) [
    | inl p ↦ cc (rw p at e)
    | inr p ↦
        load_all-IsWellFormed (insert s.name s m) xs
          (record {
            named = Named-insert s.name s m refl h.named;
            distinct = Distinct-insert s.name s m h.distinct;
          })
          (rw p at e)
  ]

  pub empty-IsWellFormed : IsWellFormed []
  empty-IsWellFormed = record { named = tt; distinct = tt }

  load_document-IsWellFormed :
      (r : Result Err (List Sandbox × Tail)) {n : Assoc Sandbox}
      → load_document fs r ≡ ok n
      → IsWellFormed n
  unfolding load_document
  load_document-IsWellFormed (err e) h = cc
  load_document-IsWellFormed (ok (xs, eof)) h = load_all-IsWellFormed [] xs empty-IsWellFormed h
  load_document-IsWellFormed (ok (xs, more)) h = cc
  load_document-IsWellFormed (ok (xs, broken e)) h = cc

  load_opened-IsWellFormed :
      (w : W) (r : Result Err (Option C)) {n : Assoc Sandbox}
      → load_opened fs w r ≡ ok n
      → IsWellFormed n
  unfolding load_opened
  load_opened-IsWellFormed w (err e) h = cc
  load_opened-IsWellFormed w (ok none) h = rw (← ok-injective h) empty-IsWellFormed
  load_opened-IsWellFormed w (ok (some c)) h = load_document-IsWellFormed (fs.decode c w) h

  install-IsWellFormed :
      (f : File W) (r : Result Err (Assoc Sandbox))
      → IsWellFormed f.sandboxes
      → ((n : Assoc Sandbox) → r ≡ ok n → IsWellFormed n)
      → IsWellFormed (install fs f r).0.sandboxes
  unfolding install
  install-IsWellFormed f (err e) h k = h
  install-IsWellFormed f (ok n) h k = k n refl

  -- Whatever a request does and whatever the system calls return, the map stays well formed.
  pub serve-IsWellFormed :
      (f : File W) (r : Request)
      → IsWellFormed f.sandboxes
      → IsWellFormed (serve fs f r).0.sandboxes
  unfolding serve load
  serve-IsWellFormed f loading h =
      install-IsWellFormed f (load_opened fs f.world (fs.open_file f.world)) h
        (λ n. load_opened-IsWellFormed f.world (fs.open_file f.world))
  serve-IsWellFormed f (creating s) h = create-IsWellFormed s f h
  serve-IsWellFormed f (updating name change) h = update-IsWellFormed name change f h
  serve-IsWellFormed f (deleting name) h = delete-IsWellFormed name f h

  -- After any requests from a well-formed map, the map is well formed.
  pub serve_all-IsWellFormed :
      (f : File W) (rs : List Request)
      → IsWellFormed f.sandboxes
      → IsWellFormed (serve_all fs f rs).sandboxes
  unfolding serve_all
  serve_all-IsWellFormed f [] h = h
  serve_all-IsWellFormed f (r ∷ rs) h =
      serve_all-IsWellFormed (serve fs f r).0 rs (serve-IsWellFormed f r h)
