-- ===== src/Store/Disk.antt =====
-- The state file against the map in memory: what survives a restart.
mod Load
use mathlib.Core.Path.{subst}
use cf_herdr_poc.Base.{
  String, Bool, true, false, ◌≡◌, refl, sym, ◌∙◌, ap, ◌⊎◌, inl, inr, Option, none, some, List, [],
  ◌∷◌, arith, str_eq, eq_iff, Assoc, lookup, insert, remove, lookup-insert, if◌then◌else◌,
  Bool-cases, Option-cases, is_some, Err, map, wrap,
}
use cf_herdr_poc.Base.Exec.{Result, ok, err, Result-cases}
use cf_herdr_poc.Model.{Sandbox}
use cf_herdr_poc.Store.{
  FileSystem, File, Tail, eof, more, broken, values, sort, load_all, load_document, load_opened,
  install, load, get, fill_temp, replace, write_atomic, commit, create, save_changed, update,
  delete, Request, loading, creating, updating, deleting, serve, serve_all,
}
use cf_herdr_poc.Store.Order.{
  sort-IsSorted, Distinct, Named, keyed, keyed-values, lookup-sort, Distinct-sort, Distinct-insert,
}
use cf_herdr_poc.Store.Laws.{IsWellFormed, serve-IsWellFormed}
pub use Load.{coerced}
use Load.{
  values-keyed, sort_of_IsSorted, load_all_lem, lookup-coerced, Distinct-coerced, IsSorted-coerced,
  map_twice,
}

-- The decoder returns an error, at the value or behind it.
abbrev pub is_failed : Result Err (List Sandbox × Tail) → Bool
is_failed (err e) = true
is_failed (ok (xs, broken e)) = true
is_failed (ok (xs, _)) = false

-- The documented behaviour of the system calls and of the codec: `file` reads the state file, `temp`
-- the temporary one, and only a successful rename changes the state file, to the content of the
-- temporary one. `readable` tells that no read of the open state file fails. `coerce` puts U+FFFD
-- for bytes that are not UTF-8, as encoding/json does, in each text of a sandbox.
pub record IsAtomic {W C : Type 0} (fs : FileSystem W C) (encode : List Sandbox → C)
    (file temp : W → Option C) (readable : W → Bool) (coerce : Sandbox → Sandbox) : Type 0 where
  pub mkdir_file : (w : W) → file (fs.mkdir_all w).0 ≡ file w
  pub create_file : (w : W) → file (fs.create_temp w).0 ≡ file w
  pub chmod_file : (w : W) → file (fs.chmod_temp w).0 ≡ file w
  pub encode_file : (xs : List Sandbox) (w : W) → file (fs.encode_temp xs w).0 ≡ file w
  pub sync_file : (w : W) → file (fs.sync_temp w).0 ≡ file w
  pub close_file : (w : W) → file (fs.close_temp w).0 ≡ file w
  pub remove_file : (w : W) → file (fs.remove_temp w) ≡ file w
  pub sync_directory_file : (w : W) → file (fs.sync_directory w).0 ≡ file w
  pub encode_done :
      (xs : List Sandbox) (w : W)
      → (fs.encode_temp xs w).1 ≡ none
      → temp (fs.encode_temp xs w).0 ≡ some (encode xs)
  pub sync_keeps : (w : W) → temp (fs.sync_temp w).0 ≡ temp w
  pub close_keeps : (w : W) → temp (fs.close_temp w).0 ≡ temp w
  pub rename_done : (w : W) → (fs.rename_temp w).1 ≡ none → file (fs.rename_temp w).0 ≡ temp w
  pub rename_failed :
      (w : W) {e : Err} → (fs.rename_temp w).1 ≡ some e → file (fs.rename_temp w).0 ≡ file w
  pub open_reads : (w : W) {c : Option C} → fs.open_file w ≡ ok c → c ≡ file w
  pub decode_encode :
      (xs : List Sandbox) (w : W)
      → readable w ≡ true
      → fs.decode (encode xs) w ≡ ok (map coerce xs, eof)
  pub decode_failed :
      (xs : List Sandbox) (w : W) → readable w ≡ false → is_failed (fs.decode (encode xs) w) ≡ true
  pub same_name : (s : Sandbox) → (coerce s).name ≡ s.name
  pub same_time : (s : Sandbox) → (coerce s).created_at ≡ s.created_at
  pub coerce_twice : (s : Sandbox) → coerce (coerce s) ≡ coerce s

module _ {W C : Type 0} (fs : FileSystem W C) (encode : List Sandbox → C) (file temp : W → Option C)
    (readable : W → Bool) (coerce : Sandbox → Sandbox)
    (disk : IsAtomic fs encode file temp readable coerce) where
  fill_temp-file : (xs : List Sandbox) (w : W) → file (fill_temp fs xs w).0 ≡ file w
  unfolding fill_temp
  fill_temp-file xs w =
      let w1 = (fs.chmod_temp w).0 in
      let w2 = (fs.encode_temp xs w1).0 in
      let w3 = (fs.sync_temp w2).0 in
      ground (
        arith,
        disk.chmod_file w,
        disk.encode_file xs w1,
        disk.sync_file w2,
        disk.close_file w1,
        disk.close_file w2,
        disk.close_file w3,
        disk.close_file (fs.close_temp w3).0,
      )

  fill_temp-temp :
      (xs : List Sandbox) (w : W)
      → (fill_temp fs xs w).1 ≡ none
      → temp (fill_temp fs xs w).0 ≡ some (encode xs)
  unfolding fill_temp
  fill_temp-temp xs w h =
      let w1 = (fs.chmod_temp w).0 in
      let w2 = (fs.encode_temp xs w1).0 in
      let w3 = (fs.sync_temp w2).0 in
      ground (arith, disk.encode_done xs w1, disk.sync_keeps w2, disk.close_keeps w3)

  replace-file : (w : W) → file (replace fs w).0 ≡ (if (replace fs w).1 then temp w else file w)
  unfolding replace
  replace-file w = elim (Option-cases (fs.rename_temp w).1) [
    | inl p ↦ ground (arith, disk.rename_done w p, disk.sync_directory_file (fs.rename_temp w).0)
    | inr p ↦ ground (arith, disk.rename_failed w p.1)
  ]

  replace_renamed : (w : W) → (replace fs w).2 ≡ none → (replace fs w).1 ≡ true
  unfolding replace
  replace_renamed w h = ground arith

  -- With atomic renames, the state file is replaced whole or not at all, `renamed` says which, and
  -- without an error it is replaced.
  pub write_atomic-file :
      (xs : List Sandbox) (w : W)
      → let (w', renamed, e) = write_atomic fs xs w in
        (file w' ≡ (if renamed then some (encode xs) else file w))
        × ((is_some e ≡ true) ⊎ (renamed ≡ true))
  unfolding write_atomic
  write_atomic-file xs w =
      let w1 = (fs.mkdir_all w).0 in
      let w2 = (fs.create_temp w1).0 in
      let w3 = (fill_temp fs xs w2).0 in
      let w4 = (replace fs w3).0 in
      ground (
        arith,
        disk.mkdir_file w,
        disk.create_file w1,
        fill_temp-file xs w2,
        fill_temp-temp xs w2,
        replace-file w3,
        replace_renamed w3,
        disk.remove_file w3,
        disk.remove_file w4,
      )

  -- The file holds what the map holds, up to what the codec changes, or neither has held anything
  -- yet.
  abbrev pub IsSynced : File W → Type 0
  IsSynced f =
      ((file f.world ≡ none) × (f.sandboxes ≡ []))
      ⊎ ((xs : List Sandbox) × (file f.world ≡ some (encode xs))
          × (map coerce xs ≡ map coerce (sort (values f.sandboxes))))

  committed :
      (next : Assoc Sandbox) (f : File W)
      → let (w, renamed, e) = write_atomic fs (sort (values next)) f.world in
        (commit fs next f).0
        ≡ record f { world = w; sandboxes = if renamed then next else f.sandboxes }
  unfolding commit
  committed next f = elim (Option-cases (write_atomic fs (sort (values next)) f.world).2) [
    | inl p ↦ rw (p, commit) refl
    | inr p ↦ rw (p.1, commit) refl
  ]

  commit-IsSynced : (next : Assoc Sandbox) (f : File W) → IsSynced f → IsSynced (commit fs next f).0
  commit-IsSynced next f h =
      let xs = sort (values next) in
      let (w, renamed, e) = write_atomic fs xs f.world in
      subst IsSynced (sym (committed next f)) (made w renamed (write_atomic-file xs f.world).0)
    where
      kept :
          {w : W}
          → IsSynced f
          → file w ≡ file f.world
          → IsSynced (record { world = w; sandboxes = f.sandboxes })
      kept (inl k) e = inl (e ∙ k.0, k.1)
      kept (inr k) e = inr (k.0, e ∙ k.1, k.2)

      made :
          (w : W) (renamed : Bool)
          → file w ≡ (if renamed then some (encode (sort (values next))) else file f.world)
          → IsSynced (record f { world = w; sandboxes = if renamed then next else f.sandboxes })
      made w true e = inr (sort (values next), e, refl)
      made w false e = kept h e

  save_changed-IsSynced :
      (name : String) (r : Result Err Sandbox) (f : File W)
      → IsSynced f
      → IsSynced (save_changed fs name r f).0
  unfolding save_changed
  save_changed-IsSynced name (err e) f h = h
  save_changed-IsSynced name (ok t) f h = elim (Bool-cases (str_eq t.name name)) [
    | inl p ↦ rw p (commit-IsSynced (insert name t f.sandboxes) f h)
    | inr p ↦ rw p h
  ]

  load_encoded :
      (f : File W) (xs : List Sandbox)
      → Distinct (keyed (map coerce xs))
      → readable f.world ≡ true
      → install fs f (load_opened fs f.world (ok (some (encode xs))))
        ≡ (record f { sandboxes = keyed (map coerce xs) }, none)
  unfolding load_opened load_document install
  load_encoded f xs d q =
      rw (disk.decode_encode xs f.world q) (rw (load_all_lem fs (map coerce xs) d))

  document_failed :
      (r : Result Err (List Sandbox × Tail))
      → is_failed r ≡ true
      → (e : Err) × (load_document fs r ≡ err e)
  unfolding load_document
  document_failed (err e) h = (wrap "decode sandbox state" e, refl)
  document_failed (ok (xs, eof)) h = cc
  document_failed (ok (xs, more)) h = cc
  document_failed (ok (xs, broken e)) h = (wrap "decode sandbox state" e, refl)

  sorted-Distinct :
      (f : File W) → IsWellFormed f.sandboxes → Distinct (keyed (sort (values f.sandboxes)))
  sorted-Distinct f h =
      Distinct-sort (values f.sandboxes) (rw (keyed-values f.sandboxes h.named) h.distinct)

  -- What a load of the file finds.
  abbrev found : File W → List Sandbox
  found f = map coerce (sort (values f.sandboxes))

  load-eq :
      (f : File W) (xs : List Sandbox) {c : Option C}
      → IsWellFormed f.sandboxes
      → file f.world ≡ some (encode xs)
      → map coerce xs ≡ found f
      → fs.open_file f.world ≡ ok c
      → readable f.world ≡ true
      → load fs f ≡ (record f { sandboxes = keyed (found f) }, none)
  unfolding load
  load-eq f xs h p same q readable =
      let distinct =
        Distinct-coerced coerce disk.same_name disk.same_time (sort (values f.sandboxes))
          (sorted-Distinct f h) in
      rw (q, disk.open_reads f.world q, p)
        (load_encoded f xs (rw same distinct) readable
          ∙ ap (λ l. (record f { sandboxes = keyed l }, none)) same)

  load_unread :
      (f : File W) (xs : List Sandbox) {c : Option C}
      → file f.world ≡ some (encode xs)
      → fs.open_file f.world ≡ ok c
      → readable f.world ≡ false
      → (load fs f).0 ≡ f
  unfolding load load_opened install
  load_unread f xs p q unread =
      let (e, failed) = document_failed _ (disk.decode_failed xs f.world unread) in
      rw (q, disk.open_reads f.world q, p) (rw failed refl)

  load_missing :
      (f : File W) {c : Option C}
      → file f.world ≡ none
      → fs.open_file f.world ≡ ok c
      → load fs f ≡ (record f { sandboxes = [] }, none)
  unfolding load load_opened install
  load_missing f p q = rw (q, disk.open_reads f.world q, p)

  -- What was found is sorted as it is, and the codec changes it no more.
  refound : (f : File W) → map coerce (sort (values (keyed (found f)))) ≡ found f
  refound f =
      let sorted =
        IsSorted-coerced coerce disk.same_name disk.same_time (sort (values f.sandboxes))
          (sort-IsSorted (values f.sandboxes)) in
      ap (map coerce) (ap sort (values-keyed (found f)) ∙ sort_of_IsSorted (found f) sorted)
      ∙ map_twice coerce disk.coerce_twice (sort (values f.sandboxes))

  load-IsSynced : (f : File W) → IsWellFormed f.sandboxes → IsSynced f → IsSynced (load fs f).0
  load-IsSynced f h s = elim (Result-cases (fs.open_file f.world)) [
    | inl p ↦ unfold load load_opened install in rw p.1 s
    | inr p ↦ elim s [
      | inl t ↦ rw (load_missing f t.0 p.1) (inl (t.0, refl))
      | inr (xs, held, same) ↦ elim (Bool-cases (readable f.world)) [
        | inl q ↦ rw (load-eq f xs h held same p.1 q) (inr (xs, held, same ∙ sym (refound f)))
        | inr q ↦ rw (load_unread f xs held p.1 q) (inr (xs, held, same))
      ]
    ]
  ]

  -- A restart behind an open of the state file and reads that succeed: the manager finds again,
  -- under each name, the sandbox that it held.
  pub load-get :
      (f : File W) {c : Option C}
      → IsWellFormed f.sandboxes
      → IsSynced f
      → fs.open_file f.world ≡ ok c
      → readable f.world ≡ true
      → ((load fs f).1 ≡ none)
        × ((name : String) → get (load fs f).0 name ≡ coerced coerce (get f name))
  unfolding get lookup
  load-get f h (inl s) q r = rw (load_missing f s.0 q) (refl, λ name. rw s.1 refl)
  load-get f h (inr (xs, held, same)) q r = rw (load-eq f xs h held same q r) (
    refl,
    λ name.
        let all = values f.sandboxes in
        lookup-coerced coerce disk.same_name disk.same_time name (sort all)
        ∙ ap (coerced coerce) (
            lookup-sort name all (rw (keyed-values f.sandboxes h.named) h.distinct)
            ∙ ap (lookup name) (keyed-values f.sandboxes h.named)),
  )

  serve-IsSynced :
      (f : File W) (r : Request) → IsWellFormed f.sandboxes → IsSynced f → IsSynced (serve fs f r).0
  unfolding serve create update delete
  serve-IsSynced f loading h s = load-IsSynced f h s
  serve-IsSynced f (creating t) h s = elim (Bool-cases (is_some (lookup t.name f.sandboxes))) [
    | inl p ↦ rw (p, create) s
    | inr p ↦ rw (p, create) (commit-IsSynced (insert t.name t f.sandboxes) f s)
  ]
  serve-IsSynced f (updating name change) h s = elim (Option-cases (lookup name f.sandboxes)) [
    | inl p ↦ rw (p, update) s
    | inr p ↦ rw (p.1, update) (save_changed-IsSynced name (change p.0) f s)
  ]
  serve-IsSynced f (deleting name) h s = elim (Bool-cases (is_some (lookup name f.sandboxes))) [
    | inl p ↦ rw (p, delete) (commit-IsSynced (remove name f.sandboxes) f s)
    | inr p ↦ rw (p, delete) s
  ]

  -- With atomic renames, from a well-formed map that agrees with the state file: after any
  -- requests, whatever fails, the state file holds the map in memory, up to bytes that are not UTF-8
  -- (or neither has held anything), and the map is well formed.
  pub serve_all-IsSynced :
      (f : File W) (rs : List Request)
      → IsWellFormed f.sandboxes
      → IsSynced f
      → IsSynced (serve_all fs f rs) × IsWellFormed (serve_all fs f rs).sandboxes
  unfolding serve_all
  serve_all-IsSynced f [] h s = (s, h)
  serve_all-IsSynced f (r ∷ rs) h s =
      serve_all-IsSynced (serve fs f r).0 rs (serve-IsWellFormed fs f r h) (serve-IsSynced f r h s)

  -- With atomic renames, from a well-formed map that agrees with the state file, and after any
  -- requests: if the state file can be opened then and no read of it fails, the load succeeds and
  -- finds under each name what the map held before it, with U+FFFD for bytes that are not UTF-8.
  pub restart :
      (f : File W) (rs : List Request) {c : Option C}
      → IsWellFormed f.sandboxes
      → IsSynced f
      → fs.open_file (serve_all fs f rs).world ≡ ok c
      → readable (serve_all fs f rs).world ≡ true
      → ((load fs (serve_all fs f rs)).1 ≡ none)
        × ((name : String)
            → get (load fs (serve_all fs f rs)).0 name
              ≡ coerced coerce (get (serve_all fs f rs) name))
  restart f rs h s q r =
      let (synced, formed) = serve_all-IsSynced f rs h s in
      load-get (serve_all fs f rs) formed synced q r
