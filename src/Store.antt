-- ===== src/Store.antt =====
-- internal/store/file.go: the map of sandboxes behind a JSON file that is replaced atomically.
-- The system calls and the JSON codec are parameters. `cloneSandbox` and `cloneSandboxes` copy
-- slices, which values of the model need not, and the mutex makes each operation one step.
pub mod Order
pub mod Laws
pub mod Listing
pub mod Spec
pub mod Update
pub mod Disk
use cf_herdr_poc.Base.{
  ℕ, String, Bytes, codes, Bool, true, false, not, Option, none, some, List, [], ◌∷◌, ◌++◌, map,
  str_eq, Assoc, lookup, insert, remove, is_some, Err, error_text, error_new, wrap, if◌then◌else◌,
  ltb, ◌==◌,
}
use cf_herdr_poc.Base.Exec.{Result, ok, err}
use cf_herdr_poc.Model.{Sandbox}

-- What follows the first JSON value of the file.
pub data Tail : Type 0 where
  eof : Tail
  more : Tail
  broken : Err → Tail

-- `W` is the state of the machine, `C` the content of a file.
pub record FileSystem (W C : Type 0) : Type 0 where
  pub open_file : W → Result Err (Option C)  -- `none`: ErrNotExist
  pub mkdir_all : W → W × Option Err
  pub create_temp : W → W × Option Err
  pub chmod_temp : W → W × Option Err
  pub encode_temp : List Sandbox → W → W × Option Err
  pub sync_temp : W → W × Option Err
  pub close_temp : W → W × Option Err
  pub rename_temp : W → W × Option Err
  pub sync_directory : W → W × Option Err
  pub remove_temp : W → W
  pub decode : C → W → Result Err (List Sandbox × Tail)  -- what the decoder reads
  pub quote : String → Bytes  -- `%q`

pub record File (W : Type 0) : Type 0 where
  pub sandboxes : Assoc Sandbox
  pub world : W

-- `<` on strings goes by bytes; code points give the same order.
unfoldable pub lex_lt : Bytes → Bytes → Bool
lex_lt [] [] = false
lex_lt [] (_ ∷ _) = true
lex_lt (_ ∷ _) [] = false
lex_lt (a ∷ s) (b ∷ t) = let rest = lex_lt s t in if a == b then rest else ltb a b

-- The `less` of `sort.Slice` in `List` and in `commit`.
unfoldable pub less : Sandbox → Sandbox → Bool
less a b =
    if a.created_at == b.created_at
    then lex_lt (codes a.name) (codes b.name)
    else ltb a.created_at b.created_at

unfoldable pub insert_sorted : Sandbox → List Sandbox → List Sandbox
insert_sorted x [] = x ∷ []
insert_sorted x (y ∷ ys) = if less y x then y ∷ insert_sorted x ys else x ∷ y ∷ ys

-- `sort.Slice`: names differ, so `less` leaves one sorted order only.
unfoldable pub sort : List Sandbox → List Sandbox
sort [] = []
sort (x ∷ xs) = insert_sorted x (sort xs)

abbrev pub values : Assoc Sandbox → List Sandbox
values = map (λ e. e.1)

unfoldable pub ensure_eof : Tail → Option Err
ensure_eof eof = none
ensure_eof (broken e) = some e
ensure_eof more = some (error_new "multiple JSON values")

module _ {W : Type 0} where
  unfoldable pub list : File W → List Sandbox
  list f = sort (values f.sandboxes)

  unfoldable pub get : File W → String → Option Sandbox
  get f name = lookup name f.sandboxes

module _ {W C : Type 0} (fs : FileSystem W C) where
  -- The loop of `Load` over the decoded records.
  unfoldable pub load_all : Assoc Sandbox → List Sandbox → Result Err (Assoc Sandbox)
  load_all loaded [] = ok loaded
  load_all loaded (s ∷ rest) =
      let next = load_all (insert s.name s loaded) rest in
      if is_some (lookup s.name loaded)
      then err (error_text (codes "decode sandbox state: duplicate sandbox " ++ fs.quote s.name))
      else next

  -- The two checks of `Load` on what the decoder returns.
  unfoldable pub load_records : List Sandbox → Option Err → Result Err (Assoc Sandbox)
  load_records xs (some e) = err (wrap "decode sandbox state" e)
  load_records xs none = load_all [] xs

  unfoldable pub load_document : Result Err (List Sandbox × Tail) → Result Err (Assoc Sandbox)
  unfolding ensure_eof load_records
  load_document (err e) = err (wrap "decode sandbox state" e)
  load_document (ok (xs, tail)) = load_records xs (ensure_eof tail)

  unfoldable pub load_opened : W → Result Err (Option C) → Result Err (Assoc Sandbox)
  unfolding load_document
  load_opened w (err e) = err (wrap "open sandbox state" e)
  load_opened w (ok none) = ok []
  load_opened w (ok (some c)) = load_document (fs.decode c w)

  unfoldable pub install : File W → Result Err (Assoc Sandbox) → File W × Option Err
  install f (err e) = (f, some e)
  install f (ok loaded) = (record f { sandboxes = loaded }, none)

  unfoldable pub load : File W → File W × Option Err
  unfolding load_opened install
  load f = install f (load_opened f.world (fs.open_file f.world))

  -- The part of `writeAtomic` from `Chmod` to `Close`; on an error the temporary file is still
  -- open, so the deferred function closes it.
  unfoldable pub fill_temp : List Sandbox → W → W × Option Err
  fill_temp xs w0 =
      let (w1, e1) = fs.chmod_temp w0 in
      let (w2, e2) = fs.encode_temp xs w1 in
      let (w3, e3) = fs.sync_temp w2 in
      let (w4, e4) = fs.close_temp w3 in
      elim e1 [
        | some e ↦ ((fs.close_temp w1).0, some (wrap "set temporary sandbox state permissions" e))
        | none ↦ elim e2 [
          | some e ↦ ((fs.close_temp w2).0, some (wrap "encode sandbox state" e))
          | none ↦ elim e3 [
            | some e ↦ ((fs.close_temp w3).0, some (wrap "sync temporary sandbox state" e))
            | none ↦ elim e4 [
              | some e ↦ ((fs.close_temp w4).0, some (wrap "close temporary sandbox state" e))
              | none ↦ (w4, none)
            ]
          ]
        ]
      ]

  -- `Rename` and the directory sync, behind a filled temporary file.
  unfoldable pub replace : W → W × Bool × Option Err
  replace w0 =
      let (w1, e1) = fs.rename_temp w0 in
      let (w2, e2) = fs.sync_directory w1 in
      elim e1 [
        | some e ↦ (w1, false, some (wrap "replace sandbox state" e))
        | none ↦ elim e2 [
          | some e ↦ (w2, true, some (wrap "sync sandbox state directory" e))
          | none ↦ (w2, true, none)
        ]
      ]

  -- The results are `renamed` and `err`; the deferred function removes the temporary name.
  unfoldable pub write_atomic : List Sandbox → W → W × Bool × Option Err
  unfolding fill_temp replace
  write_atomic xs w0 =
      let (w1, e1) = fs.mkdir_all w0 in
      let (w2, e2) = fs.create_temp w1 in
      let (w3, e3) = fill_temp xs w2 in
      let (w4, renamed, e4) = replace w3 in
      elim e1 [
        | some e ↦ (w1, false, some (wrap "create sandbox state directory" e))
        | none ↦ elim e2 [
          | some e ↦ (w2, false, some (wrap "create temporary sandbox state" e))
          | none ↦ elim e3 [
            | some e ↦ (fs.remove_temp w3, false, some e)
            | none ↦ (fs.remove_temp w4, renamed, e4)
          ]
        ]
      ]

  unfoldable pub commit : Assoc Sandbox → File W → File W × Option Err
  commit next f =
      let (w, renamed, e) = write_atomic (sort (values next)) f.world in
      let g = record f { world = w; sandboxes = if renamed then next else f.sandboxes } in
      elim e [
        | some x ↦ (g, some x)
        | none ↦
            (g, if not renamed then some (error_new "sandbox state was not replaced") else none)
      ]

  unfoldable pub create : Sandbox → File W → File W × Option Err
  create s f =
      if is_some (lookup s.name f.sandboxes)
      then (f, some (error_text (codes "sandbox " ++ fs.quote s.name ++ codes " already exists")))
      else commit (insert s.name s f.sandboxes) f

  -- `Update` behind its callback.
  unfoldable pub save_changed : String → Result Err Sandbox → File W → File W × Option Err
  save_changed name (err e) f = (f, some e)
  save_changed name (ok t) f =
      if str_eq t.name name
      then commit (insert name t f.sandboxes) f
      else (f, some (error_new "sandbox update cannot change name"))

  unfoldable pub update : String → (Sandbox → Result Err Sandbox) → File W → File W × Option Err
  unfolding save_changed
  update name change f = elim (lookup name f.sandboxes) [
    | none ↦ (f, some (error_text (codes "sandbox " ++ fs.quote name ++ codes " does not exist")))
    | some s ↦ save_changed name (change s) f
  ]

  unfoldable pub delete : String → File W → File W × Option Err
  delete name f =
      if is_some (lookup name f.sandboxes)
      then commit (remove name f.sandboxes) f
      else (f, some (error_text (codes "sandbox " ++ fs.quote name ++ codes " does not exist")))

-- What the manager asks of its store; `load` is a restart.
pub data Request : Type 0 where
  loading : Request
  creating : Sandbox → Request
  updating : String → (Sandbox → Result Err Sandbox) → Request
  deleting : String → Request

module _ {W C : Type 0} (fs : FileSystem W C) where
  unfoldable pub serve : File W → Request → File W × Option Err
  serve f loading = load fs f
  serve f (creating s) = create fs s f
  serve f (updating name change) = update fs name change f
  serve f (deleting name) = delete fs name f

  unfoldable pub serve_all : File W → List Request → File W
  serve_all f [] = f
  serve_all f (r ∷ rs) = serve_all (serve f r).0 rs
