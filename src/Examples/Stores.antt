-- ===== src/Examples/Stores.antt =====
-- The store on a disk that never fails.
use cf_herdr_poc.Base.{
  Bool, true, map, ap, sym, lookup, ◌≡◌, ◌≢◌, refl, inl, Option, none, some, List, [], ◌∷◌, String,
}
use cf_herdr_poc.Base.Exec.{ok}
use cf_herdr_poc.Model.{Sandbox, deleted}
use cf_herdr_poc.Store.{
  FileSystem, File, eof, Request, loading, creating, updating, serve, serve_all, get, list, load,
}
use cf_herdr_poc.Store.Order.{IsSorted, Distinct, keyed}
use cf_herdr_poc.Store.Listing.{list-get}
use cf_herdr_poc.Store.Spec.{Outcome, spec, serve-Outcome}
use cf_herdr_poc.Store.Laws.{IsWellFormed, empty-IsWellFormed, serve_all-IsWellFormed}
use cf_herdr_poc.Store.Disk.{IsAtomic, IsSynced, serve_all-IsSynced, coerced, restart}
use cf_herdr_poc.Examples.{box}

-- The state file and the temporary file.
pub record Machine : Type 0 where
  pub file : Option (List Sandbox)
  pub temp : Option (List Sandbox)

abbrev pub disk : FileSystem Machine (List Sandbox)
disk = record {
  open_file = λ w. ok w.file;
  mkdir_all = λ w. (w, none);
  create_temp = λ w. (record w { temp = some [] }, none);
  chmod_temp = λ w. (w, none);
  encode_temp = λ xs w. (record w { temp = some xs }, none);
  sync_temp = λ w. (w, none);
  close_temp = λ w. (w, none);
  rename_temp = λ w. (record { file = w.temp; temp = none }, none);
  sync_directory = λ w. (w, none);
  remove_temp = λ w. record w { temp = none };
  decode = λ c w. ok (c, eof);
  quote = λ s. [];
}

abbrev encode : List Sandbox → List Sandbox
encode xs = xs

abbrev file : Machine → Option (List Sandbox)
file w = w.file

abbrev temp : Machine → Option (List Sandbox)
temp w = w.temp

abbrev readable : Machine → Bool
readable w = true

-- The content of this disk is no text, so the codec changes nothing.
abbrev coerce : Sandbox → Sandbox
coerce s = s

unchanged : (xs : List Sandbox) → map coerce xs ≡ xs
unchanged [] = refl
unchanged (x ∷ xs) = ap (λ l. x ∷ l) (unchanged xs)

disk-IsAtomic : IsAtomic disk encode file temp readable coerce
disk-IsAtomic = record {
  mkdir_file = λ w. refl;
  create_file = λ w. refl;
  chmod_file = λ w. refl;
  encode_file = λ xs w. refl;
  sync_file = λ w. refl;
  close_file = λ w. refl;
  remove_file = λ w. refl;
  sync_directory_file = λ w. refl;
  encode_done = λ xs w h. refl;
  sync_keeps = λ w. refl;
  close_keeps = λ w. refl;
  rename_done = λ w h. refl;
  rename_failed = λ w h. cc;
  open_reads = λ w h. cc;
  decode_encode = λ xs w h. ap (λ l. ok (l, eof)) (sym (unchanged xs));
  decode_failed = λ xs w h. cc;
  same_name = λ s. refl;
  same_time = λ s. refl;
  coerce_twice = λ s. refl;
}

abbrev pub blank : File Machine
blank = record { sandboxes = []; world = record { file = none; temp = none } }

abbrev requests : List Request
requests =
    creating box
    ∷ updating "blue" (λ s. ok (record s { desired = deleted }))
    ∷ creating box
    ∷ loading
    ∷ []

blank-IsSynced : IsSynced disk encode file temp readable coerce disk-IsAtomic blank
blank-IsSynced = inl (refl, refl)

not_loading : creating box ≢ loading
not_loading h = cc

serve-Outcome_example :
    Outcome (spec (creating box) (get blank)) blank (serve disk blank (creating box))
serve-Outcome_example = serve-Outcome disk blank (creating box) not_loading

serve_all-IsSynced_example :
    IsSynced disk encode file temp readable coerce disk-IsAtomic (serve_all disk blank requests)
    × IsWellFormed (serve_all disk blank requests).sandboxes
serve_all-IsSynced_example =
    serve_all-IsSynced disk encode file temp readable coerce disk-IsAtomic blank requests
      (empty-IsWellFormed disk) blank-IsSynced

restart_example :
    ((load disk (serve_all disk blank requests)).1 ≡ none)
    × ((name : String)
        → get (load disk (serve_all disk blank requests)).0 name
          ≡ coerced coerce (get (serve_all disk blank requests) name))
restart_example =
    restart disk encode file temp readable coerce disk-IsAtomic blank requests
      (empty-IsWellFormed disk) blank-IsSynced refl refl

abbrev later : Sandbox
later = record box { name = "red"; created_at = 9 }

abbrev held : File Machine
held = serve_all disk blank (creating later ∷ creating box ∷ [])

list-get_example :
    IsSorted (list held)
    × Distinct (keyed (list held))
    × (lookup "red" (keyed (list held)) ≡ get held "red")
list-get_example = list-get held "red" (
    serve_all-IsWellFormed disk blank (creating later ∷ creating box ∷ [])
      (empty-IsWellFormed disk))
