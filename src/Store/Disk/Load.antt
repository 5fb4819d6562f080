-- ===== src/Store/Disk/Load.antt =====
-- Reading back a state file that a commit wrote.
use mathlib.Core.List.{append_assoc, append-nil}
use cf_herdr_poc.Base.{
  Option, none, some, map, str_eq, Bool-cases, inl, inr, String, ◌≡◌, refl, sym, ◌∙◌, ap, none,
  List, [], ◌∷◌, ◌++◌, arith, eq_iff, Assoc, lookup, insert, lookup-insert,
}
use cf_herdr_poc.Base.Exec.{ok}
use cf_herdr_poc.Model.{Sandbox}
use cf_herdr_poc.Store.{FileSystem, insert_sorted, sort, values, load_all, less}
use cf_herdr_poc.Store.Order.{IsSorted, Distinct, keyed}

insert_fresh :
    (k : String) (s : Sandbox) (m : Assoc Sandbox)
    → lookup k m ≡ none
    → insert k s m ≡ m ++ (k, s) ∷ []
unfolding insert lookup
insert_fresh k s [] h = refl
insert_fresh k s ((j, t) ∷ m) h = ground (arith, insert_fresh k s m)

pub values-keyed : (xs : List Sandbox) → values (keyed xs) ≡ xs
values-keyed [] = refl
values-keyed (x ∷ xs) = ap (λ r. x ∷ r) (values-keyed xs)

pub sort_of_IsSorted : (xs : List Sandbox) → IsSorted xs → sort xs ≡ xs
unfolding sort insert_sorted
sort_of_IsSorted [] h = refl
sort_of_IsSorted (x ∷ []) h = refl
sort_of_IsSorted (x ∷ y ∷ ys) h =
    ap (insert_sorted x) (sort_of_IsSorted (y ∷ ys) h.1) ∙ (rw h.0 refl)

-- No key of the second list is in the first.
abbrev Apart : Assoc Sandbox → List Sandbox → Type 0
Apart m [] = Unit
Apart m (x ∷ xs) = (lookup x.name m ≡ none) × Apart m xs

Apart-insert :
    (k : String) (s : Sandbox) (m : Assoc Sandbox) (xs : List Sandbox)
    → Apart m xs
    → lookup k (keyed xs) ≡ none
    → Apart (insert k s m) xs
unfolding lookup
Apart-insert k s m [] h d = tt
Apart-insert k s m (x ∷ xs) h d =
    ground
      (arith, Apart-insert k s m xs, lookup-insert k x.name s m, eq_iff k x.name, eq_iff x.name k)

module _ {W C : Type 0} (fs : FileSystem W C) where
  load_all_from :
      (m : Assoc Sandbox) (xs : List Sandbox)
      → Apart m xs
      → Distinct (keyed xs)
      → load_all fs m xs ≡ ok (m ++ keyed xs)
  unfolding load_all
  load_all_from m [] h d = ap ok (sym (append-nil m))
  load_all_from m (x ∷ xs) h d = rw h.0 (
      load_all_from (insert x.name x m) xs (Apart-insert x.name x m xs h.1 d.0) d.1
      ∙ ap (λ r. ok (r ++ keyed xs)) (insert_fresh x.name x m h.0)
      ∙ ap ok (append_assoc m ((x.name, x) ∷ []) (keyed xs)))

  empty_Apart : (xs : List Sandbox) → Apart [] xs
  unfolding lookup
  empty_Apart [] = tt
  empty_Apart (x ∷ xs) = (refl, empty_Apart xs)

  -- Records with different names are loaded as they stand.
  pub load_all_lem : (xs : List Sandbox) → Distinct (keyed xs) → load_all fs [] xs ≡ ok (keyed xs)
  load_all_lem xs d = load_all_from [] xs (empty_Apart xs) d

-- `value`, and what a codec makes of it.
abbrev pub coerced : (Sandbox → Sandbox) → Option Sandbox → Option Sandbox
coerced f none = none
coerced f (some s) = some (f s)

-- What a codec changes in a sandbox: neither its name nor its time of creation.
module _ (coerce : Sandbox → Sandbox) (same_name : (s : Sandbox) → (coerce s).name ≡ s.name)
    (same_time : (s : Sandbox) → (coerce s).created_at ≡ s.created_at) where
  pub lookup-coerced :
      (k : String) (xs : List Sandbox)
      → lookup k (keyed (map coerce xs)) ≡ coerced coerce (lookup k (keyed xs))
  unfolding lookup
  lookup-coerced k [] = refl
  lookup-coerced k (x ∷ xs) =
      let same = ap (λ n. str_eq n k) (same_name x) in
      elim (Bool-cases (str_eq x.name k)) [
        | inl p ↦ rw (same ∙ p, p) refl
        | inr p ↦ rw (same ∙ p, p) (lookup-coerced k xs)
      ]

  pub Distinct-coerced :
      (xs : List Sandbox) → Distinct (keyed xs) → Distinct (keyed (map coerce xs))
  Distinct-coerced [] d = tt
  Distinct-coerced (x ∷ xs) d =
      let gone = lookup-coerced x.name xs ∙ ap (coerced coerce) d.0 in
      (ap (λ n. lookup n (keyed (map coerce xs))) (same_name x) ∙ gone, Distinct-coerced xs d.1)

  less-coerced : (x y : Sandbox) → less (coerce x) (coerce y) ≡ less x y
  unfolding less
  less-coerced x y = rw (same_name x, same_name y, same_time x, same_time y) refl

  pub IsSorted-coerced : (xs : List Sandbox) → IsSorted xs → IsSorted (map coerce xs)
  IsSorted-coerced [] h = tt
  IsSorted-coerced (x ∷ []) h = tt
  IsSorted-coerced (x ∷ y ∷ ys) h = (less-coerced y x ∙ h.0, IsSorted-coerced (y ∷ ys) h.1)

pub map_twice :
    (f : Sandbox → Sandbox)
    → ((s : Sandbox) → f (f s) ≡ f s)
    → (xs : List Sandbox) → map f (map f xs) ≡ map f xs
map_twice f h [] = refl
map_twice f h (x ∷ xs) = cc (h x, map_twice f h xs)
