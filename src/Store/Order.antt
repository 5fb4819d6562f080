-- ===== src/Store/Order.antt =====
-- The order of `List` and of the state file, and lookups through it.
use cf_herdr_poc.Base.{
  String, true, false, ◌≡◌, refl, ap, ◌∙◌, inl, inr, none, some, List, [], ◌∷◌, map, arith, str_eq,
  eq_iff, Assoc, lookup, insert, remove, All, lookup-insert, lookup-remove, if◌then◌else◌,
  Bool-cases, Bytes, codes,
}
use cf_herdr_poc.Model.{Sandbox}
use cf_herdr_poc.Store.{lex_lt, less, insert_sorted, sort, values}

-- No later sandbox of the list comes before an earlier neighbour.
abbrev pub IsSorted : List Sandbox → Type 0
IsSorted [] = Unit
IsSorted (x ∷ []) = Unit
IsSorted (x ∷ y ∷ ys) = (less y x ≡ false) × IsSorted (y ∷ ys)

less_asymm_bytes : (s t : Bytes) → lex_lt s t ≡ true → lex_lt t s ≡ false
unfolding lex_lt
less_asymm_bytes [] [] h = refl
less_asymm_bytes [] (b ∷ t) h = refl
less_asymm_bytes (a ∷ s) [] h = cc
less_asymm_bytes (a ∷ s) (b ∷ t) h = ground (arith, less_asymm_bytes s t)

less_asymm : (a b : Sandbox) → less a b ≡ true → less b a ≡ false
unfolding less
less_asymm a b h = ground (arith, less_asymm_bytes (codes a.name) (codes b.name))

insert_sorted-IsSorted :
    (x : Sandbox) (ys : List Sandbox) → IsSorted ys → IsSorted (insert_sorted x ys)
unfolding insert_sorted
insert_sorted-IsSorted x [] h = tt
insert_sorted-IsSorted x (y ∷ []) h = elim (Bool-cases (less y x)) [
  | inl p ↦ rw p (less_asymm y x p, tt)
  | inr p ↦ rw p (p, tt)
]
insert_sorted-IsSorted x (y ∷ z ∷ zs) h = elim (Bool-cases (less y x)) [
  | inl p ↦
      let rest = insert_sorted-IsSorted x (z ∷ zs) h.1 in
      elim (Bool-cases (less z x)) [
        | inl q ↦ rw p (rw q (h.0, rw q at rest))
        | inr q ↦ rw p (rw q (less_asymm y x p, rw q at rest))
      ]
  | inr p ↦ rw p (p, h)
]

pub sort-IsSorted : (xs : List Sandbox) → IsSorted (sort xs)
unfolding sort
sort-IsSorted [] = tt
sort-IsSorted (x ∷ xs) = insert_sorted-IsSorted x (sort xs) (sort-IsSorted xs)

abbrev pub keyed : List Sandbox → Assoc Sandbox
keyed = map (λ s. (s.name, s))

-- The keys of an association list differ.
abbrev pub Distinct : Assoc Sandbox → Type 0
Distinct [] = Unit
Distinct ((k, _) ∷ m) = (lookup k m ≡ none) × Distinct m

-- Each sandbox is stored under its own name.
abbrev pub Named : Assoc Sandbox → Type 0
Named = All (λ e. e.1.name ≡ e.0)

lookup-insert_sorted :
    (k : String) (x : Sandbox) (ys : List Sandbox)
    → lookup x.name (keyed ys) ≡ none
    → lookup k (keyed (insert_sorted x ys))
      ≡ (if str_eq x.name k then some x else lookup k (keyed ys))
unfolding insert_sorted lookup
lookup-insert_sorted k x [] h = refl
lookup-insert_sorted k x (y ∷ ys) h =
    ground
      (arith, lookup-insert_sorted k x ys, eq_iff x.name k, eq_iff y.name k, eq_iff y.name x.name)

Distinct-insert_sorted :
    (x : Sandbox) (ys : List Sandbox)
    → lookup x.name (keyed ys) ≡ none
    → Distinct (keyed ys)
    → Distinct (keyed (insert_sorted x ys))
unfolding insert_sorted lookup
Distinct-insert_sorted x [] h d = (refl, tt)
Distinct-insert_sorted x (y ∷ ys) h d = ground (
  arith,
  lookup-insert_sorted y.name x ys,
  Distinct-insert_sorted x ys,
  eq_iff x.name y.name,
  eq_iff y.name x.name,
)

pub lookup-sort :
    (k : String) (xs : List Sandbox)
    → Distinct (keyed xs)
    → lookup k (keyed (sort xs)) ≡ lookup k (keyed xs)
unfolding sort lookup
lookup-sort k [] d = refl
lookup-sort k (x ∷ xs) d =
    lookup-insert_sorted k x (sort xs) (lookup-sort x.name xs d.1 ∙ d.0)
    ∙ ap (λ r. if str_eq x.name k then some x else r) (lookup-sort k xs d.1)

pub Distinct-sort : (xs : List Sandbox) → Distinct (keyed xs) → Distinct (keyed (sort xs))
unfolding sort
Distinct-sort [] d = tt
Distinct-sort (x ∷ xs) d =
    Distinct-insert_sorted x (sort xs) (lookup-sort x.name xs d.1 ∙ d.0) (Distinct-sort xs d.1)

pub keyed-values : (m : Assoc Sandbox) → Named m → keyed (values m) ≡ m
keyed-values [] h = refl
keyed-values ((k, s) ∷ m) h = cc (h.0, keyed-values m h.1)

pub Distinct-insert :
    (k : String) (s : Sandbox) (m : Assoc Sandbox) → Distinct m → Distinct (insert k s m)
unfolding insert
Distinct-insert k s [] d = (unfold lookup in refl, tt)
Distinct-insert k s ((j, t) ∷ m) d =
    ground (arith, lookup-insert k j s m, Distinct-insert k s m, eq_iff j k, eq_iff k j)

pub Distinct-remove : (k : String) (m : Assoc Sandbox) → Distinct m → Distinct (remove k m)
unfolding remove
Distinct-remove k [] d = tt
Distinct-remove k ((j, t) ∷ m) d =
    ground (arith, lookup-remove k j m, Distinct-remove k m, eq_iff j k, eq_iff k j)

pub Named-insert :
    (k : String) (s : Sandbox) (m : Assoc Sandbox) → s.name ≡ k → Named m → Named (insert k s m)
unfolding insert
Named-insert k s [] e h = (e, tt)
Named-insert k s ((j, t) ∷ m) e h = ground (arith, Named-insert k s m)

pub Named-remove : (k : String) (m : Assoc Sandbox) → Named m → Named (remove k m)
unfolding remove
Named-remove k [] h = tt
Named-remove k ((j, t) ∷ m) h = ground (arith, Named-remove k m)
