-- ===== src/Imports/Closed.antt =====
-- What holds of the files that `checkImports` has seen when it succeeds.
use cf_herdr_poc.Base.{
  ℕ, zero, suc, String, eq_iff, eq_refl, Bool, true, false, not, ◌||◌, Bool-cases, Option-cases,
  both_true, ◌∙◌, Option, none, some, List, [], ◌∷◌, All, All-imp, ◌≡◌, refl, sym, ap, ◌⊎◌, inl,
  inr, arith, Err, if◌then◌else◌,
}
use cf_herdr_poc.Base.Exec.{Result, ok, Result-cases}
use cf_herdr_poc.Paths.{FilePath, parent}
use cf_herdr_poc.Imports.Lex.{relative_imports}
use cf_herdr_poc.Imports.Closure.{
  Files, names_eq, path_eq, has, is_outside, resolve_import, target_found, import_target, visit_all,
  visit,
}

names_eq-eq : (l m : List String) → names_eq l m ≡ true → l ≡ m
names_eq-eq [] [] h = refl
names_eq-eq [] (b ∷ m) h = cc
names_eq-eq (a ∷ l) [] h = cc
names_eq-eq (a ∷ l) (b ∷ m) h = ground (arith, eq_iff a b, names_eq-eq l m)

names_eq_refl : (l : List String) → names_eq l l ≡ true
names_eq_refl [] = refl
names_eq_refl (a ∷ l) = ground (arith, eq_refl a, names_eq_refl l)

same_flag : (a b : Bool) → (if a then b else not b) ≡ true → a ≡ b
same_flag true b h = sym h
same_flag false true h = cc
same_flag false false h = refl

flag_refl : (a : Bool) → (if a then a else not a) ≡ true
flag_refl true = refl
flag_refl false = refl

pub or_true : (a b : Bool) → b ≡ true → (a || b) ≡ true
or_true true b h = refl
or_true false b h = h

pub path_eq-eq : (p q : FilePath) → path_eq p q ≡ true → p ≡ q
path_eq-eq p q h =
    let (same, equal) = both_true _ _ h in
    let r = same_flag p.rooted q.rooted same in
    let n = names_eq-eq p.names q.names equal in cc (r, n)

pub path_eq_refl : (p : FilePath) → path_eq p p ≡ true
path_eq_refl p = rw (flag_refl p.rooted) (names_eq_refl p.names)

-- Every file of the one list is in the other.
abbrev pub IsWithin : List FilePath → List FilePath → Type 0
IsWithin seen more = (q : FilePath) → has q seen ≡ true → has q more ≡ true

module _ (files : Files) (root : FilePath) where
  -- The import leads to a file of the list that is below the root.
  abbrev pub IsTarget : List FilePath → FilePath → String → Type 0
  IsTarget seen source specifier =
      (p : FilePath) × (import_target files root source specifier ≡ ok p)
      × (is_outside files root p ≡ false)
      × (has p seen ≡ true)

  abbrev pub IsClosed : List FilePath → FilePath → Type 0
  IsClosed seen source =
      (contents : String) × (files.read_file source ≡ ok contents)
      × All (IsTarget seen source) (relative_imports contents)

  found-inside :
      (source : FilePath) (specifier : String) (found : Option FilePath) (p : FilePath)
      → target_found files root source specifier found ≡ ok p
      → is_outside files root p ≡ false
  unfolding target_found
  found-inside source specifier none p h = cc
  found-inside source specifier (some r) p h = elim (Bool-cases (is_outside files root r)) [
    | inl o ↦ let q = rw o at h in cc
    | inr o ↦ let h1 = rw o at h in let e : r ≡ p = cc in rw (← e) o
  ]

  target-inside :
      (source : FilePath) (specifier : String) (p : FilePath)
      → import_target files root source specifier ≡ ok p
      → is_outside files root p ≡ false
  unfolding import_target
  target-inside source specifier p h =
      found-inside source specifier (resolve_import files (parent source) specifier) p h

  IsTarget-within :
      (seen more : List FilePath)
      → IsWithin seen more
      → (source : FilePath) (specifier : String) → IsTarget seen source specifier
      → IsTarget more source specifier
  IsTarget-within seen more w source specifier (p, e, o, m) = (p, e, o, w p m)

  IsClosed-within :
      (seen more : List FilePath)
      → IsWithin seen more
      → (source : FilePath) → IsClosed seen source
      → IsClosed more source
  IsClosed-within seen more w source (contents, e, l) =
      (contents, e, All-imp (IsTarget-within seen more w source) _ l)

  -- What a call has added is closed in what it returns.
  abbrev pub Adds : List FilePath → List FilePath → Type 0
  Adds seen out =
      IsWithin seen out × ((q : FilePath) → has q out ≡ true → (has q seen ≡ true) ⊎ IsClosed out q)

  Adds-trans : (seen more out : List FilePath) → Adds seen more → Adds more out → Adds seen out
  Adds-trans seen more out (w, f) (v, g) = (
    λ q h. v q (w q h),
    λ q h. elim (g q h) [
      | inr c ↦ inr c
      | inl m ↦ elim (f q m) [ inl s ↦ inl s | inr c ↦ inr (IsClosed-within more out v q c) ]
    ],
  )

  module _ (go : FilePath → List FilePath → Option (Result Err (List FilePath)))
      (spec : (p : FilePath) (seen out : List FilePath)
        → go p seen ≡ some (ok out)
        → Adds seen out × (has p out ≡ true)) where
    visit_all-ok :
        (source : FilePath) (s : String) (rest : List String) (seen out : List FilePath)
        → visit_all files root go source (s ∷ rest) seen ≡ some (ok out)
        → (p : FilePath) × (more : List FilePath) × (import_target files root source s ≡ ok p)
          × (go p seen ≡ some (ok more))
          × (visit_all files root go source rest more ≡ some (ok out))
    unfolding visit_all
    visit_all-ok source s rest seen out h =
        elim (Result-cases (import_target files root source s)) [
          | inl (e, x) ↦ let q = rw (visit_all, x) at h in cc
          | inr (p, x) ↦
              let h1 = rw (visit_all, x) at h in
              elim (Option-cases (go p seen)) [
                | inl n ↦ let q = rw n at h1 in cc
                | inr (r, n) ↦
                    let h2 = rw n at h1 in
                    elim (Result-cases r) [
                      | inl (e, y) ↦ let q = rw y at h2 in cc
                      | inr (more, y) ↦ (p, more, x, n ∙ ap some y, rw y at h2)
                    ]
              ]
        ]

    visit_all-Adds :
        (source : FilePath) (specifiers : List String) (seen out : List FilePath)
        → visit_all files root go source specifiers seen ≡ some (ok out)
        → Adds seen out × All (IsTarget out source) specifiers
    unfolding visit_all
    visit_all-Adds source [] seen out h =
        let e : seen ≡ out = cc in rw (← e) ((λ q m. m, λ q m. inl m), tt)
    visit_all-Adds source (s ∷ rest) seen out h =
        let (p, more, target, visited, h1) = visit_all-ok source s rest seen out h in
        let (added, there) = spec p seen more visited in
        let (later, targets) = visit_all-Adds source rest more out h1 in
        (
          Adds-trans seen more out added later,
          ((p, target, target-inside source s p target, later.0 p there), targets),
        )

  visit-ok :
      (k : ℕ) (source : FilePath) (seen out : List FilePath)
      → has source seen ≡ false
      → visit files root (suc k) source seen ≡ some (ok out)
      → (contents : String) × (files.read_file source ≡ ok contents)
        × (visit_all files root
              (visit files root k)
              source
              (relative_imports contents)
              (source ∷ seen)
            ≡ some (ok out))
  unfolding visit
  visit-ok k source seen out new h =
      let h1 = rw new at h in
      elim (Result-cases (files.read_file source)) [
        | inl (e, x) ↦ let q = rw x at h1 in cc
        | inr (contents, x) ↦ (contents, x, rw x at h1)
      ]

  -- A file that is seen for the first time, with what its imports have added.
  visited-Adds :
      (source : FilePath) (contents : String) (seen out : List FilePath)
      → files.read_file source ≡ ok contents
      → Adds (source ∷ seen) out
      → All (IsTarget out source) (relative_imports contents)
      → Adds seen out × (has source out ≡ true)
  unfolding has
  visited-Adds source contents seen out e (w, f) targets =
      let first : has source (source ∷ seen) ≡ true = rw (path_eq_refl source) refl in
      (
        (
          λ q h. w q (later q h),
          λ q h. elim (f q h) [
            | inr c ↦ inr c
            | inl m ↦ elim (Bool-cases (path_eq q source)) [
              | inl same ↦ let p = path_eq-eq q source same in inr (rw p (contents, e, targets))
              | inr other ↦ inl (rw other at m)
            ]
          ],
        ),
        w source first,
      )
    where
      later : (q : FilePath) → has q seen ≡ true → has q (source ∷ seen) ≡ true
      later q h = or_true (path_eq q source) (has q seen) h

  pub visit-Adds :
      (k : ℕ) (source : FilePath) (seen out : List FilePath)
      → visit files root k source seen ≡ some (ok out)
      → Adds seen out × (has source out ≡ true)
  unfolding visit
  visit-Adds zero source seen out h = cc
  visit-Adds (suc k) source seen out h = elim (Bool-cases (has source seen)) [
    | inl old ↦
        let h1 = rw old at h in let e : seen ≡ out = cc in rw (← e) ((λ q m. m, λ q m. inl m), old)
    | inr new ↦
        let (contents, e, h1) = visit-ok k source seen out new h in
        let (added, targets) =
          visit_all-Adds (visit files root k) (visit-Adds k) source (relative_imports contents)
            (source ∷ seen) out h1 in
        visited-Adds source contents seen out e added targets
  ]

  has-All :
      (P : FilePath → Type 0) (l : List FilePath)
      → ((q : FilePath) → has q l ≡ true → P q)
      → All P l
  unfolding has
  has-All P [] f = tt
  has-All P (p ∷ l) f =
      (f p (rw (path_eq_refl p) refl), has-All P l (λ q m. f q (or_true (path_eq q p) (has q l) m)))

  pub All-has :
      (P : FilePath → Type 0) (l : List FilePath) (q : FilePath) → All P l → has q l ≡ true → P q
  unfolding has
  All-has P [] q h m = cc
  All-has P (p ∷ l) q h m = elim (Bool-cases (path_eq q p)) [
    | inl same ↦ let e = path_eq-eq q p same in rw e h.0
    | inr other ↦ All-has P l q h.1 (rw other at m)
  ]

  -- Where all imports can be followed, the files that were seen hold the entry point, and are closed.
  pub visit-AllClosed :
      (k : ℕ) (entrypoint : FilePath) (seen : List FilePath)
      → visit files root k entrypoint [] ≡ some (ok seen)
      → (has entrypoint seen ≡ true) × All (IsClosed seen) seen
  unfolding has
  visit-AllClosed k entrypoint seen h =
      let (added, there) = visit-Adds k entrypoint [] seen h in
      let closed : (q : FilePath) → has q seen ≡ true → IsClosed seen q =
        λ q m. elim (added.1 q m) [ inl old ↦ cc | inr c ↦ c ] in
      (there, has-All (IsClosed seen) seen closed)
