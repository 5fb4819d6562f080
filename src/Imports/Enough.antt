-- ===== src/Imports/Enough.antt =====
-- The loop of `checkImports` of cmd/checkimports/main.go ends.
use cf_herdr_poc.Base.{
  ℕ, zero, suc, ◌+◌, ◌≤◌, ◌<◌, String, Bool, true, false, Bool-cases, Option, none, some, List, [],
  ◌∷◌, length, ◌≡◌, refl, ap, ◌∙◌, inl, inr, arith, Err,
}
use cf_herdr_poc.Base.Exec.{Result, ok, err, Result-cases}
use cf_herdr_poc.Paths.{FilePath, clean, join_path, parent}
use cf_herdr_poc.Imports.Lex.{relative_imports}
use cf_herdr_poc.Imports.Closure.{
  Files, split_slashes, candidates, path_eq, has, first_file, resolve_import, target_found,
  is_outside, import_target, visit_all, visit,
}
use cf_herdr_poc.Imports.Closed.{IsWithin, or_true, path_eq-eq, path_eq_refl, visit-Adds}

abbrev cost : Bool → ℕ
cost true = 0
cost false = 1

-- How many of the files are not seen yet.
unfoldable unseen : List FilePath → List FilePath → ℕ
unseen [] seen = 0
unseen (u ∷ all) seen = cost (has u seen) + unseen all seen

cost_le : (a b : Bool) → (a ≡ true → b ≡ true) → cost b ≤ cost a
cost_le true true f = omega arith
cost_le true false f = absurd (cc (f refl))
cost_le false true f = omega arith
cost_le false false f = omega arith

unseen_le : (all seen more : List FilePath) → IsWithin seen more → unseen all more ≤ unseen all seen
unfolding unseen
unseen_le [] seen more w = omega arith
unseen_le (u ∷ all) seen more w =
    omega (arith, cost_le (has u seen) (has u more) (w u), unseen_le all seen more w)

-- A file that is not seen yet counts.
unseen_lt :
    (all seen : List FilePath) (p : FilePath)
    → has p all ≡ true
    → has p seen ≡ false
    → unseen all (p ∷ seen) < unseen all seen
unfolding unseen has
unseen_lt [] seen p h new = cc
unseen_lt (u ∷ all) seen p h new = elim (Bool-cases (path_eq p u)) [
  | inl same ↦
      let e : p ≡ u = path_eq-eq p u same in
      let rest = unseen_le all seen (p ∷ seen) (λ q m. or_true (path_eq q p) (has q seen) m) in
      let self : path_eq u p ≡ true = rw e (path_eq_refl u) in
      let unseen_u = rw e at new in rw (self, unseen_u) (omega (arith, rest))
  | inr other ↦
      let rest = unseen_lt all seen p (rw other at h) new in
      let first = cost_le (has u seen) (has u (p ∷ seen)) (or_true (path_eq u p) (has u seen)) in
      omega (arith, rest, first)
]

unseen-length : (all seen : List FilePath) → unseen all seen ≤ length all
unfolding unseen
unseen-length [] seen = omega arith
unseen-length (u ∷ all) seen =
    omega (arith, cost_le false (has u seen) (λ x. cc), unseen-length all seen)

module _ (files : Files) (root : FilePath) (all : List FilePath) where
  -- `all` names each file that there is.
  abbrev pub IsAll : Type 0
  IsAll = (p : FilePath) → files.is_file p ≡ true → has (clean p) all ≡ true

  module _ (listing : IsAll) where
    first_file-has :
        (l : List FilePath) (p : FilePath) → first_file files l ≡ some p → has p all ≡ true
    unfolding first_file
    first_file-has [] p h = cc
    first_file-has (q ∷ l) p h = elim (Bool-cases (files.is_file q)) [
      | inl there ↦ let e : clean q ≡ p = cc (rw there at h) in rw (← e) (listing q there)
      | inr gone ↦ first_file-has l p (rw gone at h)
    ]

    found-has :
        (source : FilePath) (specifier : String) (found : Option FilePath) (p : FilePath)
        → ((q : FilePath) → found ≡ some q → has q all ≡ true)
        → target_found files root source specifier found ≡ ok p
        → has p all ≡ true
    unfolding target_found
    found-has source specifier none p f h = cc
    found-has source specifier (some q) p f h = elim (Bool-cases (is_outside files root q)) [
      | inl o ↦ let x = rw o at h in cc
      | inr o ↦ let h1 = rw o at h in let e : q ≡ p = cc in rw (← e) (f q refl)
    ]

    pub target-has :
        (source : FilePath) (specifier : String) (p : FilePath)
        → import_target files root source specifier ≡ ok p
        → has p all ≡ true
    unfolding import_target resolve_import
    target-has source specifier p h =
        let base = join_path (parent source) (split_slashes specifier) in
        found-has source specifier (first_file files (candidates base)) p
          (first_file-has (candidates base)) h

    abbrev pub Ends : Option (Result Err (List FilePath)) → Type 0
    Ends o = (r : Result Err (List FilePath)) × (o ≡ some r)

    visit_all-Ends :
        (k : ℕ)
        (go-ends : (p : FilePath) (seen : List FilePath)
          → has p all ≡ true
          → unseen all seen < k
          → Ends (visit files root k p seen))
        (source : FilePath) (specifiers : List String) (seen : List FilePath)
        → unseen all seen < k
        → Ends (visit_all files root (visit files root k) source specifiers seen)
    unfolding visit_all
    visit_all-Ends k go-ends source [] seen l = (ok seen, refl)
    visit_all-Ends k go-ends source (s ∷ rest) seen l =
        elim (Result-cases (import_target files root source s)) [
          | inl (e, x) ↦ rw (visit_all, x) (err e, refl)
          | inr (p, x) ↦
              let (r, y) = go-ends p seen (target-has source s p x) l in
              elim (Result-cases r) [
                | inl (e, z) ↦ rw (visit_all, x) (rw (y ∙ ap some z) (err e, refl))
                | inr (more, z) ↦
                    let visited = y ∙ ap some z in
                    let w = (visit-Adds files root k p seen more visited).0.0 in
                    let fewer = unseen_le all seen more w in
                    let later =
                      visit_all-Ends k go-ends source rest more (omega (arith, l, fewer)) in
                    rw (visit_all, x) (rw visited later)
              ]
        ]

    visit-Ends :
        (k : ℕ) (source : FilePath) (seen : List FilePath)
        → has source all ≡ true
        → unseen all seen < k
        → Ends (visit files root k source seen)
    unfolding visit
    visit-Ends zero source seen h l = absurd (omega (arith, l))
    visit-Ends (suc k) source seen h l = elim (Bool-cases (has source seen)) [
      | inl old ↦ rw old (ok seen, refl)
      | inr new ↦ elim (Result-cases (files.read_file source)) [
        | inl (e, x) ↦ rw new (rw x (err e, refl))
        | inr (contents, x) ↦
            let fewer = unseen_lt all seen source h new in
            rw new (
              rw x (
                visit_all-Ends k (visit-Ends k) source (relative_imports contents) (source ∷ seen)
                  (omega (arith, l, fewer))))
      ]
    ]

    -- As many calls as there are files, and one, suffice.
    pub visit-Ends_all :
        (entrypoint : FilePath)
        → has entrypoint all ≡ true
        → Ends (visit files root (suc (length all)) entrypoint [])
    visit-Ends_all entrypoint h =
        visit-Ends (suc (length all)) entrypoint [] h (omega (arith, unseen-length all []))
