-- ===== src/Paths/Laws.antt =====
-- Relative paths that lead down, and paths that are joined with plain names.
use mathlib.Core.List.{
  reverse, reverse-append, reverse-reverse, reverse-cons, foldl-append, append_assoc,
}
use cf_herdr_poc.Base.{
  String, str_eq, eq_iff, eq_refl, Bool, true, false, ◌≡◌, refl, ◌≢◌, ◌↔◌, inl, inr, none, List, [],
  ◌∷◌, ◌++◌, Err, if◌then◌else◌, Bool-cases, All, ap, sym, ◌∙◌, arith,
}
use cf_herdr_poc.Base.Exec.{Result, ok, err, ok-injective}
use cf_herdr_poc.Paths.{
  FilePath, leads_out, add_name, clean_from, clean, join_path, ups, relate, same_root,
  cannot_relate, relative, child_error, require_child,
}

-- `target` is strictly below `base`, and its next name does not lead up.
abbrev pub IsBelow : List String → List String → Type 0
IsBelow base target = (n : String) × (rest : List String) × (target ≡ base ++ n ∷ rest) × (n ≢ "..")

-- `destination` lies strictly below `root`, once both are cleaned.
abbrev pub IsChild : FilePath → FilePath → Type 0
IsChild root destination =
    (root.rooted ≡ destination.rooted) × IsBelow (clean root).names (clean destination).names

out_of_ups :
    (b : String) (bs ts names : List String)
    → ◌≡◌ {A = Result Err (List String)} (ok (ups (b ∷ bs) ts)) (ok names)
    → leads_out names ≡ false
    → ⊥
out_of_ups b bs ts names e h =
    let q : leads_out (ups (b ∷ bs) ts) ≡ false = ap leads_out (ok-injective e) ∙ h in cc

apart :
    (b : String) (bs ts names : List String)
    → (if str_eq b ".." then err cannot_relate else ok (ups (b ∷ bs) ts)) ≡ ok names
    → leads_out names ≡ false
    → ⊥
apart b bs ts names e h = elim (Bool-cases (str_eq b "..")) [
  | inl p ↦ let q = rw p at e in cc
  | inr p ↦ out_of_ups b bs ts names (rw p at e) h
]

-- What leads out of the base.
below_or_out :
    (base target names : List String)
    → relate base target ≡ ok names
    → leads_out names ≡ false
    → target ≡ base ++ names
unfolding relate
below_or_out [] target names e h = ground arith
below_or_out (b ∷ bs) [] names e h = absurd (apart b bs [] names e h)
below_or_out (b ∷ bs) (t ∷ ts) names e h = elim (Bool-cases (str_eq b t)) [
  | inl p ↦ ground (arith, eq_iff b t, below_or_out bs ts names)
  | inr p ↦ absurd (apart b bs (t ∷ ts) names (rw p at e) h)
]

relate-below : (base names : List String) → relate base (base ++ names) ≡ ok names
unfolding relate
relate-below [] names = refl
relate-below (b ∷ bs) names = rw (eq_refl b) (relate-below bs names)

leads_in :
    (names : List String)
    → leads_out names ≡ false
    → (n : String) × (rest : List String) × (names ≡ n ∷ rest) × (n ≢ "..")
leads_in [] h = cc
leads_in (n ∷ rest) h = (n, rest, refl, λ p. ground (arith, eq_iff n ".."))

same_root-eq : (a b : Bool) → same_root a b ≡ true → a ≡ b
same_root-eq true b h = sym h
same_root-eq false true h = cc
same_root-eq false false h = refl

same_root_self : (a : Bool) → same_root a a ≡ true
same_root_self true = refl
same_root_self false = refl

child_error-none :
    (r : Result Err (List String))
    → child_error r ≡ none
    → (names : List String) × (r ≡ ok names) × (leads_out names ≡ false)
unfolding child_error
child_error-none (err e) h = cc
child_error-none (ok names) h = (names, refl, ground arith)

pub relative-ok :
    (base target : FilePath) (names : List String)
    → relative base target ≡ ok names
    → (base.rooted ≡ target.rooted) × (relate (clean base).names (clean target).names ≡ ok names)
unfolding relative
relative-ok base target names h = elim (Bool-cases (same_root base.rooted target.rooted)) [
  | inr p ↦ let q = rw p at h in cc
  | inl p ↦ (same_root-eq _ _ p, rw p at h)
]

require_child-down :
    (root destination : FilePath) → require_child root destination ≡ none → IsChild root destination
unfolding require_child
require_child-down root destination h =
    let (names, e, inside) = child_error-none (relative root destination) h in
    let (same, related) = relative-ok root destination names e in
    let (n, rest, filled, down) = leads_in names inside in
    let target = below_or_out _ _ names related inside in
    (same, (n, rest, target ∙ ap (λ l. (clean root).names ++ l) filled, down))

pub relative-below :
    (base target : FilePath) (names : List String)
    → base.rooted ≡ target.rooted
    → (clean target).names ≡ (clean base).names ++ names
    → relative base target ≡ ok names
unfolding relative
relative-below base target names same e =
    let one : same_root base.rooted target.rooted ≡ true =
      rw (← same) (same_root_self base.rooted) in
    rw one (rw e (relate-below (clean base).names names))

-- `requireChild` accepts a destination exactly if it lies strictly below the root, as the cleaned
-- paths tell.
pub require_child_iff :
    (root destination : FilePath)
    → (require_child root destination ≡ none) ↔ IsChild root destination
unfolding require_child child_error
require_child_iff root destination = (
  require_child-down root destination,
  λ h.
      let (same, (n, rest, e, down)) = h in
      rw (relative-below root destination (n ∷ rest) same e) (ground (arith, eq_iff n "..")),
)

-- A name as a directory lists it.
abbrev pub IsPlain : String → Type 0
IsPlain n = (n ≢ "") × (n ≢ ".") × (n ≢ "..")

add_name-plain :
    (rooted : Bool) (done : List String) (n : String)
    → IsPlain n
    → add_name rooted done n ≡ n ∷ done
unfolding add_name
add_name-plain rooted done n h = ground (arith, eq_iff n "", eq_iff n ".", eq_iff n "..")

clean_from-plain :
    (rooted : Bool) (done names : List String)
    → All IsPlain names
    → clean_from rooted done names ≡ reverse names ++ done
unfolding clean_from
clean_from-plain rooted done [] h = refl
clean_from-plain rooted done (n ∷ ns) h =
    clean_from-plain rooted (add_name rooted done n) ns h.1
    ∙ ap (λ d. reverse ns ++ d) (add_name-plain rooted done n h.0)
    ∙ sym (append_assoc (reverse ns) (n ∷ []) done)
    ∙ ap (λ l. l ++ done) (sym (reverse-cons n ns))

clean-append :
    (rooted : Bool) (names more : List String)
    → All IsPlain more
    → (clean (record { rooted = rooted; names = names ++ more })).names
      ≡ (clean (record { rooted = rooted; names = names })).names ++ more
unfolding clean clean_from
clean-append rooted names more h =
    let done = clean_from rooted [] names in
    ap reverse (foldl-append (add_name rooted) [] names more ∙ clean_from-plain rooted done more h)
    ∙ reverse-append (reverse more) done
    ∙ ap (λ l. reverse done ++ l) (reverse-reverse more)

pub join_path-plain :
    (p : FilePath) (names : List String)
    → All IsPlain names
    → (join_path p names).names ≡ (clean p).names ++ names
unfolding join_path
join_path-plain p names h = clean-append p.rooted p.names names h
