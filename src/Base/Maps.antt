-- ===== src/Base/Maps.antt =====
-- Go's maps with string keys, as association lists.
use Prim.Native.String.{String}
use mathlib.Core.List.{List, [], ◌∷◌}
use mathlib.Core.Option.{Option, none, some}
use mathlib.Core.Path.{◌≡◌, refl}
use cf_herdr_poc.Base.Tests.{if◌then◌else◌}
use text.Mathlib.TextPositions.{eq_refl}
use text.Mathlib.TextEquality.{eq_iff}
use text.Mathlib.Text.{◌==◌}
use native.Mathlib.Omega.{arith}

abbrev pub Assoc {ℓ} : Type ℓ → Type ℓ
Assoc Value = List (String × Value)

module _ {ℓ} {Value : Type ℓ} where
  unfoldable pub lookup : String → Assoc Value → Option Value
  lookup wanted [] = none
  lookup wanted ((key, value) ∷ rest) =
      let later = lookup wanted rest in if key == wanted then some value else later

  unfoldable pub insert : String → Value → Assoc Value → Assoc Value
  insert key new [] = (key, new) ∷ []
  insert key new ((other, old) ∷ rest) =
      let later = insert key new rest in
      if other == key then (key, new) ∷ rest else (other, old) ∷ later

  unfoldable pub remove : String → Assoc Value → Assoc Value
  remove gone [] = []
  remove gone ((key, value) ∷ rest) =
      let later = remove gone rest in if key == gone then later else (key, value) ∷ later

  pub lookup-insert :
      (key wanted : String) (new : Value) (entries : Assoc Value)
      → lookup wanted (insert key new entries)
        ≡ (if key == wanted then some new else lookup wanted entries)
  unfolding lookup insert
  lookup-insert key wanted new [] = refl
  lookup-insert key wanted new ((other, old) ∷ rest) =
      let same = eq_iff key wanted in
      ground (arith, same, eq_iff other wanted, eq_iff other key, lookup-insert key wanted new rest)

  pub lookup-remove :
      (gone wanted : String) (entries : Assoc Value)
      → lookup wanted (remove gone entries)
        ≡ (if gone == wanted then none else lookup wanted entries)
  unfolding lookup remove
  lookup-remove gone wanted [] = ground arith
  lookup-remove gone wanted ((other, old) ∷ rest) =
      let same = eq_iff gone wanted in
      ground (arith, same, eq_iff other gone, eq_iff other wanted, lookup-remove gone wanted rest)

  pub lookup-insert_self :
      (key : String) (new : Value) (entries : Assoc Value)
      → lookup key (insert key new entries) ≡ some new
  lookup-insert_self key new entries = simp (lookup-insert, eq_refl)

  pub lookup-remove_self :
      (gone : String) (entries : Assoc Value) → lookup gone (remove gone entries) ≡ none
  lookup-remove_self gone entries = simp (lookup-remove, eq_refl)

pub ruleset assoc_laws = (lookup-insert, lookup-remove, eq_refl)
