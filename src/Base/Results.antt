-- ===== src/Base/Results.antt =====
-- Rows of checks that change nothing and may fail.
use mathlib.Core.Path.{◌≡◌, refl}
use mathlib.Core.Bool.{Bool, true, false}
use mathlib.Core.Option.{Option, none, some}
use mathlib.Core.List.{List, [], ◌∷◌}
use cf_herdr_poc.Base.Errors.{Err}
use cf_herdr_poc.Base.Lists.{All}
use cf_herdr_poc.Base.Exec.{Result, ok, err}

module _ {A B : Type 0} where
  infixl 5 ◌>>=◌
  abbrev pub ◌>>=◌ : Result Err A → (A → Result Err B) → Result Err B
  ok a >>= f = f a
  err e >>= f = err e

  -- A row that returns a value has made each of its steps.
  pub >>=-eq-ok :
      (m : Result Err A) (f : A → Result Err B) (b : B)
      → (m >>= f) ≡ ok b
      → (a : A) × (m ≡ ok a) × (f a ≡ ok b)
  >>=-eq-ok (ok a) f b h = (a, refl, h)
  >>=-eq-ok (err e) f b h = cc

infixl 5 ◌>>◌
abbrev pub ◌>>◌ : {B : Type 0} → Result Err (Unit {0}) → Result Err B → Result Err B
m >> k = m >>= λ _. k

abbrev pub done : Result Err (Unit {0})
done = ok tt

abbrev pub wrapped : {A : Type 0} → (Err → Err) → Result Err A → Result Err A
wrapped f (ok a) = ok a
wrapped f (err e) = err (f e)

-- `if err := …; err != nil { return err }`
abbrev pub checked : Option Err → Result Err (Unit {0})
checked none = ok tt
checked (some e) = err e

abbrev pub refuse_if : Bool → Err → Result Err (Unit {0})
refuse_if true e = err e
refuse_if false e = ok tt

module _ {A : Type 0} where
  unfoldable pub each : (A → Result Err (Unit {0})) → List A → Result Err (Unit {0})
  each f [] = ok tt
  each f (a ∷ rest) = f a >> each f rest

  pub each-All :
      (f : A → Result Err (Unit {0})) (l : List A) → each f l ≡ done → All (λ a. f a ≡ done) l
  unfolding each
  each-All f [] h = tt
  each-All f (a ∷ rest) h =
      let (u, p, q) = >>=-eq-ok (f a) (λ _. each f rest) tt h in (p, each-All f rest q)

  pub wrapped-ok : (f : Err → Err) (m : Result Err A) (a : A) → wrapped f m ≡ ok a → m ≡ ok a
  wrapped-ok f (ok b) a h = h
  wrapped-ok f (err e) a h = cc

pub checked-ok : (o : Option Err) → checked o ≡ done → o ≡ none
checked-ok none h = refl
checked-ok (some e) h = cc

pub refuse_if-ok : (b : Bool) (e : Err) → refuse_if b e ≡ done → b ≡ false
refuse_if-ok false e h = refl
refuse_if-ok true e h = cc
