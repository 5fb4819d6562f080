-- ===== src/Base/Runs.antt =====
-- Methods that return no error: what they make of what held before.
use mathlib.Core.Path.{◌≡◌, refl}
use mathlib.Core.Bool.{Bool, true, false}
use mathlib.Core.Option.{Option, none, some}
use cf_herdr_poc.Base.Tests.{if◌then◌else◌}
use cf_herdr_poc.Base.Exec.{Result, ok, err, Exec, maybe, pure, raise, check, ◌>>=◌, ◌>>◌}

-- Where `P` holds and `m` returns no error, it leaves `Q` true.
pub record Runs {S E A : Type 0} (P Q : S → Type 0) (m : Exec S E A) : Type 0 where
  pub at : (s : S) (a : A) → P s → (m s).0 ≡ ok a → Q (m s).1

module _ {S E A : Type 0} {P : S → Type 0} where
  pub Runs-pure : (a : A) → Runs {E = E} P P (pure a)
  Runs-pure a = record { at = λ s x h e. h }

  pub Runs-read : (f : S → A) → Runs {E = E} P P (λ s. (ok (f s), s))
  Runs-read f = record { at = λ s x h e. h }

module _ {S E A : Type 0} {P Q : S → Type 0} where
  pub Runs-raise : (e : E) → Runs {A = A} P Q (raise e)
  Runs-raise e = record { at = λ s x h p. cc }

  pub Runs-if :
      (b : Bool) (m n : Exec S E A) → Runs P Q m → Runs P Q n → Runs P Q (if b then m else n)
  Runs-if true m n hm hn = hm
  Runs-if false m n hm hn = hn

module _ {S E A B : Type 0} {P Q : S → Type 0} where
  pub Runs-maybe :
      (o : Option A) (m : Exec S E B) (f : A → Exec S E B)
      → Runs P Q m
      → ((a : A) → Runs P Q (f a))
      → Runs P Q (maybe o m f)
  Runs-maybe none m f hm hf = hm
  Runs-maybe (some a) m f hm hf = hf a

module _ {S E A B : Type 0} {P R Q : S → Type 0} where
  pub Runs-bind :
      (m : Exec S E A) (f : A → Exec S E B)
      → Runs P R m
      → ((a : A) → Runs R Q (f a))
      → Runs P Q (m >>= f)
  unfolding ◌>>=◌
  Runs-bind m f hm hf = record { at = λ s b h. bound (m s) b (λ a. hm.at s a h) }
    where
      bound :
          (r : Result E A × S) (b : B)
          → ((a : A) → r.0 ≡ ok a → R r.1)
          → (elim r.0 as (λ _. Result E B × S) [ ok a ↦ f a r.1 | err e ↦ (err e, r.1) ]).0 ≡ ok b
          → Q (elim r.0 as (λ _. Result E B × S) [ ok a ↦ f a r.1 | err e ↦ (err e, r.1) ]).1
      bound (ok a, t) b h e = (hf a).at t b (h a refl) e
      bound (err x, t) b h e = cc

  infixr 4 ◌⟫◌ ◌⟫=◌
  -- The rules for the lines of a `do` block.
  pub ◌⟫=◌ :
      {m : Exec S E A} {f : A → Exec S E B}
      → Runs P R m
      → ((a : A) → Runs R Q (f a))
      → Runs P Q (m >>= f)
  ◌⟫=◌ {m} {f} hm hf = Runs-bind m f hm hf

  pub ◌⟫◌ : {m : Exec S E A} {k : Exec S E B} → Runs P R m → Runs R Q k → Runs P Q (m >> k)
  ◌⟫◌ {m} {k} hm hk = Runs-bind m (λ _. k) hm (λ _. hk)

module _ {S E A B : Type 0} {P Q : S → Type 0} where
  infixr 4 ◌▹◌ ◌▹=◌
  -- The same for lines that keep what holds.
  pub ◌▹=◌ :
      {m : Exec S E A} {f : A → Exec S E B}
      → Runs P P m
      → ((a : A) → Runs P Q (f a))
      → Runs P Q (m >>= f)
  ◌▹=◌ {m} {f} hm hf = Runs-bind m f hm hf

  pub ◌▹◌ : {m : Exec S E A} {k : Exec S E B} → Runs P P m → Runs P Q k → Runs P Q (m >> k)
  ◌▹◌ {m} {k} hm hk = Runs-bind m (λ _. k) hm (λ _. hk)

  pub Runs-lines :
      (m : Exec S E A) (f : A → Exec S E B)
      → Runs P P m
      → ((a : A) → Runs P Q (f a))
      → Runs P Q (m >>= f)
  Runs-lines = Runs-bind

pub Runs-check : {S E : Type 0} {P : S → Type 0} (o : Option E) → Runs {S = S} P P (check o)
Runs-check none = record { at = λ s a h e. h }
Runs-check (some x) = record { at = λ s a h e. h }

pub ruleset runs_rules =
    (Runs-pure, Runs-raise, Runs-read, Runs-if, Runs-maybe, Runs-lines, Runs-check)
