-- ===== src/Base/Preserves.antt =====
-- Invariants of methods: one rule for each way to build a method.
use mathlib.Core.Path.{◌≡◌, refl}
use mathlib.Core.Bool.{Bool, true, false}
use mathlib.Core.Option.{Option, none, some}
use cf_herdr_poc.Base.Tests.{if◌then◌else◌}
use cf_herdr_poc.Base.Exec.{Result, ok, err, Exec, maybe, pure, raise, check, ◌>>=◌, ◌>>◌, catch}

-- Whatever `m` returns, it leaves `P` true.
pub record Preserves {S E A : Type 0} (P : S → Type 0) (m : Exec S E A) : Type 0 where
  pub step : (s : S) → P s → P (m s).1

module _ {S E A : Type 0} {P : S → Type 0} where
  pub Preserves-pure : (a : A) → Preserves {E = E} P (pure a)
  Preserves-pure a = record { step = λ s h. h }

  pub Preserves-raise : (e : E) → Preserves {A = A} P (raise e)
  Preserves-raise e = record { step = λ s h. h }

  pub Preserves-read : (f : S → A) → Preserves {E = E} P (λ s. (ok (f s), s))
  Preserves-read f = record { step = λ s h. h }

  pub Preserves-if :
      (b : Bool) (m n : Exec S E A)
      → Preserves P m
      → Preserves P n
      → Preserves P (if b then m else n)
  Preserves-if true m n hm hn = hm
  Preserves-if false m n hm hn = hn

  pub Preserves-catch :
      (m : Exec S E A) (f : E → Exec S E A)
      → Preserves P m
      → ((e : E) → Preserves P (f e))
      → Preserves P (catch m f)
  unfolding catch
  Preserves-catch m f hm hf = record { step = λ s h. caught (m s) (hm.step s h) }
    where
      caught :
          (r : Result E A × S)
          → P r.1
          → P (elim r.0 as (λ _. Result E A × S) [ ok a ↦ (ok a, r.1) | err e ↦ f e r.1 ]).1
      caught (ok a, t) h = h
      caught (err e, t) h = (hf e).step t h

module _ {S E A B : Type 0} {P : S → Type 0} where
  pub Preserves-maybe :
      (o : Option A) (m : Exec S E B) (f : A → Exec S E B)
      → Preserves P m
      → ((a : A) → Preserves P (f a))
      → Preserves P (maybe o m f)
  Preserves-maybe none m f hm hf = hm
  Preserves-maybe (some a) m f hm hf = hf a

  pub Preserves-bind :
      (m : Exec S E A) (f : A → Exec S E B)
      → Preserves P m
      → ((a : A) → Preserves P (f a))
      → Preserves P (m >>= f)
  unfolding ◌>>=◌
  Preserves-bind m f hm hf = record { step = λ s h. bound (m s) (hm.step s h) }
    where
      bound :
          (r : Result E A × S)
          → P r.1
          → P (elim r.0 as (λ _. Result E B × S) [ ok a ↦ f a r.1 | err e ↦ (err e, r.1) ]).1
      bound (ok a, t) h = (hf a).step t h
      bound (err e, t) h = h

module _ {S E A B : Type 0} {P : S → Type 0} where
  infixr 4 ◌⟫◌ ◌⟫=◌
  -- The rules for the lines of a `do` block.
  pub ◌⟫=◌ :
      {m : Exec S E A} {f : A → Exec S E B}
      → Preserves P m
      → ((a : A) → Preserves P (f a))
      → Preserves P (m >>= f)
  ◌⟫=◌ {m} {f} hm hf = Preserves-bind m f hm hf

  pub ◌⟫◌ : {m : Exec S E A} {k : Exec S E B} → Preserves P m → Preserves P k → Preserves P (m >> k)
  ◌⟫◌ {m} {k} hm hk = Preserves-bind m (λ _. k) hm (λ _. hk)

module _ {S E A : Type 0} where
  -- A handler that turns one fact into another.
  pub catch_ends :
      (P Q : S → Type 0) (m : Exec S E A) (f : E → Exec S E A) (s : S)
      → P (m s).1
      → ((t : S) → P t → Q t)
      → ((e : E) (t : S) → P t → Q (f e t).1)
      → Q (catch m f s).1
  unfolding catch
  catch_ends P Q m f s h done failed = ended (m s) h
    where
      ended :
          (r : Result E A × S)
          → P r.1
          → Q (elim r.0 as (λ _. Result E A × S) [ ok a ↦ (ok a, r.1) | err e ↦ f e r.1 ]).1
      ended (ok a, t) h = done t h
      ended (err e, t) h = failed e t h

module _ {S E A B : Type 0} {P : S → Type 0} where
  -- What follows may use that the value is one that `m` returned.
  pub Preserves-bind_of :
      (m : Exec S E A) (f : A → Exec S E B)
      → Preserves P m
      → ((s : S) (a : A) → (m s).0 ≡ ok a → Preserves P (f a))
      → Preserves P (m >>= f)
  unfolding ◌>>=◌
  Preserves-bind_of m f hm hf = record { step = λ s h. bound (m s) (hf s) (hm.step s h) }
    where
      bound :
          (r : Result E A × S)
          → ((a : A) → r.0 ≡ ok a → Preserves P (f a))
          → P r.1
          → P (elim r.0 as (λ _. Result E B × S) [ ok a ↦ f a r.1 | err e ↦ (err e, r.1) ]).1
      bound (ok a, t) g h = (g a refl).step t h
      bound (err e, t) g h = h

module _ {S E A B : Type 0} where
  pub state-then_pure : (m : Exec S E A) (b : B) (s : S) → ((m >> pure b) s).1 ≡ (m s).1
  unfolding ◌>>=◌
  state-then_pure m b s = ended (m s)
    where
      ended :
          (r : Result E A × S)
          → (elim r.0 as (λ _. Result E B × S) [ ok a ↦ (ok b, r.1) | err e ↦ (err e, r.1) ]).1
            ≡ r.1
      ended (ok a, t) = refl
      ended (err e, t) = refl

-- Where `m` returns no error, it leaves `Q` true.
pub record Ends {S E A : Type 0} (Q : S → Type 0) (m : Exec S E A) : Type 0 where
  pub at : (s : S) (a : A) → (m s).0 ≡ ok a → Q (m s).1

module _ {S E A B : Type 0} {Q : S → Type 0} where
  -- A block that returns no error has run its last line.
  pub Ends-bind :
      (m : Exec S E A) (f : A → Exec S E B) → ((a : A) → Ends Q (f a)) → Ends Q (m >>= f)
  unfolding ◌>>=◌
  Ends-bind m f h = record { at = λ s b. split (m s) b }
    where
      split :
          (r : Result E A × S) (b : B)
          → (elim r.0 as (λ _. Result E B × S) [ ok a ↦ f a r.1 | err e ↦ (err e, r.1) ]).0 ≡ ok b
          → Q (elim r.0 as (λ _. Result E B × S) [ ok a ↦ f a r.1 | err e ↦ (err e, r.1) ]).1
      split (ok a, t) b e = (h a).at t b e
      split (err x, t) b e = cc

pub Preserves-check : {S E : Type 0} {P : S → Type 0} (o : Option E) → Preserves {S = S} P (check o)
Preserves-check none = record { step = λ s h. h }
Preserves-check (some e) = record { step = λ s h. h }

pub ruleset preserves_rules = (
  Preserves-pure, Preserves-raise, Preserves-read, Preserves-if, Preserves-catch, Preserves-maybe,
  Preserves-bind, Preserves-check,
)
