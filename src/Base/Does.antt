-- ===== src/Base/Does.antt =====
-- What a method makes of what held before, with an error and without one.
use mathlib.Core.Path.{◌≡◌, refl}
use cf_herdr_poc.Base.Exec.{Result, ok, err, Exec, raise, ◌>>=◌, ◌>>◌, catch}

-- From `P`, `m` leads to `Q` where it returns no error, and to `R` where it returns one.
pub record Does {S E A : Type 0} (P Q R : S → Type 0) (m : Exec S E A) : Type 0 where
  pub good : (s : S) (a : A) → P s → (m s).0 ≡ ok a → Q (m s).1
  pub bad : (s : S) (e : E) → P s → (m s).0 ≡ err e → R (m s).1

module _ {S E A : Type 0} {P Q : S → Type 0} where
  pub Does-raise : (e : E) → Does {A = A} P Q P (raise e)
  Does-raise e = record { good = λ s a h p. cc; bad = λ s x h p. h }

module _ {S E A : Type 0} {P Q R : S → Type 0} where
  pub Does-catch :
      {T : S → Type 0} (m : Exec S E A) (f : E → Exec S E A)
      → Does P Q R m
      → ((e : E) → Does R Q T (f e))
      → Does P Q T (catch m f)
  unfolding catch
  Does-catch {T} m f hm hf = record {
    good = λ s a h. good_end (m s) a (λ b. hm.good s b h) (λ e. hm.bad s e h);
    bad = λ s e h. bad_end (m s) e (λ x. hm.bad s x h);
  }
    where
      good_end :
          (r : Result E A × S) (a : A)
          → ((b : A) → r.0 ≡ ok b → Q r.1)
          → ((e : E) → r.0 ≡ err e → R r.1)
          → (elim r.0 as (λ _. Result E A × S) [ ok b ↦ (ok b, r.1) | err e ↦ f e r.1 ]).0 ≡ ok a
          → Q (elim r.0 as (λ _. Result E A × S) [ ok b ↦ (ok b, r.1) | err e ↦ f e r.1 ]).1
      good_end (ok b, t) a hq hr p = hq b refl
      good_end (err e, t) a hq hr p = (hf e).good t a (hr e refl) p

      bad_end :
          (r : Result E A × S) (x : E)
          → ((e : E) → r.0 ≡ err e → R r.1)
          → (elim r.0 as (λ _. Result E A × S) [ ok b ↦ (ok b, r.1) | err e ↦ f e r.1 ]).0 ≡ err x
          → T (elim r.0 as (λ _. Result E A × S) [ ok b ↦ (ok b, r.1) | err e ↦ f e r.1 ]).1
      bad_end (ok b, t) x hr p = cc
      bad_end (err e, t) x hr p = (hf e).bad t x (hr e refl) p

module _ {S E A B : Type 0} {P Q R T : S → Type 0} where
  pub Does-bind :
      (m : Exec S E A) (f : A → Exec S E B)
      → Does P Q R m
      → ((a : A) → Does Q T R (f a))
      → Does P T R (m >>= f)
  unfolding ◌>>=◌
  Does-bind m f hm hf = record {
    good = λ s b h. good_end (m s) b (λ a. hm.good s a h);
    bad = λ s e h. bad_end (m s) e (λ a. hm.good s a h) (λ x. hm.bad s x h);
  }
    where
      good_end :
          (r : Result E A × S) (b : B)
          → ((a : A) → r.0 ≡ ok a → Q r.1)
          → (elim r.0 as (λ _. Result E B × S) [ ok a ↦ f a r.1 | err e ↦ (err e, r.1) ]).0 ≡ ok b
          → T (elim r.0 as (λ _. Result E B × S) [ ok a ↦ f a r.1 | err e ↦ (err e, r.1) ]).1
      good_end (ok a, t) b hq p = (hf a).good t b (hq a refl) p
      good_end (err e, t) b hq p = cc

      bad_end :
          (r : Result E A × S) (x : E)
          → ((a : A) → r.0 ≡ ok a → Q r.1)
          → ((e : E) → r.0 ≡ err e → R r.1)
          → (elim r.0 as (λ _. Result E B × S) [ ok a ↦ f a r.1 | err e ↦ (err e, r.1) ]).0 ≡ err x
          → R (elim r.0 as (λ _. Result E B × S) [ ok a ↦ f a r.1 | err e ↦ (err e, r.1) ]).1
      bad_end (ok a, t) x hq hr p = (hf a).bad t x (hq a refl) p
      bad_end (err e, t) x hq hr p = hr e refl

  infixr 4 ◌then_do◌
  pub ◌then_do◌ :
      {m : Exec S E A} {k : Exec S E B} → Does P Q R m → Does Q T R k → Does P T R (m >> k)
  ◌then_do◌ {m} {k} hm hk = Does-bind m (λ _. k) hm (λ _. hk)
