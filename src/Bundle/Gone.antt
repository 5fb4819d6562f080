-- ===== src/Bundle/Gone.antt =====
-- What a failed `Prepare` leaves.
use cf_herdr_poc.Base.{Bytes, Bool, true, false, ◌≡◌, refl, Err, if◌then◌else◌, sym, ◌∙◌}
use cf_herdr_poc.Base.Exec.{Result, ok, err, Exec, pure, raise, ok-injective, ◌>>=◌, ◌>>◌, catch}
use cf_herdr_poc.Paths.{FilePath}
use cf_herdr_poc.Bundle.{System, Builder}
use cf_herdr_poc.Bundle.Overlay.{asks, build, remove_failed, destination_absent, prepare}

module _ {S E A B : Type 0} where
  -- A row that fails has failed in its first step or behind it.
  fails_bind :
      (Q : S → Type 0) (m : Exec S E A) (f : A → Exec S E B) (s : S) (x : E)
      → ((e : E) → (m s).0 ≡ err e → Q (m s).1)
      → ((a : A) → (m s).0 ≡ ok a → (f a (m s).1).0 ≡ err x → Q (f a (m s).1).1)
      → ((m >>= f) s).0 ≡ err x
      → Q ((m >>= f) s).1
  unfolding ◌>>=◌
  fails_bind Q m f s x first later = split (m s) first later
    where
      split :
          (r : Result E A × S)
          → ((e : E) → r.0 ≡ err e → Q r.1)
          → ((a : A) → r.0 ≡ ok a → (f a r.1).0 ≡ err x → Q (f a r.1).1)
          → (elim r.0 as (λ _. Result E B × S) [ ok a ↦ f a r.1 | err e ↦ (err e, r.1) ]).0 ≡ err x
          → Q (elim r.0 as (λ _. Result E B × S) [ ok a ↦ f a r.1 | err e ↦ (err e, r.1) ]).1
      split (ok a, t) first later h = later a refl h
      split (err e, t) first later h = first e refl

module _ {S E A : Type 0} where
  -- A call that fails behind its handler has run the handler.
  fails_catch :
      (Q : S → Type 0) (m : Exec S E A) (f : E → Exec S E A) (s : S) (x : E)
      → ((e : E) (t : S) → Q (f e t).1)
      → (catch m f s).0 ≡ err x
      → Q (catch m f s).1
  unfolding catch
  fails_catch Q m f s x handled = split (m s)
    where
      split :
          (r : Result E A × S)
          → (elim r.0 as (λ _. Result E A × S) [ ok a ↦ (ok a, r.1) | err e ↦ f e r.1 ]).0 ≡ err x
          → Q (elim r.0 as (λ _. Result E A × S) [ ok a ↦ (ok a, r.1) | err e ↦ f e r.1 ]).1
      split (ok a, t) h = cc
      split (err e, t) h = handled e t

module _ {W H : Type 0} (sys : System W H) (destination : FilePath) where
  -- `Lstat` finds nothing there.
  abbrev pub IsAbsent : W → Type 0
  IsAbsent w = (e : Err) × (sys.lstat destination w ≡ err e) × (sys.not_exist e ≡ true)

  -- A removal succeeds, and then nothing is there.
  pub record IsRemovable : Type 0 where
    pub succeeds : (w : W) → (sys.remove_all destination w).0 ≡ ok tt
    pub removes : (w : W) → IsAbsent (sys.remove_all destination w).1

  module _ (removable : IsRemovable) (b : Builder) (url : Bytes) where
    remove_failed-IsAbsent : (e : Err) (w : W) → IsAbsent (remove_failed sys b destination e w).1
    unfolding remove_failed
    remove_failed-IsAbsent e w = rw (removable.succeeds w, remove_failed) (removable.removes w)

    absent_found :
        (w : W) (found : Bool)
        → IsAbsent w
        → destination_absent sys b destination w ≡ ok found
        → found ≡ true
    unfolding destination_absent
    absent_found w found (e, gone, missing) h =
        let one : destination_absent sys b destination w ≡ ok true =
          rw (gone, destination_absent) (rw missing) in
        sym (ok-injective (sym one ∙ h))

    -- A test in front of the row.
    tested :
        {A : Type 0} (c : Bool) (e x : Err) (m : Exec W Err A) (w : W)
        → IsAbsent w
        → ((m w).0 ≡ err x → IsAbsent (m w).1)
        → (((if c then raise {A = Unit {0}} e else pure tt) >> m) w).0 ≡ err x
        → IsAbsent (((if c then raise {A = Unit {0}} e else pure tt) >> m) w).1
    unfolding ◌>>=◌
    tested true e x m w h k = λ p. h
    tested false e x m w h k = k

    choice_gone :
        (absent : Bool) (w : W) (x : Err)
        → absent ≡ true
        → ((if absent
              then catch (build sys b url destination) (remove_failed sys b destination)
              else build sys b url destination)
            w).0
          ≡ err x
        → IsAbsent
            ((if absent
                then catch (build sys b url destination) (remove_failed sys b destination)
                else build sys b url destination)
              w).1
    choice_gone true w x e =
        fails_catch IsAbsent _ (remove_failed sys b destination) w x remove_failed-IsAbsent
    choice_gone false w x e = cc

    -- If nothing is at the destination and a removal of it succeeds, then `Prepare`, where it
    -- returns an error, leaves nothing there.
    pub prepare-IsAbsent :
        (w : W) (x : Err)
        → IsAbsent w
        → (prepare sys b url destination w).0 ≡ err x
        → IsAbsent (prepare sys b url destination w).1
    unfolding prepare
    prepare-IsAbsent w x h = tested _ _ x _ w h (
        tested _ _ x _ w h (
          fails_bind IsAbsent (asks sys _) _ w x (λ e p. h)
            (λ a p.
              fails_bind IsAbsent (asks sys _) _ w x (λ e q. h)
                (λ absent q. choice_gone absent w x (absent_found w absent h q)))))
