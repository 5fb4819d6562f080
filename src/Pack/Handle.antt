-- ===== src/Pack/Handle.antt =====
-- `Enrollment` and its `Cleanup`, which other goroutines and the timer call; the mutex makes it one
-- step. A failed cleanup of the timer and the reset behind it are taken together: a cleanup that
-- succeeds between them leaves what it leaves behind them.
use mathlib.Core.Path.{subst}
use cf_herdr_poc.Base.{
  ℕ, ◌+◌, Bytes, Bool, true, false, ◌≡◌, refl, ◌⊎◌, inl, inr, Option, none, some, List, [], ◌∷◌,
  Err, Option-cases, arith, if◌then◌else◌, is_some, if_both, sym,
}
use cf_herdr_poc.Pack.{System}

-- `closes` counts how often the channel `done` was closed, `armed` tells that the timer runs.
pub record Enrollment : Type 0 where
  pub path : Bytes
  pub cleaned : Bool
  pub closes : ℕ
  pub armed : Bool

abbrev pub new_enrollment : Bytes → Enrollment
new_enrollment path = record { path = path; cleaned = false; closes = 0; armed = true }

abbrev pub clean : Enrollment → Enrollment
clean e = record e { cleaned = true; closes = e.closes + 1; armed = false }

-- A call of `Cleanup`, or the timer fires, which calls it and starts again if that fails.
pub data Event : Type 0 where
  called fired : Event

module _ {W H : Type 0} (sys : System W H) where
  abbrev pub Step : Type 0
  Step = W × Enrollment × Option Err

  unfoldable pub remove_path : Enrollment → W → Step
  remove_path e w =
      let (u, failure) = sys.remove e.path w in
      elim failure [
        | none ↦ (u, clean e, none)
        | some x ↦ if sys.not_exist x then (u, clean e, none) else (u, e, some x)
      ]

  unfoldable pub cleanup : Enrollment → W → Step
  unfolding remove_path
  cleanup e w = let go = remove_path e w in if e.cleaned then (w, e, none) else go

  -- A timer that was stopped does not fire.
  unfoldable pub fire : Enrollment → W → Step
  unfolding cleanup
  fire e w =
      let (u, d, failure) = cleanup (record e { armed = false }) w in
      if e.armed
      then (u, (if is_some failure then record d { armed = true } else d), failure)
      else (w, e, none)

  unfoldable pub step : Event → Enrollment → W → Step
  unfolding cleanup fire
  step called e w = cleanup e w
  step fired e w = fire e w

  unfoldable pub run : List Event → Enrollment → W → W × Enrollment
  run [] e w = (w, e)
  run (x ∷ xs) e w = let (u, d, failure) = step x e w in run xs d u

  -- The channel was closed once if the enrollment is cleaned, and not before.
  abbrev pub ClosedOnce : Enrollment → Type 0
  ClosedOnce e = e.closes ≡ (if e.cleaned then 1 else 0)

  -- And the timer runs until then.
  pub record IsTidy (e : Enrollment) : Type 0 where
    pub channel : ClosedOnce e
    pub timer : (e.cleaned ≡ true) ⊎ (e.armed ≡ true)

  -- What a cleanup of `e` comes to: it is cleaned, or there is an error and `e` is as before.
  abbrev Cleaned : Enrollment → Step → Type 0
  Cleaned e (u, d, failure) =
      ClosedOnce d × ((d.cleaned ≡ true) ⊎ ((is_some failure ≡ true) × (d ≡ e)))

  remove-Cleaned :
      (e : Enrollment) (w : W) → e.cleaned ≡ false → ClosedOnce e → Cleaned e (remove_path e w)
  unfolding remove_path
  remove-Cleaned e w c h =
      let closed : ClosedOnce (clean e) = count e.cleaned c h in
      elim (Option-cases (sys.remove e.path w).1) [
        | inl x ↦ rw (x, remove_path) (closed, inl refl)
        | inr x ↦
            rw (x.1, remove_path)
              (if_both (Cleaned e) (sys.not_exist x.0) _ _ (closed, inl refl) (h, inr (refl, refl)))
      ]
    where
      count : (b : Bool) → b ≡ false → e.closes ≡ (if b then 1 else 0) → e.closes + 1 ≡ 1
      count true p q = cc
      count false p q = omega (arith, q)

  cleanup-Cleaned : (e : Enrollment) (w : W) → ClosedOnce e → Cleaned e (cleanup e w)
  unfolding cleanup
  cleanup-Cleaned e w h = chosen e.cleaned refl
    where
      chosen : (b : Bool) → e.cleaned ≡ b → Cleaned e (if b then (w, e, none) else remove_path e w)
      chosen true x = (h, inl x)
      chosen false x = remove-Cleaned e w x h

  tidy :
      (e d : Enrollment) (failure : Option Err)
      → ClosedOnce d
      → (d.cleaned ≡ true) ⊎ ((is_some failure ≡ true) × (d ≡ e))
      → IsTidy e
      → IsTidy d
  tidy e d failure c (inl x) h = record { channel = c; timer = inl x }
  tidy e d failure c (inr x) h = subst IsTidy (sym x.1) h

  -- The timer is set again if the cleanup failed.
  rearmed :
      (e d : Enrollment) (failure : Option Err)
      → ClosedOnce d
      → (d.cleaned ≡ true) ⊎ ((is_some failure ≡ true) × (d ≡ e))
      → IsTidy (if is_some failure then record d { armed = true } else d)
  rearmed e d (some f) c k = record { channel = c; timer = inr refl }
  rearmed e d none c (inl x) = record { channel = c; timer = inl x }
  rearmed e d none c (inr x) = cc x.0

  abbrev TidyStep : Step → Type 0
  TidyStep (u, d, failure) = IsTidy d

  abbrev off : Enrollment → Enrollment
  off e = record e { armed = false }

  fire-IsTidy : (e : Enrollment) (w : W) → IsTidy e → TidyStep (fire e w)
  unfolding fire
  fire-IsTidy e w h =
      let (c, k) = cleanup-Cleaned (off e) w h.channel in
      if_both TidyStep e.armed _ _ (rearmed (off e) (cleanup (off e) w).1 (cleanup (off e) w).2 c k)
        h

  step-IsTidy : (x : Event) (e : Enrollment) (w : W) → IsTidy e → IsTidy (step x e w).1
  unfolding step
  step-IsTidy called e w h =
      let (c, k) = cleanup-Cleaned e w h.channel in tidy e (cleanup e w).1 (cleanup e w).2 c k h
  step-IsTidy fired e w h = fire-IsTidy e w h

  all-IsTidy : (xs : List Event) (e : Enrollment) (w : W) → IsTidy e → IsTidy (run xs e w).1
  unfolding run
  all-IsTidy [] e w h = h
  all-IsTidy (x ∷ xs) e w h = all-IsTidy xs (step x e w).1 (step x e w).0 (step-IsTidy x e w h)

  -- After any calls of `Cleanup` and any firing of the timer: the channel `done` of an enrollment was
  -- closed once if it is cleaned and not otherwise, and the timer runs if it is not.
  pub run-IsTidy :
      (xs : List Event) (path : Bytes) (w : W) → IsTidy (run xs (new_enrollment path) w).1
  run-IsTidy xs path w =
      all-IsTidy xs (new_enrollment path) w (record { channel = refl; timer = inr refl })
