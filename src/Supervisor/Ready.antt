-- ===== src/Supervisor/Ready.antt =====
-- The loop of `Ready` of internal/supervisor/collie.go, beside the steps of other goroutines.
use mathlib.Core.Path.{subst}
use cf_herdr_poc.Base.{
  ℕ, Bool, true, false, ◌≡◌, refl, ◌⊎◌, inl, inr, Option, none, some, List, [], ◌∷◌, Err, error_new,
  if◌then◌else◌, sym, ◌∙◌, Bool-cases, Option-cases,
}
use cf_herdr_poc.Supervisor.{Supervisor, Event, exit_error, is_current, note_ready, run}

-- What ends a wait between two probes.
pub data Wake : Type 0 where
  exited : Wake
  expired : Err → Wake
  ticked : Wake

-- A round: what others do before the child is looked at, up to the end of the probe, before the
-- result of it is noted, and up to the end of the wait behind a probe that failed.
pub record Round : Type 0 where
  pub before : List Event
  pub during : List Event
  pub between : List Event
  pub after : List Event
  pub probe : Option Err
  pub wake : Wake

pub data Outcome : Type 0 where
  waiting : Outcome  -- the wait goes on
  ready : Outcome
  failed : Err → Outcome

abbrev pub has_ended : ℕ → Supervisor → Bool
has_ended n s = (s.generations n).ended

abbrev pub exit_of : ℕ → Supervisor → Err
exit_of n s = exit_error (s.generations n).failure

module _ (n : ℕ) where
  -- The second `select`. The child can wake it only where it has ended.
  unfoldable pub woken : Wake → Supervisor → Option Outcome
  unfolding exit_error
  woken exited s = if has_ended n s then some (failed (exit_of n s)) else some waiting
  woken (expired e) s = some (failed e)
  woken ticked s = none

  unfoldable pub rounds : List Round → Supervisor → Supervisor × Outcome
  unfolding woken note_ready run
  rounds [] s = (s, waiting)
  rounds (r ∷ rs) s =
      let s1 = run r.before s in
      let s2 = run r.during s1 in
      let s3 = run r.after s2 in
      let rest = rounds rs s3 in
      if has_ended n s1 then (s1, failed (exit_of n s1)) else elim r.probe [
        | none ↦ (note_ready n (run r.between s2), ready)
        | some e ↦ elim (woken r.wake s3) [ none ↦ rest | some o ↦ (s3, o) ]
      ]

unfoldable pub wait_for : Option ℕ → List Round → Supervisor → Supervisor × Outcome
unfolding rounds
wait_for none rs s = (s, failed (error_new "collie is not running"))
wait_for (some n) rs s = rounds n rs s

-- `Ready`, with the generation that it finds.
unfoldable pub wait_ready : List Round → Supervisor → Supervisor × Outcome
unfolding wait_for
wait_ready rs s = wait_for s.current rs s

-- The child is noted as healthy, or it is not the current one any more, or it has ended.
abbrev pub IsNoted : ℕ → Supervisor → Type 0
IsNoted n s =
    ((s.healthy ≡ true) × (is_current s.current n ≡ true) × (has_ended n s ≡ false))
    ⊎ (is_current s.current n ≡ false)
    ⊎ (has_ended n s ≡ true)

-- A round of these had a probe that succeeded.
abbrev pub Probed : List Round → Type 0
Probed [] = ⊥
Probed (r ∷ rs) = (r.probe ≡ none) ⊎ Probed rs

-- A round of these was ended by the context, with this error.
abbrev pub Expired : Err → List Round → Type 0
Expired e [] = ⊥
Expired e (r ∷ rs) = (r.wake ≡ expired e) ⊎ Expired e rs

-- What the outcome tells.
abbrev pub Tells : ℕ → List Round → Supervisor → Outcome → Type 0
Tells n rs t waiting = Unit
Tells n rs t ready = IsNoted n t × Probed rs
Tells n rs t (failed e) = ((has_ended n t ≡ true) × (e ≡ exit_of n t)) ⊎ Expired e rs

note_ready-IsNoted : (n : ℕ) (s : Supervisor) → IsNoted n (note_ready n s)
unfolding note_ready
note_ready-IsNoted n s = elim (Bool-cases (is_current s.current n)) [
  | inr p ↦ rw p (inr (inl p))
  | inl p ↦ elim (Bool-cases (has_ended n s)) [
    | inl q ↦ rw p (rw q (inr (inr q)))
    | inr q ↦ rw p (rw q (inl (refl, p, q)))
  ]
]

Tells-later :
    (n : ℕ) (r : Round) (rs : List Round) (t : Supervisor) (o : Outcome)
    → Tells n rs t o
    → Tells n (r ∷ rs) t o
Tells-later n r rs t waiting h = tt
Tells-later n r rs t ready h = (h.0, inr h.1)
Tells-later n r rs t (failed e) (inl h) = inl h
Tells-later n r rs t (failed e) (inr h) = inr (inr h)

woken-Tells :
    (n : ℕ) (w : Wake) (r : Round) (rs : List Round) (s : Supervisor) (o : Outcome)
    → r.wake ≡ w
    → woken n w s ≡ some o
    → Tells n (r ∷ rs) s o
unfolding woken
woken-Tells n exited r rs s o e h = elim (Bool-cases (has_ended n s)) [
  | inl p ↦ subst (Tells n (r ∷ rs) s) (some_inj (sym (ended p) ∙ h)) (inl (p, refl))
  | inr p ↦ subst (Tells n (r ∷ rs) s) (some_inj (sym (going p) ∙ h)) tt
]
  where
    some_inj : {a b : Outcome} → some a ≡ some b → a ≡ b
    some_inj q = cc

    ended : has_ended n s ≡ true → woken n exited s ≡ some (failed (exit_of n s))
    ended p = rw p refl

    going : has_ended n s ≡ false → woken n exited s ≡ some waiting
    going p = rw p refl
woken-Tells n (expired x) r rs s o e h = subst (Tells n (r ∷ rs) s) (some_inj h) (inr (inl e))
  where
    some_inj : {a b : Outcome} → some a ≡ some b → a ≡ b
    some_inj q = cc
woken-Tells n ticked r rs s o e h = cc

module _ (n : ℕ) (r : Round) (rs : List Round) (s : Supervisor) where
  abbrev looked : Supervisor
  looked = run r.before s

  abbrev waited : Supervisor
  waited = run r.after (run r.during looked)

  rounds-ended :
      has_ended n looked ≡ true → rounds n (r ∷ rs) s ≡ (looked, failed (exit_of n looked))
  unfolding rounds
  rounds-ended p = rw p refl

  rounds-probed :
      has_ended n looked ≡ false
      → r.probe ≡ none
      → rounds n (r ∷ rs) s ≡ (note_ready n (run r.between (run r.during looked)), ready)
  unfolding rounds
  rounds-probed p q = rw p (rw (q, rounds) refl)

  rounds-woken :
      (e : Err) (o : Outcome)
      → has_ended n looked ≡ false
      → r.probe ≡ some e
      → woken n r.wake waited ≡ some o
      → rounds n (r ∷ rs) s ≡ (waited, o)
  unfolding rounds
  rounds-woken e o p q w = rw p (rw (q, w, rounds) refl)

  rounds-later :
      (e : Err)
      → has_ended n looked ≡ false
      → r.probe ≡ some e
      → woken n r.wake waited ≡ none
      → rounds n (r ∷ rs) s ≡ rounds n rs waited
  unfolding rounds
  rounds-later e p q w = rw p (rw (q, w, rounds) refl)

-- What a pair of a state and an outcome tells.
abbrev Told : ℕ → List Round → Supervisor × Outcome → Type 0
Told n rs r = Tells n rs r.0 r.1

rounds-Tells : (n : ℕ) (rs : List Round) (s : Supervisor) → Told n rs (rounds n rs s)
unfolding rounds
rounds-Tells n [] s = tt
rounds-Tells n (r ∷ rs) s =
    let told = Told n (r ∷ rs) in
    let waits = waited n r rs s in
    let probed = run r.between (run r.during (looked n r rs s)) in
    elim (Bool-cases (has_ended n (looked n r rs s))) [
      | inl p ↦ subst told (sym (rounds-ended n r rs s p)) (inl (p, refl))
      | inr p ↦ elim (Option-cases r.probe) [
        | inl q ↦ subst told (sym (rounds-probed n r rs s p q)) (note_ready-IsNoted n probed, inl q)
        | inr q ↦ elim (Option-cases (woken n r.wake waits)) [
          | inl w ↦ subst told (sym (rounds-later n r rs s q.0 p q.1 w)) (
              Tells-later n r rs (rounds n rs waits).0 (rounds n rs waits).1
                (rounds-Tells n rs waits))
          | inr w ↦
              subst told (sym (rounds-woken n r rs s q.0 w.0 p q.1 w.1))
                (woken-Tells n r.wake r rs waits w.0 refl w.1)
        ]
      ]
    ]

-- While a child is the current one and whatever others do meanwhile: `Ready` returns no error only
-- behind a probe that succeeded, and then the child is noted as healthy, unless it has been
-- replaced or has ended; and an error of it is that of the child, which has ended, or that of the
-- context.
pub wait_ready-Tells :
    (n : ℕ) (rs : List Round) (s : Supervisor)
    → s.current ≡ some n
    → Tells n rs (wait_ready rs s).0 (wait_ready rs s).1
unfolding wait_ready
wait_ready-Tells n rs s e = subst (λ c. Told n rs (wait_for c rs s)) (sym e) (rounds-Tells n rs s)
