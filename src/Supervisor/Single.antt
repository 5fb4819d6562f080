-- ===== src/Supervisor/Single.antt =====
-- No two children run at once.
use mathlib.Core.Path.{subst}
use cf_herdr_poc.Base.{
  ℕ, true, false, ◌≡◌, refl, inl, inr, Option, none, some, List, [], ◌∷◌, Err, arith, sym, ap, ◌∙◌,
  Bool-cases, is_some,
}
use cf_herdr_poc.Supervisor.{
  Watch, waiting, reporting, clearing, over, Attempt, Lock, free, expecting, reaping,
  set_generation, fresh_generation, Supervisor, launch, start_over, start_locked, after_stop,
  stop_locked, expect_exit, Reaping, reaped, not_stopped, canceled, timed_out, reap, watch_step,
  Event, starting, stopping, stop_goes_on, stop_ends, watching, probed, received, is_free,
  is_current, note_ready, step, run, new_supervisor, Reply,
}

-- The generation that the lock is held for is the current one.
abbrev Locks : Lock → Option ℕ → Type 0
Locks free c = Unit
Locks (expecting n next) c = c ≡ some n
Locks (reaping n next) c = c ≡ some n

-- A generation that has not ended is the current one, and its goroutine waits for it.
abbrev Alone : Supervisor → Type 0
Alone s =
    (n : ℕ)
    → (s.generations n).ended ≡ false
    → (s.current ≡ some n) × ((s.generations n).watch ≡ waiting)

record IsSingle (s : Supervisor) : Type 0 where
  alone : Alone s
  locks : Locks s.lock s.current

abbrev Idle : Supervisor → Type 0
Idle s = (n : ℕ) → (s.generations n).ended ≡ true

Idle-none : (s : Supervisor) → Alone s → s.current ≡ none → Idle s
Idle-none s h c n = elim (Bool-cases (s.generations n).ended) [
  | inl p ↦ p
  | inr p ↦ let q = (h n p).0 in absurd (none_some (sym c ∙ q))
]
  where
    none_some : {k : ℕ} → none ≡ some k → ⊥
    none_some e = cc

some_inj : {m n : ℕ} → some m ≡ some n → m ≡ n
some_inj e = cc

Idle-ended :
    (s : Supervisor) (n : ℕ)
    → Alone s
    → s.current ≡ some n
    → (s.generations n).ended ≡ true
    → Idle s
Idle-ended s n h c e m = elim (Bool-cases (s.generations m).ended) [
  | inl p ↦ p
  | inr p ↦ ap (λ k. (s.generations k).ended) (some_inj (sym (h m p).0 ∙ c)) ∙ e
]

unlocked : (l : Lock) (c : Option ℕ) → l ≡ free → Locks l c
unlocked l c e = rw e tt

launch-lock : (a : Attempt) (s : Supervisor) → (launch a s).0.lock ≡ s.lock
unfolding launch
launch-lock a s = ground arith

launch-IsSingle : (a : Attempt) (s : Supervisor) → Idle s → s.lock ≡ free → IsSingle (launch a s).0
unfolding launch set_generation fresh_generation
launch-IsSingle a s h f = record {
  alone = λ n p. ground (arith, h n);
  locks = unlocked (launch a s).0.lock (launch a s).0.current (launch-lock a s ∙ f);
}

free-IsSingle : (s : Supervisor) → Alone s → s.lock ≡ free → IsSingle s
free-IsSingle s h f = record { alone = h; locks = unlocked s.lock s.current f }

start_over-IsSingle :
    (c : Option ℕ) (a : Attempt) (s : Supervisor)
    → s.current ≡ c
    → Alone s
    → s.lock ≡ free
    → IsSingle (start_over c a s).0
unfolding start_over
start_over-IsSingle none a s e h f = launch-IsSingle a s (Idle-none s h e) f
start_over-IsSingle (some n) a s e h f = elim (Bool-cases (s.generations n).ended) [
  | inl p ↦ rw p (launch-IsSingle a (record s { current = none }) (Idle-ended s n h e p) f)
  | inr p ↦ rw p (free-IsSingle s h f)
]

start_locked-IsSingle :
    (a : Attempt) (s : Supervisor) → Alone s → s.lock ≡ free → IsSingle (start_locked a s).0
unfolding start_locked
start_locked-IsSingle a s h f = elim (Bool-cases (is_some a.config_error)) [
  | inl p ↦ rw p (free-IsSingle s h f)
  | inr p ↦ elim (Bool-cases (is_some a.context_error)) [
    | inl q ↦ rw p (rw q (free-IsSingle s h f))
    | inr q ↦ rw p (rw q (start_over-IsSingle s.current a s refl h f))
  ]
]

Idle-Alone : (s : Supervisor) → Idle s → Alone s
Idle-Alone s h n p = absurd (true_false (sym (h n) ∙ p))
  where
    true_false : true ≡ false → ⊥
    true_false e = cc

after_stop-IsSingle :
    (next : Option Attempt) (s : Supervisor) → Idle s → IsSingle (after_stop next s).0
unfolding after_stop
after_stop-IsSingle none s h = record { alone = Idle-Alone s h; locks = tt }
after_stop-IsSingle (some a) s h =
    start_locked-IsSingle a (record s { lock = free }) (Idle-Alone s h) refl

stop_locked-IsSingle :
    (c : Option ℕ) (canceled : Option Err) (next : Option Attempt) (s : Supervisor)
    → s.current ≡ c
    → IsSingle s
    → IsSingle (stop_locked c canceled next s).0
unfolding stop_locked
stop_locked-IsSingle none x next s e h = after_stop-IsSingle next s (Idle-none s h.alone e)
stop_locked-IsSingle (some n) (some x) next s e h = record { alone = h.alone; locks = h.locks }
stop_locked-IsSingle (some n) none next s e h = elim (Bool-cases (s.generations n).ended) [
  | inl p ↦
      rw p (after_stop-IsSingle next (record s { current = none }) (Idle-ended s n h.alone e p))
  | inr p ↦ rw p (record { alone = h.alone; locks = e })
]

expect_exit-IsSingle :
    (n : ℕ) (next : Option Attempt) (s : Supervisor)
    → s.current ≡ some n
    → Alone s
    → IsSingle (expect_exit n next s).0
unfolding expect_exit set_generation
expect_exit-IsSingle n next s e h = elim (Bool-cases (s.generations n).ended) [
  | inl p ↦ rw p (
      after_stop-IsSingle next (record s { current = none; healthy = false })
        (Idle-ended s n h e p))
  | inr p ↦ rw p (record { alone = λ m q. ground (arith, h m, h n); locks = e })
]

held_lock : (c : Option ℕ) {l k : Lock} → l ≡ k → Locks l c → Locks k c
held_lock c e h = subst (λ x. Locks x c) e h

-- What a step leads to, if it can be made.
abbrev Fine : Option Reply → Type 0
Fine none = Unit
Fine (some (t, e)) = IsSingle t

reap-Fine :
    (n : ℕ) (next : Option Attempt) (r : Reaping) (s : Supervisor)
    → s.current ≡ some n
    → Alone s
    → Fine (reap n next r s)
unfolding reap
reap-Fine n next reaped s e h = elim (Bool-cases (s.generations n).ended) [
  | inl p ↦ rw p (after_stop-IsSingle next (record s { current = none }) (Idle-ended s n h e p))
  | inr p ↦ rw p tt
]
reap-Fine n next (not_stopped x) s e h = record { alone = h; locks = tt }
reap-Fine n next (canceled x) s e h = record { alone = h; locks = tt }
reap-Fine n next timed_out s e h = record { alone = h; locks = tt }

free_of : (l : Lock) → is_free l ≡ true → l ≡ free
free_of free h = refl
free_of (expecting n next) h = cc
free_of (reaping n next) h = cc

watch-Fine :
    (w : Watch) (n : ℕ) (e : Option Err) (s : Supervisor)
    → (s.generations n).watch ≡ w
    → IsSingle s
    → Fine (watch_step w n e s)
unfolding watch_step set_generation
watch-Fine waiting n e s w h = record { alone = λ m p. ground (arith, h.alone m); locks = h.locks }
watch-Fine (reporting x) n e s w h = record {
  alone = λ m p. ground (arith, h.alone m, h.alone n);
  locks = h.locks;
}
watch-Fine clearing n e s w h = elim (Bool-cases (is_free s.lock)) [
  | inl p ↦ rw p (record {
    alone = λ m q. ground (arith, h.alone m, h.alone n);
    locks = unlocked s.lock _ (free_of s.lock p);
  })
  | inr p ↦ rw p tt
]
watch-Fine over n e s w h = tt

note_ready-IsSingle : (n : ℕ) (s : Supervisor) → IsSingle s → IsSingle (note_ready n s)
unfolding note_ready
note_ready-IsSingle n s h = elim (Bool-cases (is_current s.current n)) [
  | inr p ↦ rw p h
  | inl p ↦ elim (Bool-cases (s.generations n).ended) [
    | inl q ↦ rw p (rw q h)
    | inr q ↦ rw p (rw q (record { alone = h.alone; locks = h.locks }))
  ]
]

step-Fine : (l : Lock) (e : Event) (s : Supervisor) → s.lock ≡ l → IsSingle s → Fine (step l e s)
unfolding step
step-Fine free (starting a) s f h = start_locked-IsSingle a s h.alone f
step-Fine free (stopping e next) s f h = stop_locked-IsSingle s.current e next s refl h
step-Fine free (probed n) s f h = note_ready-IsSingle n s h
step-Fine free stop_goes_on s f h = tt
step-Fine free (stop_ends r) s f h = tt
step-Fine free (watching n e) s f h = watch-Fine (s.generations n).watch n e s refl h
step-Fine free received s f h = record { alone = h.alone; locks = h.locks }
step-Fine (expecting n next) (starting a) s f h = tt
step-Fine (expecting n next) (stopping e other) s f h = tt
step-Fine (expecting n next) (probed m) s f h = tt
step-Fine (expecting n next) stop_goes_on s f h =
    expect_exit-IsSingle n next s (held_lock s.current f h.locks) h.alone
step-Fine (expecting n next) (stop_ends r) s f h = tt
step-Fine (expecting n next) (watching m e) s f h = watch-Fine (s.generations m).watch m e s refl h
step-Fine (expecting n next) received s f h = record { alone = h.alone; locks = h.locks }
step-Fine (reaping n next) (starting a) s f h = tt
step-Fine (reaping n next) (stopping e other) s f h = tt
step-Fine (reaping n next) (probed m) s f h = tt
step-Fine (reaping n next) stop_goes_on s f h = tt
step-Fine (reaping n next) (stop_ends r) s f h =
    reap-Fine n next r s (held_lock s.current f h.locks) h.alone
step-Fine (reaping n next) (watching m e) s f h = watch-Fine (s.generations m).watch m e s refl h
step-Fine (reaping n next) received s f h = record { alone = h.alone; locks = h.locks }

taken-IsSingle :
    (o : Option Reply) (s : Supervisor)
    → Fine o
    → IsSingle s
    → IsSingle (elim o [ none ↦ s | some (t, _) ↦ t ])
taken-IsSingle none s f h = h
taken-IsSingle (some (t, e)) s f h = f

run-IsSingle : (es : List Event) (s : Supervisor) → IsSingle s → IsSingle (run es s)
unfolding run
run-IsSingle [] s h = h
run-IsSingle (e ∷ es) s h =
    run-IsSingle es _ (taken-IsSingle (step s.lock e s) s (step-Fine s.lock e s refl h) h)

new-IsSingle : IsSingle new_supervisor
unfolding new_supervisor
new-IsSingle = record { alone = λ n p. cc; locks = tt }

-- After any steps from a new supervisor, in any order, two children that have not ended are the
-- same one, and it is the current one.
pub run_single :
    (es : List Event) (m n : ℕ)
    → ((run es new_supervisor).generations m).ended ≡ false
    → ((run es new_supervisor).generations n).ended ≡ false
    → (m ≡ n) × ((run es new_supervisor).current ≡ some m)
run_single es m n p q =
    let h = (run-IsSingle es new_supervisor new-IsSingle).alone in
    (some_inj (sym (h m p).0 ∙ (h n q).0), (h m p).0)
