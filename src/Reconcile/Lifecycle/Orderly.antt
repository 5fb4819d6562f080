-- ===== src/Reconcile/Lifecycle/Orderly.antt =====
-- The workers that `Start` and `Stop` leave, and their channels.
use mathlib.Core.Path.{subst}
use cf_herdr_poc.Base.{
  ℕ, ◌+◌, ◌≤◌, true, false, ◌≡◌, refl, sym, ◌∙◌, ap, Option, none, some, List, [], ◌∷◌, ◌==◌, arith,
  Bool-cases, inl, inr, ◌⊎◌, ◌≢◌, ◌↔◌,
}
use cf_herdr_poc.Reconcile.Lifecycle.{
  State, stopped, running, stopping, Generation, Lifecycle, new_lifecycle, new_generation, ended,
  set_generation, start, close_stop, stop, is_generation, finish, Event, starts, stops, ends, step,
  run,
}

-- What the state says of the current generation.
abbrev Fits : State → Lifecycle → Type 0
Fits stopped s = s.generation ≡ none
Fits running s =
    (n : ℕ) × (s.generation ≡ some n)
    × ((s.generations n).alive ≡ true)
    × ((s.generations n).stops ≡ 0)
Fits stopping s =
    (n : ℕ) × (s.generation ≡ some n)
    × ((s.generations n).alive ≡ true)
    × ((s.generations n).stops ≡ 1)

abbrev Alone : Lifecycle → Type 0
Alone s = (n : ℕ) → (s.generations n).alive ≡ true → s.generation ≡ some n

-- No channel was closed twice, and `done` not while the goroutine runs.
abbrev pub Once : Generation → Type 0
Once g = (g.stops ≤ 1) × (g.dones ≤ 1) × (g.alive ≡ true → g.dones ≡ 0)

record IsOrderly (s : Lifecycle) : Type 0 where
  fits : Fits s.state s
  alone : Alone s
  once : (n : ℕ) → Once (s.generations n)

set_cases :
    (m n : ℕ) (g : Generation) (f : ℕ → Generation)
    → ((m ≡ n) × (set_generation n g f m ≡ g)) ⊎ ((m ≢ n) × (set_generation n g f m ≡ f m))
unfolding set_generation
set_cases m n g f = elim (Bool-cases (m == n)) [
  | inl x ↦ inl (ground arith, rw x refl)
  | inr x ↦ inr (λ e. ground arith, rw x refl)
]

set_self : (n : ℕ) (g : Generation) (f : ℕ → Generation) → set_generation n g f n ≡ g
set_self n g f = elim (set_cases n n g f) [ inl x ↦ x.1 | inr x ↦ absurd (x.0 refl) ]

set-Once :
    (m n : ℕ) (g : Generation) (f : ℕ → Generation)
    → Once g
    → ((k : ℕ) → Once (f k))
    → Once (set_generation n g f m)
set-Once m n g f h k = elim (set_cases m n g f) [
  | inl x ↦ subst Once (sym x.1) h
  | inr x ↦ subst Once (sym x.1) (k m)
]

-- What is set is the only one that may be alive.
set-alive :
    (m n : ℕ) (g : Generation) (f : ℕ → Generation) (o : Option ℕ)
    → ((k : ℕ) → (f k).alive ≡ true → o ≡ some k)
    → (o ≡ none) ⊎ (o ≡ some n)
    → (set_generation n g f m).alive ≡ true
    → m ≡ n
set-alive m n g f o h k a = elim (set_cases m n g f) [
  | inl x ↦ x.0
  | inr x ↦ which k (h m (ap (λ (y : Generation). y.alive) (sym x.1) ∙ a))
]
  where
    which : (o ≡ none) ⊎ (o ≡ some n) → o ≡ some m → m ≡ n
    which (inl x) y = cc
    which (inr x) y = cc

start-IsOrderly : (t : State) (s : Lifecycle) → s.state ≡ t → IsOrderly s → IsOrderly (start t s)
unfolding start
start-IsOrderly running s e h = h
start-IsOrderly stopping s e h = h
start-IsOrderly stopped s e h =
    let g = new_generation in
    let now = set_self s.next g s.generations in
    record {
      fits = (
        s.next,
        refl,
        ap (λ (y : Generation). y.alive) now,
        ap (λ (y : Generation). y.stops) now,
      );
      alone = λ m a.
          ap some
            (sym (set-alive m s.next g s.generations s.generation h.alone (inl (idle s e h)) a));
      once = λ m. set-Once m s.next g s.generations (omega arith, omega arith, λ a. refl) h.once;
    }
  where
    idle : (s : Lifecycle) → s.state ≡ stopped → IsOrderly s → s.generation ≡ none
    idle s e h = subst (λ t. Fits t s) e h.fits

close-IsOrderly :
    (o : Option ℕ) (s : Lifecycle) (n : ℕ)
    → s.generation ≡ o
    → o ≡ some n
    → (s.generations n).alive ≡ true
    → (s.generations n).stops ≡ 0
    → Alone s
    → ((m : ℕ) → Once (s.generations m))
    → IsOrderly (close_stop o (record s { state = stopping }))
unfolding close_stop
close-IsOrderly none s n e x a z h k = cc
close-IsOrderly (some m) s n e x a z h k =
    let same = some_inj x in
    let g = record (s.generations m) { stops = (s.generations m).stops + 1 } in
    let now = set_self m g s.generations in
    record {
      fits = (
        m,
        e,
        ap (λ (y : Generation). y.alive) now ∙ ap (λ i. (s.generations i).alive) same ∙ a,
        ap (λ (y : Generation). y.stops) now ∙ first (ap (λ i. (s.generations i).stops) same ∙ z),
      );
      alone = λ i b. e ∙ ap some (sym (set-alive i m g s.generations s.generation h (inr e) b));
      once = λ i.
          set-Once i m g s.generations
            (omega (arith, ap (λ j. (s.generations j).stops) same, z), (k m).1, (k m).2) k;
    }
  where
    some_inj : {i j : ℕ} → some i ≡ some j → i ≡ j
    some_inj e = cc

    first : {i : ℕ} → i ≡ 0 → i + 1 ≡ 1
    first h = omega (arith, h)

stop-IsOrderly : (t : State) (s : Lifecycle) → s.state ≡ t → IsOrderly s → IsOrderly (stop t s)
unfolding stop
stop-IsOrderly running s e h =
    let (n, g, a, z) = now s e h in close-IsOrderly s.generation s n refl g a z h.alone h.once
  where
    now : (s : Lifecycle) → s.state ≡ running → IsOrderly s → Fits running s
    now s e h = subst (λ t. Fits t s) e h.fits
stop-IsOrderly stopping s e h = h
stop-IsOrderly stopped s e h = h

finish-IsOrderly :
    (n : ℕ) (s : Lifecycle) → (s.generations n).alive ≡ true → IsOrderly s → IsOrderly (finish n s)
unfolding finish
finish-IsOrderly n s a h =
    let g = ended (s.generations n) in
    elim (Bool-cases (is_generation n s.generation)) [
      | inr x ↦ absurd (other s.generation x (h.alone n a))
      | inl x ↦ rw x (record {
        fits = refl;
        alone = λ m b. absurd (gone m b);
        once = λ m.
            set-Once m n g s.generations ((h.once n).0, omega (arith, (h.once n).2 a), λ c. cc)
              h.once;
      })
    ]
  where
    other : (o : Option ℕ) → is_generation n o ≡ false → o ≡ some n → ⊥
    other none x e = cc
    other (some m) x e = ground arith

    gone : (m : ℕ) → (set_generation n (ended (s.generations n)) s.generations m).alive ≡ true → ⊥
    gone m b = elim (set_cases m n (ended (s.generations n)) s.generations) [
      | inl x ↦ cc (ap (λ (y : Generation). y.alive) x.1, b)
      | inr x ↦ x.0 (
          set-alive m n (ended (s.generations n)) s.generations s.generation h.alone
            (inr (h.alone n a)) b)
    ]

step-IsOrderly : (e : Event) (s : Lifecycle) → IsOrderly s → IsOrderly (step e s)
unfolding step
step-IsOrderly starts s h = start-IsOrderly s.state s refl h
step-IsOrderly stops s h = stop-IsOrderly s.state s refl h
step-IsOrderly (ends n) s h = elim (Bool-cases (s.generations n).alive) [
  | inl x ↦ rw x (finish-IsOrderly n s x h)
  | inr x ↦ rw x h
]

run-IsOrderly : (es : List Event) (s : Lifecycle) → IsOrderly s → IsOrderly (run es s)
unfolding run
run-IsOrderly [] s h = h
run-IsOrderly (e ∷ es) s h = run-IsOrderly es (step e s) (step-IsOrderly e s h)

new_lifecycle-IsOrderly : IsOrderly new_lifecycle
new_lifecycle-IsOrderly = record {
  fits = refl;
  alone = λ n a. cc;
  once = λ n. (omega arith, omega arith, λ a. refl);
}

-- The state is `lifecycleStopped` exactly if no worker runs.
abbrev pub Tells : Lifecycle → Type 0
Tells s = (s.state ≡ stopped) ↔ ((n : ℕ) → (s.generations n).alive ≡ false)

-- After any starts, stops and ends of workers, in any order, from a new reconciler: two workers that
-- run are the same one, no channel was closed twice, `done` of a worker that runs was not closed,
-- and the state is `lifecycleStopped` exactly if no worker runs.
pub run_orderly :
    (es : List Event)
    → let s = run es new_lifecycle in
      ((m n : ℕ) → (s.generations m).alive ≡ true → (s.generations n).alive ≡ true → m ≡ n)
      × ((n : ℕ) → Once (s.generations n))
      × Tells s
run_orderly es =
    let s = run es new_lifecycle in
    let h = run-IsOrderly es new_lifecycle new_lifecycle-IsOrderly in
    (
      λ m n a b. same (sym (h.alone m a) ∙ h.alone n b),
      h.once,
      (
        λ e n. quiet s n (subst (λ t. Fits t s) e h.fits) (h.alone n),
        λ q. still s.state s h.fits q,
      ),
    )
  where
    same : {m n : ℕ} → some m ≡ some n → m ≡ n
    same e = cc

    quiet :
        (s : Lifecycle) (n : ℕ)
        → s.generation ≡ none
        → ((s.generations n).alive ≡ true → s.generation ≡ some n)
        → (s.generations n).alive ≡ false
    quiet s n e k = elim (Bool-cases (s.generations n).alive) [ inl x ↦ cc (e, k x) | inr x ↦ x ]

    still :
        (t : State) (s : Lifecycle)
        → Fits t s
        → ((n : ℕ) → (s.generations n).alive ≡ false)
        → t ≡ stopped
    still stopped s f q = refl
    still running s f q = cc (f.2, q f.0)
    still stopping s f q = cc (f.2, q f.0)
