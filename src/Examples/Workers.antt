-- ===== src/Examples/Workers.antt =====
-- Calls that run at the same time.
use cf_herdr_poc.Base.{ℕ, String, ◌≤◌, ◌≡◌, refl, true, List, [], ◌∷◌}
use cf_herdr_poc.Reconcile.Workers.{
  Event, call, goes_on, new_workers, run, step, max_concurrent, entering, queued, admitted, working,
  finishing, leaving, done,
}
use cf_herdr_poc.Reconcile.Workers.Exclusive.{run_exclusive}
use cf_herdr_poc.Reconcile.Workers.Counts.{count, works, engaged_for}
use cf_herdr_poc.Reconcile.Lifecycle
use cf_herdr_poc.Reconcile.Lifecycle.{new_lifecycle, starts, stops, ends}
use cf_herdr_poc.Reconcile.Lifecycle.Orderly.{Once, Tells, run_orderly}

-- Two calls for `blue` and one for `red`; the last event is one of `red`, which finds the mutex held.
abbrev three : List Event
three =
    call "red"
    ∷ call "blue"
    ∷ call "blue"
    ∷ goes_on 0
    ∷ goes_on 1
    ∷ goes_on 2
    ∷ goes_on 0
    ∷ goes_on 2
    ∷ goes_on 0
    ∷ goes_on 2
    ∷ []

-- One call for `blue` is refused, the other is in the body, and `red` waits for the mutex.
busy : max_concurrent (run three new_workers) ≡ 1
unfolding run step max_concurrent cf_herdr_poc.Reconcile.Workers.is_in_flight
    cf_herdr_poc.Base.lookup cf_herdr_poc.Reconcile.Workers.put cf_herdr_poc.Base.insert
busy = refl

run_exclusive_example :
    let s = run three new_workers in
    (count works s.callers ≤ 1)
    × (max_concurrent s ≤ 1)
    × ((n : String) → count (engaged_for n) s.callers ≤ 1)
run_exclusive_example = run_exclusive three

abbrev restart : List Lifecycle.Event
restart = starts ∷ stops ∷ starts ∷ ends 0 ∷ starts ∷ []

run_orderly_example :
    let s = Lifecycle.run restart new_lifecycle in
    ((m n : ℕ) → (s.generations m).alive ≡ true → (s.generations n).alive ≡ true → m ≡ n)
    × ((n : ℕ) → Once (s.generations n))
    × Tells s
run_orderly_example = run_orderly restart
