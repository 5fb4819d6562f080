-- ===== src/Reconcile/Workers/Exclusive.antt =====
-- Which calls of `ReconcileOne` are under way at the same time.
use cf_herdr_poc.Base.{
  ℕ, ◌+◌, ◌≤◌, String, Bool, true, false, ◌≡◌, refl, some, List, [], ◌∷◌, Assoc, lookup, insert,
  remove, lookup-insert, lookup-remove, if◌then◌else◌, arith, Option-cases, Bool-cases, str_eq,
  eq_iff, inl, inr,
}
use cf_herdr_poc.Reconcile.Workers.{
  Stage, entering, queued, admitted, working, finishing, leaving, done, Caller, Workers,
  new_workers, is_in_flight, pick, put, move, Event, call, goes_on, step, run, max_concurrent,
}
use cf_herdr_poc.Reconcile.Workers.Counts.{
  bit, count, holds, works, engaged_for, count-put, works-holds,
}

record IsExclusive (s : Workers) : Type 0 where
  held : count holds s.callers ≡ bit s.locked
  busy : count works s.callers ≡ s.active
  peak : s.max_active ≤ 1
  flying : (n : String) → count (engaged_for n) s.callers ≡ bit (is_in_flight n s.in_flight)

one_at_most : (b : Bool) → bit b ≤ 1
one_at_most true = omega arith
one_at_most false = omega arith

flight-insert :
    (n name : String) (m : Assoc Bool)
    → is_in_flight n (insert name true m) ≡ (if str_eq n name then true else is_in_flight n m)
unfolding is_in_flight
flight-insert n name m = ground (arith, lookup-insert name n true m, eq_iff name n, eq_iff n name)

flight-remove :
    (n name : String) (m : Assoc Bool)
    → is_in_flight n (remove name m) ≡ (if str_eq n name then false else is_in_flight n m)
unfolding is_in_flight
flight-remove n name m = ground (arith, lookup-remove name n m, eq_iff name n, eq_iff n name)

-- A call goes from one stage to another.
moved :
    (i : ℕ) (name : String) (t u : Stage) (s : Workers)
    → pick i s.callers ≡ some (record { name = name; stage = t })
    → (f : Caller → Bool)
    → count f (put i (record { name = name; stage = u }) s.callers)
        + bit (f (record { name = name; stage = t }))
      ≡ count f s.callers + bit (f (record { name = name; stage = u }))
moved i name t u s p f = count-put f i _ _ s.callers p

entering-IsExclusive :
    (i : ℕ) (name : String) (s : Workers)
    → pick i s.callers ≡ some (record { name = name; stage = entering })
    → IsExclusive s
    → IsExclusive (move i name entering s)
unfolding move
entering-IsExclusive i name s p h =
    let refused = moved i name entering done s p in
    let let_in = moved i name entering queued s p in
    elim (Bool-cases (is_in_flight name s.in_flight)) [
      | inl x ↦ rw x (record {
        held = omega (arith, h.held, refused holds);
        busy = omega (arith, h.busy, refused works);
        peak = h.peak;
        flying = λ n. ground (arith, h.flying n, refused (engaged_for n));
      })
      | inr x ↦ rw x (record {
        held = omega (arith, h.held, let_in holds);
        busy = omega (arith, h.busy, let_in works);
        peak = h.peak;
        flying = λ n. ground (
          arith,
          h.flying n,
          let_in (engaged_for n),
          flight-insert n name s.in_flight,
          eq_iff n name,
          x,
        );
      })
    ]

queued-IsExclusive :
    (i : ℕ) (name : String) (s : Workers)
    → pick i s.callers ≡ some (record { name = name; stage = queued })
    → IsExclusive s
    → IsExclusive (move i name queued s)
unfolding move
queued-IsExclusive i name s p h =
    let admits = moved i name queued admitted s p in
    elim (Bool-cases s.locked) [
      | inl x ↦ simp x h
      | inr x ↦ simp x (record {
        held = ground (arith, h.held, x, admits holds);
        busy = omega (arith, h.busy, admits works);
        peak = h.peak;
        flying = λ n. ground (arith, h.flying n, admits (engaged_for n));
      })
    ]

admitted-IsExclusive :
    (i : ℕ) (name : String) (s : Workers)
    → pick i s.callers ≡ some (record { name = name; stage = admitted })
    → IsExclusive s
    → IsExclusive (move i name admitted s)
unfolding move
admitted-IsExclusive i name s p h =
    let begins = moved i name admitted working s p in
    let callers = put i (record { name = name; stage = working }) s.callers in
    record {
      held = omega (arith, h.held, begins holds);
      busy = omega (arith, h.busy, begins works);
      peak = ground (
        arith,
        h.peak,
        h.held,
        h.busy,
        begins works,
        begins holds,
        works-holds callers,
        one_at_most s.locked,
      );
      flying = λ n. ground (arith, h.flying n, begins (engaged_for n));
    }

move-IsExclusive :
    (i : ℕ) (name : String) (t : Stage) (s : Workers)
    → pick i s.callers ≡ some (record { name = name; stage = t })
    → IsExclusive s
    → IsExclusive (move i name t s)
unfolding move
move-IsExclusive i name entering s p h = entering-IsExclusive i name s p h
move-IsExclusive i name queued s p h = queued-IsExclusive i name s p h
move-IsExclusive i name admitted s p h = admitted-IsExclusive i name s p h
move-IsExclusive i name working s p h =
    let ends = moved i name working finishing s p in
    record {
      held = omega (arith, h.held, ends holds);
      busy = omega (arith, h.busy, ends works);
      peak = h.peak;
      flying = λ n. ground (arith, h.flying n, ends (engaged_for n));
    }
move-IsExclusive i name finishing s p h =
    let unlocks = moved i name finishing leaving s p in
    record {
      held = omega (arith, h.held, unlocks holds, one_at_most s.locked);
      busy = omega (arith, h.busy, unlocks works);
      peak = h.peak;
      flying = λ n. ground (arith, h.flying n, unlocks (engaged_for n));
    }
move-IsExclusive i name leaving s p h =
    let lands = moved i name leaving done s p in
    record {
      held = omega (arith, h.held, lands holds);
      busy = omega (arith, h.busy, lands works);
      peak = h.peak;
      flying = λ n. ground (
        arith,
        h.flying n,
        lands (engaged_for n),
        flight-remove n name s.in_flight,
        eq_iff n name,
        one_at_most (is_in_flight n s.in_flight),
      );
    }
move-IsExclusive i name done s p h = h

step-IsExclusive : (e : Event) (s : Workers) → IsExclusive s → IsExclusive (step e s)
unfolding step
step-IsExclusive (call name) s h = record {
  held = omega (arith, h.held);
  busy = omega (arith, h.busy);
  peak = h.peak;
  flying = λ n. ground (arith, h.flying n);
}
step-IsExclusive (goes_on i) s h = elim (Option-cases (pick i s.callers)) [
  | inl x ↦ rw (x, step) h
  | inr x ↦ rw (x.1, step) (move-IsExclusive i x.0.name x.0.stage s x.1 h)
]

run-IsExclusive : (es : List Event) (s : Workers) → IsExclusive s → IsExclusive (run es s)
unfolding run
run-IsExclusive [] s h = h
run-IsExclusive (e ∷ es) s h = run-IsExclusive es (step e s) (step-IsExclusive e s h)

new_workers-IsExclusive : IsExclusive new_workers
unfolding is_in_flight lookup
new_workers-IsExclusive = record {
  held = refl;
  busy = refl;
  peak = omega arith;
  flying = λ n. refl;
}

-- However the calls of a new reconciler interleave, one at most is in the body of `ReconcileOne`, at
-- most one is under way for each name, and `MaxConcurrent` returns at most 1.
pub run_exclusive :
    (es : List Event)
    → let s = run es new_workers in
      (count works s.callers ≤ 1)
      × (max_concurrent s ≤ 1)
      × ((n : String) → count (engaged_for n) s.callers ≤ 1)
unfolding max_concurrent
run_exclusive es =
    let s = run es new_workers in
    let h = run-IsExclusive es new_workers new_workers-IsExclusive in
    (
      omega (arith, works-holds s.callers, h.held, one_at_most s.locked),
      h.peak,
      λ n. omega (arith, h.flying n, one_at_most (is_in_flight n s.in_flight)),
    )
