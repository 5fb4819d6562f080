-- ===== src/Examples/Children.antt =====
-- A supervisor whose child dies and is restarted.
use cf_herdr_poc.Base.{
  ℕ, ◌+◌, true, false, ◌≡◌, refl, Option, none, some, List, [], ◌∷◌, Err, error_new, codes, arith,
}
use cf_herdr_poc.Supervisor.Process.{Group, IsClock, stop_process, stop_process-ends}
use cf_herdr_poc.Supervisor.Ready.{Round, ticked, ready, Tells, wait_ready, wait_ready-Tells}
use cf_herdr_poc.Supervisor.{
  Supervisor, Attempt, Event, starting, stopping, stop_goes_on, stop_ends, reaped, watching, probed,
  new_supervisor, run, is_healthy,
}
use cf_herdr_poc.Supervisor.Single.{run_single}

abbrev attempt : Attempt
attempt = record {
  config_error = none;
  context_error = none;
  loopback = true;
  host = codes "127.0.0.1";
  unresolved = none;
  refused = none;
}

abbrev events : List Event
events =
    starting attempt
    ∷ probed 0
    ∷ stopping none (some attempt)
    ∷ stop_goes_on
    ∷ watching 0 none
    ∷ stop_ends reaped
    ∷ []

second_runs : ((run events new_supervisor).generations 1).ended ≡ false
unfolding run new_supervisor
second_runs = refl

run_single_example : (◌≡◌ {A = ℕ} 1 1) × ((run events new_supervisor).current ≡ some 1)
run_single_example = run_single events 1 1 second_runs second_runs

-- The first child was ready and died. `Start` comes before its goroutine has the mutex, and the
-- second child counts as healthy though no probe of it has succeeded.
abbrev crash : List Event
crash =
    starting attempt
    ∷ probed 0
    ∷ watching 0 (some (error_new "killed"))
    ∷ starting attempt
    ∷ watching 0 none
    ∷ watching 0 none
    ∷ []

stale_health : is_healthy (run crash new_supervisor) ≡ true
unfolding run new_supervisor is_healthy
stale_health = refl

-- A group that does not go away. The state is the time.
abbrev stubborn : Group ℕ
stubborn = record {
  signal = λ s w. (w, none);
  no_process = λ e. true;
  now = λ w. w;
  sleep = λ n w. w + n;
}

stubborn-IsClock : IsClock stubborn
stubborn-IsClock = record { slept = λ n w. omega arith; signalled = λ s w. omega arith }

stop_process-ends_example : (r : ℕ × Option Err) × (stop_process stubborn true 35000000 7 ≡ some r)
stop_process-ends_example = stop_process-ends stubborn stubborn-IsClock true 35000000 7

stop_takes : stop_process stubborn true 35000000 7 ≡ some (40000007, none)
unfolding stop_process
stop_takes = refl

abbrev started : Supervisor
started = run (starting attempt ∷ []) new_supervisor

-- A probe that fails, and then one that succeeds.
abbrev two_rounds : List Round
two_rounds =
    record {
      before = [];
      during = [];
      between = [];
      after = [];
      probe = some (error_new "refused");
      wake = ticked;
    }
    ∷ record { before = []; during = []; between = []; after = []; probe = none; wake = ticked }
    ∷ []

started_current : started.current ≡ some 0
unfolding run new_supervisor
started_current = refl

wait_ready-Tells_example :
    Tells 0 two_rounds (wait_ready two_rounds started).0 (wait_ready two_rounds started).1
wait_ready-Tells_example = wait_ready-Tells 0 two_rounds started started_current

becomes_ready : (wait_ready two_rounds started).1 ≡ ready
unfolding wait_ready run new_supervisor
becomes_ready = refl
