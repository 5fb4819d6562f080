-- ===== src/Reconcile/Lifecycle.antt =====
-- `Start` and `Stop` of the reconciler, and the end of its goroutine: a step for each stretch in which
-- `stateMu` is held. A `Start` that finds `lifecycleStopping` waits and tries again: another step.
use cf_herdr_poc.Base.{
  ℕ, suc, ◌+◌, Bool, true, false, Option, none, some, List, [], ◌∷◌, if◌then◌else◌, ◌==◌,
}
pub mod Orderly

pub data State : Type 0 where
  stopped running stopping : State

-- A goroutine, and how often its channels `stop` and `done` were closed.
pub record Generation : Type 0 where
  pub alive : Bool
  pub stops : ℕ
  pub dones : ℕ

pub record Lifecycle : Type 0 where
  pub state : State
  pub generation : Option ℕ
  pub generations : ℕ → Generation
  pub next : ℕ

abbrev pub new_generation : Generation
new_generation = record { alive = true; stops = 0; dones = 0 }

abbrev pub ended : Generation → Generation
ended g = record g { alive = false; dones = g.dones + 1 }

abbrev pub new_lifecycle : Lifecycle
new_lifecycle = record {
  state = stopped;
  generation = none;
  generations = λ n. record { alive = false; stops = 0; dones = 0 };
  next = 0;
}

unfoldable pub set_generation : ℕ → Generation → (ℕ → Generation) → ℕ → Generation
set_generation n g f m = if m == n then g else f m

unfoldable pub start : State → Lifecycle → Lifecycle
start running s = s
start stopping s = s
start stopped s = record {
  state = running;
  generation = some s.next;
  generations = set_generation s.next new_generation s.generations;
  next = suc s.next;
}

-- `close(generation.stop)`
unfoldable pub close_stop : Option ℕ → Lifecycle → Lifecycle
unfolding set_generation
close_stop none s = s
close_stop (some n) s =
    let g = s.generations n in
    record s { generations = set_generation n (record g { stops = g.stops + 1 }) s.generations }

unfoldable pub stop : State → Lifecycle → Lifecycle
unfolding close_stop
stop running s = close_stop s.generation (record s { state = stopping })
stop _ s = s

abbrev pub is_generation : ℕ → Option ℕ → Bool
is_generation n none = false
is_generation n (some m) = m == n

-- The deferred function of the goroutine of generation `n`.
unfoldable pub finish : ℕ → Lifecycle → Lifecycle
unfolding set_generation
finish n s =
    let generations = set_generation n (ended (s.generations n)) s.generations in
    if is_generation n s.generation
    then record s { state = stopped; generation = none; generations = generations }
    else record s { generations = generations }

pub data Event : Type 0 where
  starts stops : Event
  ends : ℕ → Event

-- Only a goroutine that has not ended can end.
unfoldable pub step : Event → Lifecycle → Lifecycle
unfolding start stop finish
step starts s = start s.state s
step stops s = stop s.state s
step (ends n) s = if (s.generations n).alive then finish n s else s

unfoldable pub run : List Event → Lifecycle → Lifecycle
run [] s = s
run (e ∷ es) s = run es (step e s)
