-- ===== src/Supervisor.antt =====
-- internal/supervisor/collie.go: the child process and the goroutine that waits for it, as a
-- machine of steps. A step is what the code does between two points where another goroutine may
-- run: the mutex of the supervisor is the field `lock`, which `Stop` and `Restart` hold while they
-- wait for the child.
pub mod Single
pub mod Process
pub mod Ready
pub mod Setup
use cf_herdr_poc.Base.{
  ℕ, suc, String, Bytes, codes, Bool, true, false, not, Option, none, some, Err, error_new,
  error_text, wrap, is_some, if◌then◌else◌, ◌==◌, ◌++◌, List, [], ◌∷◌, ◌&&◌,
}

-- What the goroutine of a generation does next.
pub data Watch : Type 0 where
  waiting : Watch
  reporting : Err → Watch
  clearing over : Watch

-- `processGeneration`: `ended` is its closed channel.
pub record Generation : Type 0 where
  pub ended : Bool
  pub failure : Option Err
  pub expected : Bool
  pub watch : Watch

-- What the checks and calls of a start return; `host` is the quoted host.
pub record Attempt : Type 0 where
  pub config_error : Option Err
  pub context_error : Option Err
  pub loopback : Bool
  pub host : Bytes
  pub unresolved : Option Err
  pub refused : Option Err

-- `expecting` and `reaping` are the two halves of `stopLocked`; with an attempt it is a restart.
pub data Lock : Type 0 where
  free : Lock
  expecting reaping : ℕ → Option Attempt → Lock

-- `process` and `generation`, which the code sets together, are `current`: the number of the
-- generation. Generations that do not exist yet count as ended. `reported` is the channel of errors,
-- which has room for one.
pub record Supervisor : Type 0 where
  pub current : Option ℕ
  pub generations : ℕ → Generation
  pub count : ℕ
  pub reported : Option Err
  pub healthy : Bool
  pub lock : Lock

unfoldable pub fresh_generation : Generation
fresh_generation = record { ended = false; failure = none; expected = false; watch = waiting }

unfoldable pub new_supervisor : Supervisor
new_supervisor = record {
  current = none;
  generations = λ n. record { ended = true; failure = none; expected = false; watch = over };
  count = 0;
  reported = none;
  healthy = false;
  lock = free;
}

unfoldable pub set_generation : ℕ → Generation → (ℕ → Generation) → ℕ → Generation
set_generation n g f k = if k == n then g else f k

abbrev pub Reply : Type 0
Reply = Supervisor × Option Err

-- `startLocked` behind the check for a running child.
unfoldable pub launch : Attempt → Supervisor → Reply
unfolding fresh_generation set_generation
launch a s =
    if not a.loopback
    then (s, some (error_text (codes "Collie host " ++ a.host ++ codes " must be loopback")))
    else elim a.unresolved [
      | some e ↦ (s, some (wrap "resolve Collie executable" e))
      | none ↦ elim a.refused [
        | some e ↦ (s, some (wrap "start collie" e))
        | none ↦ (
          record s {
            current = some s.count;
            generations = set_generation s.count fresh_generation s.generations;
            count = suc s.count;
          },
          none,
        )
      ]
    ]

-- The check: a child that has ended is forgotten, and a running one refused.
unfoldable pub start_over : Option ℕ → Attempt → Supervisor → Reply
unfolding launch
start_over none a s = launch a s
start_over (some n) a s =
    let go = launch a (record s { current = none }) in
    if (s.generations n).ended then go else (s, some (error_new "collie is already running"))

unfoldable pub start_locked : Attempt → Supervisor → Reply
unfolding start_over
start_locked a s =
    let go = start_over s.current a s in
    if is_some a.config_error
    then (s, a.config_error)
    else if is_some a.context_error
    then (s, a.context_error)
    else go

-- The end of `Stop` without an error, and then of `Restart`.
unfoldable pub after_stop : Option Attempt → Supervisor → Reply
after_stop none s = (record s { lock = free }, none)
after_stop (some a) s = start_locked a (record s { lock = free })

-- `stopLocked` up to `expectExit`.
unfoldable pub stop_locked : Option ℕ → Option Err → Option Attempt → Supervisor → Reply
unfolding after_stop
stop_locked none canceled next s = after_stop next s
stop_locked (some n) (some e) next s = (s, some e)
stop_locked (some n) none next s =
    let forgotten = after_stop next (record s { current = none }) in
    if (s.generations n).ended then forgotten else (record s { lock = expecting n next }, none)

-- `expectExit`, and what follows up to the wait.
unfoldable pub expect_exit : ℕ → Option Attempt → Supervisor → Reply
unfolding set_generation
expect_exit n next s =
    let gone = after_stop next (record s { current = none; healthy = false }) in
    if (s.generations n).ended then gone else (
      record s {
        generations = set_generation n (record (s.generations n) { expected = true }) s.generations;
        healthy = false;
        lock = reaping n next;
      },
      none,
    )

-- How the wait for the child ends.
pub data Reaping : Type 0 where
  reaped : Reaping
  not_stopped : Err → Reaping
  canceled : Err → Reaping
  timed_out : Reaping

-- `none`: the step cannot be made, as the child has not ended.
unfoldable pub reap : ℕ → Option Attempt → Reaping → Supervisor → Option Reply
reap n next reaped s =
    let gone = after_stop next (record s { current = none }) in
    if (s.generations n).ended then some gone else none
reap n next (not_stopped e) s = some (record s { lock = free }, some (wrap "stop collie" e))
reap n next (canceled e) s = some (record s { lock = free }, some e)
reap n next timed_out s =
    some (record s { lock = free }, some (error_new "timed out reaping collie"))

unfoldable pub exit_error : Option Err → Err
exit_error none = error_new "collie child exited: unexpected clean exit"
exit_error (some e) = error_text (codes "collie child exited: " ++ e.text)

abbrev pub is_free : Lock → Bool
is_free free = true
is_free _ = false

abbrev pub is_current : Option ℕ → ℕ → Bool
is_current none n = false
is_current (some m) n = m == n

-- A step of the goroutine of a generation; `e` is the result of `Wait`.
unfoldable pub watch_step : Watch → ℕ → Option Err → Supervisor → Option Reply
unfolding set_generation exit_error
watch_step waiting n e s =
    let g = s.generations n in
    let next = if g.expected then clearing else reporting (exit_error e) in
    some (
      record s {
        generations =
            set_generation n (record g { ended = true; failure = e; watch = next }) s.generations;
      },
      none,
    )
watch_step (reporting x) n e s = some (
  record s {
    reported = if is_some s.reported then s.reported else some x;
    generations = set_generation n (record (s.generations n) { watch = clearing }) s.generations;
  },
  none,
)
watch_step clearing n e s =
    let mine = is_current s.current n in
    let done = record s {
      current = if mine then none else s.current;
      healthy = if mine then false else s.healthy;
      generations = set_generation n (record (s.generations n) { watch = over }) s.generations;
    } in
    if is_free s.lock then some (done, none) else none
watch_step over n e s = none

pub data Event : Type 0 where
  starting : Attempt → Event  -- `Start`
  stopping : Option Err → Option Attempt → Event  -- `Stop`, or `Restart` with an attempt
  stop_goes_on : Event
  stop_ends : Reaping → Event
  watching : ℕ → Option Err → Event
  probed : ℕ → Event  -- a probe of `Ready` succeeded for the generation
  received : Event  -- a reader of `Errors()`

-- The last part of `Ready`.
unfoldable pub note_ready : ℕ → Supervisor → Supervisor
note_ready n s =
    if is_current s.current n
    then (if (s.generations n).ended then s else record s { healthy = true })
    else s

-- The steps, by the lock. `none`: the step has to wait.
unfoldable pub step : Lock → Event → Supervisor → Option Reply
unfolding start_locked stop_locked expect_exit reap watch_step note_ready
step free (starting a) s = some (start_locked a s)
step free (stopping e next) s = some (stop_locked s.current e next s)
step free (probed n) s = some (note_ready n s, none)
step (expecting n next) stop_goes_on s = some (expect_exit n next s)
step (reaping n next) (stop_ends r) s = reap n next r s
step _ (watching n e) s = watch_step (s.generations n).watch n e s
step _ received s = some (record s { reported = none }, none)
step _ _ s = none

unfoldable pub run : List Event → Supervisor → Supervisor
unfolding step
run [] s = s
run (e ∷ es) s = run es (elim (step s.lock e s) [ none ↦ s | some (t, _) ↦ t ])

-- `Healthy`.
unfoldable pub is_healthy : Supervisor → Bool
is_healthy s = s.healthy && elim s.current [ none ↦ false | some n ↦ not (s.generations n).ended ]
