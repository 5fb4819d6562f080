-- ===== src/Reconcile/Workers.antt =====
-- The locks of `ReconcileOne`: calls that run at the same time. A step of a call ends where it waits
-- for a mutex or gives one back; what the call does with the sandbox is one step, `working`.
use cf_herdr_poc.Base.{
  ℕ, zero, suc, ◌+◌, ◌-◌, String, Bool, true, false, Option, none, some, List, [], ◌∷◌, Assoc,
  lookup, insert, remove, if◌then◌else◌, ltb,
}
use cf_herdr_poc.Base.Exec.{maybe}
pub mod Counts
pub mod Exclusive

-- Where a call stands: before its first lock, before and behind `worker.Lock`, in the body of the
-- function, and before the two deferred functions and their locks.
pub data Stage : Type 0 where
  entering queued admitted working finishing leaving done : Stage

pub record Caller : Type 0 where
  pub name : String
  pub stage : Stage

-- `locked` is the mutex `worker`; `stateMu` is held within one step only.
pub record Workers : Type 0 where
  pub locked : Bool
  pub in_flight : Assoc Bool
  pub active : ℕ
  pub max_active : ℕ
  pub callers : List Caller

abbrev pub new_workers : Workers
new_workers = record { locked = false; in_flight = []; active = 0; max_active = 0; callers = [] }

-- `r.inFlight[name]`.
unfoldable pub is_in_flight : String → Assoc Bool → Bool
is_in_flight name m = elim (lookup name m) [ none ↦ false | some b ↦ b ]

unfoldable pub pick : ℕ → List Caller → Option Caller
pick i [] = none
pick zero (c ∷ cs) = some c
pick (suc i) (c ∷ cs) = pick i cs

unfoldable pub put : ℕ → Caller → List Caller → List Caller
put i d [] = []
put zero d (c ∷ cs) = d ∷ cs
put (suc i) d (c ∷ cs) = c ∷ put i d cs

abbrev pub goes : ℕ → String → Stage → Workers → Workers
goes i name stage s = record s { callers = put i (record { name = name; stage = stage }) s.callers }

unfoldable pub move : ℕ → String → Stage → Workers → Workers
move i name entering s =
    if is_in_flight name s.in_flight
    then goes i name done s
    else goes i name queued (record s { in_flight = insert name true s.in_flight })
move i name queued s = if s.locked then s else goes i name admitted (record s { locked = true })
move i name admitted s =
    let active = s.active + 1 in
    goes i name working (record s {
      active = active;
      max_active = if ltb s.max_active active then active else s.max_active;
    })
move i name working s = goes i name finishing (record s { active = s.active - 1 })
move i name finishing s = goes i name leaving (record s { locked = false })
move i name leaving s = goes i name done (record s { in_flight = remove name s.in_flight })
move i name done s = s

-- A goroutine calls `ReconcileOne`, or a call makes a step.
pub data Event : Type 0 where
  call : String → Event
  goes_on : ℕ → Event

unfoldable pub step : Event → Workers → Workers
unfolding move pick
step (call name) s = record s { callers = record { name = name; stage = entering } ∷ s.callers }
step (goes_on i) s = maybe (pick i s.callers) s (λ c. move i c.name c.stage s)

unfoldable pub run : List Event → Workers → Workers
run [] s = s
run (e ∷ es) s = run es (step e s)

-- `MaxConcurrent`.
unfoldable pub max_concurrent : Workers → ℕ
max_concurrent s = s.max_active
