-- ===== src/Manager/Monitor.antt =====
-- cmd/manager/pack_monitor.go: Collie is restarted when the state of the pack has changed.
pub mod Debounced
pub mod Settled
use cf_herdr_poc.Base.{
  ℕ, ◌+◌, Bytes, Bool, true, false, not, ◌||◌, Option, none, some, List, [], ◌∷◌, Err, wrap,
  if◌then◌else◌, ltb, bytes_eq, is_nil,
}

-- The variables of the loop.
pub record Monitor : Type 0 where
  pub last : Bytes
  pub pending : Bytes
  pub changed_at : ℕ

-- What a tick meets: the fingerprint of the file (empty where it cannot be read), the time, and
-- what `Restart` and `Ready` of Collie would return.
pub record Tick : Type 0 where
  pub current : Bytes
  pub now : ℕ
  pub restart : Option Err
  pub ready : Option Err

-- `called`: Collie was restarted, and the error was reported if there is one.
pub data Action : Type 0 where
  idle : Action
  called : Option Err → Action

unfoldable pub new_monitor : Bytes → Monitor
new_monitor first = record { last = first; pending = []; changed_at = 0 }

unfoldable pub restart_after_change : Tick → Monitor → Monitor × Action
restart_after_change t s = elim t.restart [
  | some e ↦ (s, called (some (wrap "restart Collie after Pack state change" e)))
  | none ↦ elim t.ready [
    | some e ↦ (s, called (some (wrap "wait for Collie after Pack state change" e)))
    | none ↦ (record s { last = t.current; pending = [] }, called none)
  ]
]

unfoldable pub tick : ℕ → Tick → Monitor → Monitor × Action
unfolding restart_after_change
tick debounce t s =
    if is_nil t.current || bytes_eq t.current s.last
    then (s, idle)
    else if not (bytes_eq s.pending t.current)
    then (record s { pending = t.current; changed_at = t.now }, idle)
    else if ltb t.now (s.changed_at + debounce)
    then (s, idle)
    else restart_after_change t s

-- The loop, over the ticks so far, the latest first.
unfoldable pub watch : ℕ → List Tick → Monitor → Monitor
unfolding tick
watch debounce [] s = s
watch debounce (t ∷ earlier) s = (tick debounce t (watch debounce earlier s)).0
