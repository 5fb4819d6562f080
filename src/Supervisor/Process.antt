-- ===== src/Supervisor/Process.antt =====
-- `execProcess.Stop` of internal/supervisor/collie.go: the process group of a child is signalled.
use cf_herdr_poc.Base.{
  ℕ, zero, suc, ◌+◌, ◌*◌, ◌≤◌, Bool, true, false, ◌≡◌, refl, inl, inr, Option, none, some, Err,
  arith, Bool-cases, Option-cases, if◌then◌else◌, ltb,
}
use Prim.Native.Nat.{◌/◌}

pub data Signal : Type 0 where
  term : Signal
  null : Signal
  kill : Signal

-- The group, the clock and `time.Sleep`. `no_process` tells `ESRCH`.
pub record Group (W : Type 0) : Type 0 where
  pub signal : Signal → W → W × Option Err
  pub no_process : Err → Bool
  pub now : W → ℕ
  pub sleep : ℕ → W → W

-- 10 milliseconds.
abbrev pub pause : ℕ
pause = 10000000

module _ {W : Type 0} (g : Group W) where
  abbrev pub is_gone : Option Err → Bool
  is_gone none = false
  is_gone (some e) = g.no_process e

  -- An error other than `ESRCH`.
  abbrev pub real_error : Option Err → Option Err
  real_error none = none
  real_error (some e) = if g.no_process e then none else some e

  -- The loop up to the deadline: whether the group has gone. `none` means that the fuel ran out.
  unfoldable pub wait_gone : ℕ → ℕ → W → Option (W × Bool)
  wait_gone zero deadline w = none
  wait_gone (suc fuel) deadline w =
      let (u, e) = g.signal null w in
      let rest = wait_gone fuel deadline (g.sleep pause u) in
      if ltb (g.now w) deadline
      then (if is_gone e then some (u, true) else rest)
      else some (w, false)

  unfoldable pub kill_unless : Bool → W → W × Option Err
  kill_unless true w = (w, none)
  kill_unless false w = let (u, e) = g.signal kill w in (u, real_error e)

  unfoldable pub stop_group : ℕ → W → Option (W × Option Err)
  unfolding wait_gone kill_unless
  stop_group timeout w =
      let (u, e) = g.signal term w in
      elim (real_error e) [
        | some x ↦ some (u, some x)
        | none ↦ elim (wait_gone (suc (suc (timeout / pause))) (g.now u + timeout) u) [
          | none ↦ none
          | some r ↦ some (kill_unless r.1 r.0)
        ]
      ]

  -- `Stop`, of a process that was started or not.
  unfoldable pub stop_process : Bool → ℕ → W → Option (W × Option Err)
  unfolding stop_group
  stop_process started timeout w =
      let stopped = stop_group timeout w in if started then stopped else some (w, none)

  -- A sleep takes its time, and the clock does not go back.
  pub record IsClock : Type 0 where
    pub slept : (n : ℕ) (w : W) → g.now w + n ≤ g.now (g.sleep n w)
    pub signalled : (s : Signal) (w : W) → g.now w ≤ g.now (g.signal s w).0

  module _ (clock : IsClock) where
    wait_gone-ends :
        (k deadline : ℕ) (w : W)
        → deadline ≤ g.now w + k * pause
        → (r : W × Bool) × (wait_gone (suc k) deadline w ≡ some r)
    unfolding wait_gone
    wait_gone-ends zero deadline w h = ((w, false), ground arith)
    wait_gone-ends (suc k) deadline w h = elim (Bool-cases (ltb (g.now w) deadline)) [
      | inr p ↦ ((w, false), rw p refl)
      | inl p ↦ elim (Bool-cases (is_gone (g.signal null w).1)) [
        | inl q ↦ (((g.signal null w).0, true), rw p (rw q refl))
        | inr q ↦
            let u = (g.signal null w).0 in
            let (r, e) =
              wait_gone-ends k deadline (g.sleep pause u)
                (omega (arith, clock.slept pause u, clock.signalled null w, h)) in
            (r, rw p (rw q e))
      ]
    ]

    stop_group-ends : (timeout : ℕ) (w : W) → (r : W × Option Err) × (stop_group timeout w ≡ some r)
    unfolding stop_group
    stop_group-ends timeout w =
        let u = (g.signal term w).0 in
        elim (Option-cases (real_error (g.signal term w).1)) [
          | inr p ↦ ((u, some p.0), rw (p.1, stop_group) refl)
          | inl p ↦
              let (r, e) =
                wait_gone-ends (suc (timeout / pause)) (g.now u + timeout) u (omega arith) in
              (kill_unless r.1 r.0, rw (p, stop_group) (rw e refl))
        ]

    -- If a sleep takes its time and the clock does not go back, then `Stop` returns: its loop ends
    -- within `timeout / 10ms + 2` rounds, whatever the signals return.
    pub stop_process-ends :
        (started : Bool) (timeout : ℕ) (w : W)
        → (r : W × Option Err) × (stop_process started timeout w ≡ some r)
    unfolding stop_process
    stop_process-ends true timeout w = stop_group-ends timeout w
    stop_process-ends false timeout w = ((w, none), refl)
