-- ===== src/Manager/Monitor/Debounced.antt =====
-- A restart comes only for a change that was first noted the debounce ago or earlier.
use mathlib.Core.Path.{subst}
use cf_herdr_poc.Base.{
  ℕ, ◌+◌, ◌≤◌, ◌<◌, Bytes, true, false, ◌≡◌, refl, ◌⊎◌, inl, inr, Option, List, [], ◌∷◌, Err, arith,
  sym, ap, ◌∙◌, Bool-cases, Option-cases, bytes_eq, bytes_eq-eq, is_nil, ltb,
}
use cf_herdr_poc.Manager.Monitor.{
  Monitor, Tick, idle, called, new_monitor, restart_after_change, tick, watch,
}

-- A tick that shows no other change than `x`.
abbrev pub Quiet : Bytes → Bytes → Tick → Type 0
Quiet last x t = (is_nil t.current ≡ true) ⊎ (t.current ≡ last) ⊎ (t.current ≡ x)

-- An earlier tick showed `x` at such a time, and those behind it no other change.
abbrev pub Seen : Bytes → Bytes → (ℕ → Type 0) → List Tick → Type 0
Seen last x At [] = ⊥
Seen last x At (t ∷ earlier) =
    ((t.current ≡ x) × At t.now) ⊎ (Quiet last x t × Seen last x At earlier)

Seen-imp :
    (last x : Bytes) (At Then : ℕ → Type 0)
    → ((n : ℕ) → At n → Then n)
    → (ts : List Tick) → Seen last x At ts
    → Seen last x Then ts
Seen-imp last x At Then f [] h = h
Seen-imp last x At Then f (t ∷ ts) (inl h) = inl (h.0, f t.now h.1)
Seen-imp last x At Then f (t ∷ ts) (inr h) = inr (h.0, Seen-imp last x At Then f ts h.1)

abbrev Noted : List Tick → Monitor → Type 0
Noted ts s = is_nil s.pending ≡ false → Seen s.last s.pending (λ n. n ≡ s.changed_at) ts

-- The change is due for a restart.
pub record IsDue (d : ℕ) (t : Tick) (s : Monitor) : Type 0 where
  pub filled : is_nil t.current ≡ false
  pub changed : bytes_eq t.current s.last ≡ false
  pub kept : s.pending ≡ t.current
  pub late : s.changed_at + d ≤ t.now

-- The tick changes nothing.
abbrev pub Waits : ℕ → Tick → Monitor → Type 0
Waits d t s =
    (is_nil t.current ≡ true)
    ⊎ (t.current ≡ s.last)
    ⊎ ((t.current ≡ s.pending) × (t.now < s.changed_at + d))

-- The tick shows a new change.
abbrev pub IsNew : Tick → Monitor → Type 0
IsNew t s = (bytes_eq t.current s.last ≡ false) × (bytes_eq s.pending t.current ≡ false)

Waits-Quiet : (d : ℕ) (t : Tick) (s : Monitor) → Waits d t s → Quiet s.last s.pending t
Waits-Quiet d t s (inl h) = inl h
Waits-Quiet d t s (inr (inl h)) = inr (inl h)
Waits-Quiet d t s (inr (inr h)) = inr (inr h.0)

-- What a tick does.
pub tick_cases :
    (d : ℕ) (t : Tick) (s : Monitor)
    → ((tick d t s ≡ (s, idle)) × Waits d t s)
      ⊎ ((tick d t s ≡ (record s { pending = t.current; changed_at = t.now }, idle)) × IsNew t s)
      ⊎ ((tick d t s ≡ restart_after_change t s) × IsDue d t s)
unfolding tick
tick_cases d t s = elim (Bool-cases (is_nil t.current)) [
  | inl p ↦ inl (rw p refl, inl p)
  | inr p ↦ elim (Bool-cases (bytes_eq t.current s.last)) [
    | inl q ↦ inl (rw p (rw q refl), inr (inl (bytes_eq-eq _ _ q)))
    | inr q ↦ elim (Bool-cases (bytes_eq s.pending t.current)) [
      | inr r ↦ inr (inl (rw p (rw q (rw r refl)), (q, r)))
      | inl r ↦
          let same = bytes_eq-eq _ _ r in
          elim (Bool-cases (ltb t.now (s.changed_at + d))) [
            | inl m ↦ inl (rw p (rw q (rw r (rw m refl))), inr (inr (sym same, ground arith)))
            | inr m ↦ inr (
                inr (
                  rw p (rw q (rw r (rw m refl))),
                  record { filled = p; changed = q; kept = same; late = ground arith },
                ))
          ]
    ]
  ]
]

restart_cases :
    (t : Tick) (s : Monitor)
    → ((restart_after_change t s).0 ≡ s) ⊎ ((restart_after_change t s).0.pending ≡ [])
unfolding restart_after_change
restart_cases t s = elim (Option-cases t.restart) [
  | inr p ↦ inl (rw (p.1, restart_after_change) refl)
  | inl p ↦ elim (Option-cases t.ready) [
    | inr q ↦ inl (rw (p, q.1, restart_after_change) refl)
    | inl q ↦ inr (rw (p, q, restart_after_change) refl)
  ]
]

unpended : (ts : List Tick) (s : Monitor) → s.pending ≡ [] → Noted ts s
unpended ts s e p = let q : is_nil s.pending ≡ true = rw e refl in cc

tick-Noted :
    (d : ℕ) (t : Tick) (ts : List Tick) (s : Monitor) → Noted ts s → Noted (t ∷ ts) (tick d t s).0
tick-Noted d t ts s h = elim (tick_cases d t s) [
  | inl p ↦ subst (λ r. Noted (t ∷ ts) r.0) (sym p.0) (λ q. inr (Waits-Quiet d t s p.1, h q))
  | inr (inl p) ↦ subst (λ r. Noted (t ∷ ts) r.0) (sym p.0) (λ q. inl (refl, refl))
  | inr (inr p) ↦
      subst (λ r. Noted (t ∷ ts) r.0) (sym p.0)
        (elim (restart_cases t s) [
          | inl e ↦ subst (Noted (t ∷ ts)) (sym e) (λ q. inr (inr (inr (sym p.1.kept)), h q))
          | inr e ↦ unpended (t ∷ ts) (restart_after_change t s).0 e
        ])
]

watch-Noted : (d : ℕ) (first : Bytes) (ts : List Tick) → Noted ts (watch d ts (new_monitor first))
unfolding watch new_monitor
watch-Noted d first [] = λ p. cc
watch-Noted d first (t ∷ ts) = tick-Noted d t ts _ (watch-Noted d first ts)

called-IsDue :
    (d : ℕ) (t : Tick) (s : Monitor) (e : Option Err) → (tick d t s).1 ≡ called e → IsDue d t s
called-IsDue d t s e h = elim (tick_cases d t s) [
  | inl p ↦ let q = sym (ap (λ r. r.1) p.0) ∙ h in cc
  | inr (inl p) ↦ let q = sym (ap (λ r. r.1) p.0) ∙ h in cc
  | inr (inr p) ↦ p.1
]

-- What a restart needs: the state is there and is not the last one, and it was there at a tick of
-- the debounce ago or earlier, behind which no other change was seen.
pub record IsDebounced (d : ℕ) (t : Tick) (ts : List Tick) (s : Monitor) : Type 0 where
  pub filled : is_nil t.current ≡ false
  pub changed : bytes_eq t.current s.last ≡ false
  pub seen : Seen s.last t.current (λ n. n + d ≤ t.now) ts

-- Behind any ticks, Collie is restarted at a tick only if the fingerprint is not empty and is not
-- that of the last restart (or the first one), and an earlier tick showed it, the debounce before
-- or more, and no tick since then showed a third fingerprint. Ticks since then may have shown no
-- fingerprint, or the last one: this does not say that the change was there all the time.
pub watch-IsDebounced :
    (d : ℕ) (first : Bytes) (ts : List Tick) (t : Tick) (e : Option Err)
    → (tick d t (watch d ts (new_monitor first))).1 ≡ called e
    → IsDebounced d t ts (watch d ts (new_monitor first))
watch-IsDebounced d first ts t e h =
    let s = watch d ts (new_monitor first) in
    let due = called-IsDue d t s e h in
    let pending : is_nil s.pending ≡ false = rw due.kept due.filled in
    let noted : Seen s.last t.current (λ n. n ≡ s.changed_at) ts =
      subst (λ x. Seen s.last x (λ n. n ≡ s.changed_at) ts) due.kept
        (watch-Noted d first ts pending) in
    record {
      filled = due.filled;
      changed = due.changed;
      seen = Seen-imp s.last t.current _ _ (λ n p. rw p due.late) ts noted;
    }
