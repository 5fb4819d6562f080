-- ===== src/Manager/Monitor/Settled.antt =====
-- A change that stays leads to a restart.
use mathlib.Core.Path.{subst}
use cf_herdr_poc.Base.{
  ℕ, ◌+◌, ◌≤◌, Bytes, true, false, ◌≡◌, refl, ◌⊎◌, inl, inr, none, List, [], ◌∷◌, ◌++◌, All, arith,
  sym, ap, ◌∙◌, Option-cases, bytes_eq, bytes_eq_refl, is_nil,
}
use cf_herdr_poc.Manager.Monitor.{Monitor, Tick, called, restart_after_change, tick, watch}
use cf_herdr_poc.Manager.Monitor.Debounced.{IsNew, tick_cases}

-- The change is the last one, or has been noted by then.
abbrev Noticed : Bytes → ℕ → Monitor → Type 0
Noticed x by s = (s.last ≡ x) ⊎ ((s.pending ≡ x) × (s.changed_at ≤ by))

not_filled : (x : Bytes) → is_nil x ≡ false → is_nil x ≡ true → ⊥
not_filled x h k = cc

differs : (a b : Bytes) → bytes_eq a b ≡ false → a ≡ b → ⊥
differs a b h e = let q : bytes_eq a b ≡ true = rw e (bytes_eq_refl b) in cc

-- A restart changes nothing or has been made for the fingerprint of the tick.
restart_ends :
    (t : Tick) (s : Monitor)
    → ((restart_after_change t s).0 ≡ s) ⊎ ((restart_after_change t s).0.last ≡ t.current)
unfolding restart_after_change
restart_ends t s = elim (Option-cases t.restart) [
  | inr p ↦ inl (rw (p.1, restart_after_change) refl)
  | inl p ↦ elim (Option-cases t.ready) [
    | inr q ↦ inl (rw (p, q.1, restart_after_change) refl)
    | inl q ↦ inr (rw (p, q, restart_after_change) refl)
  ]
]

-- Only a restart that succeeds changes the last fingerprint.
restart_last :
    (t : Tick) (s : Monitor)
    → ((restart_after_change t s).0.last ≡ s.last)
      ⊎ (((restart_after_change t s).0.last ≡ t.current)
          × ((restart_after_change t s).1 ≡ called none))
unfolding restart_after_change
restart_last t s = elim (Option-cases t.restart) [
  | inr p ↦ inl (rw (p.1, restart_after_change) refl)
  | inl p ↦ elim (Option-cases t.ready) [
    | inr q ↦ inl (rw (p, q.1, restart_after_change) refl)
    | inl q ↦ inr (rw (p, q, restart_after_change) (refl, refl))
  ]
]

restart_done :
    (t : Tick) (s : Monitor)
    → t.restart ≡ none
    → t.ready ≡ none
    → (restart_after_change t s).0.last ≡ t.current
unfolding restart_after_change
restart_done t s p q = rw (p, q, restart_after_change) refl

module _ (d : ℕ) (x : Bytes) (filled : is_nil x ≡ false) where
  -- A tick that shows `x` has been noticed by `by`, if what was noted before it was.
  tick-Noticed :
      (t : Tick) (by : ℕ) (s : Monitor)
      → t.current ≡ x
      → s.changed_at ≤ by
      → (IsNew t s → t.now ≤ by)
      → Noticed x by (tick d t s).0
  tick-Noticed t by s e c new = elim (tick_cases d t s) [
    | inl p ↦
        subst (λ r. Noticed x by r.0) (sym p.0)
          (elim p.1 [
            | inl q ↦ absurd (not_filled x filled (rw e at q))
            | inr (inl q) ↦ inl (sym q ∙ e)
            | inr (inr q) ↦ inr (sym q.0 ∙ e, c)
          ])
    | inr (inl p) ↦ subst (λ r. Noticed x by r.0) (sym p.0) (inr (e, new p.1))
    | inr (inr p) ↦
        subst (λ r. Noticed x by r.0) (sym p.0)
          (elim (restart_ends t s) [
            | inl q ↦ subst (Noticed x by) (sym q) (inr (p.1.kept ∙ e, c))
            | inr q ↦ inl (q ∙ e)
          ])
  ]

  later-Noticed :
      (t : Tick) (by : ℕ) (s : Monitor)
      → t.current ≡ x
      → Noticed x by s
      → Noticed x by (tick d t s).0
  later-Noticed t by s e (inr n) =
      tick-Noticed t by s e n.1 (λ m. absurd (differs s.pending t.current m.1 (n.0 ∙ sym e)))
  later-Noticed t by s e (inl n) = elim (tick_cases d t s) [
    | inl p ↦ subst (λ r. Noticed x by r.0) (sym p.0) (inl n)
    | inr (inl p) ↦ absurd (differs t.current s.last p.1.0 (e ∙ sym n))
    | inr (inr p) ↦ absurd (differs t.current s.last p.1.changed (e ∙ sym n))
  ]

  last-Noticed :
      (t : Tick) (by : ℕ) (s : Monitor)
      → t.current ≡ x
      → by + d ≤ t.now
      → t.restart ≡ none
      → t.ready ≡ none
      → Noticed x by s
      → (tick d t s).0.last ≡ x
  last-Noticed t by s e late r y n = elim (tick_cases d t s) [
    | inl p ↦
        subst (λ m. m.0.last ≡ x) (sym p.0)
          (elim p.1 [
            | inl q ↦ absurd (not_filled x filled (rw e at q))
            | inr (inl q) ↦ sym q ∙ e
            | inr (inr q) ↦ elim n [ inl k ↦ k | inr k ↦ absurd (omega (arith, q.1, k.1)) ]
          ])
    | inr (inl p) ↦ elim n [
      | inl k ↦ absurd (differs t.current s.last p.1.0 (e ∙ sym k))
      | inr k ↦ absurd (differs s.pending t.current p.1.1 (k.0 ∙ sym e))
    ]
    | inr (inr p) ↦ subst (λ m. m.0.last ≡ x) (sym p.0) (restart_done t s r y ∙ e)
  ]

  watch-Noticed :
      (first : Tick) (ts : List Tick) (s : Monitor)
      → first.current ≡ x
      → All (λ t. t.current ≡ x) ts
      → s.changed_at ≤ first.now
      → Noticed x first.now (watch d (ts ++ first ∷ []) s)
  unfolding watch
  watch-Noticed first [] s e h c = tick-Noticed first first.now s e c (λ m. omega arith)
  watch-Noticed first (t ∷ ts) s e h c =
      later-Noticed t first.now _ h.0 (watch-Noticed first ts s e h.1 c)

  -- At one of the ticks, which showed `x`, Collie was restarted, and it was ready.
  abbrev pub HasRestart : List Tick → Monitor → Type 0
  HasRestart [] s = ⊥
  HasRestart (t ∷ ts) s =
      ((t.current ≡ x) × ((tick d t (watch d ts s)).1 ≡ called none)) ⊎ HasRestart ts s

  tick-last :
      (t : Tick) (s : Monitor)
      → ((tick d t s).0.last ≡ s.last)
        ⊎ (((tick d t s).0.last ≡ t.current) × ((tick d t s).1 ≡ called none))
  tick-last t s = elim (tick_cases d t s) [
    | inl p ↦ inl (ap (λ r. r.0.last) p.0)
    | inr (inl p) ↦ inl (ap (λ r. r.0.last) p.0)
    | inr (inr p) ↦ elim (restart_last t s) [
      | inl q ↦ inl (ap (λ r. r.0.last) p.0 ∙ q)
      | inr q ↦ inr (ap (λ r. r.0.last) p.0 ∙ q.0, ap (λ r. r.1) p.0 ∙ q.1)
    ]
  ]

  watch-HasRestart :
      (ts : List Tick) (s : Monitor) → (watch d ts s).last ≡ x → (s.last ≡ x) ⊎ HasRestart ts s
  unfolding watch
  watch-HasRestart [] s h = inl h
  watch-HasRestart (t ∷ ts) s h = elim (tick-last t (watch d ts s)) [
    | inl p ↦ elim (watch-HasRestart ts s (sym p ∙ h)) [ inl q ↦ inl q | inr q ↦ inr (inr q) ]
    | inr p ↦ inr (inl (sym p.0 ∙ h, p.1))
  ]

  -- If the fingerprint is not empty and all ticks from `first` to `final` show it, the clock did
  -- not go back behind the last change, `final` comes the debounce after `first` or later, and
  -- `Restart` and `Ready` return no error at it, then behind these ticks the fingerprint is the last
  -- one; and it was so before them, or at one of them Collie was restarted and was ready.
  pub watch-settles :
      (first final : Tick) (between : List Tick) (s : Monitor)
      → All (λ t. t.current ≡ x) (final ∷ first ∷ between)
      → s.changed_at ≤ first.now
      → first.now + d ≤ final.now
      → final.restart ≡ none
      → final.ready ≡ none
      → ((watch d (final ∷ between ++ first ∷ []) s).last ≡ x)
        × ((s.last ≡ x) ⊎ HasRestart (final ∷ between ++ first ∷ []) s)
  unfolding watch
  watch-settles first final between s (ef, (e1, eb)) c late r y =
      let all = final ∷ between ++ first ∷ [] in
      let settled : (watch d all s).last ≡ x =
        last-Noticed final first.now _ ef late r y (watch-Noticed first between s e1 eb c) in
      (settled, watch-HasRestart all s settled)
