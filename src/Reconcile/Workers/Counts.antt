-- ===== src/Reconcile/Workers/Counts.antt =====
-- How many calls stand at a stage.
use cf_herdr_poc.Base.{
  ℕ, zero, suc, ◌+◌, ◌≤◌, String, Bool, true, false, ◌≡◌, some, List, [], ◌∷◌, if◌then◌else◌, arith,
  str_eq,
}
use cf_herdr_poc.Reconcile.Workers.{
  Stage, entering, admitted, working, finishing, done, Caller, pick, put,
}

abbrev pub bit : Bool → ℕ
bit true = 1
bit false = 0

abbrev pub count : (Caller → Bool) → List Caller → ℕ
count f [] = 0
count f (c ∷ cs) = bit (f c) + count f cs

-- The mutex `worker` is held.
abbrev pub holds : Caller → Bool
holds c = elim c.stage [ admitted ↦ true | working ↦ true | finishing ↦ true | _ ↦ false ]

abbrev pub works : Caller → Bool
works c = elim c.stage [ working ↦ true | _ ↦ false ]

abbrev pub engaged : Stage → Bool
engaged entering = false
engaged done = false
engaged _ = true

-- The call is under way for the name.
abbrev pub engaged_for : String → Caller → Bool
engaged_for name c = if str_eq name c.name then engaged c.stage else false

pub count-put :
    (f : Caller → Bool) (i : ℕ) (c d : Caller) (cs : List Caller)
    → pick i cs ≡ some c
    → count f (put i d cs) + bit (f c) ≡ count f cs + bit (f d)
unfolding pick put
count-put f i c d [] h = cc
count-put f zero c d (x ∷ cs) h = same (some_inj h)
  where
    some_inj : {x y : Caller} → some x ≡ some y → x ≡ y
    some_inj e = cc

    same : x ≡ c → (bit (f d) + count f cs) + bit (f c) ≡ (bit (f x) + count f cs) + bit (f d)
    same e = rw e (omega arith)
count-put f (suc i) c d (x ∷ cs) h = omega (arith, count-put f i c d cs h)

pub works-holds : (cs : List Caller) → count works cs ≤ count holds cs
works-holds [] = omega arith
works-holds (c ∷ cs) = omega (arith, one c.stage, works-holds cs)
  where
    one :
        (t : Stage)
        → bit (works (record { name = c.name; stage = t }))
          ≤ bit (holds (record { name = c.name; stage = t }))
    one working = omega arith
    one _ = omega arith
