-- ===== src/Manager/Run/Traces.antt =====
-- The services that `run` has started and has not asked to stop.
use mathlib.Core.Path.{subst}
use cf_herdr_poc.Base.{
  String, Bool, true, false, not, ◌&&◌, ◌||◌, ◌≡◌, inl, inr, Option, List, [], ◌∷◌, Err, arith, sym,
  ap, is_some, if◌then◌else◌, Option-cases,
}
use cf_herdr_poc.Base.Exec.{Exec}
use cf_herdr_poc.Base.Does.{Does, Does-raise, Does-catch, ◌then_do◌}
use cf_herdr_poc.Manager.Run.{
  Service, herdr, collie, reconciler, web, Call, setting_up, starting, awaiting, stopping,
  watching_pack, waiting, canceling, closing_api, Entry, Process, attempt, perform, ignore, launch,
  naming, or_undo,
}

abbrev pub same_service : Service → Service → Bool
same_service herdr herdr = true
same_service collie collie = true
same_service reconciler reconciler = true
same_service web web = true
same_service _ _ = false

abbrev pub wanted_after : Service → Call → Bool → Bool → Bool
wanted_after s (starting r) good before = if same_service s r && good then true else before
wanted_after s (stopping r) good before = if same_service s r then false else before
wanted_after s _ good before = before

-- The service was started by a call of `run`, without an error, and `run` has not called its stop since
-- then. What that stop returns does not count: one that fails may leave the service alive.
abbrev pub wanted : Service → List Entry → Bool
wanted s [] = false
wanted s (e ∷ earlier) = wanted_after s e.call e.good (wanted s earlier)

-- Each service that is wanted stands upon one that is wanted.
abbrev pub stacked : List Entry → Bool
stacked calls =
    (not (wanted collie calls) || wanted herdr calls)
    && (not (wanted reconciler calls) || wanted collie calls)
    && (not (wanted web calls) || wanted reconciler calls)

-- This holds now and held behind each earlier call.
abbrev pub always_stacked : List Entry → Bool
always_stacked [] = true
always_stacked (e ∷ earlier) = stacked (e ∷ earlier) && always_stacked earlier

abbrev pub Up : Bool → Bool → Bool → Bool → List Entry → Type 0
Up h c r w calls =
    (wanted herdr calls ≡ h)
    × (wanted collie calls ≡ c)
    × (wanted reconciler calls ≡ r)
    × (wanted web calls ≡ w)
    × (always_stacked calls ≡ true)

-- A call that starts and stops nothing.
abbrev pub is_neutral : Call → Bool
is_neutral (starting s) = false
is_neutral (stopping s) = false
is_neutral _ = true

abbrev pub fits : Bool → Bool → Bool → Bool → Bool
fits h c r w = (not c || h) && (not r || c) && (not w || r)

abbrev pub noted : Call → Bool → List Entry → List Entry
noted call good calls = record { call = call; good = good } ∷ calls

pub neutral-Up :
    (call : Call) (good : Bool) (calls : List Entry) (h c r w : Bool)
    → is_neutral call ≡ true
    → fits h c r w ≡ true
    → Up h c r w calls
    → Up h c r w (noted call good calls)
neutral-Up (setting_up x) good calls h c r w n k u = ground arith
neutral-Up (starting x) good calls h c r w n k u = cc
neutral-Up (awaiting x) good calls h c r w n k u = ground arith
neutral-Up (stopping x) good calls h c r w n k u = cc
neutral-Up watching_pack good calls h c r w n k u = ground arith
neutral-Up waiting good calls h c r w n k u = ground arith
neutral-Up canceling good calls h c r w n k u = ground arith
neutral-Up closing_api good calls h c r w n k u = ground arith

abbrev pub Down : List Entry → Type 0
Down = Up false false false false

abbrev pub HerdrUp : List Entry → Type 0
HerdrUp = Up true false false false

abbrev pub CollieUp : List Entry → Type 0
CollieUp = Up true true false false

abbrev pub ReconcilerUp : List Entry → Type 0
ReconcilerUp = Up true true true false

abbrev pub AllUp : List Entry → Type 0
AllUp = Up true true true true

abbrev pub At : {W : Type 0} → (List Entry → Type 0) → Process W → Type 0
At P p = P p.calls

module _ {W : Type 0} (answer : Call → W → W × Option Err) where
  abbrev pub good_of : Option Err → Bool
  good_of e = not (is_some e)

  pub counted :
      (Q : List Entry → Type 0) (call : Call) (p : Process W) (good : Bool)
      → good_of (answer call p.world).1 ≡ good
      → Q (noted call good p.calls)
      → At Q (attempt answer call p).0
  unfolding attempt
  counted Q call p good e h = subst (λ b. Q (noted call b p.calls)) (sym e) h

  pub perform-Does :
      (P Q R : List Entry → Type 0) (call : Call)
      → ((calls : List Entry) → P calls → Q (noted call true calls))
      → ((calls : List Entry) → P calls → R (noted call false calls))
      → Does (At P) (At Q) (At R) (perform answer call)
  unfolding perform attempt
  perform-Does P Q R call f g = record {
    good = λ p a h e. elim (Option-cases (answer call p.world).1) [
      | inl x ↦ rw (x, perform, attempt) (counted Q call p true (ap good_of x) (f p.calls h))
      | inr x ↦ let q = rw (x.1, perform, attempt) at e in cc
    ];
    bad = λ p a h e. elim (Option-cases (answer call p.world).1) [
      | inl x ↦ let q = rw (x, perform, attempt) at e in cc
      | inr x ↦ rw (x.1, perform, attempt) (counted R call p false (ap good_of x.1) (g p.calls h))
    ];
  }

  pub attempt-step :
      (P Q : List Entry → Type 0) (call : Call) (p : Process W)
      → ((good : Bool) (calls : List Entry) → P calls → Q (noted call good calls))
      → At P p
      → At Q (attempt answer call p).0
  unfolding attempt
  attempt-step P Q call p f h = f _ p.calls h

  pub ignore-Does :
      (P Q R : List Entry → Type 0) (call : Call)
      → ((good : Bool) (calls : List Entry) → P calls → Q (noted call good calls))
      → Does (At P) (At Q) (At R) (ignore answer call)
  unfolding ignore
  ignore-Does P Q R call f = record {
    good = λ p a h e. attempt-step P Q call p f h;
    bad = λ p e h q. cc;
  }

  pub launch-Does :
      (P Q R : List Entry → Type 0) (call : Call)
      → ((calls : List Entry) → P calls → Q (noted call true calls))
      → Does (At P) (At Q) (At R) (launch answer call)
  unfolding launch
  launch-Does P Q R call f = record { good = λ p a h e. f p.calls h; bad = λ p e h q. cc }

  pub naming-Does :
      {P Q R : Process W → Type 0} {m : Exec (Process W) Err (Unit {0})} (text : String)
      → Does P Q R m
      → Does P Q R (naming answer text m)
  naming-Does text h = Does-catch _ _ h (λ e. Does-raise _)

  pub or_undo-Does :
      {P Q R T : Process W → Type 0} {m later : Exec (Process W) Err (Unit {0})} (text : String)
      → Does P Q R m
      → Does R T T later
      → Does P Q T (or_undo answer text m later)
  or_undo-Does text h k = Does-catch _ _ h (λ e. k then_do Does-raise _)
