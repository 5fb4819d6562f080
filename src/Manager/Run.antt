-- ===== src/Manager/Run.antt =====
-- `run` of cmd/manager/main.go: what it calls in which order, and what it stops.
pub mod Traces
pub mod Orderly
use cf_herdr_poc.Base.{
  String, Bool, true, false, not, ◌&&◌, ◌||◌, Option, none, some, List, [], ◌∷◌, Err, wrap, join,
  is_some, if◌then◌else◌,
}
use cf_herdr_poc.Base.Exec.{Result, ok, err, Exec, raise, ◌>>=◌, ◌>>◌, catch}

-- `web` is the HTTP server.
pub data Service : Type 0 where
  herdr collie reconciler web : Service

-- What comes before the first service is started.
pub data Step : Type 0 where
  load_config validate_config canonicalize_paths validate_runtime ensure_dirs : Step
  check_executable log_in split_address load_state build_handler : Step

-- `waiting` is `waitForShutdown`, `canceling` the `cancel` of its context.
pub data Call : Type 0 where
  setting_up : Step → Call
  starting awaiting stopping : Service → Call
  watching_pack waiting canceling closing_api : Call

-- A call and whether it returned no error.
pub record Entry : Type 0 where
  pub call : Call
  pub good : Bool

-- The calls so far, the latest first.
pub record Process (W : Type 0) : Type 0 where
  pub world : W
  pub calls : List Entry

abbrev pub join_two : Option Err → Option Err → Option Err
join_two none d = d
join_two (some e) d = some (join e d)

-- `errors.Join`
abbrev pub join_all : List (Option Err) → Option Err
join_all [] = none
join_all (e ∷ es) = join_two e (join_all es)

-- What each call returns is a parameter.
module _ {W : Type 0} (answer : Call → W → W × Option Err) where
  unfoldable pub attempt : Call → Process W → Process W × Option Err
  attempt c p =
      let (u, e) = answer c p.world in
      (record { world = u; calls = record { call = c; good = not (is_some e) } ∷ p.calls }, e)

  unfoldable pub perform : Call → Exec (Process W) Err (Unit {0})
  unfolding attempt
  perform c p = let (u, e) = attempt c p in elim e [ none ↦ (ok tt, u) | some x ↦ (err x, u) ]

  -- A call whose error is dropped.
  unfoldable pub ignore : Call → Exec (Process W) Err (Unit {0})
  unfolding attempt
  ignore c p = (ok tt, (attempt c p).0)

  -- A call that returns nothing.
  unfoldable pub launch : Call → Exec (Process W) Err (Unit {0})
  launch c p =
      let u = (answer c p.world).0 in
      (ok tt, record { world = u; calls = record { call = c; good = true } ∷ p.calls })

  abbrev pub naming : String → Exec (Process W) Err (Unit {0}) → Exec (Process W) Err (Unit {0})
  naming text m = catch m (λ e. raise (wrap text e))

  -- `if err := m; err != nil { later; return fmt.Errorf("…: %w", err) }`
  abbrev pub or_undo :
      String
      → Exec (Process W) Err (Unit {0})
      → Exec (Process W) Err (Unit {0})
      → Exec (Process W) Err (Unit {0})
  or_undo text m later = catch m (λ e. later >> raise (wrap text e))

  unfoldable pub set_up : Exec (Process W) Err (Unit {0})
  unfolding perform
  set_up = do
    naming "load manager config" (perform (setting_up load_config))
    naming "validate manager config" (perform (setting_up validate_config))
    perform (setting_up canonicalize_paths)
    naming "validate manager sandbox runtime" (perform (setting_up validate_runtime))
    naming "initialize manager runtime directories" (perform (setting_up ensure_dirs))
    perform (setting_up check_executable)
    naming "authenticate manager CF CLI" (perform (setting_up log_in))
    perform (setting_up split_address)
    naming "load sandbox state" (perform (setting_up load_state))
    naming "build HTTP gateway" (perform (setting_up build_handler))

  unfoldable pub start_services : Exec (Process W) Err (Unit {0})
  unfolding perform ignore launch
  start_services = do
    naming "start Herdr" (perform (starting herdr))
    or_undo "wait for Herdr" (perform (awaiting herdr)) (ignore (stopping herdr))
    or_undo "start lead Collie" (perform (starting collie)) (ignore (stopping herdr))
    or_undo "wait for lead Collie" (perform (awaiting collie))
        (ignore (stopping collie) >> ignore (stopping herdr))
    launch watching_pack
    launch (starting reconciler)
    launch (starting web)

  -- `stopAll`
  unfoldable pub stop_all : Process W → Process W × Option Err
  unfolding attempt
  stop_all p =
      let (p1, http_error) = attempt (stopping web) p in
      let (p2, api_error) = attempt closing_api p1 in
      let p3 = (attempt (stopping reconciler) p2).0 in
      let (p4, collie_error) = attempt (stopping collie) p3 in
      let (p5, herdr_error) = attempt (stopping herdr) p4 in
      (p5, join_all (http_error ∷ api_error ∷ collie_error ∷ herdr_error ∷ []))

  abbrev pub cancel_if : Bool → Process W → Process W
  cancel_if true p = (attempt canceling p).0
  cancel_if false p = p

  -- The end of `run`.
  unfoldable pub shut_down : Exec (Process W) Err (Unit {0})
  unfolding attempt stop_all
  shut_down p =
      let (p1, serve_error) = attempt waiting p in
      let (p2, stop_error) = stop_all (cancel_if (is_some serve_error) p1) in
      elim (join_all (serve_error ∷ stop_error ∷ [])) [ none ↦ (ok tt, p2) | some e ↦ (err e, p2) ]

  unfoldable pub run : Exec (Process W) Err (Unit {0})
  unfolding set_up start_services shut_down
  run = do set_up; start_services; shut_down
