-- ===== src/Cf/Inspect.antt =====
-- `InspectApp` of internal/cf/provider.go. `decodeJSON` at the two types that it is called with is
-- a parameter.
use Prim.Native.String.{◌++◌ as string_append}
use cf_herdr_poc.Base.{
  ℕ, String, Bytes, codes, Bool, true, false, not, ◌&&◌, Option, none, some, List, [], ◌∷◌, ◌≡◌,
  refl, ◌⊎◌, inl, inr, str_eq, Err, error_new, wrap, if◌then◌else◌, is_nil, is_some, ltb, length,
  ◌+◌, arith, Bool-cases, Option-cases, ◌∙◌,
}
use cf_herdr_poc.Base.Exec.{Result, ok, err, Result-cases}
use cf_herdr_poc.Reconcile.{App}
use cf_herdr_poc.Cf.{validate_guid}
use cf_herdr_poc.Cf.Execute.{Provider, Platform, Shell, execute}

-- An entry of the list of processes.
pub record Process : Type 0 where
  pub guid : String
  pub kind : String
  pub instances : Option ℕ

-- An entry of the statistics of a process.
pub record Instance : Type 0 where
  pub state : String
  pub routable : Bool

unfoldable pub note_instance : Instance → App → App
note_instance i app =
    if not (str_eq i.state "RUNNING")
    then record { running = false; ready = false }
    else if not i.routable
    then record app { ready = false }
    else app

unfoldable pub note_instances : List Instance → App → App
unfolding note_instance
note_instances [] app = app
note_instances (i ∷ is) app = note_instances is (note_instance i app)

abbrev too_few : Option ℕ → List Instance → Bool
too_few none is = false
too_few (some n) is = ltb (length is) n

-- What the statistics of a process make of the app.
unfoldable pub note_stats : Option ℕ → List Instance → App → App
unfolding note_instances
note_stats wanted is app =
    let seen = if is_nil is then record { running = false; ready = false } else app in
    note_instances is (if too_few wanted is then record seen { ready = false } else seen)

-- What the statistics show of an app that runs, and of one that is ready.
abbrev all_running : List Instance → Bool
all_running [] = true
all_running (i ∷ is) = str_eq i.state "RUNNING" && all_running is

abbrev all_routable : List Instance → Bool
all_routable [] = true
all_routable (i ∷ is) = str_eq i.state "RUNNING" && i.routable && all_routable is

abbrev pub verdict : Option ℕ → List Instance → App → App
verdict wanted is app = record {
  running = app.running && not (is_nil is) && all_running is;
  ready = app.ready && not (is_nil is) && not (too_few wanted is) && all_routable is;
}

routable_running : (is : List Instance) → all_routable is ≡ true → all_running is ≡ true
routable_running [] h = refl
routable_running (i ∷ is) h = ground (arith, routable_running is)

note_instances-verdict :
    (is : List Instance) (app : App)
    → note_instances is app
      ≡ record { running = app.running && all_running is; ready = app.ready && all_routable is }
unfolding note_instances note_instance
note_instances-verdict [] app = ground arith
note_instances-verdict (i ∷ is) app = elim (Bool-cases (str_eq i.state "RUNNING")) [
  | inl p ↦ elim (Bool-cases i.routable) [
    | inl r ↦ rw (p, note_instances) (rw r (note_instances-verdict is app ∙ ground (arith, p, r)))
    | inr r ↦
        rw (p, note_instances)
          (rw r (note_instances-verdict is (record app { ready = false }) ∙ ground (arith, p, r)))
  ]
  | inr p ↦
      rw (p, note_instances)
        (note_instances-verdict is (record { running = false; ready = false }) ∙ ground (arith, p))
]

-- After the statistics of a process the app runs if it ran before, there is an instance and each
-- is RUNNING; it is ready if it was before, the instances are enough and each is RUNNING and
-- routable.
pub note_stats-verdict :
    (wanted : Option ℕ) (is : List Instance) (app : App)
    → note_stats wanted is app ≡ verdict wanted is app
unfolding note_stats
note_stats-verdict wanted is app =
    let first = if is_nil is then record { running = false; ready = false } else app in
    let second = if too_few wanted is then record first { ready = false } else first in
    note_instances-verdict is second ∙ ground arith

stats-Sensible :
    (wanted : Option ℕ) (is : List Instance) (app : App)
    → (app.ready ≡ false) ⊎ (app.running ≡ true)
    → ((note_stats wanted is app).ready ≡ false) ⊎ ((note_stats wanted is app).running ≡ true)
stats-Sensible wanted is app h =
    rw (note_stats-verdict wanted is app) (ground (arith, routable_running is))

module _ {W : Type 0} (platform : Platform W) (p : Provider W)
    (decode_processes : Bytes → Result Err (List Process))
    (decode_stats : Bytes → Result Err (List Instance)) where
  abbrev Reply : Type 0
  Reply = Shell W × Result Err App

  abbrev stats_path : String → String
  stats_path guid =
      string_append "/v3/processes/" (string_append (platform.url_escape guid) "/stats")

  -- The loop over the processes; the number counts the web processes.
  unfoldable pub inspect_loop : List Process → App → ℕ → Shell W → Reply
  unfolding note_stats
  inspect_loop [] app web s =
      (s, ok (if ltb 0 web then app else record { running = false; ready = false }))
  inspect_loop (q ∷ qs) app web s =
      let skipped = inspect_loop qs app web s in
      let (t, op, output, e) =
        execute platform p "inspect-process-stats" ("curl" ∷ stats_path q.guid ∷ []) s in
      let rest =
        λ (is : List Instance). inspect_loop qs (note_stats q.instances is app) (web + 1) t in
      if not (str_eq q.kind "web")
      then skipped
      else if is_some (validate_guid (codes q.guid))
      then (s, err (error_new "decode processes JSON: invalid process GUID"))
      else elim e [
        | some x ↦ (t, err x)
        | none ↦ elim (decode_stats output) [
          | err x ↦ (t, err (wrap "decode process stats JSON" x))
          | ok is ↦ rest is
        ]
      ]

  unfoldable pub inspect_app : String → Shell W → Reply
  unfolding inspect_loop
  inspect_app guid s =
      let (t, op, output, e) =
        execute platform p "inspect-processes"
          ("curl"
            ∷ string_append "/v3/apps/" (string_append (platform.url_escape guid) "/processes")
            ∷ [])
          s in
      elim (validate_guid (codes guid)) [
        | some x ↦ (s, err x)
        | none ↦ elim e [
          | some x ↦ (t, err x)
          | none ↦ elim (decode_processes output) [
            | err x ↦ (t, err (wrap "decode processes JSON" x))
            | ok qs ↦ inspect_loop qs (record { running = true; ready = true }) 0 t
          ]
        ]
      ]

  -- A ready app runs.
  abbrev pub Sensible : Result Err App → Type 0
  Sensible (err _) = Unit
  Sensible (ok app) = (app.ready ≡ false) ⊎ (app.running ≡ true)

  loop-Sensible :
      (qs : List Process) (app : App) (web : ℕ) (s : Shell W)
      → Sensible (ok app)
      → Sensible (inspect_loop qs app web s).1
  unfolding inspect_loop
  loop-Sensible [] app web s h = ground arith
  loop-Sensible (q ∷ qs) app web s h =
      let (t, op, output, e) =
        execute platform p "inspect-process-stats" ("curl" ∷ stats_path q.guid ∷ []) s in
      elim (Bool-cases (str_eq q.kind "web")) [
        | inr x ↦ rw (x, inspect_loop) (loop-Sensible qs app web s h)
        | inl x ↦ elim (Bool-cases (is_some (validate_guid (codes q.guid)))) [
          | inl y ↦ rw (x, inspect_loop) (rw y tt)
          | inr y ↦ elim (Option-cases e) [
            | inr z ↦ rw (x, inspect_loop) (rw y (rw z.1 tt))
            | inl z ↦ elim (Result-cases (decode_stats output)) [
              | inr d ↦
                  rw (x, inspect_loop)
                    (rw y (
                      rw z (
                        rw d.1 (
                          loop-Sensible qs (note_stats q.instances d.0 app) (web + 1) t
                            (stats-Sensible q.instances d.0 app h)))))
              | inl d ↦ rw (x, inspect_loop) (rw y (rw z (rw d.1 tt)))
            ]
          ]
        ]
      ]

  -- An app that `InspectApp` reports as ready it reports as running.
  pub inspect_app-Sensible : (guid : String) (s : Shell W) → Sensible (inspect_app guid s).1
  unfolding inspect_app
  inspect_app-Sensible guid s =
      let (t, op, output, e) =
        execute platform p "inspect-processes"
          ("curl"
            ∷ string_append "/v3/apps/" (string_append (platform.url_escape guid) "/processes")
            ∷ [])
          s in
      elim (Option-cases (validate_guid (codes guid))) [
        | inr x ↦ rw (x.1, inspect_app) tt
        | inl x ↦ elim (Option-cases e) [
          | inr z ↦ rw (x, inspect_app) (rw z.1 tt)
          | inl z ↦ elim (Result-cases (decode_processes output)) [
            | inr d ↦ rw (x, inspect_app) (rw z (rw d.1 (loop-Sensible d.0 _ 0 t (inr refl))))
            | inl d ↦ rw (x, inspect_app) (rw z (rw d.1 tt))
          ]
        ]
      ]
