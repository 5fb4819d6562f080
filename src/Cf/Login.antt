-- ===== src/Cf/Login.antt =====
-- internal/cf/auth.go: the login of the manager to Cloud Foundry.
use cf_herdr_poc.Base.{
  Bytes, codes, Bool, ◌≡◌, refl, ◌⊎◌, inl, inr, Option, none, some, List, [], ◌∷◌, ◌++◌, Err,
  error_new, if◌then◌else◌, Bool-cases, Option-cases, Bool-cases,
}

pub record Authenticator : Type 0 where
  pub has_runner : Bool
  pub is_quiet : Bool  -- the runner has `RunEnvQuiet`
  pub executable : Bytes
  pub api : Bytes
  pub username : Bytes
  pub password : Bytes
  pub org : Bytes
  pub space : Bytes
  pub cf_home : Bytes
  pub skip_ssl_validation : Bool

-- The environment, the executable and the arguments of a call.
pub record EnvRunner (W : Type 0) : Type 0 where
  pub run_env : List Bytes → Bytes → List Bytes → W → W × Bytes × Option Err
  pub run_env_quiet : List Bytes → Bytes → List Bytes → W → W × Option Err

abbrev pub login_failed : Err
login_failed = error_new "CF CLI authentication failed"

abbrev pub api_args : Authenticator → List Bytes
api_args a =
    codes "api" ∷ a.api ∷ (if a.skip_ssl_validation then codes "--skip-ssl-validation" ∷ [] else [])

abbrev pub auth_args : Authenticator → List Bytes
auth_args a = codes "auth" ∷ a.username ∷ a.password ∷ []

abbrev pub target_args : Authenticator → List Bytes
target_args a = codes "target" ∷ codes "-o" ∷ a.org ∷ codes "-s" ∷ a.space ∷ []

module _ {W : Type 0} (runner : EnvRunner W) (a : Authenticator) where
  unfoldable pub run_cf : List Bytes → W → W × Option Err
  run_cf args w =
      let environment = (codes "CF_HOME=" ++ a.cf_home) ∷ [] in
      let loud = runner.run_env environment a.executable args w in
      if a.is_quiet then runner.run_env_quiet environment a.executable args w else (loud.0, loud.2)

  -- A command, and those behind it if it returns no error.
  unfoldable pub run_then : List Bytes → (W → W × Option Err) → W → W × Option Err
  unfolding run_cf
  run_then args next w =
      let (u, e) = run_cf args w in elim e [ none ↦ next u | some x ↦ (u, some login_failed) ]

  unfoldable pub authenticate : W → W × Option Err
  unfolding run_then
  authenticate w =
      if a.has_runner
      then run_then (api_args a)
          (run_then (auth_args a) (run_then (target_args a) (λ u. (u, none)))) w
      else (w, some login_failed)

  -- The error of a row hides what the command printed.
  abbrev pub IsHidden : W × Option Err → Type 0
  IsHidden r = (r.1 ≡ none) ⊎ (r.1 ≡ some login_failed)

  run_then-IsHidden :
      (args : List Bytes) (next : W → W × Option Err) (w : W)
      → ((u : W) → IsHidden (next u))
      → IsHidden (run_then args next w)
  unfolding run_then
  run_then-IsHidden args next w h = elim (Option-cases (run_cf args w).1) [
    | inl p ↦ rw (p, run_then) (h (run_cf args w).0)
    | inr p ↦ rw (p.1, run_then) (inr refl)
  ]

  -- Whatever the commands print and return, `Authenticate` returns no error, or the one with a fixed
  -- text.
  pub authenticate-IsHidden : (w : W) → IsHidden (authenticate w)
  unfolding authenticate
  authenticate-IsHidden w = elim (Bool-cases a.has_runner) [
    | inl p ↦
        let row = run_then (target_args a) (λ u. (u, none)) in
        rw p (
          run_then-IsHidden (api_args a) (run_then (auth_args a) row) w (λ u.
            run_then-IsHidden (auth_args a) row u
              (λ v. run_then-IsHidden (target_args a) (λ x. (x, none)) v (λ x. inl refl))))
    | inr p ↦ rw p (inr refl)
  ]
