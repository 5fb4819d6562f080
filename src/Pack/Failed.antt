-- ===== src/Pack/Failed.antt =====
-- The files behind a failure of `PrepareEnrollment`.
use cf_herdr_poc.Base.{
  ℕ, Bytes, codes, ◌≡◌, ◌∙◌, ◌⊎◌, inl, inr, Option, none, some, List, ◌++◌, Err, Option-cases,
  is_nil, if_both,
}
use cf_herdr_poc.Base.Exec.{Result, ok, err, Result-cases}
use cf_herdr_poc.Pack.{
  Config, System, parse_invite, pack_address, validate_member, run, restart_collie, close_token,
  drop_token, write_token, secure_token, save_invite, take_invite, invite_args, call_invite,
  prepare_enrollment,
}
use cf_herdr_poc.Pack.Tokens.{Token, IsDisk}

module _ {W H : Type 0} (sys : System W H) (look : Bytes → W → Option Token)
    (disk : IsDisk sys look) (config : Config) (p : Bytes) where
  -- There is no file of the path, unless it is the new one.
  abbrev Left : H → W → Type 0
  Left h w = (p ≡ sys.path h) ⊎ (look p w ≡ none)

  keep : {h : H} {v w : W} → (look p v ≡ none → look p w ≡ none) → Left h v → Left h w
  keep f (inl e) = inl e
  keep f (inr n) = inr (f n)

  remove-none : (h : H) (w : W) → Left h w → look p (sys.remove (sys.path h) w).0 ≡ none
  remove-none h w (inl e) = rw e (disk.removed (sys.path h) w)
  remove-none h w (inr n) = disk.remove_none p _ w n

  close-Left : (h : H) (w : W) → Left h w → Left h (sys.close h w).0
  close-Left h w k = keep (λ n. disk.closed p h w ∙ n) k

  drop-none : (h : H) (w : W) → Left h w → look p (drop_token sys config h w) ≡ none
  unfolding drop_token
  drop-none h w k = remove-none h _ (close-Left h w k)

  -- With an error there is no file of the path.
  abbrev pub IsGone : W × Result Err (Bytes × Option ℕ) → Type 0
  IsGone (w, err e) = look p w ≡ none
  IsGone (w, ok _) = Unit

  restart-IsGone :
      (h : H) (expiry : Option ℕ) (w : W)
      → Left h w
      → IsGone (restart_collie sys config (sys.path h) expiry w)
  unfolding restart_collie
  restart-IsGone h expiry w k = elim (Option-cases (sys.restart w).1) [
    | inl x ↦ rw (x, restart_collie) tt
    | inr x ↦ rw (x.1, restart_collie) (remove-none h _ (keep (λ n. disk.restarted p w ∙ n) k))
  ]

  close-IsGone :
      (h : H) (expiry : Option ℕ) (w : W) → Left h w → IsGone (close_token sys config h expiry w)
  unfolding close_token
  close-IsGone h expiry w k = elim (Option-cases (sys.close h w).1) [
    | inl x ↦ rw (x, close_token) (restart-IsGone h expiry _ (close-Left h w k))
    | inr x ↦ rw (x.1, close_token) (remove-none h _ (close-Left h w k))
  ]

  write-IsGone :
      (h : H) (invite : Bytes) (expiry : Option ℕ) (w : W)
      → Left h w
      → IsGone (write_token sys config h invite expiry w)
  unfolding write_token
  write-IsGone h invite expiry w k =
      let text = invite ++ codes "\n" in
      let left = keep (disk.write_none p h text w) k in
      elim (Option-cases (sys.write h text w).1) [
        | inl x ↦ rw (x, write_token) (close-IsGone h expiry _ left)
        | inr x ↦ rw (x.1, write_token) (drop-none h _ left)
      ]

  secure-IsGone :
      (h : H) (invite : Bytes) (expiry : Option ℕ) (w : W)
      → Left h w
      → IsGone (secure_token sys config h invite expiry w)
  unfolding secure_token
  secure-IsGone h invite expiry w k =
      let left = keep (disk.chmod_none p h w) k in
      elim (Option-cases (sys.chmod h w).1) [
        | inl x ↦ rw (x, secure_token) (write-IsGone h invite expiry _ left)
        | inr x ↦ rw (x.1, secure_token) (drop-none h _ left)
      ]

  save-IsGone :
      (name invite : Bytes) (expiry : Option ℕ) (w : W)
      → look p w ≡ none
      → IsGone (save_invite sys config name invite expiry w)
  unfolding save_invite
  save-IsGone name invite expiry w n =
      let pattern = codes "collie-invite-" ++ name ++ codes "-*" in
      elim (Result-cases (sys.create_temp config.temp_dir pattern w).1) [
        | inl x ↦ rw (x.1, save_invite) (disk.create_failed p w n x.1)
        | inr x ↦
            rw (x.1, save_invite) (secure-IsGone x.0 invite expiry _ (disk.create_none p w n x.1))
      ]

  take-IsGone :
      (name output : Bytes) (e : Option Err) (w : W)
      → look p w ≡ none
      → IsGone (take_invite sys config name output e w)
  unfolding take_invite
  take-IsGone name output (some e) w n = n
  take-IsGone name output none w n =
      let (invite, expiry) = parse_invite sys output in
      if_both IsGone (is_nil invite) _ _ n (save-IsGone name invite expiry w n)

  run-none : (args : List Bytes) (w : W) → look p w ≡ none → look p (run sys config args w).0 ≡ none
  unfolding run
  run-none args w n = disk.run_none p _ _ args w n

  -- With files as in `IsDisk`: if no removal fails and commands make no such files, then `PrepareEnrollment`, where it returns
  -- an error, has left no file that was not there before.
  pub prepare_enrollment-IsGone :
      (host name : Bytes) (w : W)
      → look p w ≡ none
      → IsGone (prepare_enrollment sys config host name w)
  unfolding prepare_enrollment call_invite
  prepare_enrollment-IsGone host name w n = elim (Option-cases (validate_member name)) [
    | inr x ↦ rw (x.1, prepare_enrollment) n
    | inl x ↦ elim (Result-cases (pack_address sys host)) [
      | inl y ↦ rw (x, prepare_enrollment, y.1) n
      | inr y ↦
          rw (x, prepare_enrollment, y.1)
            (let args = invite_args y.0 in
              let (u, output, e) = run sys config args w in
              take-IsGone name output e u (run-none args w n))
    ]
  ]
