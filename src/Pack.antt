-- ===== src/Pack.antt =====
-- internal/pack/manager.go: invitations to the pack, its members, and their removal.
pub mod Text
pub mod Roster
pub mod Handle
pub mod Tokens
pub mod Failed
unfoldable pub use Text.{
  is_member, validate_member, is_invite, split_lines, roster_member, is_listed,
}
pub use Text.{is_role}
use cf_herdr_poc.Base.{
  ℕ, String, Bytes, codes, Bool, true, false, not, ◌&&◌, ◌||◌, Option, none, some, List, [], ◌∷◌,
  ◌++◌, Err, error_new, wrap, if◌then◌else◌, ◌==◌, leb, bytes_eq, is_nil, length, starts, cut_at,
  mem_byte,
}
use cf_herdr_poc.Base.Exec.{Result, ok, err}
use cf_herdr_poc.Cf.{is_lower, is_upper, is_digit, is_hex, every}
use cf_herdr_poc.Environment.{Runtime, environment}

-- What is looked at of a parsed URL.
pub record Address : Type 0 where
  pub host : Bytes
  pub has_user : Bool
  pub text : Bytes

pub record Config : Type 0 where
  pub executable : String
  pub temp_dir : String
  pub runtime : Runtime
  pub token_lifetime : ℕ

-- The runner, the supervisor, the system calls and libraries of texts. `W` is what they read and
-- change, `H` a handle of an open file. `find_expiry` is the instant in a line that says when the
-- invitation expires, if there is one; the instant is `none` if the text of it is none.
pub record System (W H : Type 0) : Type 0 where
  pub environ : W → List Bytes
  pub run_env : List Bytes → String → List Bytes → W → W × Bytes × Option Err
  pub restart : W → W × Option Err
  pub create_temp : String → Bytes → W → W × Result Err H
  pub path : H → Bytes
  pub chmod : H → W → W × Option Err
  pub write : H → Bytes → W → W × Option Err
  pub close : H → W → W × Option Err
  pub remove : Bytes → W → W × Option Err
  pub not_exist : Err → Bool
  pub trim_space : Bytes → Bytes
  pub parse_url : Bytes → Option Address
  pub find_expiry : Bytes → Option (Option ℕ)

abbrev pub status_args : List Bytes
status_args = codes "pack" ∷ codes "status" ∷ codes "--no-probe" ∷ []

abbrev pub invite_args : Bytes → List Bytes
invite_args address = codes "pack" ∷ codes "invite" ∷ codes "--address" ∷ address ∷ []

module _ {W H : Type 0} (sys : System W H) where
  -- The first line that is an invitation, and the last instant.
  unfoldable pub parse_lines : List Bytes → Bytes → Option ℕ → Bytes × Option ℕ
  unfolding is_invite
  parse_lines [] invite expiry = (invite, expiry)
  parse_lines (line ∷ lines) invite expiry =
      let trimmed = sys.trim_space line in
      parse_lines lines (if is_nil invite && is_invite trimmed then trimmed else invite)
        (elim (sys.find_expiry trimmed) [ none ↦ expiry | some t ↦ t ])

  unfoldable pub parse_invite : Bytes → Bytes × Option ℕ
  unfolding parse_lines split_lines
  parse_invite output = parse_lines (split_lines output) [] none

  unfoldable pub pack_address : Bytes → Result Err Bytes
  pack_address host =
      let bad = err (error_new "invalid manager Pack host") in
      if not (bytes_eq (sys.trim_space host) host) || is_nil host || mem_byte host b'/'
      then bad
      else elim (sys.parse_url (codes "https://" ++ host)) [
        | none ↦ bad
        | some a ↦ if bytes_eq a.host host && not a.has_user then ok a.text else bad
      ]

  module _ (config : Config) where
    unfoldable pub run : List Bytes → W → W × Bytes × Option Err
    unfolding environment
    run args w =
        let runtime = record config.runtime { pack_transport = "cf-identity" } in
        sys.run_env (environment runtime (sys.environ w)) config.executable args w

    -- The file of an invitation with its time of expiry, or the error of the last call.
    abbrev pub Invitation : Type 0
    Invitation = W × Result Err (Bytes × Option ℕ)

    unfoldable pub restart_collie : Bytes → Option ℕ → W → Invitation
    restart_collie path expiry w =
        let (u, e) = sys.restart w in
        elim e [
          | some x ↦ ((sys.remove path u).0, err (wrap "restart Collie after invite" x))
          | none ↦ (u, ok (path, expiry))
        ]

    unfoldable pub close_token : H → Option ℕ → W → Invitation
    unfolding restart_collie
    close_token h expiry w =
        let (u, e) = sys.close h w in
        elim e [
          | some x ↦ ((sys.remove (sys.path h) u).0, err (wrap "close enrollment file" x))
          | none ↦ restart_collie (sys.path h) expiry u
        ]

    -- `cleanup`: the file is closed and removed, whatever these calls return.
    unfoldable pub drop_token : H → W → W
    drop_token h w = (sys.remove (sys.path h) (sys.close h w).0).0

    unfoldable pub write_token : H → Bytes → Option ℕ → W → Invitation
    unfolding close_token drop_token
    write_token h invite expiry w =
        let (u, e) = sys.write h (invite ++ codes "\n") w in
        elim e [
          | some x ↦ (drop_token h u, err (wrap "write enrollment file" x))
          | none ↦ close_token h expiry u
        ]

    unfoldable pub secure_token : H → Bytes → Option ℕ → W → Invitation
    unfolding write_token drop_token
    secure_token h invite expiry w =
        let (u, e) = sys.chmod h w in
        elim e [
          | some x ↦ (drop_token h u, err (wrap "secure enrollment file" x))
          | none ↦ write_token h invite expiry u
        ]

    unfoldable pub save_invite : Bytes → Bytes → Option ℕ → W → Invitation
    unfolding secure_token
    save_invite name invite expiry w =
        let (u, file) =
          sys.create_temp config.temp_dir (codes "collie-invite-" ++ name ++ codes "-*") w in
        elim file [
          | err x ↦ (u, err (wrap "create enrollment file" x))
          | ok h ↦ secure_token h invite expiry u
        ]

    -- What the command `pack invite` has returned.
    unfoldable pub take_invite : Bytes → Bytes → Option Err → W → Invitation
    unfolding save_invite parse_invite
    take_invite name output (some e) w =
        (w, err (error_new "create Collie Pack invite: command failed"))
    take_invite name output none w =
        let (invite, expiry) = parse_invite output in
        if is_nil invite
        then (w, err (error_new "create Collie Pack invite: output did not contain an invite"))
        else save_invite name invite expiry w

    unfoldable pub call_invite : Bytes → Bytes → W → Invitation
    unfolding take_invite run
    call_invite name address w =
        let (u, output, e) = run (invite_args address) w in take_invite name output e u

    unfoldable pub prepare_enrollment : Bytes → Bytes → W → Invitation
    unfolding call_invite pack_address validate_member
    prepare_enrollment host name w = elim (validate_member name) [
      | some e ↦ (w, err (wrap "sandbox name" e))
      | none ↦ elim (pack_address host) [
        | err e ↦ (w, err e)
        | ok address ↦ call_invite name address w
      ]
    ]

    unfoldable pub member_present : Bytes → W → W × Result Err Bool
    unfolding run is_listed split_lines validate_member
    member_present id w = elim (validate_member id) [
      | some e ↦ (w, err e)
      | none ↦
          let (u, output, e) = run status_args w in
          elim e [
            | some x ↦ (u, err (error_new "read Collie Pack status: command failed"))
            | none ↦ (u, ok (is_listed id (split_lines output)))
          ]
    ]

    unfoldable pub restart_removed : W → W × Option Err
    restart_removed w =
        let (u, e) = sys.restart w in
        elim e [ some x ↦ (u, some (wrap "restart Collie after removal" x)) | none ↦ (u, none) ]

    unfoldable pub remove_member : Bytes → W → W × Option Err
    unfolding run restart_removed validate_member
    remove_member id w = elim (validate_member id) [
      | some e ↦ (w, some e)
      | none ↦
          let (u, output, e) = run (codes "pack" ∷ codes "remove" ∷ id ∷ []) w in
          elim e [
            | some x ↦ (u, some (error_new "remove Collie Pack member: command failed"))
            | none ↦ restart_removed u
          ]
    ]
