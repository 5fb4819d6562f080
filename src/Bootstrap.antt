-- ===== src/Bootstrap.antt =====
-- internal/bootstrap/server.go: the server beside a sandbox that joins the pack when it is asked to.
-- The mutex makes `join` one step.
pub mod Marker
pub mod Joined
pub mod Settled
use cf_herdr_poc.Base.{
  String, Bytes, Bool, true, false, not, ◌&&◌, Option, none, some, List, [], ◌∷◌, ◌++◌, Err,
  error_new, if◌then◌else◌, str_eq, is_some, ℕ,
}
use cf_herdr_poc.Base.Exec.{Result, ok, err}
use cf_herdr_poc.Sanitize.{sanitize}

pub record Config : Type 0 where
  pub token_path : String
  pub ready_path : String
  pub trust_store_path : String
  pub lead_address : String
  pub member_id : String
  pub self_address : String

-- The system calls. `W` is what they read and change, `H` a handle of an open file. `stat` and
-- `lstat` tell of a path whether it is a regular file; `create_temp` makes a file beside the path.
pub record System (W H : Type 0) : Type 0 where
  pub stat : String → W → Result Err Bool
  pub lstat : String → W → Result Err Bool
  pub not_exist : Err → Bool
  pub open_file : String → W → Result Err H
  pub close_reader : H → W → W
  pub create_temp : String → W → W × Result Err H
  pub name : H → String
  pub chmod : H → W → W × Option Err
  pub write_ready : H → W → W × Option Err
  pub sync : H → W → W × Option Err
  pub close_temp : H → W → W × Option Err
  pub rename : String → String → W → W × Option Err
  pub remove : String → W → W × Option Err
  pub print_line : Bytes → W → W
  pub redact : Bytes → Bytes

-- `Join` of the interface `Joiner`.
abbrev pub Joiner : Type 0 → Type 0 → Type 0
Joiner W H = List String → H → W → W × Option Err

pub data Response : Type 0 where
  ready joined method_not_allowed not_found : Response
  failed : Bytes → Response

-- `if err == nil { err = other() }`, where the call is made only then.
abbrev pub and_then : {W : Type 0} → W × Option Err → (W → W × Option Err) → W × Option Err
and_then (w, none) f = f w
and_then (w, some e) f = (w, some e)

module _ {W H : Type 0} (sys : System W H) where
  abbrev pub Reply : Type 0
  Reply = W × Response

  unfoldable pub fail : Err → W → Reply
  fail e w = let message = sanitize sys.redact e.text in (sys.print_line message w, failed message)

  unfoldable pub regular_file : String → W → Result Err Bool
  regular_file path w = elim (sys.lstat path w) [
    | ok true ↦ ok true
    | ok false ↦ err (error_new "Pack trust store must be a regular file")
    | err e ↦ if sys.not_exist e then ok false else err e
  ]

  -- What is written to the temporary file; it is closed in any case, and the first error counts.
  unfoldable pub fill_marker : H → W → W × Option Err
  fill_marker h w =
      let (u, e) = and_then (and_then (sys.chmod h w) (sys.write_ready h)) (sys.sync h) in
      let (v, closed) = sys.close_temp h u in (v, elim e [ some e1 ↦ some e1 | none ↦ closed ])

  unfoldable pub move_marker : String → H → W → W × Option Err
  unfolding fill_marker
  move_marker path h w =
      let (u, e) = and_then (fill_marker h w) (sys.rename (sys.name h) path) in
      ((sys.remove (sys.name h) u).0, e)

  unfoldable pub write_marker : String → W → W × Option Err
  unfolding move_marker
  write_marker path w =
      let (u, temp) = sys.create_temp path w in
      elim temp [ err e ↦ (u, some e) | ok h ↦ move_marker path h u ]

  module _ (config : Config) where
    -- The trust store is complete.
    unfoldable pub restore_marker : W → Reply
    unfolding fail write_marker
    restore_marker w =
        let (u, e) = write_marker config.ready_path w in
        elim e [ some e1 ↦ fail e1 u | none ↦ ((sys.remove config.token_path u).0, joined) ]

    unfoldable pub remove_token : W → W
    remove_token w =
        let (u, e) = sys.remove config.token_path w in
        elim e [
          | none ↦ u
          | some e1 ↦ if sys.not_exist e1 then u else sys.print_line (sanitize sys.redact e1.text) u
        ]

    unfoldable pub mark_joined : W → Reply
    unfolding fail write_marker remove_token
    mark_joined w =
        let (u, e) = write_marker config.ready_path w in
        elim e [ some e1 ↦ fail e1 u | none ↦ (remove_token u, joined) ]

    unfoldable pub join_args : List String
    join_args =
        let args =
          "pack" ∷ "join" ∷ config.lead_address ∷ "-" ∷ "--label" ∷ config.member_id ∷ [] in
        if str_eq config.self_address ""
        then args
        else args ++ ("--address" ∷ config.self_address ∷ [])

    module _ (joiner : Joiner W H) where
      unfoldable pub call_joiner : H → W → Reply
      unfolding fail mark_joined join_args
      call_joiner token w =
          let (u, e) = joiner join_args token w in
          elim e [ some e1 ↦ fail e1 u | none ↦ mark_joined u ]

      unfoldable pub attempt : W → Reply
      unfolding fail call_joiner
      attempt w = elim (sys.open_file config.token_path w) [
        | err e ↦ fail e w
        | ok token ↦ let (u, r) = call_joiner token w in (sys.close_reader token u, r)
      ]

      -- There is no marker.
      unfoldable pub join_unmarked : W → Reply
      unfolding fail regular_file restore_marker attempt
      join_unmarked w = elim (regular_file config.trust_store_path w) [
        | err e ↦ fail e w
        | ok true ↦ restore_marker w
        | ok false ↦ attempt w
      ]

      unfoldable pub join : W → Reply
      unfolding fail join_unmarked
      join w = elim (sys.stat config.ready_path w) [
        | ok _ ↦ (w, joined)
        | err e ↦ if sys.not_exist e then join_unmarked w else fail e w
      ]

      unfoldable pub serve : String → String → W → Reply
      unfolding join
      serve method path w =
          if str_eq path "/bootstrap/health"
          then (w, if str_eq method "GET" then ready else method_not_allowed)
          else if str_eq path "/bootstrap/join"
          then (if str_eq method "POST" then join w else (w, method_not_allowed))
          else (w, not_found)
