-- ===== src/Cf/Execute.antt =====
-- `execute`, `executeMany` and the operation records of internal/cf/provider.go.
use Prim.Native.String.{◌++◌ as string_append}
use cf_herdr_poc.Base.{
  contains_text, ℕ, ◌-◌, ◌+◌, String, Bytes, codes, Bool, true, false, ◌&&◌, ◌||◌, Option, none,
  some, List, [], ◌∷◌, ◌++◌, str_eq, Err, error_new, if◌then◌else◌, is_nil, map_text,
}
use cf_herdr_poc.Model.{Operation}
use cf_herdr_poc.Cf.{
  Kind, already_exists, not_found, failed, cf_error, bounded, cap_summary, is_provider_absent,
  is_provider_already_exists,
}
use cf_herdr_poc.Cf.Output.{output_char, redact_assignment}

-- internal/runner: `Runner`, and `EnvRunner` where the runner has it.
pub record Runner (W : Type 0) : Type 0 where
  pub run : String → List String → W → W × Bytes × Option Err
  pub run_env : Option (List String → String → List String → W → W × Bytes × Option Err)

pub record Provider (W : Type 0) : Type 0 where
  pub runner : Option (Runner W)
  pub executable : String
  pub buildpacks : List String
  pub work_root : String
  pub environment : List String

pub record Platform (W : Type 0) : Type 0 where
  pub now : W → ℕ
  pub context_error : W → Option Err  -- `ctx.Err()`
  pub strip_output : Bytes → Bytes  -- `ansiPattern` and `pemBlock`
  pub redact_bearer : Bytes → Bytes  -- `bearerValue` and `standaloneBearer`
  pub replace_json : (Bytes → Bytes) → Bytes → Bytes  -- `jsonSecret.ReplaceAllStringFunc`
  pub replace_shell : (Bytes → Bytes) → Bytes → Bytes  -- `shellSecret.ReplaceAllStringFunc`
  pub trim_space : Bytes → Bytes
  pub to_lower : Bytes → Bytes
  pub is_ip : Bytes → Bool
  pub check_bits_path : String → String → W → Option Err
  pub url_escape : String → String
  pub valid_https_address : String → Bool
  pub valid_host : String → Bool
  pub range : List (String × String) → W → List (String × String)  -- the order of a Go map

-- `ran` holds the arguments of the commands run, the latest first.
pub record Shell (W : Type 0) : Type 0 where
  pub world : W
  pub ran : List (List String)

abbrev one_of : List String → String → Bool
one_of [] s = false
one_of (t ∷ ts) s = str_eq s t || one_of ts s

abbrev reports_existing : String → Bool
reports_existing operation = one_of ("secure-route" ∷ "add-route-policy" ∷ []) operation

abbrev reports_missing : String → Bool
reports_missing operation =
    one_of
      ("delete-app" ∷ "remove-route" ∷ "remove-route-policy" ∷ "app-guid" ∷ "app-absence"
        ∷ "stage-preflight" ∷ [])
      operation

-- The second argument is the output in lower case.
unfoldable pub classify_error : String → Bytes → Kind
unfolding contains_text
classify_error operation value =
    if reports_existing operation && contains_text (codes "already exists") value
    then already_exists
    else if reports_missing operation
        && (contains_text (codes "not found") value || contains_text (codes "does not exist") value)
    then not_found
    else failed

abbrev join_space : String → List String → Bytes
join_space s [] = codes s
join_space s (t ∷ ts) = codes s ++ (b' ' ∷ join_space t ts)

unfoldable pub command_display : String → List String → Bytes
command_display name args = bounded (join_space name args)

-- What became of a command: refused before it ran, or its output and error.
pub data Answer : Type 0 where
  refused : String → Answer
  answered : Bytes → Option Err → Answer

module _ {W : Type 0} (platform : Platform W) where
  unfoldable pub append_summary : Bytes → Bytes → Bytes
  append_summary existing next = cap_summary (platform.trim_space (existing ++ (b'\n' ∷ next)))

  unfoldable pub sanitize_output : Bytes → Bytes
  unfolding output_char redact_assignment
  sanitize_output output =
      let plain = map_text output_char (platform.strip_output output) in
      let redact = redact_assignment platform.trim_space in
      let json = platform.replace_json redact (platform.redact_bearer plain) in
      cap_summary (platform.trim_space (platform.replace_shell redact json))

  -- `bounded(strings.TrimSpace(a + " ; " + b))`
  unfoldable pub append_command : Bytes → Bytes → Bytes
  append_command a b = bounded (platform.trim_space (a ++ codes " ; " ++ b))

  unfoldable pub merge_operations : Operation → Operation → Operation
  merge_operations first second = record first {
    command = append_command first.command second.command;
    summary = append_summary first.summary second.summary;
    duration = first.duration + second.duration;
    success = first.success && second.success;
    error = if is_nil second.error then first.error else second.error;
  }

module _ {W : Type 0} (platform : Platform W) (p : Provider W) where
  abbrev executable : String
  executable = if str_eq p.executable "" then "cf" else p.executable

  abbrev run_with :
      (List String → W → W × Bytes × Option Err) → List String → Shell W → Shell W × Answer
  run_with f args s =
      let (w, output, e) = f args s.world in
      (record { world = w; ran = args ∷ s.ran }, answered output e)

  unfoldable pub invoke_with : Option (Runner W) → List String → Shell W → Shell W × Answer
  invoke_with none args s = (s, refused "command runner is required")
  invoke_with (some r) args s =
      if is_nil p.environment then run_with (r.run executable) args s else elim r.run_env [
        | none ↦ (s, refused "environment-capable command runner is required")
        | some f ↦ run_with (f p.environment executable) args s
      ]

  -- The text and the cause of the error of a command, canceled or not.
  abbrev failure_text : String → Option Err → Bytes
  failure_text name none = bounded (codes (string_append name " failed"))
  failure_text name (some c) = bounded (codes (string_append name " canceled: ") ++ c.text)

  abbrev failure_cause : Err → Option Err → Err
  failure_cause e none = e
  failure_cause e (some c) = c

  abbrev pub started_operation : String → List String → ℕ → Operation
  started_operation name args started = record {
    name = codes name;
    command = command_display executable args;
    summary = [];
    started_at = started;
    duration = 0;
    success = false;
    error = [];
  }

  -- The part of `execute` behind the call of the runner.
  unfoldable pub conclude :
      String → Operation → ℕ → Option Err → Answer → Operation × Bytes × Option Err
  conclude name op elapsed canceled (refused t) =
      (record op { duration = elapsed; error = codes t }, [], some (error_new t))
  conclude name op elapsed canceled (answered output none) = (
    record op { duration = elapsed; success = true; summary = sanitize_output platform output },
    output,
    none,
  )
  conclude name op elapsed canceled (answered output (some e)) = (
    record op {
      duration = elapsed;
      summary = sanitize_output platform output;
      error = failure_text name canceled;
    },
    output,
    some (
        cf_error name (classify_error name (platform.to_lower output))
          (some (failure_cause e canceled))),
  )

  unfoldable pub execute : String → List String → Shell W → Shell W × Operation × Bytes × Option Err
  unfolding invoke_with conclude
  execute name args s =
      let started = platform.now s.world in
      let (t, answer) = invoke_with p.runner args s in
      let (op, output, e) =
        conclude name (started_operation name args started) (platform.now t.world - started)
          (platform.context_error t.world) answer in
      (t, op, output, e)

  -- The errors that `executeMany` passes over.
  unfoldable pub tolerated : String → Err → Bool
  unfolding is_provider_already_exists is_provider_absent
  tolerated name e =
      (str_eq name "secure-route" && is_provider_already_exists e)
      || (str_eq name "remove-route" && is_provider_absent e)

  abbrev pub noted : Operation → Operation → Operation
  noted result op = record result {
    command = append_command platform result.command op.command;
    summary = append_summary platform result.summary op.summary;
  }

  abbrev pub lasted : ℕ → Shell W → Operation → Operation
  lasted started s result = record result { duration = platform.now s.world - started }

  -- The loop; the first error that is not tolerated ends it.
  unfoldable pub execute_loop :
      String → ℕ → List (List String) → Operation → Shell W → Shell W × Operation × Option Err
  execute_loop name started [] result s = (s, lasted started s result, none)
  execute_loop name started (c ∷ cs) result s =
      let (t, op, output, e) = execute name c s in
      let next = noted result op in
      let rest = execute_loop name started cs next t in
      elim e [
        | none ↦ rest
        | some x ↦
            if tolerated name x
            then rest
            else (t, lasted started t (record next { success = false; error = op.error }), some x)
      ]

  unfoldable pub execute_many :
      String → List (List String) → Shell W → Shell W × Operation × Option Err
  execute_many name commands s =
      execute_loop name (platform.now s.world) commands
        (record {
          name = codes name;
          command = [];
          summary = [];
          started_at = platform.now s.world;
          duration = 0;
          success = true;
          error = [];
        })
        s
