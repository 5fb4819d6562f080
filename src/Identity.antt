-- ===== src/Identity.antt =====
-- internal/identity/client.go: calls of a sandbox that identify the manager by its certificate.
use cf_herdr_poc.Base.{
  ℕ, ◌+◌, ◌-◌, Bytes, codes, Bool, true, false, not, ◌&&◌, ◌||◌, ◌≡◌, refl, ◌↔◌, inl, inr, Option,
  none, some, [], ◌++◌, Err, error_new, error_text, wrap, if◌then◌else◌, ◌==◌, ltb, leb, bytes_eq,
  is_nil, has_any, Bool-cases,
}
use cf_herdr_poc.Model.{Operation}
use cf_herdr_poc.Base.Exec.{Result, ok, err}

pub record Config : Type 0 where
  pub timeout : ℕ
  pub max_body_bytes : ℕ

-- What the client uses of TLS, HTTP and URLs: the certificate, a request up to its response, the
-- read of a body up to a number of bytes, and the host and the host name of a URL.
pub record Network (W : Type 0) : Type 0 where
  pub load_certificate : W → Result Err (Unit {0})
  pub new_request : Bytes → Bytes → Option Err
  pub send : ℕ → Bytes → Bytes → W → W × Result Err ℕ
  pub discard : ℕ → W → W × Option Err
  pub parse_url : Bytes → Option (Bytes × Bytes)
  pub is_ip : Bytes → Bool
  pub contains_space : Bytes → Bool
  pub now : W → ℕ
  pub decimal : ℕ → Bytes

-- `New`, where a value that is not positive counts as 0.
unfoldable pub new_config : Config → Config
new_config c = record {
  timeout = if c.timeout == 0 then 10000000000 else c.timeout;
  max_body_bytes = if c.max_body_bytes == 0 then 65536 else c.max_body_bytes;
}

module _ {W : Type 0} (net : Network W) (config : Config) where
  unfoldable pub valid_host : Bytes → Bool
  unfolding has_any
  valid_host host =
      if is_nil host || has_any (codes "/@?#") host
      then false
      else elim (net.parse_url (codes "https://" ++ host)) [
        | none ↦ false
        | some (parsed, name) ↦
            bytes_eq parsed host
            && not (is_nil name)
            && (net.is_ip name || not (net.contains_space name))
      ]

  -- The response was received: its body is read and dropped.
  unfoldable pub drop_body : ℕ → W → W × Result Err ℕ
  drop_body status w =
      let (u, e) = net.discard (config.max_body_bytes + 1) w in
      elim e [ some x ↦ (u, err x) | none ↦ (u, ok status) ]

  unfoldable pub send_request : Bytes → Bytes → W → W × Result Err ℕ
  unfolding drop_body
  send_request method url w =
      let (u, r) = net.send config.timeout method url w in
      elim r [ err x ↦ (u, err x) | ok status ↦ drop_body status u ]

  unfoldable pub request : Bytes → Bytes → Bytes → W → W × Result Err ℕ
  unfolding valid_host send_request
  request method host path w =
      let url = codes "https://" ++ host ++ path in
      if not (valid_host host)
      then (w, err (error_new "invalid identity host"))
      else elim (net.load_certificate w) [
        | err e ↦ (w, err (wrap "load instance identity" e))
        | ok _ ↦ elim (net.new_request method url) [
          | some e ↦ (w, err e)
          | none ↦ send_request method url w
        ]
      ]

  unfoldable pub reachable : Bytes → W → W × Result Err Bool
  unfolding request
  reachable host w =
      let (u, r) = request (codes "GET") host (codes "/bootstrap/health") w in
      elim r [ err e ↦ (u, err e) | ok status ↦ (u, ok ((status == 200) || (status == 204))) ]

  abbrev pub is_success : ℕ → Bool
  is_success status = leb 200 status && ltb status 300

  abbrev pub bad_status : ℕ → Err
  bad_status status =
      error_text (codes "identity enrollment returned status " ++ net.decimal status)

  -- The operation and the error, by what the request returned.
  unfoldable pub enrollment_result : ℕ → ℕ → Result Err ℕ → Operation × Option Err
  enrollment_result started duration (err e) = (
    record {
      name = codes "trigger-enrollment";
      command = [];
      summary = [];
      started_at = started;
      duration = duration;
      success = false;
      error = codes "identity enrollment request failed";
    },
    some e,
  )
  enrollment_result started duration (ok status) =
      let good = is_success status in
      (
        record {
          name = codes "trigger-enrollment";
          command = [];
          summary = [];
          started_at = started;
          duration = duration;
          success = good;
          error = if good then [] else (bad_status status).text;
        },
        if good then none else some (bad_status status),
      )

  unfoldable pub trigger_enrollment : Bytes → W → W × Operation × Option Err
  unfolding request enrollment_result
  trigger_enrollment host w =
      let (u, r) = request (codes "POST") host (codes "/bootstrap/join") w in
      let (op, e) = enrollment_result (net.now w) (net.now u - net.now w) r in (u, op, e)

  -- Which of the outcomes the operation tells.
  pub record IsTold (op : Operation) (e : Option Err) : Type 0 where
    pub success : (op.success ≡ true) ↔ (e ≡ none)
    pub quiet : (op.success ≡ true) ↔ (op.error ≡ [])

  enrollment_result-IsTold :
      (started duration : ℕ) (r : Result Err ℕ)
      → IsTold (enrollment_result started duration r).0 (enrollment_result started duration r).1
  unfolding enrollment_result
  enrollment_result-IsTold started duration (err e) = record {
    success = (λ h. cc, λ h. cc);
    quiet = (λ h. cc, λ h. cc);
  }
  enrollment_result-IsTold started duration (ok status) = elim (Bool-cases (is_success status)) [
    | inl p ↦ rw p (record { success = (λ h. refl, λ h. refl); quiet = (λ h. refl, λ h. refl) })
    | inr p ↦ rw p (record { success = (λ h. cc, λ h. cc); quiet = (λ h. cc, λ h. cc) })
  ]

  -- The operation of `TriggerEnrollment` is successful exactly if no error is returned, and exactly
  -- if it has no error text.
  pub trigger_enrollment-IsTold :
      (host : Bytes) (w : W) → IsTold (trigger_enrollment host w).1 (trigger_enrollment host w).2
  unfolding trigger_enrollment
  trigger_enrollment-IsTold host w = enrollment_result-IsTold _ _ _
