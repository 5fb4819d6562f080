-- ===== src/Cf/Ownership.antt =====
-- Commands that change an app run only behind a check of its GUID.
use cf_herdr_poc.Base.{
  String, Bytes, codes, true, ◌≡◌, ◌≢◌, refl, ◌⊎◌, inl, inr, Option, none, some, [], ◌∷◌, Err,
  arith, bytes_eq-eq, eq_iff, Option-cases,
}
use cf_herdr_poc.Model.{Operation}
use cf_herdr_poc.Reconcile.{PushRequest}
use cf_herdr_poc.Cf.{is_provider_absent}
use cf_herdr_poc.Cf.Execute.{Provider, Platform, Shell, execute}
use cf_herdr_poc.Cf.Apps.{
  push, stage_found, stage_missing, stage_checks, stage_preflight, stage, delete_found, delete_app,
}

module _ {W : Type 0} (platform : Platform W) (p : Provider W) where
  -- What `cf app NAME --guid` showed: the expected app, or none where none is expected.
  abbrev pub Owned : String → Bytes × Option Err → Type 0
  Owned expected (output, none) = (expected ≢ "") × (platform.trim_space output ≡ codes expected)
  Owned expected (output, some e) = (is_provider_absent e ≡ true) × (expected ≡ "")

  abbrev pub preflight : PushRequest → Shell W → Shell W × Operation × Bytes × Option Err
  preflight q s = execute platform p "stage-preflight" ("app" ∷ q.name ∷ "--guid" ∷ []) s

  found-Owned :
      (q : PushRequest) (op : Operation) (output : Bytes) (s : Shell W)
      → ((stage_found platform p q op (platform.trim_space output) s).0 ≡ s)
        ⊎ (Owned q.expected_app_guid (output, none)
            × (stage_found platform p q op (platform.trim_space output) s ≡ push platform p q s))
  unfolding stage_found
  found-Owned q op output s = ground (
    arith,
    eq_iff q.expected_app_guid "",
    bytes_eq-eq (platform.trim_space output) (codes q.expected_app_guid),
  )

  missing-Owned :
      (q : PushRequest) (op : Operation) (output : Bytes) (e : Err) (s : Shell W)
      → ((stage_missing platform p q op e s).0 ≡ s)
        ⊎ (Owned q.expected_app_guid (output, some e)
            × (stage_missing platform p q op e s ≡ push platform p q s))
  unfolding stage_missing
  missing-Owned q op output e s = ground (arith, eq_iff q.expected_app_guid "")

  preflight-Owned :
      (q : PushRequest) (s : Shell W)
      → let (t, op, output, e) = preflight q s in
        ((stage_preflight platform p q s).0 ≡ t)
        ⊎ (Owned q.expected_app_guid (output, e)
            × (stage_preflight platform p q s ≡ push platform p q t))
  unfolding stage_preflight
  preflight-Owned q s =
      let (t, op, output, e) = preflight q s in
      elim (Option-cases e) [
        | inl x ↦ rw (x, stage_preflight) (found-Owned q op output t)
        | inr x ↦ rw (x.1, stage_preflight) (missing-Owned q op output x.0 t)
      ]

  -- `Stage` runs no command, or only looks at the app, or the look showed the expected app (or
  -- none, where none is expected) and it goes on with the push.
  pub stage-Owned :
      (q : PushRequest) (s : Shell W)
      → let (t, op, output, e) = preflight q s in
        ((stage platform p q s).0 ≡ s)
        ⊎ (((stage platform p q s).0 ≡ t)
            ⊎ (Owned q.expected_app_guid (output, e)
                × (stage platform p q s ≡ push platform p q t)))
  unfolding stage
  stage-Owned q s = elim (Option-cases (stage_checks platform p q s)) [
    | inl x ↦ rw (x, stage) (inr (preflight-Owned q s))
    | inr x ↦ rw (x.1, stage) (inl refl)
  ]

  abbrev pub delete_look : String → Shell W → Shell W × Operation × Bytes × Option Err
  delete_look name s = execute platform p "delete-app" ("app" ∷ name ∷ "--guid" ∷ []) s

  -- `DeleteApp` runs no command, or only looks at the app, or the look showed the expected GUID
  -- and it runs the deletion, whose error it returns.
  pub delete_app_owned :
      (name expected : String) (s : Shell W)
      → let (t, op, output, e) = delete_look name s in
        let (u, _, _, f) = execute platform p "delete-app" ("delete" ∷ name ∷ "-f" ∷ []) t in
        ((delete_app platform p name expected s).0 ≡ s)
        ⊎ (((delete_app platform p name expected s).0 ≡ t)
            ⊎ ((e ≡ none)
                × (platform.trim_space output ≡ codes expected)
                × ((delete_app platform p name expected s).0 ≡ u)
                × ((delete_app platform p name expected s).2 ≡ f)))
  unfolding delete_app delete_found
  delete_app_owned name expected s =
      let output = (delete_look name s).2 in
      ground (arith, bytes_eq-eq (platform.trim_space output) (codes expected))
