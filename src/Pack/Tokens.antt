-- ===== src/Pack/Tokens.antt =====
-- The file of an invitation, and what is in it.
use cf_herdr_poc.Base.{
  ℕ, String, Bytes, codes, Bool, true, false, ◌≡◌, refl, ◌∙◌, ap, ◌⊎◌, inl, inr, Option, none, some,
  List, [], ◌∷◌, ◌++◌, Err, Bool-cases, Option-cases, is_nil, if◌then◌else◌, ◌&&◌,
}
use cf_herdr_poc.Base.Exec.{Result, ok, err, Result-cases}
use cf_herdr_poc.Pack.{
  Config, System, is_invite, parse_lines, parse_invite, split_lines, pack_address, validate_member,
  run, restart_collie, close_token, write_token, secure_token, save_invite, take_invite,
  invite_args, call_invite, prepare_enrollment,
}

-- A file of the directory of invitations; `secure` tells that its mode is 0600.
pub record Token : Type 0 where
  pub text : Bytes
  pub secure : Bool

module _ {W H : Type 0} (sys : System W H) (look : Bytes → W → Option Token) where
  -- What the calls do to the files, where no removal fails: only `create_temp` makes one.
  pub record IsDisk : Type 0 where
    pub created :
        {d : String} {p : Bytes} {h : H} (w : W)
        → (sys.create_temp d p w).1 ≡ ok h
        → (t : Token) × (look (sys.path h) (sys.create_temp d p w).0 ≡ some t) × (t.text ≡ [])
    pub secured :
        (h : H) (w : W) {t : Token}
        → look (sys.path h) w ≡ some t
        → (sys.chmod h w).1 ≡ none
        → look (sys.path h) (sys.chmod h w).0 ≡ some (record t { secure = true })
    pub written :
        (h : H) (s : Bytes) (w : W) {t : Token}
        → look (sys.path h) w ≡ some t
        → (sys.write h s w).1 ≡ none
        → look (sys.path h) (sys.write h s w).0 ≡ some (record t { text = t.text ++ s })
    pub closed : (p : Bytes) (h : H) (w : W) → look p (sys.close h w).0 ≡ look p w
    pub restarted : (p : Bytes) (w : W) → look p (sys.restart w).0 ≡ look p w
    pub removed : (p : Bytes) (w : W) → look p (sys.remove p w).0 ≡ none
    pub run_none :
        (p : Bytes) (es : List Bytes) (x : String) (args : List Bytes) (w : W)
        → look p w ≡ none
        → look p (sys.run_env es x args w).0 ≡ none
    pub create_failed :
        (p : Bytes) {d : String} {q : Bytes} (w : W) {e : Err}
        → look p w ≡ none
        → (sys.create_temp d q w).1 ≡ err e
        → look p (sys.create_temp d q w).0 ≡ none
    pub create_none :
        (p : Bytes) {d : String} {q : Bytes} {h : H} (w : W)
        → look p w ≡ none
        → (sys.create_temp d q w).1 ≡ ok h
        → (p ≡ sys.path h) ⊎ (look p (sys.create_temp d q w).0 ≡ none)
    pub chmod_none : (p : Bytes) (h : H) (w : W) → look p w ≡ none → look p (sys.chmod h w).0 ≡ none
    pub write_none :
        (p : Bytes) (h : H) (s : Bytes) (w : W)
        → look p w ≡ none
        → look p (sys.write h s w).0 ≡ none
    pub remove_none : (p q : Bytes) (w : W) → look p w ≡ none → look p (sys.remove q w).0 ≡ none

  module _ (disk : IsDisk) (config : Config) where
    -- A reply that holds the path of a file with the text.
    abbrev Holds : Bytes → W × Result Err (Bytes × Option ℕ) → Type 0
    Holds text (w, err e) = Unit
    Holds text (w, ok (path, expiry)) = look path w ≡ some (record { text = text; secure = true })

    restart-Holds :
        (p : Bytes) (expiry : Option ℕ) (w : W) (text : Bytes)
        → look p w ≡ some (record { text = text; secure = true })
        → Holds text (restart_collie sys config p expiry w)
    unfolding restart_collie
    restart-Holds p expiry w text h = elim (Option-cases (sys.restart w).1) [
      | inl x ↦ rw (x, restart_collie) (disk.restarted p w ∙ h)
      | inr x ↦ rw (x.1, restart_collie) tt
    ]

    close-Holds :
        (h : H) (expiry : Option ℕ) (w : W) (text : Bytes)
        → look (sys.path h) w ≡ some (record { text = text; secure = true })
        → Holds text (close_token sys config h expiry w)
    unfolding close_token
    close-Holds h expiry w text k = elim (Option-cases (sys.close h w).1) [
      | inl x ↦
          rw (x, close_token) (restart-Holds (sys.path h) expiry _ text (disk.closed _ h w ∙ k))
      | inr x ↦ rw (x.1, close_token) tt
    ]

    write-Holds :
        (h : H) (invite : Bytes) (expiry : Option ℕ) (w : W)
        → look (sys.path h) w ≡ some (record { text = []; secure = true })
        → Holds (invite ++ codes "\n") (write_token sys config h invite expiry w)
    unfolding write_token
    write-Holds h invite expiry w k = elim (Option-cases (sys.write h (invite ++ codes "\n") w).1) [
      | inl x ↦ rw (x, write_token) (close-Holds h expiry _ _ (disk.written h _ w k x))
      | inr x ↦ rw (x.1, write_token) tt
    ]

    secure-Holds :
        (h : H) (invite : Bytes) (expiry : Option ℕ) (w : W) (t : Token)
        → look (sys.path h) w ≡ some t
        → t.text ≡ []
        → Holds (invite ++ codes "\n") (secure_token sys config h invite expiry w)
    unfolding secure_token
    secure-Holds h invite expiry w t k e = elim (Option-cases (sys.chmod h w).1) [
      | inl x ↦
          rw (x, secure_token)
            (write-Holds h invite expiry _
              (disk.secured h w k x ∙ ap (λ s. some (record { text = s; secure = true })) e))
      | inr x ↦ rw (x.1, secure_token) tt
    ]

    save-Holds :
        (name invite : Bytes) (expiry : Option ℕ) (w : W)
        → Holds (invite ++ codes "\n") (save_invite sys config name invite expiry w)
    unfolding save_invite
    save-Holds name invite expiry w =
        let pattern = codes "collie-invite-" ++ name ++ codes "-*" in
        elim (Result-cases (sys.create_temp config.temp_dir pattern w).1) [
          | inl x ↦ rw (x.1, save_invite) tt
          | inr x ↦
              let (t, k, e) = disk.created w x.1 in
              rw (x.1, save_invite) (secure-Holds x.0 invite expiry _ t k e)
        ]

    -- The text of an invitation, if there is one.
    abbrev Fine : Bytes → Type 0
    Fine s = (is_nil s ≡ true) ⊎ (is_invite s ≡ true)

    parse_lines-Fine :
        (lines : List Bytes) (invite : Bytes) (expiry : Option ℕ)
        → Fine invite
        → Fine (parse_lines sys lines invite expiry).0
    unfolding parse_lines
    parse_lines-Fine [] invite expiry h = h
    parse_lines-Fine (line ∷ lines) invite expiry h =
        parse_lines-Fine lines _ _ (chosen (is_nil invite) (is_invite (sys.trim_space line)) refl)
      where
        chosen :
            (a b : Bool)
            → is_invite (sys.trim_space line) ≡ b
            → Fine (if a && b then sys.trim_space line else invite)
        chosen true true e = inr e
        chosen true false e = h
        chosen false true e = h
        chosen false false e = h

    -- An invitation is in the file of the reply.
    abbrev pub HoldsInvite : W × Result Err (Bytes × Option ℕ) → Type 0
    HoldsInvite (w, err e) = Unit
    HoldsInvite (w, ok (path, expiry)) =
        (invite : Bytes) × (is_invite invite ≡ true)
        × (look path w ≡ some (record { text = invite ++ codes "\n"; secure = true }))

    held :
        (invite : Bytes) (r : W × Result Err (Bytes × Option ℕ))
        → is_invite invite ≡ true
        → Holds (invite ++ codes "\n") r
        → HoldsInvite r
    held invite (w, err e) i h = tt
    held invite (w, ok (path, expiry)) i h = (invite, i, h)

    take-HoldsInvite :
        (name output : Bytes) (e : Option Err) (w : W)
        → HoldsInvite (take_invite sys config name output e w)
    unfolding take_invite parse_invite
    take-HoldsInvite name output (some e) w = tt
    take-HoldsInvite name output none w =
        let (invite, expiry) = parse_invite sys output in
        elim (parse_lines-Fine (split_lines output) [] none (inl refl)) [
          | inl x ↦ rw x tt
          | inr x ↦ elim (Bool-cases (is_nil invite)) [
            | inl y ↦ rw y tt
            | inr y ↦ rw y (held invite _ x (save-Holds name invite expiry w))
          ]
        ]

    -- With files as in `IsDisk`: if `PrepareEnrollment` returns no error, then the file of the enrollment has mode 0600 and
    -- holds one line, which has the form of an invitation.
    pub prepare_enrollment-HoldsInvite :
        (host name : Bytes) (w : W) → HoldsInvite (prepare_enrollment sys config host name w)
    unfolding prepare_enrollment call_invite
    prepare_enrollment-HoldsInvite host name w = elim (Option-cases (validate_member name)) [
      | inr x ↦ rw (x.1, prepare_enrollment) tt
      | inl x ↦ elim (Result-cases (pack_address sys host)) [
        | inl y ↦ rw (x, prepare_enrollment, y.1) tt
        | inr y ↦
            rw (x, prepare_enrollment, y.1)
              (let (u, output, e) = run sys config (invite_args y.0) w in
                take-HoldsInvite name output e u)
      ]
    ]
