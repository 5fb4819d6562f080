-- ===== src/Examples/Packs.antt =====
-- A pack manager with one place for a file.
use cf_herdr_poc.Base.{
  Bytes, codes, Bool, true, false, ◌≡◌, refl, Option, none, some, List, [], ◌∷◌, ◌++◌, Err,
  error_new, bytes_eq, bytes_eq-eq, if◌then◌else◌, Bool-cases, inl, inr, ap, All, ◌⊎◌,
}
use cf_herdr_poc.Base.Exec.{Result, ok, err}
use cf_herdr_poc.Pack.{Address, Config, System, prepare_enrollment, member_present}
use cf_herdr_poc.Pack.Tokens.{Token, IsDisk, HoldsInvite, prepare_enrollment-HoldsInvite}
use cf_herdr_poc.Pack.Failed.{IsGone, prepare_enrollment-IsGone}
use cf_herdr_poc.Pack.Handle
use cf_herdr_poc.Pack.Handle.{called, fired, new_enrollment, IsTidy, run-IsTidy}
use cf_herdr_poc.Pack.Roster.{
  Line, member, other, IsLine, print_all, named, by_test, member_present-print,
}

abbrev place : Bytes
place = codes "token"

abbrev look : Bytes → Option Token → Option Token
look p w = if bytes_eq p place then w else none

abbrev new_file : Option Token → Option Token × Result Err (Unit {0})
new_file (some t) = (some t, err (error_new "exists"))
new_file none = (some (record { text = []; secure = false }), ok tt)

abbrev secured : Option Token → Option Token
secured none = none
secured (some t) = some (record t { secure = true })

abbrev appended : Bytes → Option Token → Option Token
appended s none = none
appended s (some t) = some (record t { text = t.text ++ s })

abbrev sixty_four : Bytes
sixty_four = codes "0123456789abcdef0123456789abcdef0123456789abcdef0123456789abcdef"

-- In the form of internal/pack/testdata/collie-pack-output.txt.
abbrev members : List Line
members =
    other (codes "mode   lead")
    ∷ other []
    ∷ other (codes "members:")
    ∷ member (record { name = codes "blue"; lead = false; rest = codes "up" })
    ∷ other (codes "    link    none")
    ∷ member (record { name = codes "red-2"; lead = false; rest = [] })
    ∷ []

-- `pack status` prints the members, any other command an invitation.
abbrev answer : List Bytes → Bytes
answer (a ∷ b ∷ rest) =
    if bytes_eq b (codes "status") then print_all members else codes "name." ++ sixty_four
answer _ = []

abbrev system : Option Err → System (Option Token) (Unit {0})
system failure = record {
  environ = λ w. [];
  run_env = λ es x args w. (w, answer args, none);
  restart = λ w. (w, failure);
  create_temp = λ d q w. new_file w;
  path = λ h. place;
  chmod = λ h w. (secured w, none);
  write = λ h s w. (appended s w, none);
  close = λ h w. (w, none);
  remove = λ q w. (if bytes_eq q place then none else w, none);
  not_exist = λ e. true;
  trim_space = λ s. s;
  parse_url = λ s. some record { host = codes "pack"; has_user = false; text = s };
  find_expiry = λ s. none;
}

-- What is none stays none.
absent :
    (p : Bytes) (w v : Option Token) → (w ≡ none → v ≡ none) → look p w ≡ none → look p v ≡ none
absent p w v f n = elim (Bool-cases (bytes_eq p place)) [
  | inl x ↦ rw x (f (rw x at n))
  | inr x ↦ rw x refl
]

secured-none : (w : Option Token) → w ≡ none → secured w ≡ none
secured-none none e = refl
secured-none (some t) e = cc

appended-none : (s : Bytes) (w : Option Token) → w ≡ none → appended s w ≡ none
appended-none s none e = refl
appended-none s (some t) e = cc

removed_none : (b : Bool) (w : Option Token) → w ≡ none → (if b then none else w) ≡ none
removed_none true w e = refl
removed_none false w e = e

gone : (p : Bytes) (w : Option Token) → look p (if bytes_eq p place then none else w) ≡ none
gone p w = elim (Bool-cases (bytes_eq p place)) [ inl x ↦ rw x refl | inr x ↦ rw x refl ]

secured-some :
    (w : Option Token) {t : Token} → w ≡ some t → secured w ≡ some (record t { secure = true })
secured-some none e = cc
secured-some (some u) e = ap secured e

appended-some :
    (s : Bytes) (w : Option Token) {t : Token}
    → w ≡ some t
    → appended s w ≡ some (record t { text = t.text ++ s })
appended-some s none e = cc
appended-some s (some u) e = ap (appended s) e

new_file-some :
    (w : Option Token) {h : Unit {0}}
    → (new_file w).1 ≡ ok h
    → (t : Token) × (look place (new_file w).0 ≡ some t) × (t.text ≡ [])
new_file-some none e = (record { text = []; secure = false }, refl, refl)
new_file-some (some t) e = cc

new_file-none :
    (p : Bytes) (w : Option Token) → look p w ≡ none → (p ≡ place) ⊎ (look p (new_file w).0 ≡ none)
new_file-none p w n = elim (Bool-cases (bytes_eq p place)) [
  | inl x ↦ inl (bytes_eq-eq p place x)
  | inr x ↦ inr (rw x refl)
]

new_file-failed :
    (p : Bytes) (w : Option Token) {e : Err}
    → look p w ≡ none
    → (new_file w).1 ≡ err e
    → look p (new_file w).0 ≡ none
new_file-failed p none n e = cc
new_file-failed p (some t) n e = n

system-IsDisk : (failure : Option Err) → IsDisk (system failure) look
system-IsDisk failure = record {
  created = λ w e. new_file-some w e;
  secured = λ h w k e. secured-some w k;
  written = λ h s w k e. appended-some s w k;
  closed = λ p h w. refl;
  restarted = λ p w. refl;
  removed = λ p w. gone p w;
  run_none = λ p es x args w n. n;
  create_failed = λ p w n e. new_file-failed p w n e;
  create_none = λ p w n e. new_file-none p w n;
  chmod_none = λ p h w n. absent p w (secured w) (secured-none w) n;
  write_none = λ p h s w n. absent p w (appended s w) (appended-none s w) n;
  remove_none = λ p q w n. absent p w _ (removed_none (bytes_eq q place) w) n;
}

abbrev config : Config
config = record {
  executable = "collie";
  temp_dir = "/tmp";
  runtime = record {
    plugin_root = "/plugin";
    config_dir = "/config";
    state_dir = "/state";
    socket_path = "/socket";
    host = "127.0.0.1";
    port = "8787";
    pack_transport = "";
  };
  token_lifetime = 600;
}

prepare_enrollment-HoldsInvite_example :
    HoldsInvite
      (system none)
      look
      (system-IsDisk none)
      config
      (prepare_enrollment (system none) config (codes "pack") (codes "blue") none)
prepare_enrollment-HoldsInvite_example =
    prepare_enrollment-HoldsInvite (system none) look (system-IsDisk none) config (codes "pack")
      (codes "blue") none

abbrev no_restart : Option Err
no_restart = some (error_new "no child")

prepare_enrollment-IsGone_example :
    IsGone
      (system no_restart)
      look
      (system-IsDisk no_restart)
      config
      place
      (prepare_enrollment (system no_restart) config (codes "pack") (codes "blue") none)
prepare_enrollment-IsGone_example =
    prepare_enrollment-IsGone (system no_restart) look (system-IsDisk no_restart) config place
      (codes "pack") (codes "blue") none refl

members-IsLine : All IsLine members
unfolding cf_herdr_poc.Pack.is_member cf_herdr_poc.Cf.every
members-IsLine = (
  (refl, by_test (codes "mode   lead") refl),
  (
    (refl, tt),
    (
      (refl, by_test (codes "members:") refl),
      (
        record { member = refl; one_line = by_test (codes "up") refl },
        (
          (refl, by_test (codes "    link    none") refl),
          (record { member = refl; one_line = tt }, tt),
        ),
      ),
    ),
  ),
)

member_present-print_example :
    (member_present (system none) config (codes "red-2") none).1
    ≡ ok (named (codes "red-2") members)
unfolding cf_herdr_poc.Pack.is_member cf_herdr_poc.Pack.run
member_present-print_example =
    member_present-print (system none) config (codes "red-2") members none refl members-IsLine refl
      refl

abbrev events : List Handle.Event
events = fired ∷ called ∷ fired ∷ []
