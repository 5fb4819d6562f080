-- ===== src/Examples/Joins.antt =====
-- A member whose files are known by their paths.
use cf_herdr_poc.Base.{
  String, Bool, true, false, ◌≡◌, ◌≢◌, refl, inr, Option, none, some, List, [], ◌∷◌, Err, error_new,
  str_eq, if◌then◌else◌, if_both, eq_iff, eq_refl, arith, sym, ap, ◌∙◌,
}
use cf_herdr_poc.Base.Exec.{Result, ok, err, ok-injective}
use cf_herdr_poc.Bootstrap.{Config, System, Joiner, joined, join}
use cf_herdr_poc.Bootstrap.Marker.{IsDisk}
use cf_herdr_poc.Bootstrap.Joined.{rejoin}
use cf_herdr_poc.Bootstrap.Settled.{serve_all, serve_all-settled}

abbrev Files : Type 0
Files = String → Bool

abbrev put : String → Bool → Files → Files
put path there files p = if str_eq p path then there else files p

abbrev missing : Err
missing = error_new "file does not exist"

abbrev look : Bool → Result Err Bool
look true = ok true
look false = err missing

abbrev new_temp : Bool → Bool → Files → Files × Result Err String
new_temp true _ w = (w, err missing)
new_temp false true w = (w, err missing)
new_temp false false w = (put "temp" true w, ok "temp")

abbrev move : Bool → String → String → Files → Files × Option Err
move true n q w = (put q true (put n false w), none)
move false n q w = (w, some missing)

abbrev system : System Files String
system = record {
  stat = λ p w. look (w p);
  lstat = λ p w. look (w p);
  not_exist = λ e. true;
  open_file = λ p w. if w p then ok p else err missing;
  close_reader = λ h w. w;
  create_temp = λ q w. new_temp (w "temp") (str_eq q "temp") w;
  name = λ h. h;
  chmod = λ h w. (w, none);
  write_ready = λ h w. (w, none);
  sync = λ h w. (w, none);
  close_temp = λ h w. (w, none);
  rename = λ n q w. move (w n) n q w;
  remove = λ n w. (put n false w, none);
  print_line = λ s w. w;
  redact = λ s. s;
}

put-other : (p n : String) (b : Bool) (w : Files) → p ≢ n → put n b w p ≡ w p
put-other p n b w h = ground (arith, eq_iff p n)

put-same : (p : String) (b : Bool) (w : Files) → put p b w p ≡ b
put-same p b w = rw (eq_refl p) refl

put-kept : (p n : String) (w : Files) → w p ≡ true → put n true w p ≡ true
put-kept p n w h = if_both (λ b. b ≡ true) (str_eq p n) true (w p) refl h

stored_there : (b : Bool) {c : Bool} → look b ≡ ok c → b ≡ true
stored_there true h = refl
stored_there false h = cc

differ : (p q : String) → str_eq p q ≡ false → p ≢ q
differ p q h e = ground (arith, eq_iff p q)

move-keep : (b : Bool) (p n q : String) (w : Files) → p ≢ n → p ≢ q → (move b n q w).0 p ≡ w p
move-keep true p n q w a c = put-other p q true (put n false w) c ∙ put-other p n false w a
move-keep false p n q w a c = refl

move-made :
    (b : Bool) (n q : String) (w : Files) → (move b n q w).1 ≡ none → (move b n q w).0 q ≡ true
move-made true n q w h = put-same q true (put n false w)
move-made false n q w h = cc

temp-keep : (a b : Bool) (p : String) (w : Files) → w p ≡ true → (new_temp a b w).0 p ≡ true
temp-keep true b p w h = h
temp-keep false true p w h = h
temp-keep false false p w h = put-kept p "temp" w h

temp-name :
    (a b : Bool) {h : String} (w : Files)
    → (new_temp a b w).1 ≡ ok h
    → (h ≡ "temp") × (a ≡ false) × (b ≡ false) × ((new_temp a b w).0 "temp" ≡ true)
temp-name true b w e = cc
temp-name false true w e = cc
temp-name false false w e = (sym (ok-injective e), refl, refl, put-same "temp" true w)

system-IsDisk : IsDisk system
system-IsDisk = record {
  stat_regular = λ h. h;
  chmod_keep = λ p h w. refl;
  write_keep = λ p h w. refl;
  sync_keep = λ p h w. refl;
  close_keep = λ p h w. refl;
  reader_keep = λ p h w. refl;
  print_keep = λ p s w. refl;
  remove_keep = λ p n w h. ap look (put-other p n false w h);
  rename_keep = λ p n q w a b. ap look (move-keep (w n) p n q w a b);
  rename_made = λ n q w h k. ap look (move-made (w n) n q w k);
  create_keep = λ {p} {q} {b} w h.
      ap look (temp-keep (w "temp") (str_eq q "temp") p w (stored_there (w p) h))
      ∙ ap look (sym (stored_there (w p) h))
      ∙ h;
  create_fresh = λ {q} {h} {b} w e k.
      let x = temp-name (w "temp") (str_eq q "temp") w e in
      cc (stored_there (w "temp") (rw x.0 at k), x.1);
  create_made =
      λ {q} {h} w e. let x = temp-name (w "temp") (str_eq q "temp") w e in rw x.0 (ap look x.3);
  create_other = λ {q} {h} w e k.
      let x = temp-name (w "temp") (str_eq q "temp") w e in cc (eq_refl q, k, x.0, x.2);
}

abbrev config : Config
config = record {
  token_path = "token";
  ready_path = "ready";
  trust_store_path = "trust";
  lead_address = "https://lead";
  member_id = "blue";
  self_address = "";
}

abbrev trusting : Joiner Files String
trusting args token w = (put "trust" true w, none)

abbrev refusing : Joiner Files String
refusing args token w = (w, some (error_new "again"))

abbrev fresh : Files
fresh = put "token" true (λ p. false)

rejoin_example :
    join system config refusing (join system config trusting fresh).0
    ≡ ((join system config trusting fresh).0, joined)
unfolding join
rejoin_example =
    rejoin system config system-IsDisk (differ "ready" "token" refl) trusting refusing fresh refl

abbrev twice : List (String × String)
twice = ("POST", "/bootstrap/join") ∷ ("POST", "/bootstrap/join") ∷ []

serve_all-settled_example :
    serve_all system config refusing twice (put "trust" true fresh)
    ≡ serve_all system config trusting twice (put "trust" true fresh)
serve_all-settled_example =
    serve_all-settled system config system-IsDisk (differ "trust" "ready" refl)
      (differ "trust" "token" refl) refusing trusting twice (put "trust" true fresh) (inr refl)
