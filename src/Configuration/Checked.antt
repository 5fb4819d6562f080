-- ===== src/Configuration/Checked.antt =====
-- What holds of every configuration that `Load` returns.
use mathlib.Core.Path.{subst}
use cf_herdr_poc.Base.{
  ℕ, ◌≤◌, String, Bytes, Bool, true, false, not, ◌||◌, ◌≡◌, refl, ◌⊎◌, inl, inr, Option, none, some,
  List, [], ◌∷◌, ◌++◌, Err, All, Bool-cases, Option-cases, arith, bytes_eq, bytes_eq-eq, is_nil,
  mem_byte, if◌then◌else◌, ◌==◌, wrap, error_new,
}
use cf_herdr_poc.Base.Exec.{Result, ok, err, Result-cases, ok-injective}
use cf_herdr_poc.Cf.{split_at}
use cf_herdr_poc.Configuration.{
  Library, Config, trim_suffix, valid_dns_name, route_host, trim_all, read_interval, read_skip,
  value, make_config, load_options, load_buildpacks, load,
}

abbrev pub Filled : Bytes → Type 0
Filled s = is_nil s ≡ false

-- The host of the pack is a direct child of the domain, and the host of the route is its label.
abbrev pub IsChild : Bytes → Bytes → Bytes → Type 0
IsChild domain pack_host host =
    (host ++ (b'.' ∷ domain) ≡ pack_host)
    × (mem_byte host b'.' ≡ false)
    × Filled host
    × (valid_dns_name pack_host ≡ true)

pub record IsChecked (c : Config) : Type 0 where
  pub domain : Filled c.identity_domain
  pub hosts :
      (is_nil c.manager_pack_host ≡ true)
      ⊎ IsChild c.identity_domain c.manager_pack_host c.manager_route_host
  pub buildpacks : All Filled c.buildpacks
  pub interval : 1 ≤ c.reconcile_interval

some_inj : {x y : Bytes} → some x ≡ some y → x ≡ y
some_inj h = cc

texts_inj : {x y : List Bytes} → some x ≡ some y → x ≡ y
texts_inj h = cc

route_host_lem :
    (domain pack_host : Bytes) {host : Bytes}
    → route_host domain pack_host ≡ some host
    → (is_nil pack_host ≡ true) ⊎ IsChild domain pack_host host
unfolding route_host
route_host_lem domain pack_host {host} h =
    checked (is_nil pack_host) (bytes_eq (trim_suffix (b'.' ∷ domain) pack_host) pack_host)
      (is_nil (trim_suffix (b'.' ∷ domain) pack_host))
      (mem_byte (trim_suffix (b'.' ∷ domain) pack_host) b'.') (valid_dns_name pack_host)
      (bytes_eq (trim_suffix (b'.' ∷ domain) pack_host ++ (b'.' ∷ domain)) pack_host) refl refl refl
      refl refl h
  where
    checked :
        (nothing same empty dots fine whole : Bool)
        → is_nil pack_host ≡ nothing
        → is_nil (trim_suffix (b'.' ∷ domain) pack_host) ≡ empty
        → mem_byte (trim_suffix (b'.' ∷ domain) pack_host) b'.' ≡ dots
        → valid_dns_name pack_host ≡ fine
        → bytes_eq (trim_suffix (b'.' ∷ domain) pack_host ++ (b'.' ∷ domain)) pack_host ≡ whole
        → (if nothing
            then some []
            else if same || empty || dots || not fine || not whole
            then none
            else some (trim_suffix (b'.' ∷ domain) pack_host))
          ≡ some host
        → (is_nil pack_host ≡ true) ⊎ IsChild domain pack_host host
    checked true same empty dots fine whole n e d f w q = inl n
    checked false false false false true true n e d f w q = inr (
        subst (IsChild domain pack_host) (some_inj q) (
          bytes_eq-eq (trim_suffix (b'.' ∷ domain) pack_host ++ (b'.' ∷ domain)) pack_host w,
          d,
          e,
          f,
        ))
    checked false true empty dots fine whole n e d f w q = cc
    checked false false true dots fine whole n e d f w q = cc
    checked false false false true fine whole n e d f w q = cc
    checked false false false false false whole n e d f w q = cc
    checked false false false false true false n e d f w q = cc

module _ (lib : Library) where
  trim_all-Filled : (bs : List Bytes) {ts : List Bytes} → trim_all lib bs ≡ some ts → All Filled ts
  unfolding trim_all
  trim_all-Filled [] {ts} h = subst (All Filled) (texts_inj h) tt
  trim_all-Filled (b ∷ bs) {ts} h =
      filled (is_nil (lib.trim_space b)) (trim_all lib bs) refl (λ us q. trim_all-Filled bs q) h
    where
      filled :
          (blank : Bool) (rest : Option (List Bytes))
          → is_nil (lib.trim_space b) ≡ blank
          → ((us : List Bytes) → rest ≡ some us → All Filled us)
          → (if blank
              then none
              else elim rest [ none ↦ none | some us ↦ some (lib.trim_space b ∷ us) ])
            ≡ some ts
          → All Filled ts
      filled true rest e k q = cc
      filled false none e k q = cc
      filled false (some us) e k q = subst (All Filled) (texts_inj q) (e, k us refl)

  read_interval_lem : (raw : Bytes) {d : ℕ} → read_interval lib raw ≡ ok d → 1 ≤ d
  unfolding read_interval
  read_interval_lem raw {d} h = read (is_nil raw) (lib.parse_duration raw) h
    where
      read :
          (blank : Bool) (r : Result Err ℕ)
          → (if blank then ok 2_000_000_000 else elim r as (λ _. Result Err ℕ) [
            | err e ↦ err (wrap "MANAGER_RECONCILE_INTERVAL must be a valid duration" e)
            | ok n ↦
                if n == 0
                then err (error_new "MANAGER_RECONCILE_INTERVAL must be positive")
                else ok n
          ])
            ≡ ok d
          → 1 ≤ d
      read true r q = omega (arith, ok-injective q)
      read false (err e) q = cc
      read false (ok n) q = elim (Bool-cases (n == 0)) [
        | inl x ↦ cc (rw x at q)
        | inr x ↦ ground (arith, ok-injective (rw x at q))
      ]

  module _ (getenv : String → Bytes) where
    options-IsChecked :
        (host : Bytes) (buildpacks : List Bytes) {c : Config}
        → Filled (value lib getenv "CF_IDENTITY_DOMAIN")
        → (is_nil (value lib getenv "MANAGER_PACK_HOST") ≡ true)
          ⊎ IsChild
              (value lib getenv "CF_IDENTITY_DOMAIN")
              (value lib getenv "MANAGER_PACK_HOST")
              host
        → All Filled buildpacks
        → load_options lib getenv host buildpacks ≡ ok c
        → IsChecked c
    unfolding load_options make_config
    options-IsChecked host buildpacks {c} d k p h =
        elim (Result-cases (read_interval lib (value lib getenv "MANAGER_RECONCILE_INTERVAL"))) [
          | inl x ↦ cc (rw (x.1, load_options) at h)
          | inr x ↦
              elim (Result-cases (read_skip lib (value lib getenv "CF_SKIP_SSL_VALIDATION"))) [
                | inl y ↦ cc (rw (x.1, load_options, y.1) at h)
                | inr y ↦
                    subst IsChecked (ok-injective (rw (x.1, load_options, y.1) at h)) (record {
                      domain = d;
                      hosts = k;
                      buildpacks = p;
                      interval =
                          read_interval_lem (value lib getenv "MANAGER_RECONCILE_INTERVAL") x.1;
                    })
              ]
        ]

    buildpacks-IsChecked :
        (host : Bytes) {c : Config}
        → Filled (value lib getenv "CF_IDENTITY_DOMAIN")
        → (is_nil (value lib getenv "MANAGER_PACK_HOST") ≡ true)
          ⊎ IsChild
              (value lib getenv "CF_IDENTITY_DOMAIN")
              (value lib getenv "MANAGER_PACK_HOST")
              host
        → load_buildpacks lib getenv host ≡ ok c
        → IsChecked c
    unfolding load_buildpacks
    buildpacks-IsChecked host {c} d k h =
        elim (Bool-cases (is_nil (value lib getenv "SANDBOX_BUILDPACKS"))) [
          | inl x ↦ cc (rw (x, load_buildpacks) at h)
          | inr x ↦
              let texts = split_at b',' (value lib getenv "SANDBOX_BUILDPACKS") in
              elim (Option-cases (trim_all lib texts)) [
                | inl y ↦ cc (rw (x, load_buildpacks, y) at h)
                | inr y ↦
                    options-IsChecked host y.0 d k (trim_all-Filled texts y.1)
                      (rw (x, load_buildpacks, y.1) at h)
              ]
        ]

    -- A configuration that `Load` returns has an identity domain, an interval that is positive and
    -- no empty buildpack; and it has no pack host, or one that is a DNS name, the route host and the
    -- domain joined by a dot, where the route host is a filled text without a dot.
    pub load-IsChecked : (c : Config) → load lib getenv ≡ ok c → IsChecked c
    unfolding load
    load-IsChecked c h =
        let domain = value lib getenv "CF_IDENTITY_DOMAIN" in
        let pack_host = value lib getenv "MANAGER_PACK_HOST" in
        elim (Bool-cases (is_nil domain)) [
          | inl x ↦ cc (rw (x, load) at h)
          | inr x ↦ elim (Option-cases (route_host domain pack_host)) [
            | inl y ↦ cc (rw (x, load, y) at h)
            | inr y ↦
                buildpacks-IsChecked y.0 x (route_host_lem domain pack_host y.1)
                  (rw (x, load, y.1) at h)
          ]
        ]
