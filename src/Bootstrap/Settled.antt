-- ===== src/Bootstrap/Settled.antt =====
-- Requests to a member that has joined, and what a failure shows.
use cf_herdr_poc.Base.{
  String, true, ◌≡◌, ◌≢◌, ◌⊎◌, refl, sym, ◌∙◌, inl, inr, List, [], ◌∷◌, Option-cases, Bool-cases,
  if_both, str_eq,
}
use cf_herdr_poc.Base.Exec.{ok, Result-cases}
use cf_herdr_poc.Sanitize.{IsCleaned}
use cf_herdr_poc.Bootstrap.{
  Config, System, Joiner, Response, ready, joined, method_not_allowed, not_found, failed, fail,
  regular_file, write_marker, restore_marker, join_unmarked, join, serve,
}
use cf_herdr_poc.Bootstrap.Marker.{IsDisk, write_marker-keep}
use cf_herdr_poc.Bootstrap.Joined.{IsMarked, join_marked}

-- The responses to requests, a method and a path each.
pub serve_all :
    {W H : Type 0} (sys : System W H) (config : Config) (joiner : Joiner W H)
    → List (String × String)
    → W
    → W × List Response
serve_all sys config joiner [] w = (w, [])
serve_all sys config joiner ((method, path) ∷ rs) w =
    let (u, r) = serve sys config joiner method path w in
    let (v, rest) = serve_all sys config joiner rs u in (v, r ∷ rest)

module _ {W H : Type 0} (sys : System W H) (config : Config) where
  -- A message that is shown.
  abbrev pub IsShown : W × Response → Type 0
  IsShown (w, failed text) = IsCleaned sys.redact text
  IsShown (w, ready) = Unit
  IsShown (w, joined) = Unit
  IsShown (w, method_not_allowed) = Unit
  IsShown (w, not_found) = Unit

module _ {W H : Type 0} (sys : System W H) (config : Config) (disk : IsDisk sys)
    (apart : config.trust_store_path ≢ config.ready_path)
    (other : config.trust_store_path ≢ config.token_path) where
  abbrev pub IsTrusted : W → Type 0
  IsTrusted w = sys.lstat config.trust_store_path w ≡ ok true

  -- The member has joined: its marker is there, or its trust store is complete.
  abbrev pub IsSettled : W → Type 0
  IsSettled w = IsMarked sys config disk w ⊎ IsTrusted w

  abbrev Good : W × Response → Type 0
  Good r = IsSettled r.0

  restore-IsTrusted : (w : W) → IsTrusted w → IsTrusted (restore_marker sys config w).0
  unfolding restore_marker fail
  restore-IsTrusted w h =
      let kept = write_marker-keep sys disk w apart h in
      elim (Option-cases (write_marker sys config.ready_path w).1) [
        | inr x ↦ rw (x.1, restore_marker) (disk.print_keep _ _ _ ∙ kept)
        | inl x ↦ rw (x, restore_marker) (disk.remove_keep _ _ _ other ∙ kept)
      ]

  module _ (joiner : Joiner W H) where
    unmarked_trusted :
        (w : W) → IsTrusted w → join_unmarked sys config joiner w ≡ restore_marker sys config w
    unfolding join_unmarked regular_file
    unmarked_trusted w h = rw (h, regular_file, join_unmarked) refl

    join-IsSettled : (w : W) → IsSettled w → IsSettled (join sys config joiner w).0
    unfolding join fail
    join-IsSettled w (inl m) = rw (join_marked sys config disk joiner w m) (inl m)
    join-IsSettled w (inr h) = elim (Result-cases (sys.stat config.ready_path w)) [
      | inr x ↦ rw (x.1, join) (inr h)
      | inl x ↦ elim (Bool-cases (sys.not_exist x.0)) [
        | inl y ↦ rw (x.1, join, y, unmarked_trusted w h) (inr (restore-IsTrusted w h))
        | inr y ↦ rw (x.1, join, y) (inr (disk.print_keep _ _ _ ∙ h))
      ]
    ]

    serve-IsSettled :
        (method path : String) (w : W)
        → IsSettled w
        → IsSettled (serve sys config joiner method path w).0
    unfolding serve
    serve-IsSettled method path w h = if_both Good (str_eq path "/bootstrap/health") _ _ h (
        if_both Good (str_eq path "/bootstrap/join") _ _
          (if_both Good (str_eq method "POST") _ _ (join-IsSettled w h) h) h)

  module _ (joiner again : Joiner W H) where
    join-same : (w : W) → IsSettled w → join sys config joiner w ≡ join sys config again w
    unfolding join
    join-same w (inl m) =
        join_marked sys config disk joiner w m ∙ sym (join_marked sys config disk again w m)
    join-same w (inr h) = elim (Result-cases (sys.stat config.ready_path w)) [
      | inr x ↦ rw (x.1, join) refl
      | inl x ↦ rw (x.1, join, unmarked_trusted joiner w h, unmarked_trusted again w h) refl
    ]

    serve-same :
        (method path : String) (w : W)
        → IsSettled w
        → serve sys config joiner method path w ≡ serve sys config again method path w
    unfolding serve
    serve-same method path w h = rw (join-same w h) refl

    -- If the marker or the complete trust store of a member is there, and the trust store, the marker
    -- and the token have different paths, then no requests call the joiner: with any other joiner
    -- they change and answer the same.
    pub serve_all-settled :
        (rs : List (String × String)) (w : W)
        → IsSettled w
        → serve_all sys config joiner rs w ≡ serve_all sys config again rs w
    unfolding serve_all
    serve_all-settled [] w h = refl
    serve_all-settled ((method, path) ∷ rs) w h =
        rw (serve-same method path w h)
          (rw (serve_all-settled rs _ (serve-IsSettled again method path w h)) refl)
