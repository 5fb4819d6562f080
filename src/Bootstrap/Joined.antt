-- ===== src/Bootstrap/Joined.antt =====
-- What a join of the pack leaves behind, and what requests behind it do.
use cf_herdr_poc.Base.{
  Bool, true, false, ◌≡◌, ◌≢◌, refl, ◌∙◌, inl, inr, Option-cases, Bool-cases, if_both,
}
use cf_herdr_poc.Base.Exec.{ok, Result-cases}
use cf_herdr_poc.Bootstrap.{
  Config, System, Joiner, joined, fail, regular_file, write_marker, restore_marker, remove_token,
  mark_joined, join_args, call_joiner, attempt, join_unmarked, join,
}
use cf_herdr_poc.Bootstrap.Marker.{IsDisk, write_marker-made}

module _ {W H : Type 0} (sys : System W H) (config : Config) (disk : IsDisk sys) where
  abbrev pub IsMarked : W → Type 0
  IsMarked w = (b : Bool) × (sys.stat config.ready_path w ≡ ok b)

  pub IsMarked-lstat : (w : W) → sys.lstat config.ready_path w ≡ ok true → IsMarked w
  IsMarked-lstat w h = (true, disk.stat_regular h)

  pub join_marked :
      (joiner : Joiner W H) (w : W) → IsMarked w → join sys config joiner w ≡ (w, joined)
  unfolding join
  join_marked joiner w h = rw (h.1, join) refl

  module _ (apart : config.ready_path ≢ config.token_path) where
    restore-Marked :
        (w : W)
        → (restore_marker sys config w).1 ≡ joined
        → IsMarked (restore_marker sys config w).0
    unfolding restore_marker fail
    restore-Marked w h = elim (Option-cases (write_marker sys config.ready_path w).1) [
      | inr x ↦ cc (rw (x.1, restore_marker) at h)
      | inl x ↦
          rw (x, restore_marker)
            (IsMarked-lstat _
              (disk.remove_keep _ _ _ apart ∙ write_marker-made sys disk config.ready_path w x))
    ]

    remove_token-lstat :
        (w : W)
        → sys.lstat config.ready_path (remove_token sys config w) ≡ sys.lstat config.ready_path w
    unfolding remove_token
    remove_token-lstat w = elim (Option-cases (sys.remove config.token_path w).1) [
      | inl x ↦ rw (x, remove_token) (disk.remove_keep _ _ w apart)
      | inr x ↦
          rw (x.1, remove_token)
            (if_both (λ u. sys.lstat config.ready_path u ≡ sys.lstat config.ready_path w)
              (sys.not_exist x.0) _ _ (disk.remove_keep _ _ w apart)
              (disk.print_keep _ _ _ ∙ disk.remove_keep _ _ w apart))
    ]

    mark-lstat :
        (w : W)
        → (mark_joined sys config w).1 ≡ joined
        → sys.lstat config.ready_path (mark_joined sys config w).0 ≡ ok true
    unfolding mark_joined fail
    mark-lstat w h = elim (Option-cases (write_marker sys config.ready_path w).1) [
      | inr x ↦ cc (rw (x.1, mark_joined) at h)
      | inl x ↦
          rw (x, mark_joined)
            (remove_token-lstat _ ∙ write_marker-made sys disk config.ready_path w x)
    ]

    module _ (joiner : Joiner W H) where
      call-lstat :
          (t : H) (w : W)
          → (call_joiner sys config joiner t w).1 ≡ joined
          → sys.lstat config.ready_path (call_joiner sys config joiner t w).0 ≡ ok true
      unfolding call_joiner fail
      call-lstat t w h =
          let e = (joiner (join_args sys config) t w).1 in
          elim (Option-cases e) [
            | inr x ↦ cc (rw (x.1, call_joiner) at h)
            | inl x ↦ rw (x, call_joiner) (mark-lstat _ (rw (x, call_joiner) at h))
          ]

      attempt-Marked :
          (w : W)
          → (attempt sys config joiner w).1 ≡ joined
          → IsMarked (attempt sys config joiner w).0
      unfolding attempt fail
      attempt-Marked w h = elim (Result-cases (sys.open_file config.token_path w)) [
        | inl x ↦ cc (rw (x.1, attempt) at h)
        | inr x ↦
            rw (x.1, attempt)
              (IsMarked-lstat _
                (disk.reader_keep _ _ _ ∙ call-lstat x.0 w (rw (x.1, attempt) at h)))
      ]

      unmarked-Marked :
          (w : W)
          → (join_unmarked sys config joiner w).1 ≡ joined
          → IsMarked (join_unmarked sys config joiner w).0
      unfolding join_unmarked fail
      unmarked-Marked w h = elim (Result-cases (regular_file sys config.trust_store_path w)) [
        | inl x ↦ cc (rw (x.1, join_unmarked) at h)
        | inr (true, x) ↦ rw (x, join_unmarked) (restore-Marked w (rw (x, join_unmarked) at h))
        | inr (false, x) ↦ rw (x, join_unmarked) (attempt-Marked w (rw (x, join_unmarked) at h))
      ]

      join-Marked :
          (w : W) → (join sys config joiner w).1 ≡ joined → IsMarked (join sys config joiner w).0
      unfolding join fail
      join-Marked w h = elim (Result-cases (sys.stat config.ready_path w)) [
        | inr x ↦ rw (x.1, join) x
        | inl x ↦ elim (Bool-cases (sys.not_exist x.0)) [
          | inl y ↦ rw (x.1, join, y) (unmarked-Marked w (rw (x.1, join, y) at h))
          | inr y ↦ cc (rw (x.1, join, y) at h)
        ]
      ]

      -- If the marker, the token and the temporary files have different paths, then behind a join that
      -- was answered by `joined` every further one is answered by `joined` too, changes nothing and
      -- calls no joiner.
      pub rejoin :
          (again : Joiner W H) (w : W)
          → (join sys config joiner w).1 ≡ joined
          → join sys config again (join sys config joiner w).0
            ≡ ((join sys config joiner w).0, joined)
      rejoin again w h = join_marked again (join sys config joiner w).0 (join-Marked w h)
