-- ===== src/Bootstrap/Marker.antt =====
-- The marker file: what `writeMarker` does to it and to the other files.
use cf_herdr_poc.Base.{
  String, Bytes, Bool, true, ◌≡◌, ◌≢◌, refl, ◌∙◌, inl, inr, Option, none, some, Err, Option-cases,
}
use cf_herdr_poc.Base.Exec.{ok, Result-cases}
use cf_herdr_poc.Bootstrap.{System, and_then, fill_marker, move_marker, write_marker}

module _ {W H : Type 0} (sys : System W H) where
  -- What the system calls do to the files that are there. A new temporary file was not there
  -- before, and has not the name of the file that it is to become.
  pub record IsDisk : Type 0 where
    pub stat_regular : {p : String} {w : W} → sys.lstat p w ≡ ok true → sys.stat p w ≡ ok true
    pub chmod_keep : (p : String) (h : H) (w : W) → sys.lstat p (sys.chmod h w).0 ≡ sys.lstat p w
    pub write_keep :
        (p : String) (h : H) (w : W) → sys.lstat p (sys.write_ready h w).0 ≡ sys.lstat p w
    pub sync_keep : (p : String) (h : H) (w : W) → sys.lstat p (sys.sync h w).0 ≡ sys.lstat p w
    pub close_keep :
        (p : String) (h : H) (w : W) → sys.lstat p (sys.close_temp h w).0 ≡ sys.lstat p w
    pub reader_keep :
        (p : String) (h : H) (w : W) → sys.lstat p (sys.close_reader h w) ≡ sys.lstat p w
    pub print_keep :
        (p : String) (s : Bytes) (w : W) → sys.lstat p (sys.print_line s w) ≡ sys.lstat p w
    pub remove_keep :
        (p n : String) (w : W) → p ≢ n → sys.lstat p (sys.remove n w).0 ≡ sys.lstat p w
    pub rename_keep :
        (p n q : String) (w : W) → p ≢ n → p ≢ q → sys.lstat p (sys.rename n q w).0 ≡ sys.lstat p w
    pub rename_made :
        (n q : String) (w : W)
        → sys.lstat n w ≡ ok true
        → (sys.rename n q w).1 ≡ none
        → sys.lstat q (sys.rename n q w).0 ≡ ok true
    pub create_keep :
        {p q : String} {b : Bool} (w : W)
        → sys.lstat p w ≡ ok b
        → sys.lstat p (sys.create_temp q w).0 ≡ ok b
    pub create_fresh :
        {q : String} {h : H} {b : Bool} (w : W)
        → (sys.create_temp q w).1 ≡ ok h
        → sys.lstat (sys.name h) w ≢ ok b
    pub create_made :
        {q : String} {h : H} (w : W)
        → (sys.create_temp q w).1 ≡ ok h
        → sys.lstat (sys.name h) (sys.create_temp q w).0 ≡ ok true
    pub create_other :
        {q : String} {h : H} (w : W) → (sys.create_temp q w).1 ≡ ok h → q ≢ sys.name h

  module _ (disk : IsDisk) where
    fill_marker-lstat :
        (p : String) (h : H) (w : W) → sys.lstat p (fill_marker sys h w).0 ≡ sys.lstat p w
    unfolding fill_marker
    fill_marker-lstat p h w =
        disk.close_keep p h _
        ∙ then_lem (and_then (sys.chmod h w) (sys.write_ready h)) (sys.sync h) (disk.sync_keep p h)
        ∙ then_lem (sys.chmod h w) (sys.write_ready h) (disk.write_keep p h)
        ∙ disk.chmod_keep p h w
      where
        then_lem :
            (x : W × Option Err) (f : W → W × Option Err)
            → ((u : W) → sys.lstat p (f u).0 ≡ sys.lstat p u)
            → sys.lstat p (and_then x f).0 ≡ sys.lstat p x.0
        then_lem (u, none) f k = k u
        then_lem (u, some e) f k = refl

    move_marker-keep :
        (p q : String) (h : H) (w : W)
        → p ≢ sys.name h
        → p ≢ q
        → sys.lstat p (move_marker sys q h w).0 ≡ sys.lstat p w
    unfolding move_marker
    move_marker-keep p q h w n m = elim (Option-cases (fill_marker sys h w).1) [
      | inl x ↦
          rw (x, move_marker)
            (disk.remove_keep p (sys.name h) _ n
              ∙ disk.rename_keep p (sys.name h) q _ n m
              ∙ fill_marker-lstat p h w)
      | inr x ↦
          rw (x.1, move_marker) (disk.remove_keep p (sys.name h) _ n ∙ fill_marker-lstat p h w)
    ]

    move_marker-made :
        (q : String) (h : H) (w : W)
        → q ≢ sys.name h
        → sys.lstat (sys.name h) w ≡ ok true
        → (move_marker sys q h w).1 ≡ none
        → sys.lstat q (move_marker sys q h w).0 ≡ ok true
    unfolding move_marker
    move_marker-made q h w n there done = elim (Option-cases (fill_marker sys h w).1) [
      | inl x ↦
          rw (x, move_marker)
            (disk.remove_keep q (sys.name h) _ n
              ∙ disk.rename_made (sys.name h) q _ (fill_marker-lstat (sys.name h) h w ∙ there)
                  (rw (x, move_marker) at done))
      | inr x ↦ cc (rw (x.1, move_marker) at done)
    ]

    -- A regular file that is not the marker stays, whether the marker is written or not.
    pub write_marker-keep :
        {p q : String} (w : W)
        → p ≢ q
        → sys.lstat p w ≡ ok true
        → sys.lstat p (write_marker sys q w).0 ≡ ok true
    unfolding write_marker
    write_marker-keep {p} {q} w n there = elim (Result-cases (sys.create_temp q w).1) [
      | inl x ↦ rw (x.1, write_marker) (disk.create_keep w there)
      | inr x ↦
          rw (x.1, write_marker)
            (move_marker-keep p q x.0 _ (λ e. disk.create_fresh {b = true} w x.1 (rw⁻¹ e there)) n
              ∙ disk.create_keep w there)
    ]

    -- The marker is there if it was written without an error.
    pub write_marker-made :
        (q : String) (w : W)
        → (write_marker sys q w).1 ≡ none
        → sys.lstat q (write_marker sys q w).0 ≡ ok true
    unfolding write_marker
    write_marker-made q w done = elim (Result-cases (sys.create_temp q w).1) [
      | inl x ↦ cc (rw (x.1, write_marker) at done)
      | inr x ↦
          rw (x.1, write_marker)
            (move_marker-made q x.0 _ (disk.create_other w x.1) (disk.create_made w x.1)
              (rw (x.1, write_marker) at done))
    ]
