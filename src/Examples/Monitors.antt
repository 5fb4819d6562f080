-- ===== src/Examples/Monitors.antt =====
-- The state of a pack that changes while it is watched.
use cf_herdr_poc.Base.{ℕ, Bytes, codes, none, List, [], ◌∷◌, ◌≡◌, ◌⊎◌, refl, arith}
use cf_herdr_poc.Manager.Monitor.{Tick, called, new_monitor, tick, watch}
use cf_herdr_poc.Manager.Monitor.Debounced.{IsDebounced, watch-IsDebounced}
use cf_herdr_poc.Manager.Monitor.Settled.{HasRestart, watch-settles}

abbrev old : Bytes
old = codes "old"

abbrev fresh : Bytes
fresh = codes "fresh"

abbrev shows : Bytes → ℕ → Tick
shows x now = record { current = x; now = now; restart = none; ready = none }

-- The latest first.
abbrev changed : List Tick
changed = shows fresh 14 ∷ shows [] 13 ∷ shows fresh 12 ∷ shows old 11 ∷ []

restarts : (tick 4 (shows fresh 16) (watch 4 changed (new_monitor old))).1 ≡ called none
unfolding tick watch new_monitor
restarts = refl

watch-IsDebounced_example :
    IsDebounced 4 (shows fresh 16) changed (watch 4 changed (new_monitor old))
watch-IsDebounced_example = watch-IsDebounced 4 old changed (shows fresh 16) none restarts

abbrev stays : List Tick
stays = shows fresh 16 ∷ shows fresh 14 ∷ shows fresh 12 ∷ []

watch-settles_example :
    ((watch 4 stays (new_monitor old)).last ≡ fresh)
    × ((old ≡ fresh) ⊎ HasRestart 4 fresh refl stays (new_monitor old))
unfolding new_monitor
watch-settles_example =
    watch-settles 4 fresh refl (shows fresh 12) (shows fresh 16) (shows fresh 14 ∷ [])
      (new_monitor old) (refl, (refl, (refl, tt))) (omega arith) (omega arith) refl refl

-- A change that was taken back stays noted. When it comes again, one tick of it is enough.
abbrev flips : List Tick
flips = shows old 29 ∷ shows old 13 ∷ shows fresh 12 ∷ []

stale_pending : (tick 4 (shows fresh 30) (watch 4 flips (new_monitor old))).1 ≡ called none
unfolding tick watch new_monitor
stale_pending = refl
