-- ===== src/Tests/Backoff.antt =====
-- The delays between attempts.
use teddycloud_spotify_radio.Base.{◌-◌, ◌^◌, ◌⊎◌, ◌≡◌, refl, arith, pos}
use teddycloud_spotify_radio.Backoff.{next_backoff}
use teddycloud_spotify_radio.Backoff.Schedule.{◌≤ℤ◌, ◌<ℤ◌, next_backoff_bounds}

next_backoff_runs : next_backoff (pos 2) (pos 30) ≡ pos 4
unfolding next_backoff
next_backoff_runs = refl

-- 2 ^ 62 doubled overflows.
overflow_is_capped : next_backoff (pos (2 ^ 62)) (pos (2 ^ 63 - 1)) ≡ pos (2 ^ 63 - 1)
unfolding next_backoff
overflow_is_capped = refl

next_backoff_bounds_example :
    (next_backoff (pos 16) (pos 30) ≤ℤ pos 30)
    × ((pos 30 <ℤ pos 16) ⊎ (pos 16 <ℤ pos 1) ⊎ (pos 16 ≤ℤ next_backoff (pos 16) (pos 30)))
next_backoff_bounds_example = next_backoff_bounds (pos 16) (pos 30) (omega arith) (omega arith)
