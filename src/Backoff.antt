-- ===== src/Backoff.antt =====
-- internal/audio/pulse.go and internal/soloist/pair.go: `NextBackoff`, the delay between two
-- attempts. A `time.Duration` is an int64 of nanoseconds, and `current * 2` wraps.
pub mod Schedule
use teddycloud_spotify_radio.Base.{◌||◌, ltb_ℤ, leb_ℤ, if◌then◌else◌, ℤ, pos, wrap64, double}

-- audio.NextBackoff.
unfoldable pub next_backoff : ℤ → ℤ → ℤ
next_backoff current max =
    if leb_ℤ max current
    then max
    else (let next = wrap64 (double current) in
        if leb_ℤ next (pos 0) || ltb_ℤ max next then max else next)
