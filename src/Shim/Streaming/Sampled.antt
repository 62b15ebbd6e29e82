-- ===== src/Shim/Streaming/Sampled.antt =====
-- What the telemetry reads of the slot.
use teddycloud_spotify_radio.Base.{Option, none, some, ◌≡◌, refl, ap, ◌∙◌, ℤ}
use teddycloud_spotify_radio.Recorder.{Recorder}
use teddycloud_spotify_radio.Server.{Server}
use teddycloud_spotify_radio.Telemetry.{snapshot}
use teddycloud_spotify_radio.Shim.Recording.{
  Place, awaiting, head, opening, recording, sleeping, State, Reach,
}
use teddycloud_spotify_radio.Shim.Recording.Tidy.{slot_at, IsTidy, Reach-IsTidy}
use teddycloud_spotify_radio.Shim.Streaming.{recorder_in, metrics_of, metrics}
use teddycloud_spotify_radio.Shim.Streaming.Held.{newest-recorder_of}

-- The recorder that `runRecorder` waits for in its select.
abbrev pub live_recorder : Place → Option Recorder
live_recorder (recording l) = some l.recorder
live_recorder place = none

metrics-at :
    (s : State) (p : Place)
    → s.place ≡ p
    → IsTidy s
    → metrics_of s (slot_at p s.attempt) ≡ live_recorder p
unfolding metrics_of recorder_in
metrics-at s (recording l) at h = ap recorder_in (newest-recorder_of s l h at)
metrics-at s awaiting at h = refl
metrics-at s head at h = refl
metrics-at s opening at h = refl
metrics-at s sleeping at h = refl

-- Whatever happened to the recorders: the telemetry counts the chunks of the live recorder, and none
-- while there is no live one; never those of a recorder that was lost.
pub Reach-metrics :
    (buffer_len : ℤ) (s : State) (server : Server)
    → Reach buffer_len s
    → snapshot server (metrics s) ≡ snapshot server (live_recorder s.place)
unfolding metrics
Reach-metrics buffer_len s server r =
    let tidy = Reach-IsTidy buffer_len s r in
    ap (λ o. snapshot server o) (ap (metrics_of s) tidy.slot_is ∙ metrics-at s s.place refl tidy)
