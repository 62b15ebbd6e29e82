-- ===== src/Shim/Streaming.antt =====
-- cmd/shim/main.go and internal/server/stream.go: /stream on the slot of the recorder, as `main` puts
-- them together. A request asks for its source at one time and is let in at a later one; in
-- between, and from then on, it holds that source, whatever becomes of the slot.
pub mod Held
pub mod Given
pub mod Served
pub mod Answers
pub mod Stale
pub mod Sampled
use teddycloud_spotify_radio.Base.{
  ℕ, ◌+◌, ◌-◌, ◌==◌, Bool, true, false, List, [], ◌∷◌, ◌++◌, Option, none, some, if◌then◌else◌,
  zero, suc, ◌≡◌, ◌<◌, Text, ℤ, length,
}
use teddycloud_spotify_radio.Server.Uri.{valid_uri}
use teddycloud_spotify_radio.Server.{Server, Event, new_server, connects, begins, connect, step}
use teddycloud_spotify_radio.Recorder.{Recorder}
use teddycloud_spotify_radio.Shim.Startup.{Source, tone, live, src_func}
use teddycloud_spotify_radio.Shim.Recording.{Live, Place, recording, State, initial, Step}

-- The server and `runRecorder`; the sources of the requests that are not yet let in, and of those
-- that are, with their numbers.
pub record System : Type 0 where
  pub server : Server
  pub recorder : State
  pub pending : List Source
  pub serving : List (ℕ × Source)

abbrev pub new_system : System
new_system = record { server = new_server; recorder = initial; pending = []; serving = [] }

-- The source of a request that was let in.
unfoldable pub source_of : ℕ → List (ℕ × Source) → Option Source
source_of r [] = none
source_of r ((n, src) ∷ rest) = let on = source_of r rest in if n == r then some src else on

-- `audio.SampleRate`.
abbrev audio_sample_rate : ℕ
audio_sample_rate = 22_050

-- `SampleRate` of a source: that of the tone, or `audio.SampleRate`.
unfoldable pub sample_rate : Source → ℕ
sample_rate (tone rate) = rate
sample_rate (live a) = audio_sample_rate

-- A step of a request behind its header, or a report.
abbrev pub IsLater : Event → Type 0
IsLater (connects has_source has_play uri) = ⊥
IsLater (begins r rate) = ⊥
IsLater e = Unit

get_elem? : ℕ → List Live → Option Live
get_elem? n [] = none
get_elem? zero (l ∷ ls) = some l
get_elem? (suc n) (l ∷ ls) = get_elem? n ls

at_place : Place → Option Live
at_place (recording l) = some l
at_place place = none

-- The recorder of an attempt (from 1): the live one, or one that was left.
unfoldable pub recorder_of : State → ℕ → Option Live
unfolding get_elem? at_place
recorder_of s a =
    let on = get_elem? (length s.past - a) s.past in
    if a == length s.past + 1 then at_place s.place else on

recorder_in : Option Live → Option Recorder
recorder_in none = none
recorder_in (some l) = some l.recorder

metrics_of : State → Option ℕ → Option Recorder
unfolding recorder_of recorder_in
metrics_of s none = none
metrics_of s (some a) = recorder_in (recorder_of s a)

-- `recorderSlot.metrics`: the recorder in the slot, whose counters the telemetry reads.
unfoldable pub metrics : State → Option Recorder
unfolding metrics_of
metrics s = metrics_of s s.slot

-- A request with a source is let in.
unfoldable pub admit : System → Text → List Source → Source → System
unfolding connect
admit s uri others src = record s {
  server = (connect s.server true true uri).0;
  pending = others;
  serving = (s.server.requests, src) ∷ s.serving;
}

module _ (static_stream : Bool) (rate : ℕ) where
  ask_if : Bool → Option Source → System → System × Option ℕ
  ask_if false src s = (s, some 400)
  ask_if true none s = (s, some 503)
  ask_if true (some src) s = (record s { pending = src ∷ s.pending }, none)

  -- `handleStream` up to its source: the status of an error, or none if it goes on.
  unfoldable pub ask : System → Text → System × Option ℕ
  unfolding ask_if valid_uri src_func
  ask s uri = ask_if (valid_uri uri) (src_func static_stream rate s.recorder.slot) s

  module _ (buffer_len : ℤ) where
    -- A step of a request or of `runRecorder` and what is around it.
    pub data Turn (s t : System) : Type 0 where
      asks : (uri : Text) → t ≡ (ask s uri).0 → Turn s t
      enters :
          (before after : List Source) (src : Source) (uri : Text)
          → valid_uri uri ≡ true
          → s.pending ≡ before ++ src ∷ after
          → t ≡ admit s uri (before ++ after) src
          → Turn s t
      heads :
          (r : ℕ) (src : Source)
          → source_of r s.serving ≡ some src
          → t ≡ record s { server = step s.server (begins r (sample_rate src)) }
          → Turn s t
      serves : (e : Event) → IsLater e → t ≡ record s { server = step s.server e } → Turn s t
      records :
          (r : State) → Step buffer_len s.recorder r → t ≡ record s { recorder = r } → Turn s t

    pub data Reach : System → Type 0 where
      starts : Reach new_system
      then_turns : {s t : System} → Reach s → Turn s t → Reach t
