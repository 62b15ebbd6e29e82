-- ===== src/Shim/Streaming/Answers.antt =====
-- What /stream answers before its source is used.
use teddycloud_spotify_radio.Base.{
  ℕ, Bool, true, false, Option, none, some, is_some, if◌then◌else◌, ◌≡◌, refl, ap, ◌∙◌, Text, ℤ,
}
use teddycloud_spotify_radio.Server.Uri.{valid_uri}
use teddycloud_spotify_radio.Shim.Startup.{src_func}
use teddycloud_spotify_radio.Shim.Recording
use teddycloud_spotify_radio.Shim.Recording.Tidy.{Reach-IsTidy, slot_at}
use teddycloud_spotify_radio.Shim.Streaming.{System, ask, ask_if, Reach}
use teddycloud_spotify_radio.Shim.Streaming.Served.{Reach-recorder}

-- Whether `runRecorder` has a live recorder.
abbrev pub is_recording : Recording.Place → Bool
is_recording (Recording.recording l) = true
is_recording place = false

-- The status by the contract of /stream, none for a stream.
abbrev pub status : Bool → Bool → Bool → Option ℕ
status valid static_stream has_recorder =
    if valid
    then (if static_stream then none else if has_recorder then none else some 503)
    else some 400

slot-recording : (p : Recording.Place) (a : ℕ) → is_some (slot_at p a) ≡ is_recording p
slot-recording (Recording.recording l) a = refl
slot-recording Recording.awaiting a = refl
slot-recording Recording.head a = refl
slot-recording Recording.opening a = refl
slot-recording Recording.sleeping a = refl

ask-status :
    (static_stream valid : Bool) (rate : ℕ) (slot : Option ℕ) (s : System)
    → (ask_if static_stream rate valid (src_func static_stream rate slot) s).1
      ≡ status valid static_stream (is_some slot)
unfolding ask_if src_func
ask-status on false rate slot s = refl
ask-status true true rate slot s = refl
ask-status false true rate none s = refl
ask-status false true rate (some a) s = refl

-- Whatever has happened so far: a request is answered 400 if its URI is not valid; otherwise 503
-- exactly if the static stream is off and `runRecorder` is not in its select with a live recorder; and
-- else it goes on.
pub Reach-ask :
    (static_stream : Bool) (rate : ℕ) (buffer_len : ℤ) (t : System) (uri : Text)
    → Reach static_stream rate buffer_len t
    → (ask static_stream rate t uri).1
      ≡ status (valid_uri uri) static_stream (is_recording t.recorder.place)
unfolding ask
Reach-ask static_stream rate buffer_len t uri r =
    let tidy =
      Reach-IsTidy buffer_len t.recorder (Reach-recorder static_stream rate buffer_len t r) in
    ask-status static_stream (valid_uri uri) rate t.recorder.slot t
    ∙ ap (status (valid_uri uri) static_stream)
        (ap is_some tidy.slot_is ∙ slot-recording t.recorder.place t.recorder.attempt)
