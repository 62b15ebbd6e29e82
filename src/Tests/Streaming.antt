-- ===== src/Tests/Streaming.antt =====
-- /stream and its recorder, and the command lines.
use teddycloud_spotify_radio.Base.{
  true, false, [], ◌∷◌, none, some, ◌≡◌, refl, codes, Text, pos, ℕ, List,
}
use teddycloud_spotify_radio.Server.{new_server, connect}
use teddycloud_spotify_radio.Server.Uri.{valid_uri}
use teddycloud_spotify_radio.Shim.Startup.{live, src_func}
use teddycloud_spotify_radio.Backoff.{next_backoff}
use teddycloud_spotify_radio.Recorder.{eof, pumps, new_recorder, start, stop, step, round}
use teddycloud_spotify_radio.Pulse.MonitorStream.Handles.{all_open}
use teddycloud_spotify_radio.Shim.Recording
use teddycloud_spotify_radio.Shim.Streaming.Stale.{Leads, stays, turns, IsStale, Leads-IsStale}
use teddycloud_spotify_radio.Json.Encode.{quote}
use teddycloud_spotify_radio.Soloist.Connector.{Connector, play, play_json, write}
use teddycloud_spotify_radio.Shim.Playing.{Answers, handle_stream, handle_stream-Answers}
use teddycloud_spotify_radio.Shim.Streaming.Sampled.{live_recorder}
use teddycloud_spotify_radio.Tests.Sinks.{socket}
use teddycloud_spotify_radio.Shim.Streaming.{metrics, recorder_of}
use teddycloud_spotify_radio.Shim.Streaming.{
  System, new_system, source_of, ask, admit, asks, enters, records, Reach, starts, then_turns,
}
use teddycloud_spotify_radio.Shim.Streaming.Served.{IsServed, Reach-IsServed}
use teddycloud_spotify_radio.Shim.Streaming.Answers.{status, Reach-ask}
use teddycloud_spotify_radio.Pulse.MonitorStream.{open_monitor_stream}
use teddycloud_spotify_radio.Tests.Pulse.{library}
use teddycloud_spotify_radio.Tests.Shim.{recorded}

abbrev album : List ℕ
album = codes "spotify:album:x1"

-- A recorder is live, and a request has asked for it and was let in.
abbrev streaming : System
streaming =
    admit (record new_system { recorder = recorded; pending = live 1 ∷ [] }) album [] (live 1)

streaming_reached : Reach false 22_050 (pos 8) streaming
unfolding open_monitor_stream ask src_func valid_uri Recording.set_slot
streaming_reached =
    let r1 : Reach false 22_050 (pos 8) _ =
      then_turns starts (records _ (Recording.moves refl (Recording.sees_ready refl refl)) refl) in
    let r2 : Reach false 22_050 (pos 8) _ =
      then_turns r1 (records _ (Recording.moves refl (Recording.goes_on refl refl refl)) refl) in
    let r3 : Reach false 22_050 (pos 8) _ =
      then_turns r2
        (records recorded (Recording.moves refl (Recording.opens library refl refl refl)) refl) in
    let r4 : Reach false 22_050 (pos 8) _ = then_turns r3 (asks album refl) in
    then_turns r4 (enters [] [] (live 1) album refl refl refl)

Reach-IsServed_example : IsServed false 22_050 streaming
Reach-IsServed_example = Reach-IsServed false 22_050 (pos 8) streaming streaming_reached

Reach-ask_example : (ask false 22_050 new_system album).1 ≡ status (valid_uri album) false false
Reach-ask_example = Reach-ask false 22_050 (pos 8) new_system album starts

-- Its recorder is lost.
abbrev gone : Recording.Live
gone =
    Recording.acts (pumps false [] (some eof)) (Recording.shut (Recording.fresh (pos 8) all_open))

abbrev between : Recording.State
between = Recording.set_slot none (record recorded {
  place = Recording.sleeping;
  past = Recording.shut (record gone { lost_done = true }) ∷ [];
  slept = pos Recording.recorder_backoff_initial ∷ [];
})

abbrev lost : System
lost = record streaming { recorder = between }

lost_reached : Reach false 22_050 (pos 8) lost
unfolding Recording.set_slot Recording.acts Recording.shut Recording.fresh start stop step round
    new_recorder admit
lost_reached =
    let r1 : Reach false 22_050 (pos 8) _ =
      then_turns streaming_reached
        (records _ (Recording.watch (Recording.fresh (pos 8) all_open) refl refl refl) refl) in
    let r2 : Reach false 22_050 (pos 8) _ = then_turns r1 (
      records _
        (Recording.live_acts (Recording.shut (Recording.fresh (pos 8) all_open))
          (pumps false [] (some eof)) tt refl refl)
        refl) in
    then_turns r2
      (records between (Recording.moves refl (Recording.loses gone refl refl refl)) refl)

-- `runRecorder` wakes up for its next attempt.
abbrev awake : System
awake = record lost {
  recorder = record between {
    place = Recording.head;
    backoff =
        next_backoff (pos Recording.recorder_backoff_initial) (pos Recording.recorder_backoff_max);
  };
}

lost-awake : Leads false 22_050 (pos 8) lost awake
unfolding Recording.set_slot
lost-awake = turns stays (records _ (Recording.moves refl (Recording.wakes refl refl)) refl)

Leads-IsStale_example : IsStale 0 1 awake
Leads-IsStale_example =
    Leads-IsStale false 22_050 (pos 8) 0 1 lost awake lost_reached (unfold admit source_of in refl)
      (λ e. unfold Recording.set_slot in cc) lost-awake

-- Soloist is connected.
abbrev attached : Connector (List Text)
attached = record { conn = some [] }

handle_stream-Answers_example :
    Answers socket
      (valid_uri album)
      true
      new_server
      attached
      album
      (handle_stream socket new_server attached true album)
handle_stream-Answers_example = handle_stream-Answers socket new_server attached true album

album_is_played : (handle_stream socket new_server attached true album).1 ≡ record {
  conn =
      some (codes "{\"type\":\"command\",\"command\":\"play\",\"uri\":\"spotify:album:x1\"}" ∷ []);
}
unfolding handle_stream connect valid_uri play play_json quote write
album_is_played = refl

-- The telemetry reads the live recorder.
live_is_sampled : metrics recorded ≡ live_recorder recorded.place
unfolding metrics recorder_of Recording.set_slot
live_is_sampled = refl
