-- ===== src/Tests/Pulse.antt =====
-- The daemon: the listing, a start, the supervision and a stop.
use teddycloud_spotify_radio.Base.{
  ℕ, zero, suc, Bool, true, false, [], ◌∷◌, some, is_some, All, ◌≡◌, ◌||◌, ◌==◌, is_space, refl,
  arith, Text, codes, pos,
}
use teddycloud_spotify_radio.Process.{no_error}
use teddycloud_spotify_radio.Pulse.Sinks.{sink_listed, find_sink_by_name}
use teddycloud_spotify_radio.Pulse.Sinks.Listing.{Sink, IsListable, listing, sink_listed-listing}
use teddycloud_spotify_radio.Pulse.Daemon.{
  PulseAudio, World, Bringup, PactlRun, ended, polls, times_out, socket_timeout, up, Flags,
  start_daemon, start_backoff_of, max_backoff_of, exit_command, spawn,
}
use teddycloud_spotify_radio.Pulse.Daemon.Started.{Meets, start_daemon-Meets}
use teddycloud_spotify_radio.Pulse.Halt.{Stopping, ticks, deadline, stop}
use teddycloud_spotify_radio.Pulse.Halt.Effect.{IsHalted, stop-IsHalted}
use teddycloud_spotify_radio.Pulse.Run.{
  State, initial, starting, attempts, Step, moves, cancels, begins, then_steps,
}
use teddycloud_spotify_radio.Pulse.Run.Monitor.{Monitor, Refines}
use teddycloud_spotify_radio.Pulse.Run.Monitor.Refining.{
  Follows, run-Follows, begun_monitor, initial-Refines, Reach-Refines,
}
use teddycloud_spotify_radio.Pulse.Run.Race.{IsLeftUp, stop-IsLeftUp}
use teddycloud_spotify_radio.Pulse.Run.Stuck.{
  behind_failure, stays, then_lasts, Strands, start_daemon-Strands,
}
use teddycloud_spotify_radio.Pulse.MonitorStream.{Library}

abbrev virtual_sink : Sink
virtual_sink = record {
  index = codes "0";
  name = codes "virtual_out";
  rest = codes "module-null-sink.c";
}

abbrev any_of : (ℕ → Bool) → Text → Bool
any_of f [] = false
any_of f (c ∷ cs) = f c || any_of f cs

All-none : (f : ℕ → Bool) (w : Text) → any_of f w ≡ false → All (λ c. f c ≡ false) w
All-none f [] h = tt
All-none f (c ∷ cs) h = (ground arith, All-none f cs (ground arith))

virtual_sink-IsListable : IsListable virtual_sink
virtual_sink-IsListable = record {
  index_word = ((λ e. cc), All-none is_space (codes "0") (unfold is_space in refl));
  name_word = ((λ e. cc), All-none is_space (codes "virtual_out") (unfold is_space in refl));
  one_line = All-none (λ c. c == b'\n') (codes "module-null-sink.c") refl;
}

sink_listed-listing_example :
    sink_listed (listing (virtual_sink ∷ []))
    ≡ is_some (find_sink_by_name (λ (s : Sink). s.name) (virtual_sink ∷ []))
sink_listed-listing_example = sink_listed-listing (virtual_sink ∷ []) (virtual_sink-IsListable, tt)

abbrev pub audio : PulseAudio
audio = record {
  home_dir = [];
  xdg_runtime_dir = [];
  ready_timeout = pos 0;
  start_backoff = pos 0;
  max_backoff = pos 0;
  probe_interval = pos 0;
  stop_grace = pos 0;
}

abbrev pub empty_world : World
empty_world = record {
  home = [];
  xdg_runtime_dir = [];
  pulse_server = [];
  directories = [];
  commands = [];
  removals = [];
}

abbrev pub second_listing : ℕ → PactlRun
second_listing zero = ended [] no_error
second_listing (suc n) = ended (codes "0\tvirtual_out\n") no_error

-- A start that succeeds with the second listing.
abbrev pub good : Bringup
good = record {
  surroundings = record { makes = λ d. true; sets = λ v. true };
  launches = true;
  socket = polls false ∷ polls true ∷ [];
  listings = second_listing;
  default_set = ended [] no_error;
}

start_daemon-Meets_example : Meets audio good empty_world (start_daemon audio good empty_world)
start_daemon-Meets_example = start_daemon-Meets audio good empty_world

pub good_up : (w : World) → (start_daemon audio good w).1 ≡ up
good_up w = unfold start_daemon in refl

abbrev tried : State
tried = record (initial audio empty_world) { attempt = 1; place = starting }

tried-Step : Step audio (initial audio empty_world) tried
tried-Step = unfold initial in moves refl (attempts refl refl refl refl)

run-Follows_example : Follows 5_000_000_000 60_000_000_000 begun_monitor tried
run-Follows_example =
    run-Follows 5_000_000_000 60_000_000_000 audio begun_monitor (initial audio empty_world) tried
      (omega arith) (omega arith) (omega arith) (unfold max_backoff_of in refl)
      (initial-Refines 5_000_000_000 60_000_000_000 audio empty_world (omega arith)
        (unfold start_backoff_of in refl))
      tried-Step

Reach-Refines_example : (m : Monitor) × Refines 5_000_000_000 60_000_000_000 m tried
Reach-Refines_example =
    Reach-Refines 5_000_000_000 60_000_000_000 audio empty_world tried (omega arith) (omega arith)
      (omega arith) (unfold start_backoff_of in refl) (unfold max_backoff_of in refl)
      (then_steps begins tried-Step)

stop-IsLeftUp_example : (s : State) × IsLeftUp audio good empty_world s
stop-IsLeftUp_example =
    stop-IsLeftUp audio good empty_world (good_up (spawn exit_command empty_world))

-- The daemon is launched, and its socket does not show in time.
abbrev late : Bringup
late = record good { socket = polls false ∷ times_out ∷ [] }

abbrev late_state : State
late_state = behind_failure audio late tried

start_daemon-Strands_example :
    Strands audio empty_world late tried (record late_state { cancelled = true })
start_daemon-Strands_example =
    start_daemon-Strands audio empty_world late tried (record late_state { cancelled = true })
      (then_steps begins tried-Step) (unfold initial in refl) refl
      (socket_timeout, unfold start_daemon in refl) (then_lasts stays (cancels refl) tt)

-- `pactl exit` works, but the daemon stays until the deadline.
abbrev stubborn : Stopping
stubborn = record {
  exit_run = ended [] no_error;
  gone = ticks true ∷ deadline true ∷ [];
  pid_file = some (codes "42\n");
  gone_behind = ticks false ∷ deadline false ∷ [];
}

abbrev flags : Flags
flags = record { ready = true; stopping = false; reports = [] }

stop-IsHalted_example : IsHalted stubborn empty_world flags (stop stubborn empty_world flags)
stop-IsHalted_example = stop-IsHalted stubborn empty_world flags refl tt tt

abbrev pub library : Library
library = record { connects = true; list_sinks = some (codes "virtual_out" ∷ []); records = true }
