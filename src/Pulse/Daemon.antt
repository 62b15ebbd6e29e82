-- ===== src/Pulse/Daemon.antt =====
-- internal/audio/pulse.go: one start of the daemon (`SetupEnv`, `startDaemon`, `Start`). What the
-- processes print and return, the files and the timers are inputs.
mod Looked
pub mod Started
use teddycloud_spotify_radio.Base.{
  ℕ, zero, suc, ◌+◌, ◌*◌, Bool, true, false, not, List, [], ◌∷◌, ◌++◌, Option, none, some, is_some,
  if◌then◌else◌, Text, codes, text_eq, join_paths, ℤ, pos, positive_or,
}
use teddycloud_spotify_radio.Process.{WaitError, no_error, exit_code}
use teddycloud_spotify_radio.Soloist.Pairing.{is_code}
use teddycloud_spotify_radio.Pulse.Sinks.{sink_name, sink_listed}

abbrev millisecond : ℕ
millisecond = 1_000_000

abbrev pub pulse_not_ready : Text
pulse_not_ready = codes "pulseaudio_not_ready"

-- The settings of a `PulseAudio`; an empty text and a zero stand for the default.
pub record PulseAudio : Type 0 where
  pub home_dir : Text
  pub xdg_runtime_dir : Text
  pub ready_timeout : ℤ
  pub start_backoff : ℤ
  pub max_backoff : ℤ
  pub probe_interval : ℤ
  pub stop_grace : ℤ

or_default : Text → Text → Text
or_default [] default = default
or_default (c ∷ cs) default = c ∷ cs

unfoldable pub home_dir_of : PulseAudio → Text
unfolding or_default
home_dir_of p = or_default p.home_dir (codes "/tmp/home")

unfoldable pub runtime_dir_of : PulseAudio → Text
unfolding or_default
runtime_dir_of p = or_default p.xdg_runtime_dir (codes "/tmp/runtime")

unfoldable pub ready_timeout_of : PulseAudio → ℤ
ready_timeout_of p = pos (positive_or p.ready_timeout (10_000 * millisecond))

unfoldable pub start_backoff_of : PulseAudio → ℤ
start_backoff_of p = pos (positive_or p.start_backoff (5_000 * millisecond))

unfoldable pub max_backoff_of : PulseAudio → ℤ
max_backoff_of p = pos (positive_or p.max_backoff (60_000 * millisecond))

unfoldable pub probe_interval_of : PulseAudio → ℤ
probe_interval_of p = pos (positive_or p.probe_interval (2_000 * millisecond))

unfoldable pub stop_grace_of : PulseAudio → ℤ
stop_grace_of p = pos (positive_or p.stop_grace (3_000 * millisecond))

-- The variables that `SetupEnv` sets, the directories that it made, the commands that were tried,
-- and the files whose removal was tried.
pub record World : Type 0 where
  pub home : Text
  pub xdg_runtime_dir : Text
  pub pulse_server : Text
  pub directories : List Text
  pub commands : List (List Text)
  pub removals : List Text

pub data DaemonError : Type 0 where
  no_directory no_variable : Text → DaemonError
  not_launched socket_timeout pactl_failed sink_not_found default_not_set : DaemonError
  not_daemonized : WaitError → DaemonError

-- Which directories can be made, and which variables can be set.
pub record Surroundings : Type 0 where
  pub makes : Text → Bool
  pub sets : Text → Bool

unfoldable pub native_socket : PulseAudio → Text
unfolding runtime_dir_of join_paths
native_socket p = join_paths (runtime_dir_of p ∷ codes "pulse" ∷ codes "native" ∷ [])

set_variables : PulseAudio → Surroundings → World → World × Option DaemonError
unfolding home_dir_of runtime_dir_of native_socket
set_variables p e w =
    let w1 = record w { home = home_dir_of p } in
    let w2 = record w1 { xdg_runtime_dir = runtime_dir_of p } in
    let w3 = record w2 { pulse_server = codes "unix:" ++ native_socket p } in
    if e.sets (codes "HOME")
    then (if e.sets (codes "XDG_RUNTIME_DIR")
        then (if e.sets (codes "PULSE_SERVER")
            then (w3, none)
            else (w2, some (no_variable (codes "PULSE_SERVER"))))
        else (w1, some (no_variable (codes "XDG_RUNTIME_DIR"))))
    else (w, some (no_variable (codes "HOME")))

unfoldable pub setup_env : PulseAudio → Surroundings → World → World × Option DaemonError
unfolding set_variables home_dir_of runtime_dir_of
setup_env p e w =
    let w1 = record w { directories = w.directories ++ home_dir_of p ∷ [] } in
    let w2 = record w1 { directories = w1.directories ++ runtime_dir_of p ∷ [] } in
    if e.makes (home_dir_of p)
    then (if e.makes (runtime_dir_of p)
        then set_variables p e w2
        else (w1, some (no_directory (runtime_dir_of p))))
    else (w, some (no_directory (home_dir_of p)))

-- The loads of the modules, with audio.SampleRate.
abbrev pub daemon_args : List Text
daemon_args =
    codes "--exit-idle-time=-1"
    ∷ codes "-n"
    ∷ codes "--load=module-native-protocol-unix"
    ∷ codes
        "--load=module-null-sink sink_name=virtual_out rate=22050 channels=2 sink_properties=device.description=Shim_Sink"
    ∷ codes "--daemonize=yes"
    ∷ codes "--log-target=stderr"
    ∷ []

abbrev pub launch_command : List Text
launch_command = codes "pulseaudio" ∷ daemon_args

abbrev pub list_command : List Text
list_command = codes "pactl" ∷ codes "list" ∷ codes "sinks" ∷ codes "short" ∷ []

abbrev pub default_command : List Text
default_command = codes "pactl" ∷ codes "set-default-sink" ∷ sink_name ∷ []

abbrev pub exit_command : List Text
exit_command = codes "pactl" ∷ codes "exit" ∷ []

abbrev pub spawn : List Text → World → World
spawn command w = record w { commands = w.commands ++ command ∷ [] }

-- A run of pactl: it does not start, or it prints something and ends.
pub data PactlRun : Type 0 where
  not_started : PactlRun
  ended : Text → WaitError → PactlRun

-- `pactlRun`: what it printed, unless there is an error.
unfoldable pub pactl_out : PactlRun → Option Text
pactl_out (ended out no_error) = some out
pactl_out _ = none

-- What `waitForSocket` receives. The launcher exits at most once.
pub data SocketEvent : Type 0 where
  launcher_exits : WaitError → SocketEvent
  times_out : SocketEvent
  polls : Bool → SocketEvent

-- One start: still waiting, failed, or up.
pub data Outcome : Type 0 where
  pending up : Outcome
  failed : DaemonError → Outcome

unfoldable pub wait_for_socket : List SocketEvent → Outcome
unfolding exit_code
wait_for_socket [] = pending
wait_for_socket (launcher_exits e ∷ es) =
    let on = wait_for_socket es in
    if is_code (exit_code e) (pos 0) then on else failed (not_daemonized e)
wait_for_socket (times_out ∷ es) = failed socket_timeout
wait_for_socket (polls there ∷ es) = let on = wait_for_socket es in if there then up else on

-- What a listing says: none if the sink is listed.
pub listing_error : Option Text → Option DaemonError
unfolding sink_listed
listing_error none = some pactl_failed
listing_error (some out) = if sink_listed out then none else some sink_not_found

-- `for i := 0; i < 5; i++`, by the rounds that are left; the last error is returned.
pub wait_sinks : ℕ → ℕ → (ℕ → PactlRun) → Option DaemonError → World → World × Option DaemonError
unfolding listing_error pactl_out
wait_sinks zero i runs last w = (w, last)
wait_sinks (suc left) i runs last w = elim (listing_error (pactl_out (runs i))) [
  | none ↦ (spawn list_command w, none)
  | some e ↦ wait_sinks left (suc i) runs (some e) (spawn list_command w)
]

unfoldable pub wait_sink_ready : (ℕ → PactlRun) → World → World × Option DaemonError
unfolding wait_sinks
wait_sink_ready runs w = wait_sinks 5 0 runs none w

-- What one start meets.
pub record Bringup : Type 0 where
  pub surroundings : Surroundings
  pub launches : Bool
  pub socket : List SocketEvent
  pub listings : ℕ → PactlRun
  pub default_set : PactlRun

set_default : Bringup → World × Option DaemonError → World × Outcome
unfolding pactl_out
set_default b (w, some e) = (spawn exit_command w, failed e)
set_default b (w, none) =
    let w' = spawn default_command w in
    if is_some (pactl_out b.default_set)
    then (w', up)
    else (spawn exit_command w', failed default_not_set)

behind_socket : Bringup → Outcome → World → World × Outcome
unfolding set_default wait_sink_ready
behind_socket b pending w = (w, pending)
behind_socket b (failed e) w = (w, failed e)
behind_socket b up w = set_default b (wait_sink_ready b.listings w)

-- The files of an earlier daemon that `removeStaleRuntime` removes if it can.
pub stale_files : PulseAudio → List Text
unfolding native_socket runtime_dir_of join_paths
stale_files p =
    native_socket p ∷ join_paths (runtime_dir_of p ∷ codes "pulse" ∷ codes "pid" ∷ []) ∷ []

behind_env : PulseAudio → Bringup → World × Option DaemonError → World × Outcome
unfolding behind_socket wait_for_socket stale_files
behind_env p b (w, some e) = (w, failed e)
behind_env p b (w, none) =
    let w' = spawn launch_command (record w { removals = w.removals ++ stale_files p }) in
    if b.launches then behind_socket b (wait_for_socket b.socket) w' else (w', failed not_launched)

unfoldable pub start_daemon : PulseAudio → Bringup → World → World × Outcome
unfolding behind_env setup_env
start_daemon p b w = behind_env p b (setup_env p b.surroundings w)

-- What `Start` and `Run` keep: the flag of `Ready`, the flag of `Stop`, and the health reports.
pub record Flags : Type 0 where
  pub ready : Bool
  pub stopping : Bool
  pub reports : List Text

settle : Outcome → Flags → Flags
settle pending f = f
settle (failed e) f = record f { ready = false; reports = f.reports ++ pulse_not_ready ∷ [] }
settle up f = record f { ready = true; reports = f.reports ++ [] ∷ [] }

-- `Start`.
unfoldable pub start : PulseAudio → Bringup → World × Flags → (World × Flags) × Outcome
unfolding settle start_daemon
start p b (w, f) = let (w', o) = start_daemon p b w in ((w', settle o f), o)
