-- ===== src/Pulse/Halt.antt =====
-- internal/audio/pulse.go: whether the daemon lives, and `Stop`.
pub mod Effect
use teddycloud_spotify_radio.Base.{
  ℕ, Bool, true, false, not, List, [], ◌∷◌, ◌++◌, Option, none, some, is_some, if◌then◌else◌, ◌≡◌,
  ◌≢◌, ◌⊎◌, inl, inr, refl, arith, Text, codes, has_prefix, trim_space, atoi, ℤ, Option-cases,
  Bool-cases,
}
use teddycloud_spotify_radio.Pulse.Daemon.{PactlRun, pactl_out, World, Flags, exit_command, spawn}

-- `daemonPID` on the pid file, if it can be read.
unfoldable pub daemon_pid : Option Text → Option ℤ
unfolding trim_space atoi
daemon_pid none = none
daemon_pid (some raw) = atoi (trim_space raw)

names_daemon : Option Text → Bool
unfolding trim_space has_prefix
names_daemon none = false
names_daemon (some comm) = has_prefix (trim_space comm) (codes "pulseaudio")

alive_with : (ℤ → Option Text) → Option ℤ → Bool
unfolding names_daemon
alive_with comm none = false
alive_with comm (some pid) = names_daemon (comm pid)

-- `daemonAlive`, from the pid file and /proc/<pid>/comm.
unfoldable pub daemon_alive : Option Text → (ℤ → Option Text) → Bool
unfolding alive_with daemon_pid
daemon_alive pid_file comm = alive_with comm (daemon_pid pid_file)

-- A tick or the deadline, with the liveness that is seen then.
pub data GoneEvent : Type 0 where
  ticks deadline : Bool → GoneEvent

-- `waitDaemonGone`; none while it waits.
unfoldable pub wait_daemon_gone : List GoneEvent → Option Bool
wait_daemon_gone [] = none
wait_daemon_gone (deadline alive ∷ es) = some (not alive)
wait_daemon_gone (ticks alive ∷ es) =
    let on = wait_daemon_gone es in if alive then on else some true

pub data Signal : Type 0 where
  term kill : ℤ → Signal

-- What `Stop` meets, and what it did; `finished` once it has returned.
pub record Stopping : Type 0 where
  pub exit_run : PactlRun
  pub gone : List GoneEvent
  pub pid_file : Option Text
  pub gone_behind : List GoneEvent

pub record Stopped : Type 0 where
  pub flags : Flags
  pub world : World
  pub signals : List Signal
  pub finished : Bool

pub signals_to : Option ℤ → List Signal
signals_to none = []
signals_to (some pid) = term pid ∷ kill pid ∷ []

-- The fallback: signals to the pid, and another wait.
fall_back : Stopping → World → Flags → Stopped
unfolding signals_to daemon_pid wait_daemon_gone
fall_back s w f = record {
  flags = f;
  world = w;
  signals = signals_to (daemon_pid s.pid_file);
  finished = is_some (wait_daemon_gone s.gone_behind);
}

behind_exit : Stopping → World → Flags → Option Bool → Stopped
unfolding fall_back
behind_exit s w f none = record { flags = f; world = w; signals = []; finished = false }
behind_exit s w f (some true) = record { flags = f; world = w; signals = []; finished = true }
behind_exit s w f (some false) = fall_back s w f

unfoldable pub stop : Stopping → World → Flags → Stopped
unfolding behind_exit fall_back pactl_out wait_daemon_gone
stop s w f =
    let f' = record f { stopping = true; ready = false } in
    let w' = spawn exit_command w in
    if f.stopping
    then record { flags = f; world = w; signals = []; finished = true }
    else if is_some (pactl_out s.exit_run)
    then behind_exit s w' f' (wait_daemon_gone s.gone)
    else fall_back s w' f'
