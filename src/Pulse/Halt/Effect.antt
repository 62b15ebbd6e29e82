-- ===== src/Pulse/Halt/Effect.antt =====
-- What `Stop` does, and that it returns.
use teddycloud_spotify_radio.Base.{
  true, false, List, [], ◌∷◌, none, some, is_some, ◌≡◌, refl, arith,
}
use teddycloud_spotify_radio.Pulse.Daemon.{pactl_out, World, Flags, exit_command, spawn}
use teddycloud_spotify_radio.Pulse.Halt.{
  GoneEvent, ticks, deadline, wait_daemon_gone, Stopping, Stopped, signals_to, daemon_pid,
  fall_back, behind_exit, stop,
}

-- The timer of a wait fires at some time.
abbrev pub HasDeadline : List GoneEvent → Type 0
HasDeadline [] = ⊥
HasDeadline (deadline alive ∷ es) = Unit
HasDeadline (ticks alive ∷ es) = HasDeadline es

wait_daemon_gone-some :
    (es : List GoneEvent) → HasDeadline es → is_some (wait_daemon_gone es) ≡ true
unfolding wait_daemon_gone
wait_daemon_gone-some [] h = absurd h
wait_daemon_gone-some (deadline alive ∷ es) h = refl
wait_daemon_gone-some (ticks true ∷ es) h = wait_daemon_gone-some es h
wait_daemon_gone-some (ticks false ∷ es) h = refl

-- Every daemon that a wait saw last was alive.
abbrev pub Outlives : List GoneEvent → Type 0
Outlives [] = Unit
Outlives (deadline alive ∷ es) = alive ≡ true
Outlives (ticks alive ∷ es) = (alive ≡ true) × Outlives es

wait_daemon_gone-outlived :
    (es : List GoneEvent) → HasDeadline es → Outlives es → wait_daemon_gone es ≡ some false
unfolding wait_daemon_gone
wait_daemon_gone-outlived [] h o = absurd h
wait_daemon_gone-outlived (deadline alive ∷ es) h o = ground (arith, o)
wait_daemon_gone-outlived (ticks true ∷ es) h o = wait_daemon_gone-outlived es h o.1
wait_daemon_gone-outlived (ticks false ∷ es) h o = cc

wait_daemon_gone-gone :
    (es : List GoneEvent) → HasDeadline es → (Outlives es → ⊥) → wait_daemon_gone es ≡ some true
unfolding wait_daemon_gone
wait_daemon_gone-gone [] h o = absurd h
wait_daemon_gone-gone (deadline true ∷ es) h o = absurd (o refl)
wait_daemon_gone-gone (deadline false ∷ es) h o = refl
wait_daemon_gone-gone (ticks true ∷ es) h o = wait_daemon_gone-gone es h (λ rest. o (refl, rest))
wait_daemon_gone-gone (ticks false ∷ es) h o = refl

-- The first `Stop`: the flags, the one command, the return, and when signals go to the pid.
pub record IsHalted (s : Stopping) (w : World) (f : Flags) (r : Stopped) : Type 0 where
  pub flags_are : r.flags ≡ record f { stopping = true; ready = false }
  pub world_is : r.world ≡ spawn exit_command w
  pub returns : r.finished ≡ true
  pub quiet : is_some (pactl_out s.exit_run) ≡ true → (Outlives s.gone → ⊥) → r.signals ≡ []
  pub refused : pactl_out s.exit_run ≡ none → r.signals ≡ signals_to (daemon_pid s.pid_file)
  pub outlived : Outlives s.gone → r.signals ≡ signals_to (daemon_pid s.pid_file)

-- The first `Stop` takes the readiness back, runs `pactl exit` once and returns, if the timers of its
-- waits fire. It sends SIGTERM and SIGKILL to the pid in the pid file exactly if `pactl exit` failed or
-- the daemon was alive at every tick and at the deadline.
pub stop-IsHalted :
    (s : Stopping) (w : World) (f : Flags)
    → f.stopping ≡ false
    → HasDeadline s.gone
    → HasDeadline s.gone_behind
    → IsHalted s w f (stop s w f)
unfolding stop behind_exit fall_back
stop-IsHalted s w f first ends ends_behind = record {
  flags_are = ground arith;
  world_is = ground arith;
  returns =
      ground
        (arith, wait_daemon_gone-some s.gone ends, wait_daemon_gone-some s.gone_behind ends_behind);
  quiet = λ ok o. ground (arith, wait_daemon_gone-gone s.gone ends o);
  refused = λ no_out. ground arith;
  outlived = λ o. ground (arith, wait_daemon_gone-outlived s.gone ends o);
}

-- A `Stop` behind a `Stop` does nothing.
pub stop-stop :
    (s s' : Stopping) (w v : World) (f : Flags)
    → stop s' v (stop s w f).flags
      ≡ record { flags = (stop s w f).flags; world = v; signals = []; finished = true }
unfolding stop behind_exit fall_back
stop-stop s s' w v f = ground arith
