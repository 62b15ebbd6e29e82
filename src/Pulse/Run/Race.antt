-- ===== src/Pulse/Run/Race.antt =====
-- A `Stop` while the daemon is started.
use teddycloud_spotify_radio.Base.{true, [], ◌∷◌, ◌≡◌, refl}
use teddycloud_spotify_radio.Pulse.Daemon.{
  PulseAudio, World, Bringup, up, start_daemon, exit_command, spawn,
}
use teddycloud_spotify_radio.Pulse.Run.{
  State, initial, attempts, comes_up, announces, leaves_probing, stop_seen, exited, moves,
  stop_flags, stop_clears, stop_exits, Reach, begins, then_steps,
}

-- `Stop` is over and `Run` has returned; the daemon was launched behind the `pactl exit`.
pub record IsLeftUp (p : PulseAudio) (b : Bringup) (w : World) (s : State) : Type 0 where
  pub reached : Reach p w s
  pub over : s.returned ≡ true
  pub stopped : s.halting ≡ exited
  pub still_ready : s.ready ≡ true
  pub told_healthy : s.reports ≡ [] ∷ []
  pub launched_behind : s.world ≡ (start_daemon p b (spawn exit_command w)).0

-- A `Stop` that comes while `Run` is inside `startDaemon` is lost: if the start then succeeds, the
-- state that is reached once both have returned is ready, was reported healthy, and has the daemon
-- launched behind the only `pactl exit`.
pub stop-IsLeftUp :
    (p : PulseAudio) (b : Bringup) (w : World)
    → (start_daemon p b (spawn exit_command w)).1 ≡ up
    → (s : State) × IsLeftUp p b w s
unfolding initial
stop-IsLeftUp p b w is_up =
    let r1 : Reach p w _ = then_steps begins (moves refl (attempts refl refl refl refl)) in
    let r2 : Reach p w _ = then_steps r1 (stop_flags refl refl refl) in
    let r3 : Reach p w _ = then_steps r2 (stop_clears refl refl) in
    let r4 : Reach p w _ = then_steps r3 (stop_exits refl refl) in
    let r5 : Reach p w _ = then_steps r4 (moves refl (comes_up b refl is_up refl)) in
    let r6 : Reach p w _ = then_steps r5 (moves refl (announces true refl refl)) in
    let r7 : Reach p w _ = then_steps r6 (moves refl (leaves_probing refl (stop_seen refl) refl)) in
    (
      _,
      record {
        reached = r7;
        over = refl;
        stopped = refl;
        still_ready = refl;
        told_healthy = refl;
        launched_behind = refl;
      },
    )
