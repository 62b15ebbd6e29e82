-- ===== src/Soloist/Pairing/Managed.antt =====
-- internal/soloist/pair.go: `Pair` of a pairer with its manager.
use teddycloud_spotify_radio.Base.{
  Bool, true, false, List, [], Option, none, some, ◌≡◌, refl, Text, map,
}
use teddycloud_spotify_radio.Process.{WaitError, Process, Manager, Exec, exec_manager, fake_manager}
use teddycloud_spotify_radio.Soloist.Arguments.{Pairer, pair_args}
use teddycloud_spotify_radio.Soloist.Pairing.{PairEvent, ctx_done, exited, tick, Pairing, pair}

-- What the loop of `Pair` sees of the world: the context is done, the process is over, or a tick, the
-- last two with what the check of the session says then.
pub data Sight : Type 0 where
  sees_done : Sight
  sees_exit sees_tick : Bool → Sight

-- What it receives for that from its process.
event_of : WaitError → Sight → PairEvent
event_of e sees_done = ctx_done
event_of e (sees_exit stored) = exited e stored
event_of e (sees_tick stored) = tick stored

pair_process : Bool → Option Process → List Sight → Pairing
unfolding pair event_of
pair_process has_manager none seen = pair has_manager false []
pair_process has_manager (some proc) seen = pair has_manager true (map (event_of proc.wait) seen)

-- `Pair`: the process is started on the command line of the pairer.
unfoldable pub pair_by : Manager → Pairer → List Sight → Pairing
unfolding pair_process pair_args
pair_by m p seen = pair_process p.has_binary_manager (m.start p.binary_path (pair_args p)) seen

-- The command of a pairer, as os/exec has it.
abbrev pub command_of : {C : Type 0} → Exec C → Pairer → C
command_of exec p = exec.command_context p.binary_path (pair_args p)

-- With a command that has a pipe and starts, `Pair` does by os/exec what it does with the fake whose
-- exit error is that of the command.
pub pair_by-fake :
    {C : Type 0} (exec : Exec C) (p : Pairer) (seen : List Sight) (out : Text)
    → exec.stdout_pipe (command_of exec p) ≡ some out
    → exec.starts (command_of exec p) ≡ true
    → pair_by (exec_manager exec) p seen
      ≡ pair_by
          (fake_manager (record { exit_err = exec.wait (command_of exec p); stdout_data = [] }))
          p
          seen
unfolding pair_by exec_manager fake_manager pair_process
pair_by-fake exec p seen out piped on = rw (piped, on) refl
