-- ===== src/Process.antt =====
-- internal/process/process.go and fake.go: the processes that a manager starts, and `ExitCode`. A
-- manager is a record of its operations; os/exec is a parameter of the one that uses it.
use teddycloud_spotify_radio.Base.{
  ℤ, pos, negsuc, Bool, false, List, Option, none, some, if◌then◌else◌, Text,
}

-- The error of `Wait`: nil, an `exec.ExitError` with the exit code of the process, or another.
pub data WaitError : Type 0 where
  no_error : WaitError
  exit_error : ℤ → WaitError
  other_error : WaitError

unfoldable pub exit_code : WaitError → ℤ
exit_code no_error = pos 0
exit_code (exit_error code) = code
exit_code other_error = negsuc 0

-- A started process: what `Wait` returns when it is over, whether `Kill` fails, and what `Stdout` gives.
pub record Process : Type 0 where
  pub wait : WaitError
  pub kill_fails : Bool
  pub stdout : Text

-- `Start`, from a name and its arguments; none for an error.
pub record Manager : Type 0 where
  pub start : Text → List Text → Option Process

-- os/exec: a command from a name and its arguments, the pipe of its output or an error, whether it
-- starts, what it ends with, and whether it cannot be killed.
pub record Exec (C : Type 0) : Type 0 where
  pub command_context : Text → List Text → C
  pub stdout_pipe : C → Option Text
  pub starts : C → Bool
  pub wait : C → WaitError
  pub kill_fails : C → Bool

module _ {C : Type 0} (exec : Exec C) where
  start_piped : C → Option Text → Option Process
  start_piped cmd none = none
  start_piped cmd (some stdout) =
      if exec.starts cmd
      then some (record { wait = exec.wait cmd; kill_fails = exec.kill_fails cmd; stdout = stdout })
      else none

  -- `ExecManager`.
  unfoldable pub exec_manager : Manager
  unfolding start_piped
  exec_manager = record {
    start = λ name args.
        let cmd = exec.command_context name args in start_piped cmd (exec.stdout_pipe cmd);
  }

-- The fields of a `Fake`.
pub record Fake : Type 0 where
  pub exit_err : WaitError
  pub stdout_data : Text

-- It ignores the command; the kill of its process does nothing.
unfoldable pub fake_manager : Fake → Manager
fake_manager f = record {
  start =
      λ name args. some (record { wait = f.exit_err; kill_fails = false; stdout = f.stdout_data });
}
