-- ===== src/Soloist/Supervisor.antt =====
-- internal/soloist/supervisor.go: the process in Connect mode and its WebSocket session. What the
-- process, the network, the data directory and the caller's context do is an argument, a lap for each
-- time around the loop of `runOnce`.
use teddycloud_spotify_radio.Base.{
  ℕ, ◌*◌, Bool, true, false, ◌==◌, List, [], ◌∷◌, ◌++◌, Option, none, some, if◌then◌else◌, Text,
  codes, text_eq, trim_space, ℤ, pos, positive_or,
}
use teddycloud_spotify_radio.Process.{WaitError, exit_code}
use teddycloud_spotify_radio.Soloist.Pairing.{is_code}

abbrev second : ℕ
second = 1_000_000_000

abbrev pub default_dial_retry : ℤ
default_dial_retry = pos second

abbrev pub default_dial_max_retry : ℤ
default_dial_max_retry = pos (15 * second)

-- The fields of a `Supervisor` that its methods read here; zero stands for the default delay.
pub record Supervisor : Type 0 where
  pub binary_path : Text
  pub device_name : Text
  pub api_key : Text
  pub data_dir : Text
  pub cache_dir : Text
  pub has_binary_manager : Bool
  pub has_commands : Bool
  pub initial_backoff : ℤ
  pub max_backoff : ℤ
  pub volume : ℤ

unfoldable pub backoff_of : Supervisor → ℤ
backoff_of s = pos (positive_or s.initial_backoff (5 * second))

unfoldable pub max_backoff_of : Supervisor → ℤ
max_backoff_of s = pos (positive_or s.max_backoff (60 * second))

-- What `handleExit` decides: the health reason, whether to restart, whether the binary is deleted.
pub record Verdict : Type 0 where
  pub reason : Text
  pub restart : Bool
  pub deleted : Bool

unfoldable pub handle_exit : Supervisor → WaitError → Verdict
unfolding exit_code
handle_exit s e =
    if is_code (exit_code e) (pos 10)
    then record {
      reason = codes "soloist_expired";
      restart = false;
      deleted = s.has_binary_manager;
    }
    else record { reason = []; restart = true; deleted = false }

-- The channel of `proc.Wait`: it carries one value, once.
pub record WaitChannel : Type 0 where
  pub sent : Bool
  pub pending : Option WaitError

abbrev pub empty_channel : WaitChannel
empty_channel = record { sent = false; pending = none }

arrive_in : Bool → WaitChannel → Option WaitError → WaitChannel
arrive_in false w (some e) = record { sent = true; pending = some e }
arrive_in _ w _ = w

-- The process may have exited by now.
unfoldable pub arrive : WaitChannel → Option WaitError → WaitChannel
unfolding arrive_in
arrive w e = arrive_in w.sent w e

-- What a poll of `waitWSAddr` finds: the two files of the data directory, if they can be read.
pub record Files : Type 0 where
  pub ws_port : Option Text
  pub ws_addr : Option Text

pub data PortEvent : Type 0 where
  canceled timed_out : PortEvent
  exited : WaitError → PortEvent
  polled : Files → PortEvent

pub data PortResult : Type 0 where
  address : Text → PortResult
  wait_canceled wait_timed_out wait_endless : PortResult
  wait_exited : WaitError → PortResult

or_empty : Option Text → Text
or_empty none = []
or_empty (some t) = t

-- `readWSPort`: an unreadable and an empty file are both no port.
pub read_ws_port : Option Text → Option Text
unfolding or_empty trim_space text_eq
read_ws_port raw = let p = trim_space (or_empty raw) in if text_eq p [] then none else some p

is_colon : ℕ → Bool
is_colon c = c == b':'

has_colon : Text → Bool
unfolding is_colon
has_colon [] = false
has_colon (c ∷ cs) = if is_colon c then true else has_colon cs

-- `net.JoinHostPort`: a host with a colon is bracketed.
join_host_port : Text → Text → Text
unfolding has_colon
join_host_port host port =
    if has_colon host
    then codes "[" ++ (host ++ (codes "]:" ++ port))
    else host ++ (codes ":" ++ port)

pub ws_url : Files → Text → Text
unfolding or_empty trim_space text_eq join_host_port
ws_url f port =
    let v = trim_space (or_empty f.ws_addr) in
    codes "ws://" ++ join_host_port (if text_eq v [] then codes "127.0.0.1" else v) port

unfoldable pub poll_files : Files → Option Text → PortResult → PortResult
unfolding ws_url
poll_files f none on = on
poll_files f (some port) on = address (ws_url f port)

-- A nil exit error is returned as no error at all, with the empty address.
unfoldable pub exit_result : WaitError → PortResult
exit_result WaitError.no_error = address []
exit_result e = wait_exited e

unfoldable pub wait_ws_addr : List PortEvent → PortResult
unfolding poll_files read_ws_port exit_result
wait_ws_addr [] = wait_endless
wait_ws_addr (canceled ∷ es) = wait_canceled
wait_ws_addr (timed_out ∷ es) = wait_timed_out
wait_ws_addr (exited e ∷ es) = exit_result e
wait_ws_addr (polled f ∷ es) = poll_files f (read_ws_port f.ws_port) (wait_ws_addr es)
