-- ===== src/Soloist/Session.antt =====
-- internal/soloist/supervisor.go: `runOnce` and `Run`.
pub mod Endless
pub mod Detached
pub mod Justified
use teddycloud_spotify_radio.Base.{
  ℕ, zero, suc, Bool, true, false, List, [], ◌∷◌, ◌++◌, Option, none, some, if◌then◌else◌, is_some,
  Text, codes, text_eq, decimal, ℤ, pos, negsuc,
}
use teddycloud_spotify_radio.Process.{WaitError}
use teddycloud_spotify_radio.Soloist.Connector.{
  WebSocket, CommandError, Connector, attach, detach, write, volume_json,
}
use teddycloud_spotify_radio.Soloist.Pairing.{next_backoff}
use teddycloud_spotify_radio.Soloist.Supervisor.{
  Supervisor, Verdict, WaitChannel, PortEvent, PortResult, address, wait_canceled, wait_timed_out,
  wait_endless, wait_exited, default_dial_retry, default_dial_max_retry, backoff_of, max_backoff_of,
  handle_exit, arrive, empty_channel, wait_ws_addr,
}

-- What a supervisor has done so far: the health reasons reported, the processes killed, whether the
-- binary was deleted, and the delays slept before dialling again.
pub record World (C : Type 0) : Type 0 where
  pub reports : List Text
  pub kills : ℕ
  pub deleted : Bool
  pub connector : Connector C
  pub dial_delays : List ℤ

-- Once around the loop of `runOnce`: whether the context is done at its head, an exit that the head
-- may see, which of the two it takes if both are there, the connection that was dialled or none, an
-- exit behind a failed dial, whether the context ends the sleep behind it, whether the context is
-- done behind the session, and an exit behind the session.
pub record Lap (C : Type 0) : Type 0 where
  pub ctx_done : Bool
  pub exit_at_head : Option WaitError
  pub prefers_exit : Bool
  pub dialed : Option C
  pub exit_behind_dial : Option WaitError
  pub sleep_cut : Bool
  pub done_behind : Bool
  pub exit_behind : Option WaitError

-- `runOnce` still waits for ws.port, goes on with its channel and its dial delay, or returns a reason
-- and a restart decision.
pub data Turn (C : Type 0) : Type 0 where
  waits : World C → Turn C
  goes_on : World C → WaitChannel → ℤ → Turn C
  returns : World C → Text → Bool → Turn C

activate_command : Text
activate_command = codes "{\"type\":\"command\",\"command\":\"activate\"}"

is_positive : ℤ → Bool
is_positive (pos (suc n)) = true
is_positive _ = false

module _ {C W : Type 0} (ws : WebSocket C W) (s : Supervisor) where
  kill : World C → World C
  kill w = record w { kills = suc w.kills }

  -- The value of `handleExit`, with its effect.
  exit_with : World C → Verdict → Turn C
  exit_with w v =
      returns (record w { deleted = (if v.deleted then true else w.deleted) }) v.reason v.restart

  exit_turn : World C → WaitError → Turn C
  unfolding exit_with
  exit_turn w e = exit_with w (handle_exit s e)

  canceled_turn : World C → Turn C
  unfolding kill
  canceled_turn w = returns (kill w) [] false

  -- `writeActivate`: through the connector, or on the connection itself. Whether it failed.
  write_activate : World C → C → World C × Bool
  unfolding activate_command
  write_activate w conn =
      if s.has_commands
      then (let (c, e) = write ws w.connector activate_command in
          (record w { connector = c }, is_some e))
      else (w, is_some (ws.write_message conn activate_command).1)

  -- `writeSetVolume`; its error is only logged.
  write_set_volume : World C → World C
  unfolding volume_json is_positive
  write_set_volume w =
      if is_positive s.volume
      then (if s.has_commands
          then record w { connector = (write ws w.connector (volume_json s.volume)).0 }
          else w)
      else w

  attach_if : World C → C → World C
  attach_if w conn =
      if s.has_commands then record w { connector = attach ws w.connector conn } else w

  detach_if : World C → World C
  detach_if w = if s.has_commands then record w { connector = detach ws w.connector } else w

  -- Behind the session: the connection is detached and closed.
  behind_session : World C → WaitChannel → Lap C → Turn C
  unfolding exit_turn canceled_turn
  behind_session w ch lap =
      let ch' = arrive ch lap.exit_behind in
      if lap.done_behind
      then canceled_turn w
      else elim ch'.pending [ some e ↦ exit_turn w e | none ↦ goes_on w ch' default_dial_retry ]

  session : World C → WaitChannel → Lap C → C → Turn C
  unfolding write_activate write_set_volume attach_if detach_if behind_session
  session w ch lap conn =
      let (w', failed) = write_activate (attach_if w conn) conn in
      if failed
      then goes_on (detach_if w') ch default_dial_retry
      else (let healthy = record w' { reports = w'.reports ++ [] ∷ [] } in
          behind_session (detach_if (write_set_volume healthy)) ch lap)

  -- `sleep` with the dial delay, and the next delay.
  behind_dial : World C → WaitChannel → ℤ → Lap C → Turn C
  unfolding exit_turn canceled_turn
  behind_dial w ch backoff lap =
      let ch' = arrive ch lap.exit_behind_dial in
      let w' = record w { dial_delays = w.dial_delays ++ backoff ∷ [] } in
      elim ch'.pending [
        | some e ↦ exit_turn w e
        | none ↦
            if lap.sleep_cut
            then canceled_turn w'
            else goes_on w' ch' (next_backoff backoff default_dial_max_retry)
      ]

  dial_turn : World C → WaitChannel → ℤ → Lap C → Turn C
  unfolding session behind_dial
  dial_turn w ch backoff lap = elim lap.dialed [
    | none ↦ behind_dial w ch backoff lap
    | some conn ↦ session w ch lap conn
  ]

  unfoldable pub take_lap : World C → WaitChannel → ℤ → Lap C → Turn C
  unfolding dial_turn exit_turn canceled_turn kill
  take_lap w ch backoff lap =
      let ch' = arrive ch lap.exit_at_head in
      elim ch'.pending [
        | some e ↦
            if lap.ctx_done
            then (if lap.prefers_exit then exit_turn (kill w) e else canceled_turn w)
            else exit_turn (kill w) e
        | none ↦ if lap.ctx_done then canceled_turn w else dial_turn w ch' backoff lap
      ]

  unfoldable pub run_laps : Turn C → List (Lap C) → Turn C
  run_laps (waits w) laps = waits w
  run_laps (returns w reason restart) laps = returns w reason restart
  run_laps (goes_on w ch backoff) [] = goes_on w ch backoff
  run_laps (goes_on w ch backoff) (lap ∷ laps) = run_laps (take_lap w ch backoff lap) laps

  -- The value of an early exit was taken off the channel by `waitWSAddr`, which then gave no address.
  channel_behind : Text → WaitChannel
  channel_behind [] = record { sent = true; pending = none }
  channel_behind (c ∷ cs) = empty_channel

  with_address : World C → PortResult → List (Lap C) → Turn C
  unfolding run_laps kill exit_turn canceled_turn channel_behind
  with_address w wait_endless laps = waits w
  with_address w wait_canceled laps = canceled_turn w
  with_address w wait_timed_out laps = returns (kill w) [] true
  with_address w (wait_exited e) laps = exit_turn (kill w) e
  with_address w (address a) laps = run_laps (goes_on w (channel_behind a) default_dial_retry) laps

  -- `runOnce`: whether the process starts, what `waitWSAddr` meets, and the laps.
  unfoldable pub run_once : World C → Bool → List PortEvent → List (Lap C) → Turn C
  unfolding with_address wait_ws_addr
  run_once w starts ports laps =
      if starts then with_address w (wait_ws_addr ports) laps else returns w [] true
