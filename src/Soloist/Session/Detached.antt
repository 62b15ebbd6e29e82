-- ===== src/Soloist/Session/Detached.antt =====
-- The connection that is attached to the connector, behind a lap.
use teddycloud_spotify_radio.Base.{Bool, true, false, List, [], ◌∷◌, none, ◌≡◌, arith, ℤ}
use teddycloud_spotify_radio.Soloist.Connector.{WebSocket, detach, write}
use teddycloud_spotify_radio.Soloist.Supervisor.{
  Supervisor, WaitChannel, PortEvent, PortResult, wait_ws_addr, address, wait_canceled,
  wait_timed_out, wait_endless, wait_exited,
}
use teddycloud_spotify_radio.Soloist.Session.{
  World, Lap, Turn, waits, goes_on, returns, take_lap, run_laps, run_once, with_address,
}

abbrev pub world_of : {C : Type 0} → Turn C → World C
world_of (waits w) = w
world_of (goes_on w ch backoff) = w
world_of (returns w reason restart) = w

-- What holds between two laps.
pub record IsDetached {C : Type 0} (w : World C) : Type 0 where
  pub detached : w.connector.conn ≡ none

module _ {C W : Type 0} (ws : WebSocket C W) (s : Supervisor)
    (commands : s.has_commands ≡ true) where
  take_lap-IsDetached :
      (w : World C) (ch : WaitChannel) (backoff : ℤ) (lap : Lap C)
      → IsDetached w
      → IsDetached (world_of (take_lap ws s w ch backoff lap))
  unfolding take_lap detach write
  take_lap-IsDetached w ch backoff lap h = ground arith

  run_laps-IsDetached :
      (laps : List (Lap C)) (t : Turn C)
      → IsDetached (world_of t)
      → IsDetached (world_of (run_laps ws s t laps))
  unfolding run_laps
  run_laps-IsDetached laps (waits w) h = h
  run_laps-IsDetached laps (returns w reason restart) h = h
  run_laps-IsDetached [] (goes_on w ch backoff) h = h
  run_laps-IsDetached (lap ∷ laps) (goes_on w ch backoff) h =
      run_laps-IsDetached laps (take_lap ws s w ch backoff lap)
        (take_lap-IsDetached w ch backoff lap h)

  with_address-IsDetached :
      (w : World C) (r : PortResult) (laps : List (Lap C))
      → IsDetached w
      → IsDetached (world_of (with_address ws s w r laps))
  unfolding with_address
  with_address-IsDetached w wait_endless laps h = h
  with_address-IsDetached w wait_canceled laps h = record { detached = h.detached }
  with_address-IsDetached w wait_timed_out laps h = record { detached = h.detached }
  with_address-IsDetached w (wait_exited e) laps h = record { detached = h.detached }
  with_address-IsDetached w (address a) laps h = run_laps-IsDetached laps (goes_on w _ _) h

  -- If a connector is given and no connection is attached to it, none is attached when `runOnce`
  -- returns or between two laps of its loop, whatever the process, the data directory, the network
  -- and the context do.
  pub run_once-IsDetached :
      (w : World C) (starts : Bool) (ports : List PortEvent) (laps : List (Lap C))
      → IsDetached w
      → IsDetached (world_of (run_once ws s w starts ports laps))
  unfolding run_once
  run_once-IsDetached w true ports laps h = with_address-IsDetached w (wait_ws_addr ports) laps h
  run_once-IsDetached w false ports laps h = h
