-- ===== src/Soloist/Session/Endless.antt =====
-- A process that exits with code 0 before it has published its port.
use teddycloud_spotify_radio.Base.{
  true, false, List, [], ◌∷◌, ◌++◌, none, ◌≡◌, refl, sym, subst, arith, All, ℤ, text_eq, trim_space,
}
use teddycloud_spotify_radio.Process.{no_error}
use teddycloud_spotify_radio.Soloist.Connector.{WebSocket}
use teddycloud_spotify_radio.Soloist.Pairing.{next_backoff}
use teddycloud_spotify_radio.Soloist.Supervisor.{
  Supervisor, WaitChannel, PortEvent, polled, exited, arrive, wait_ws_addr, address,
  default_dial_retry, default_dial_max_retry,
}
use teddycloud_spotify_radio.Soloist.Session.{
  World, Lap, Turn, goes_on, take_lap, run_laps, run_once,
}

-- A poll of the data directory that finds no port.
abbrev pub no_port : PortEvent
no_port = polled (record { ws_port = none; ws_addr = none })

abbrev pub Polls : List PortEvent → Type 0
Polls = All (λ e. e ≡ no_port)

-- The context is not done, and the dial fails.
pub record IsIdle {C : Type 0} (lap : Lap C) : Type 0 where
  pub running : lap.ctx_done ≡ false
  pub not_dialed : lap.dialed ≡ none
  pub slept : lap.sleep_cut ≡ false

abbrev pub IsEndless : {C : Type 0} → Turn C → Type 0
IsEndless {C} t = (w : World C) × (ch : WaitChannel) × (backoff : ℤ) × (t ≡ goes_on w ch backoff)

module _ {C W : Type 0} (ws : WebSocket C W) (s : Supervisor) where
  take_lap-drained :
      (w : World C) (ch : WaitChannel) (backoff : ℤ) (lap : Lap C)
      → IsIdle lap
      → ch.sent ≡ true
      → ch.pending ≡ none
      → (w' : World C) × (backoff' : ℤ) × (take_lap ws s w ch backoff lap ≡ goes_on w' ch backoff')
  unfolding take_lap arrive
  take_lap-drained w ch backoff lap i sent empty = (
    record w { dial_delays = w.dial_delays ++ backoff ∷ [] },
    next_backoff backoff default_dial_max_retry,
    ground arith,
  )

  run_laps-drained :
      (laps : List (Lap C)) (w : World C) (ch : WaitChannel) (backoff : ℤ)
      → All IsIdle laps
      → ch.sent ≡ true
      → ch.pending ≡ none
      → IsEndless (run_laps ws s (goes_on w ch backoff) laps)
  unfolding run_laps
  run_laps-drained [] w ch backoff i sent empty = (w, ch, backoff, refl)
  run_laps-drained (lap ∷ laps) w ch backoff (i, is) sent empty =
      let (w', backoff', e) = take_lap-drained w ch backoff lap i sent empty in
      subst (λ t. IsEndless (run_laps ws s t laps)) (sym e)
        (run_laps-drained laps w' ch backoff' is sent empty)

  wait_ws_addr-early :
      (before after : List PortEvent)
      → Polls before
      → wait_ws_addr (before ++ exited no_error ∷ after) ≡ address []
  unfolding wait_ws_addr text_eq trim_space
  wait_ws_addr-early [] after h = refl
  wait_ws_addr-early (e ∷ es) after (h, hs) = rw h (wait_ws_addr-early es after hs)

  -- If the process exits with code 0 before it has published a port, `runOnce` does not return and so
  -- does not restart it: its exit was taken off the channel without an error, and the loop dials
  -- for ever, as long as the dial fails (there is no address) and the context is not done, even
  -- if the laps would report an exit.
  pub early_exit-IsEndless :
      (w : World C) (before after : List PortEvent) (laps : List (Lap C))
      → Polls before
      → All IsIdle laps
      → IsEndless (run_once ws s w true (before ++ exited no_error ∷ after) laps)
  unfolding run_once
  early_exit-IsEndless w before after laps h i = rw (wait_ws_addr-early before after h) (
      run_laps-drained laps w (record { sent = true; pending = none }) default_dial_retry i refl
        refl)
