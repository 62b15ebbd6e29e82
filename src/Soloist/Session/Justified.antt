-- ===== src/Soloist/Session/Justified.antt =====
-- When `runOnce` asks for no restart.
use teddycloud_spotify_radio.Base.{
  Bool, true, false, List, [], ◌∷◌, Option, none, some, ◌≡◌, ◌≢◌, ◌⊎◌, inl, refl, arith, All, Text,
  codes, ℤ,
}
use teddycloud_spotify_radio.Process.{WaitError}
use teddycloud_spotify_radio.Soloist.Connector.{WebSocket}
use teddycloud_spotify_radio.Soloist.Supervisor.{
  Supervisor, Files, PortEvent, PortResult, canceled, timed_out, exited, polled, handle_exit,
  wait_ws_addr, address, wait_canceled, wait_timed_out, wait_endless, wait_exited, WaitChannel,
  poll_files, read_ws_port, exit_result,
}
use teddycloud_spotify_radio.Soloist.Session.{
  World, Lap, Turn, waits, goes_on, returns, take_lap, run_laps, run_once, with_address,
}

-- The context is not done anywhere in the lap.
pub record IsRunning {C : Type 0} (lap : Lap C) : Type 0 where
  pub at_head : lap.ctx_done ≡ false
  pub asleep : lap.sleep_cut ≡ false
  pub behind : lap.done_behind ≡ false

abbrev pub IsUncanceled : PortEvent → Type 0
IsUncanceled e = e ≢ canceled

-- A turn that asks for no restart gives the reason of an expired binary.
unfoldable pub IsJustified : {C : Type 0} → Turn C → Type 0
IsJustified (waits w) = Unit
IsJustified (goes_on w ch backoff) = Unit
IsJustified (returns w reason restart) = (restart ≡ true) ⊎ (reason ≡ codes "soloist_expired")

poll_files_uncanceled :
    (f : Files) (p : Option Text) (on : PortResult)
    → on ≢ wait_canceled
    → poll_files f p on ≢ wait_canceled
unfolding poll_files
poll_files_uncanceled f none on h = h
poll_files_uncanceled f (some p) on h = λ e. cc

module _ {C W : Type 0} (ws : WebSocket C W) (s : Supervisor) where
  take_lap-IsJustified :
      (w : World C) (ch : WaitChannel) (backoff : ℤ) (lap : Lap C)
      → IsRunning lap
      → IsJustified (take_lap ws s w ch backoff lap)
  unfolding take_lap handle_exit IsJustified
  take_lap-IsJustified w ch backoff lap h = ground arith

  run_laps-IsJustified :
      (laps : List (Lap C)) (t : Turn C)
      → All IsRunning laps
      → IsJustified t
      → IsJustified (run_laps ws s t laps)
  unfolding run_laps
  run_laps-IsJustified laps (waits w) hs h = unfold IsJustified in tt
  run_laps-IsJustified laps (returns w reason restart) hs h = h
  run_laps-IsJustified [] (goes_on w ch backoff) hs h = h
  run_laps-IsJustified (lap ∷ laps) (goes_on w ch backoff) (l, ls) h =
      run_laps-IsJustified laps (take_lap ws s w ch backoff lap) ls
        (take_lap-IsJustified w ch backoff lap l)

  with_address-IsJustified :
      (w : World C) (r : PortResult) (laps : List (Lap C))
      → r ≢ wait_canceled
      → All IsRunning laps
      → IsJustified (with_address ws s w r laps)
  unfolding with_address IsJustified handle_exit
  with_address-IsJustified w wait_endless laps n hs = tt
  with_address-IsJustified w wait_canceled laps n hs = elim (n refl) [ ]
  with_address-IsJustified w wait_timed_out laps n hs = inl refl
  with_address-IsJustified w (wait_exited e) laps n hs = ground arith
  with_address-IsJustified w (address a) laps n hs = run_laps-IsJustified laps (goes_on w _ _) hs tt

  exit_result_uncanceled : (e : WaitError) → exit_result e ≢ wait_canceled
  unfolding exit_result
  exit_result_uncanceled e = ground arith

  wait_ws_addr_uncanceled :
      (es : List PortEvent) → All IsUncanceled es → wait_ws_addr es ≢ wait_canceled
  unfolding wait_ws_addr
  wait_ws_addr_uncanceled [] h = λ e. cc
  wait_ws_addr_uncanceled (canceled ∷ es) (h, hs) = elim (h refl) [ ]
  wait_ws_addr_uncanceled (timed_out ∷ es) h = λ e. cc
  wait_ws_addr_uncanceled (exited x ∷ es) h = exit_result_uncanceled x
  wait_ws_addr_uncanceled (polled f ∷ es) (h, hs) =
      poll_files_uncanceled f (read_ws_port f.ws_port) (wait_ws_addr es)
        (wait_ws_addr_uncanceled es hs)

  pub run_once-IsJustified :
      (w : World C) (starts : Bool) (ports : List PortEvent) (laps : List (Lap C))
      → All IsUncanceled ports
      → All IsRunning laps
      → IsJustified (run_once ws s w starts ports laps)
  unfolding run_once
  run_once-IsJustified w true ports laps hp hs =
      with_address-IsJustified w (wait_ws_addr ports) laps (wait_ws_addr_uncanceled ports hp) hs
  run_once-IsJustified w false ports laps hp hs = unfold IsJustified in inl refl
