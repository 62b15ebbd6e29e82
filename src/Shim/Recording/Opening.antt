-- ===== src/Shim/Recording/Opening.antt =====
-- cmd/shim/main.go: `openMonitorStream` as a loop, and that the step relation takes it as it is.
use teddycloud_spotify_radio.Base.{
  ◌+◌, Bool, true, false, List, [], ◌∷◌, Option, none, some, if◌then◌else◌, ◌≡◌, refl, ℤ, inl, inr,
}
use teddycloud_spotify_radio.Pulse.MonitorStream.{
  MonitorStream, MonitorError, Library, open_monitor_stream,
}
use teddycloud_spotify_radio.Shim.Recording.{
  fresh, opening, recording, State, set_slot, opens, leaves, moves, cancels, Reach, then_steps,
}

-- Once around its loop: the library, and whether the context is done in the wait behind a failure.
pub record Try : Type 0 where
  pub library : Library
  pub cut : Bool

-- It returns a stream or the error of the context, or is still in its loop.
pub data Opening : Type 0 where
  opened : MonitorStream → Opening
  gave_up still_opening : Opening

tried : MonitorStream × Option MonitorError → Bool → Opening → Opening
tried (m, none) cut on = opened m
tried (m, some e) cut on = if cut then gave_up else on

-- The context is done from the start or not.
unfoldable pub open_retrying : Bool → List Try → Opening
unfolding tried
open_retrying done [] = still_opening
open_retrying done (t ∷ ts) =
    tried (open_monitor_stream done t.library) t.cut (open_retrying done ts)

module _ (buffer_len : ℤ) where
  -- The state that a result leads to.
  abbrev pub Comes : State → Opening → Type 0
  Comes s (opened m) = Reach buffer_len (
      set_slot (some (s.attempt + 1))
        (record s { attempt = s.attempt + 1; place = recording (fresh buffer_len m) }))
  Comes s gave_up = Reach buffer_len (record s { cancelled = true; returned = true })
  Comes s still_opening = Reach buffer_len s

  cut-Comes :
      (cut : Bool) (on : Opening) (s : State)
      → Reach buffer_len s
      → s.returned ≡ false
      → s.place ≡ opening
      → Comes s on
      → Comes s (if cut then gave_up else on)
  cut-Comes false on s r still at comes = comes
  cut-Comes true on s r still at comes =
      let done : Reach buffer_len (record s { cancelled = true }) = then_steps r (cancels refl) in
      then_steps done (moves still (leaves (inr (inr (inl at))) refl refl))

  tried-Comes :
      (lib : Library) (cut : Bool) (on : Opening) (s : State) (e : Option MonitorError)
      → (open_monitor_stream s.cancelled lib).1 ≡ e
      → Reach buffer_len s
      → s.returned ≡ false
      → s.place ≡ opening
      → Comes s on
      → Comes s (tried ((open_monitor_stream s.cancelled lib).0, e) cut on)
  unfolding tried
  tried-Comes lib cut on s none ok r still at comes =
      then_steps r (moves still (opens lib at ok refl))
  tried-Comes lib cut on s (some e) failed r still at comes = cut-Comes cut on s r still at comes

  -- From the place where `runRecorder` opens its stream, whatever the loop comes to is reached.
  pub open_retrying-Comes :
      (ts : List Try) (s : State)
      → Reach buffer_len s
      → s.returned ≡ false
      → s.place ≡ opening
      → Comes s (open_retrying s.cancelled ts)
  unfolding open_retrying
  open_retrying-Comes [] s r on at = r
  open_retrying-Comes (t ∷ ts) s r on at =
      tried-Comes t.library t.cut (open_retrying s.cancelled ts) s _ refl r on at
        (open_retrying-Comes ts s r on at)
