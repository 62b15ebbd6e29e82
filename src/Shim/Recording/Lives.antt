-- ===== src/Shim/Recording/Lives.antt =====
-- A recorder with its stream: fresh, used and left.
use teddycloud_spotify_radio.Base.{true, ◌≡◌, ◌⊎◌, inl, inr, refl, ap, ◌∙◌, arith, ℤ}
use teddycloud_spotify_radio.Recorder.{Event, new_recorder, start, stop}
use teddycloud_spotify_radio.Recorder.Pumping.{IsShared, IsRunning, step_stopped}
use teddycloud_spotify_radio.Pulse.MonitorStream.{MonitorStream, nothing_open, close}
use teddycloud_spotify_radio.Pulse.MonitorStream.Handles.{all_open}
use teddycloud_spotify_radio.Shim.Recording.{Live, fresh, shut, acts}

abbrev pub closed : MonitorStream
closed = record nothing_open { closed_once = true }

-- A stream is closed as a whole.
abbrev pub IsWhole : MonitorStream → Type 0
IsWhole m = (m ≡ all_open) ⊎ (m ≡ closed)

pub close-closed : (m : MonitorStream) → IsWhole m → close m ≡ closed
unfolding close
close-closed m (inl e) = ap close e
close-closed m (inr e) = ap close e

-- A recorder that is left: stopped, and its stream closed.
pub record IsShut (l : Live) : Type 0 where
  pub is_stopped : l.recorder.stopped ≡ true
  pub is_closed : l.stream ≡ closed

pub fresh-IsRunning : (buffer_len : ℤ) (m : MonitorStream) → IsRunning (fresh buffer_len m).recorder
unfolding fresh start new_recorder
fresh-IsRunning buffer_len m = record {
  is_started = refl;
  is_stoppable = λ e. cc;
  is_pumping = inl refl;
}

pub shut-IsShut : (l : Live) → IsWhole l.stream → IsShut (shut l)
unfolding shut stop
shut-IsShut l whole = record { is_stopped = ground arith; is_closed = close-closed l.stream whole }

pub acts-IsShut : (e : Event) (l : Live) → IsShared e → IsShut l → IsShut (acts e l)
unfolding acts
acts-IsShut e l sh h = record {
  is_stopped = step_stopped l.recorder e sh ∙ h.is_stopped;
  is_closed = h.is_closed;
}
