-- ===== src/Shim/Recording.antt =====
-- cmd/shim/main.go: `recorderSlot` and `runRecorder`, as steps, with the daemon, the recorders, their
-- consumers and the context between them. A recorder is named by the number of its attempt.
pub mod Lives
pub mod Tidy
pub mod Still
pub mod Recovers
pub mod Over
pub mod Slot
pub mod Opening
use teddycloud_spotify_radio.Base.{
  ℕ, ◌+◌, ◌-◌, ◌*◌, Bool, true, false, List, [], ◌∷◌, ◌++◌, Option, none, some, is_some, ◌≡◌, ◌⊎◌,
  ℤ, pos,
}
use teddycloud_spotify_radio.Backoff.{next_backoff}
use teddycloud_spotify_radio.Recorder.{Recorder, Event, new_recorder, start, stop, step}
use teddycloud_spotify_radio.Pulse.MonitorStream.{
  MonitorStream, Library, open_monitor_stream, close,
}
use teddycloud_spotify_radio.Recorder.Pumping.{IsShared}

abbrev pub second : ℕ
second = 1_000_000_000

abbrev pub recorder_backoff_initial : ℕ
recorder_backoff_initial = 2 * second

abbrev pub recorder_backoff_max : ℕ
recorder_backoff_max = 30 * second

-- A recorder with its stream, and whether the watchdog was told to end
-- (`lostDone`).
pub record Live : Type 0 where
  pub recorder : Recorder
  pub stream : MonitorStream
  pub lost_done : Bool

unfoldable pub fresh : ℤ → MonitorStream → Live
unfolding start new_recorder
fresh buffer_len stream = record {
  recorder = start (new_recorder (pos 0) buffer_len);
  stream = stream;
  lost_done = false;
}

-- `rec.Stop(); stream.Close()`.
unfoldable pub shut : Live → Live
unfolding stop close
shut l = record l { recorder = stop l.recorder; stream = close l.stream }

-- What the pump and the consumers do to a recorder.
unfoldable pub acts : Event → Live → Live
unfolding step
acts e l = record l { recorder = (step l.recorder e).0 }

-- Where `runRecorder` is: before the daemon is ready, at the head of its loop, in
-- `openMonitorStream`, in its select with the live recorder, asleep.
pub data Place : Type 0 where
  awaiting head opening : Place
  recording : Live → Place
  sleeping : Place

-- The slot holds the recorder of an attempt or nil; once it has returned the place means nothing.
-- `past` are the recorders of the attempts before, the newest first.
pub record State : Type 0 where
  pub place : Place
  pub returned : Bool
  pub cancelled : Bool
  pub slot : Option ℕ
  pub past : List Live
  pub attempt : ℕ
  pub backoff : ℤ
  pub slept : List ℤ

abbrev pub initial : State
initial = record {
  place = awaiting;
  returned = false;
  cancelled = false;
  slot = none;
  past = [];
  attempt = 0;
  backoff = pos recorder_backoff_initial;
  slept = [];
}

-- The slot for the next stream.
unfoldable pub set_slot : Option ℕ → State → State
set_slot src s = record s { slot = src }

module _ (buffer_len : ℤ) where
  -- A step of `runRecorder`, taken while it has not returned.
  pub data Move (s t : State) : Type 0 where
    sees_ready : s.place ≡ awaiting → t ≡ record s { place = head } → Move s t
    leaves :
        (s.place ≡ awaiting) ⊎ (s.place ≡ head) ⊎ (s.place ≡ opening) ⊎ (s.place ≡ sleeping)
        → s.cancelled ≡ true
        → t ≡ record s { returned = true }
        → Move s t
    goes_on : s.place ≡ head → s.cancelled ≡ false → t ≡ record s { place = opening } → Move s t
    open_fails :
        (lib : Library)
        → s.place ≡ opening
        → is_some (open_monitor_stream s.cancelled lib).1 ≡ true
        → t ≡ s
        → Move s t
    opens :
        (lib : Library)
        → s.place ≡ opening
        → (open_monitor_stream s.cancelled lib).1 ≡ none
        → t
          ≡ set_slot (some (s.attempt + 1)) (record s {
            attempt = s.attempt + 1;
            place = recording (fresh buffer_len (open_monitor_stream s.cancelled lib).0);
          })
        → Move s t
    leaves_recording :
        (l : Live)
        → s.place ≡ recording l
        → s.cancelled ≡ true
        → t ≡ set_slot none (record s { place = head; past = shut l ∷ s.past; returned = true })
        → Move s t
    loses :
        (l : Live)
        → s.place ≡ recording l
        → l.recorder.done_closed ≡ some true
        → t
          ≡ set_slot none (record s {
            place = sleeping;
            past = shut (record l { lost_done = true }) ∷ s.past;
            slept = s.slept ++ s.backoff ∷ [];
          })
        → Move s t
    wakes :
        s.place ≡ sleeping
        → t ≡ record s { place = head; backoff = next_backoff s.backoff (pos recorder_backoff_max) }
        → Move s t

  -- A step of `runRecorder`, of the context, of the pump or a consumer of the live recorder, of its
  -- watchdog that sees the daemon not ready, or of these of a recorder before.
  pub data Step (s t : State) : Type 0 where
    moves : s.returned ≡ false → Move s t → Step s t
    cancels : t ≡ record s { cancelled = true } → Step s t
    live_acts :
        (l : Live) (e : Event)
        → IsShared e
        → s.place ≡ recording l
        → t ≡ record s { place = recording (acts e l) }
        → Step s t
    watch :
        (l : Live)
        → s.place ≡ recording l
        → l.lost_done ≡ false
        → t ≡ record s { place = recording (shut l) }
        → Step s t
    past_acts :
        (before after : List Live) (l : Live) (e : Event)
        → IsShared e
        → s.past ≡ before ++ l ∷ after
        → t ≡ record s { past = before ++ acts e l ∷ after }
        → Step s t
    past_watch :
        (before after : List Live) (l : Live)
        → s.past ≡ before ++ l ∷ after
        → t ≡ record s { past = before ++ shut l ∷ after }
        → Step s t

  pub data Reach : State → Type 0 where
    begins : Reach initial
    then_steps : {s t : State} → Reach s → Step s t → Reach t
