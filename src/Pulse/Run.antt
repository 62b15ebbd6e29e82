-- ===== src/Pulse/Run.antt =====
-- internal/audio/pulse.go: `Run`, the supervision of the daemon, as steps, with the cancellation of
-- the context and a call of `Stop` between them.
pub mod Monitor
pub mod Race
pub mod Stuck
use teddycloud_spotify_radio.Base.{
  ℕ, ◌+◌, Bool, true, false, List, [], ◌∷◌, ◌++◌, if◌then◌else◌, ◌≡◌, Text, ℤ,
}
use teddycloud_spotify_radio.Backoff.{next_backoff}
use teddycloud_spotify_radio.Pulse.Daemon.{
  PulseAudio, World, Bringup, Outcome, up, failed, pulse_not_ready, start_daemon, exit_command,
  spawn, start_backoff_of, max_backoff_of,
}

-- Where `Run` is: before the check at the head of its loop; in `startDaemon`; between `setReady` and
-- `setHealth` in one of the two branches; in `waitDaemonDown`; behind it; with the readiness that is
-- to be taken back; with the report of that; asleep.
pub data Place : Type 0 where
  head starting : Place
  announcing : Bool → Place
  probing doubting mourning burying sleeping : Place

-- Where `Stop` is: not called, between its two flags, before `pactl exit`, behind it.
pub data Halting : Type 0 where
  uncalled flagged unready exited : Halting

pub record State : Type 0 where
  pub place : Place
  pub returned : Bool
  pub cancelled : Bool
  pub ready : Bool
  pub stopping : Bool
  pub halting : Halting
  pub attempt : ℕ
  pub backoff : ℤ
  pub reports : List Text
  pub slept : List ℤ
  pub world : World

unfoldable pub initial : PulseAudio → World → State
unfolding start_backoff_of
initial p w = record {
  place = head;
  returned = false;
  cancelled = false;
  ready = false;
  stopping = false;
  halting = uncalled;
  attempt = 0;
  backoff = start_backoff_of p;
  reports = [];
  slept = [];
  world = w;
}

-- The health report of a start, by whether it succeeded.
abbrev pub word : Bool → Text
word ok = if ok then [] else pulse_not_ready

abbrev pub set_ready : Bool → State → State
set_ready v s = record s { ready = v }

abbrev pub set_health : Text → State → State
set_health reason s = record s { reports = s.reports ++ reason ∷ [] }

-- What `waitDaemonDown` may return: the context is done; or at a tick `Stop` is seen, or the daemon is
-- not alive.
pub data DaemonDown (s : State) : Bool → Type 0 where
  ctx_done : s.cancelled ≡ true → DaemonDown s false
  stop_seen : s.stopping ≡ true → DaemonDown s false
  found_dead : s.stopping ≡ false → DaemonDown s true

-- One step of `Run`, taken while it has not returned.
pub data Move (p : PulseAudio) (s t : State) : Type 0 where
  leaves_cancelled :
      s.place ≡ head → s.cancelled ≡ true → t ≡ record s { returned = true } → Move p s t
  leaves_stopping :
      s.place ≡ head → s.stopping ≡ true → t ≡ record s { returned = true } → Move p s t
  attempts :
      s.place ≡ head
      → s.cancelled ≡ false
      → s.stopping ≡ false
      → t ≡ record s { attempt = s.attempt + 1; place = starting }
      → Move p s t
  comes_up :
      (b : Bringup)
      → s.place ≡ starting
      → (start_daemon p b s.world).1 ≡ up
      → t
        ≡ set_ready true
            (record s { world = (start_daemon p b s.world).0; place = announcing true })
      → Move p s t
  stays_down :
      (b : Bringup)
      → s.place ≡ starting
      → (e : _) × ((start_daemon p b s.world).1 ≡ failed e)
      → t
        ≡ set_ready false
            (record s { world = (start_daemon p b s.world).0; place = announcing false })
      → Move p s t
  announces :
      (ok : Bool)
      → s.place ≡ announcing ok
      → t ≡ set_health (word ok) (record s { place = probing })
      → Move p s t
  leaves_probing :
      s.place ≡ probing → DaemonDown s false → t ≡ record s { returned = true } → Move p s t
  probes_dead :
      s.place ≡ probing → DaemonDown s true → t ≡ record s { place = doubting } → Move p s t
  leaves_doubting :
      s.place ≡ doubting → s.stopping ≡ true → t ≡ record s { returned = true } → Move p s t
  goes_on : s.place ≡ doubting → s.stopping ≡ false → t ≡ record s { place = mourning } → Move p s t
  mourns : s.place ≡ mourning → t ≡ set_ready false (record s { place = burying }) → Move p s t
  buries :
      s.place ≡ burying
      → t
        ≡ set_health pulse_not_ready
            (record s { slept = s.slept ++ s.backoff ∷ []; place = sleeping })
      → Move p s t
  sleep_cut :
      s.place ≡ sleeping → s.cancelled ≡ true → t ≡ record s { returned = true } → Move p s t
  wakes :
      s.place ≡ sleeping
      → t ≡ record s { backoff = next_backoff s.backoff (max_backoff_of p); place = head }
      → Move p s t

-- A step of `Run`, of the context, or of `Stop`.
pub data Step (p : PulseAudio) (s t : State) : Type 0 where
  moves : s.returned ≡ false → Move p s t → Step p s t
  cancels : t ≡ record s { cancelled = true } → Step p s t
  stop_flags :
      s.stopping ≡ false
      → s.halting ≡ uncalled
      → t ≡ record s { stopping = true; halting = flagged }
      → Step p s t
  stop_clears :
      s.halting ≡ flagged → t ≡ set_ready false (record s { halting = unready }) → Step p s t
  stop_exits :
      s.halting ≡ unready
      → t ≡ record s { world = spawn exit_command s.world; halting = exited }
      → Step p s t

pub data Reach (p : PulseAudio) (w : World) : State → Type 0 where
  begins : Reach p w (initial p w)
  then_steps : {s t : State} → Reach p w s → Step p s t → Reach p w t
