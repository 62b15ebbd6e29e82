-- ===== src/Pulse/Run/Monitor.antt =====
-- What the supervision of the daemon promises to the outside: an abstract monitor, and `Run` as a
-- refinement of it.
mod Rounds
pub mod Refining
use teddycloud_spotify_radio.Base.{
  ℕ, zero, suc, ◌+◌, ◌*◌, ◌^◌, ◌≤◌, ◌<◌, Bool, true, false, List, [], ◌∷◌, ◌++◌, Option, none, some,
  length, length-append, append_assoc, append-nil, ◌≡◌, ◌⊎◌, inl, inr, refl, sym, ap, subst, ◌∙◌,
  arith, Text, ℤ, pos,
}
use teddycloud_spotify_radio.Backoff.{next_backoff}
use teddycloud_spotify_radio.Backoff.Schedule.{delay, delay-step, schedule}
use teddycloud_spotify_radio.Pulse.Daemon.{
  PulseAudio, World, pulse_not_ready, start_backoff_of, max_backoff_of,
}
use teddycloud_spotify_radio.Pulse.Run.{
  Place, head, starting, announcing, probing, doubting, mourning, burying, sleeping, State, initial,
  word, Move, leaves_cancelled, leaves_stopping, attempts, comes_up, stays_down, announces,
  leaves_probing, probes_dead, leaves_doubting, goes_on, mourns, buries, sleep_cut, wakes, Halting,
  uncalled, flagged, unready, exited, Step, moves, cancels, stop_flags, stop_clears, stop_exits,
  Reach, begins, then_steps,
}

-- The rounds that are over, by whether their start succeeded; the current round, if its start is
-- over; and whether the monitor is over.
pub record Monitor : Type 0 where
  pub rounds : List Bool
  pub current : Option Bool
  pub over : Bool

pub data Advances (m n : Monitor) : Type 0 where
  tries :
      (ok : Bool)
      → m.over ≡ false
      → m.current ≡ none
      → n ≡ record m { current = some ok }
      → Advances m n
  rests :
      (ok : Bool)
      → m.over ≡ false
      → m.current ≡ some ok
      → n ≡ record m { rounds = m.rounds ++ ok ∷ []; current = none }
      → Advances m n
  ends : m.over ≡ false → n ≡ record m { over = true } → Advances m n

-- The health reports of rounds: what the start came to, then that the daemon is gone.
abbrev pub history : List Bool → List Text
history [] = []
history (ok ∷ oks) = word ok ∷ pulse_not_ready ∷ history oks

-- The reports of the current round at a place.
abbrev pub said : Place → Option Bool → List Text
said probing (some ok) = word ok ∷ []
said doubting (some ok) = word ok ∷ []
said mourning (some ok) = word ok ∷ []
said burying (some ok) = word ok ∷ []
said sleeping (some ok) = word ok ∷ pulse_not_ready ∷ []
said place current = []

-- The readiness at a place.
abbrev pub shown : Place → Option Bool → Bool
shown (announcing ok) current = ok
shown probing (some ok) = ok
shown doubting (some ok) = ok
shown mourning (some ok) = ok
shown place current = false

-- The attempt that is counted, and the delay that is begun, at a place.
abbrev pub begun : Place → ℕ
begun head = 0
begun place = 1

abbrev pub asleep : Place → ℕ
asleep sleeping = 1
asleep place = 0

-- Which places the current round allows.
abbrev pub Fits : Place → Option Bool → Type 0
Fits head current = current ≡ none
Fits starting current = current ≡ none
Fits (announcing ok) current = current ≡ some ok
Fits place current = (ok : Bool) × (current ≡ some ok)

pub record Refines (first cap : ℕ) (m : Monitor) (s : State) : Type 0 where
  pub fits : Fits s.place m.current
  pub over_is : s.returned ≡ m.over
  pub attempt_is : s.attempt ≡ length m.rounds + begun s.place
  pub reports_are : s.reports ≡ history m.rounds ++ said s.place m.current
  pub slept_is : s.slept ≡ schedule first cap 0 (length m.rounds + asleep s.place)
  pub backoff_is : s.backoff ≡ delay first cap (length m.rounds)
  pub ready_is : s.stopping ≡ false → s.ready ≡ shown s.place m.current
  pub flag_is : (s.halting ≡ uncalled) ⊎ (s.stopping ≡ true)
  pub ready_only : s.ready ≡ true → shown s.place m.current ≡ true
