-- ===== src/Shim/Startup/Handover.antt =====
-- cmd/shim/main.go: the hand-over of `pairThenSupervisor` from the pairing to the supervisor.
use teddycloud_spotify_radio.Base.{Bool, true, false, List, Option, none, some, ◌≡◌, refl, codes, ℤ}
use teddycloud_spotify_radio.Server.{Server}
use teddycloud_spotify_radio.Server.Healthz.{respond, reason_in}
use teddycloud_spotify_radio.Soloist.Disk.{Disk}
use teddycloud_spotify_radio.Soloist.Binary.{BinaryManager, Machine, resolve}
use teddycloud_spotify_radio.Soloist.Pairing.{PairOutcome, drive}
use teddycloud_spotify_radio.Soloist.Pairing.Attempts.{Attempt, turns, IsPairedBy, IsPairedBy-drive}
use teddycloud_spotify_radio.Shim.Startup.{pairs, start_soloist, pair_then_supervisor}

behind_drive : Option PairOutcome → Server → Server × Bool
unfolding pair_then_supervisor
behind_drive none s = (s, false)
behind_drive (some o) s = pair_then_supervisor o s

-- `pairThenSupervisor`: the server, and whether the supervisor is run.
unfoldable pub hand_over : ℤ → ℤ → List Attempt → Server → Server × Bool
unfolding behind_drive
hand_over initial max attempts s = behind_drive (drive initial max (turns attempts)).result s

-- `main` pairs first, the supervisor is run behind attempts of which the last paired, and until it
-- reports, /healthz tells that there is no session.
pub record HandsOver (m : Machine) (b : BinaryManager) (d : Disk) (s : Server) (initial max : ℤ)
    (attempts : List Attempt) : Type 0 where
  pub gated : (start_soloist m b d s).1 ≡ pairs (resolve m b d).path
  pub paired : IsPairedBy attempts
  pub told :
      reason_in (respond (hand_over initial max attempts (start_soloist m b d s).0).0)
      ≡ codes "soloist_unpaired"

-- And it is run behind every attempt that paired, whatever the check of the session says then.
IsPairedBy-hand_over :
    (initial max : ℤ) (attempts : List Attempt) (s : Server)
    → IsPairedBy attempts
    → (hand_over initial max attempts s).1 ≡ true
unfolding hand_over behind_drive
IsPairedBy-hand_over initial max attempts s h = rw (IsPairedBy-drive initial max attempts h) refl
