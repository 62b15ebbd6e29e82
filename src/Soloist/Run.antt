-- ===== src/Soloist/Run.antt =====
-- internal/soloist/supervisor.go: `Run` repeats `runOnce`.
pub mod Restart
pub mod Delays
use teddycloud_spotify_radio.Base.{
  Bool, true, false, ◌||◌, not, List, [], ◌∷◌, ◌++◌, if◌then◌else◌, Text, ℤ,
}
use teddycloud_spotify_radio.Soloist.Connector.{WebSocket}
use teddycloud_spotify_radio.Soloist.Pairing.{next_backoff}
use teddycloud_spotify_radio.Soloist.Supervisor.{Supervisor, PortEvent, backoff_of, max_backoff_of}
use teddycloud_spotify_radio.Soloist.Session.{World, Lap, Turn, waits, goes_on, returns, run_once}

-- Once around the loop of `Run`: whether the context is done before it, what `runOnce` meets, whether
-- the context is done behind it, and whether it ends the sleep.
pub record Round (C : Type 0) : Type 0 where
  pub done_before : Bool
  pub starts : Bool
  pub ports : List PortEvent
  pub laps : List (Lap C)
  pub done_behind : Bool
  pub sleep_cut : Bool

-- Whether `Run` has returned, or is still inside `runOnce` or the loop.
pub record Ran (C : Type 0) : Type 0 where
  pub world : World C
  pub slept : List ℤ
  pub returned : Bool

report : {C : Type 0} → World C → Text → World C
report w [] = w
report w (c ∷ cs) = record w { reports = w.reports ++ (c ∷ cs) ∷ [] }

-- The world behind `runOnce`, its reason reported if it has one.
world_behind : {C : Type 0} → Turn C → World C
unfolding report
world_behind (waits w) = w
world_behind (goes_on w ch backoff) = w
world_behind (returns w reason restart) = report w reason

-- What is left of a round whose `runOnce` has come to this turn; `on` is what follows a restart.
finish_round : {C : Type 0} → Round C → World C → List ℤ → ℤ → Turn C → Ran C → Ran C
unfolding world_behind
finish_round r w slept backoff (waits w') on = record {
  world = w';
  slept = slept;
  returned = false;
}
finish_round r w slept backoff (goes_on w' ch b) on = record {
  world = w';
  slept = slept;
  returned = false;
}
finish_round r w slept backoff (returns w' reason restart) on =
    let w'' = world_behind (returns w' reason restart) in
    if not restart || r.done_behind
    then record { world = w''; slept = slept; returned = true }
    else if r.sleep_cut
    then record { world = w''; slept = slept ++ backoff ∷ []; returned = true }
    else on

module _ {C W : Type 0} (ws : WebSocket C W) (s : Supervisor) where
  run_from : World C → List ℤ → ℤ → List (Round C) → Ran C
  unfolding finish_round world_behind
  run_from w slept backoff [] = record { world = w; slept = slept; returned = false }
  run_from w slept backoff (r ∷ rs) =
      let turn = run_once ws s w r.starts r.ports r.laps in
      let on =
        run_from (world_behind turn) (slept ++ backoff ∷ [])
          (next_backoff backoff (max_backoff_of s)) rs in
      if r.done_before
      then record { world = w; slept = slept; returned = true }
      else finish_round r w slept backoff turn on

  unfoldable pub run : World C → List (Round C) → Ran C
  unfolding run_from
  run w rounds = run_from w [] (backoff_of s) rounds
