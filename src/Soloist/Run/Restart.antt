-- ===== src/Soloist/Run/Restart.antt =====
-- When the supervisor gives up, and how long it waits before a restart.
use teddycloud_spotify_radio.Base.{
  true, false, List, [], ◌∷◌, ◌++◌, ◌≡◌, ◌⊎◌, inl, inr, refl, All, Text, codes, ℤ,
}
use teddycloud_spotify_radio.Soloist.Connector.{WebSocket}
use teddycloud_spotify_radio.Soloist.Supervisor.{Supervisor, max_backoff_of, backoff_of}
use teddycloud_spotify_radio.Soloist.Pairing.{next_backoff}
use teddycloud_spotify_radio.Soloist.Session.{World, Turn, waits, goes_on, returns, run_once}
use teddycloud_spotify_radio.Soloist.Session.Justified.{
  IsRunning, IsUncanceled, IsJustified, run_once-IsJustified,
}
use teddycloud_spotify_radio.Soloist.Run.{
  Round, Ran, report, world_behind, finish_round, run_from, run,
}

-- The context is not done anywhere in the round.
pub record IsOn {C : Type 0} (r : Round C) : Type 0 where
  pub before : r.done_before ≡ false
  pub waiting : All IsUncanceled r.ports
  pub inside : All IsRunning r.laps
  pub behind : r.done_behind ≡ false
  pub asleep : r.sleep_cut ≡ false

-- The supervisor goes on, or it has reported an expired binary last.
pub record IsUp {C : Type 0} (ran : Ran C) : Type 0 where
  pub earlier : List Text
  pub up : (ran.returned ≡ false) ⊎ (ran.world.reports ≡ earlier ++ codes "soloist_expired" ∷ [])

report_expired :
    {C : Type 0} (w : World C) (reason : Text)
    → reason ≡ codes "soloist_expired"
    → (report w reason).reports ≡ w.reports ++ codes "soloist_expired" ∷ []
unfolding report
report_expired w reason e = rw e

expired_of :
    (reason : Text)
    → (false ≡ true) ⊎ (reason ≡ codes "soloist_expired")
    → reason ≡ codes "soloist_expired"
expired_of reason (inl e) = cc
expired_of reason (inr e) = e

finish_round-IsUp :
    {C : Type 0} (r : Round C) (w : World C) (slept : List ℤ) (backoff : ℤ) (t : Turn C)
    (on : Ran C)
    → IsOn r
    → IsJustified t
    → IsUp on
    → IsUp (finish_round r w slept backoff t on)
unfolding finish_round world_behind IsJustified
finish_round-IsUp r w slept backoff (waits w') on h j u = record { earlier = []; up = inl refl }
finish_round-IsUp r w slept backoff (goes_on w' ch b) on h j u = record {
  earlier = [];
  up = inl refl;
}
finish_round-IsUp r w slept backoff (returns w' reason true) on h j u = rw (h.behind, h.asleep) u
finish_round-IsUp r w slept backoff (returns w' reason false) on h j u = record {
  earlier = w'.reports;
  up = inr (report_expired w' reason (expired_of reason j));
}

module _ {C W : Type 0} (ws : WebSocket C W) (s : Supervisor) where
  run_from-IsUp :
      (rounds : List (Round C)) (w : World C) (slept : List ℤ) (backoff : ℤ)
      → All IsOn rounds
      → IsUp (run_from ws s w slept backoff rounds)
  unfolding run_from
  run_from-IsUp [] w slept backoff hs = record { earlier = []; up = inl refl }
  run_from-IsUp (r ∷ rs) w slept backoff (h, hs) =
      let turn = run_once ws s w r.starts r.ports r.laps in
      rw h.before (
        finish_round-IsUp r w slept backoff turn _ h
          (run_once-IsJustified ws s w r.starts r.ports r.laps h.waiting h.inside)
          (run_from-IsUp rs (world_behind turn) (slept ++ backoff ∷ [])
            (next_backoff backoff (max_backoff_of s)) hs))

  -- As long as no context is done, `Run` returns only behind an expired binary, which it has reported
  -- last; whatever else happens to the process, its port and its sessions, it goes on.
  pub run-IsUp :
      (rounds : List (Round C)) (w : World C) → All IsOn rounds → IsUp (run ws s w rounds)
  unfolding run
  run-IsUp rounds w hs = run_from-IsUp rounds w [] (backoff_of s) hs
