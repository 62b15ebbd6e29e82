-- ===== src/Soloist/Run/Delays.antt =====
-- How long the supervisor waits before a restart.
use teddycloud_spotify_radio.Base.{
  ℕ, suc, ◌+◌, ◌^◌, ◌≤◌, ◌<◌, List, [], ◌∷◌, ◌++◌, ◌≡◌, ◌⊎◌, inl, inr, refl, sym, ap, ◌∙◌, arith,
  append_assoc, append-nil, ℤ, pos, Bool-cases,
}
use teddycloud_spotify_radio.Backoff.Schedule.{delay, delay-step, schedule}
use teddycloud_spotify_radio.Soloist.Connector.{WebSocket}
use teddycloud_spotify_radio.Soloist.Supervisor.{Supervisor, max_backoff_of, backoff_of}
use teddycloud_spotify_radio.Soloist.Pairing.{next_backoff}
use teddycloud_spotify_radio.Soloist.Pairing.Driving.{next_backoff-audio}
use teddycloud_spotify_radio.Soloist.Session.{World, Turn, waits, goes_on, returns, run_once}
use teddycloud_spotify_radio.Soloist.Run.{Round, Ran, world_behind, finish_round, run_from, run}

finish_round_slept :
    {C : Type 0} (r : Round C) (w : World C) (slept : List ℤ) (backoff : ℤ) (t : Turn C)
    (on : Ran C)
    → ((finish_round r w slept backoff t on).slept ≡ slept)
      ⊎ ((finish_round r w slept backoff t on).slept ≡ slept ++ backoff ∷ [])
      ⊎ ((finish_round r w slept backoff t on).slept ≡ on.slept)
unfolding finish_round
finish_round_slept r w slept backoff (waits w') on = inl refl
finish_round_slept r w slept backoff (goes_on w' ch b) on = inl refl
finish_round_slept r w slept backoff (returns w' reason restart) on = ground arith

-- The delays are the first of a schedule.
pub record IsScheduled (first cap j : ℕ) (before slept : List ℤ) : Type 0 where
  pub times : ℕ
  pub scheduled : slept ≡ before ++ schedule first cap j times

module _ {C W : Type 0} (ws : WebSocket C W) (s : Supervisor) (first cap : ℕ) (h : 0 < first)
    (hc : 0 < cap) (hm : cap < 2 ^ 63) (is_cap : max_backoff_of s ≡ pos cap) where
  run_from-IsScheduled :
      (rounds : List (Round C)) (w : World C) (slept : List ℤ) (b : ℤ) (j : ℕ)
      → b ≡ delay first cap j
      → IsScheduled first cap j slept (run_from ws s w slept b rounds).slept
  unfolding run_from
  run_from-IsScheduled [] w slept b j e = record { times = 0; scheduled = sym (append-nil slept) }
  run_from-IsScheduled (r ∷ rs) w slept b j e = elim (Bool-cases r.done_before) [
    | inl done ↦ rw done (record { times = 0; scheduled = sym (append-nil slept) })
    | inr on ↦
        let turn = run_once ws s w r.starts r.ports r.laps in
        let rest =
          run_from ws s (world_behind turn) (slept ++ b ∷ []) (next_backoff b (max_backoff_of s))
            rs in
        let follows =
          run_from-IsScheduled rs (world_behind turn) (slept ++ b ∷ [])
            (next_backoff b (max_backoff_of s)) (j + 1)
            (rw (is_cap, e)
              (next_backoff-audio (delay first cap j) (pos cap)
                ∙ delay-step first cap j h hc hm)) in
        rw on (elim (finish_round_slept r w slept b turn rest) [
          | inl none_slept ↦ record { times = 0; scheduled = none_slept ∙ sym (append-nil slept) }
          | inr (inl one) ↦ record { times = 1; scheduled = one ∙ ap (λ d. slept ++ d ∷ []) e }
          | inr (inr more) ↦ record {
            times = suc follows.times;
            scheduled =
                more
                ∙ follows.scheduled
                ∙ append_assoc slept (b ∷ []) (schedule first cap (j + 1) follows.times)
                ∙ ap (λ d. slept ++ d ∷ schedule first cap (j + 1) follows.times) e;
          }
        ])
  ]

-- Whatever happens to the supervisor, the delays that it began to sleep before its restarts are the
-- initial backoff and its doublings, in their order and capped at the maximum. (Both are positive,
-- and the initial backoff is not above the maximum.)
pub run-IsScheduled :
    {C W : Type 0} (ws : WebSocket C W) (s : Supervisor) (first cap : ℕ) (w : World C)
    (rounds : List (Round C))
    → 0 < first
    → first ≤ cap
    → cap < 2 ^ 63
    → backoff_of s ≡ pos first
    → max_backoff_of s ≡ pos cap
    → IsScheduled first cap 0 [] (run ws s w rounds).slept
unfolding run
run-IsScheduled ws s first cap w rounds h le hm is_first is_cap =
    run_from-IsScheduled ws s first cap h (omega arith) hm is_cap rounds w [] (backoff_of s) 0
      (is_first ∙ ap pos (omega arith))
