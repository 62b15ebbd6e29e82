-- ===== src/Sse/Loop/Reconnect.antt =====
-- The loop of `Run`: when it returns, and how long it sleeps between two connections.
use teddycloud_spotify_radio.Base.{
  ℕ, ◌+◌, ◌^◌, ◌≤◌, ◌<◌, Bool, false, ◌||◌, List, [], ◌∷◌, ◌++◌, ◌≡◌, refl, sym, ap, ◌∙◌, arith,
  length, append_assoc, append-nil, All, ℤ, pos,
}
use teddycloud_spotify_radio.Backoff.{next_backoff}
use teddycloud_spotify_radio.Backoff.Schedule.{delay, delay-step, schedule}
use teddycloud_spotify_radio.Sse.Dispatch.{CommandSender}
use teddycloud_spotify_radio.Sse.Loop.{
  Listener, Attempt, backoff_of, max_backoff_of, subscribe_once, run_from, run,
}

abbrev is_canceled : Attempt → Bool
is_canceled a = a.done_before || a.done_after || a.sleep_cut

pub any_canceled : List Attempt → Bool
any_canceled [] = false
any_canceled (a ∷ as') = is_canceled a || any_canceled as'

-- No context ends the attempt.
abbrev pub IsRunning : Attempt → Type 0
IsRunning a = is_canceled a ≡ false

module _ {S E : Type 0} (commands : CommandSender S E) (l : Listener) where
  run_from-returned :
      (attempts : List Attempt) (b : ℤ) (s : S) (slept : List ℤ)
      → (run_from commands l b s slept attempts).returned ≡ any_canceled attempts
  unfolding run_from any_canceled
  run_from-returned [] b s slept = refl
  run_from-returned (a ∷ rest) b s slept = ground (
    arith,
    run_from-returned rest (next_backoff b (max_backoff_of l))
        (subscribe_once commands l s a.response).0 (slept ++ b ∷ []),
  )

  -- `Run` returns exactly if the context is done before an attempt, behind it or while it sleeps:
  -- no answer of the server, no error of a command and no error of the connection ends it.
  pub run-returned :
      (s : S) (attempts : List Attempt)
      → (run commands l s attempts).returned ≡ any_canceled attempts
  unfolding run
  run-returned s attempts = run_from-returned attempts (backoff_of l) s []

  run_from-running :
      (a : Attempt) (rest : List Attempt) (b : ℤ) (s : S) (slept : List ℤ)
      → IsRunning a
      → run_from commands l b s slept (a ∷ rest)
        ≡ run_from commands l
            (next_backoff b (max_backoff_of l))
            (subscribe_once commands l s a.response).0
            (slept ++ b ∷ [])
            rest
  unfolding run_from
  run_from-running a rest b s slept r = ground arith

  run_from-slept :
      (first cap : ℕ)
      → 0 < first
      → 0 < cap
      → cap < 2 ^ 63
      → max_backoff_of l ≡ pos cap
      → (attempts : List Attempt) (j : ℕ) (b : ℤ) (s : S) (slept : List ℤ) → b ≡ delay first cap j
      → All IsRunning attempts
      → (run_from commands l b s slept attempts).slept
        ≡ slept ++ schedule first cap j (length attempts)
  run_from-slept first cap h hc hm is_cap [] j b s slept e r =
      unfold run_from in sym (append-nil slept)
  run_from-slept first cap h hc hm is_cap (a ∷ rest) j b s slept e (r, rs) =
      rw (run_from-running a rest b s slept r) (
        run_from-slept first cap h hc hm is_cap rest (j + 1) _ _ _
          (rw (is_cap, e) (delay-step first cap j h hc hm)) rs
        ∙ rw (e, append_assoc slept (delay first cap j ∷ [])))

  -- While no context is done, the delay behind the k-th connection (from 0) is the initial backoff
  -- doubled k times, capped at the maximum, whatever the connections did. (Both are positive, and
  -- the initial backoff is not above the maximum.)
  pub run-slept :
      (first cap : ℕ) (s : S) (attempts : List Attempt)
      → 0 < first
      → first ≤ cap
      → cap < 2 ^ 63
      → backoff_of l ≡ pos first
      → max_backoff_of l ≡ pos cap
      → All IsRunning attempts
      → (run commands l s attempts).slept ≡ schedule first cap 0 (length attempts)
  unfolding run
  run-slept first cap s attempts h le hm is_first is_cap rs =
      run_from-slept first cap h (omega arith) hm is_cap attempts 0 (backoff_of l) s []
        (is_first ∙ ap pos (omega arith)) rs
