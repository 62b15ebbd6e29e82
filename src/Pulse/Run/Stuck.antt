-- ===== src/Pulse/Run/Stuck.antt =====
-- A start that failed, while the daemon lives.
use teddycloud_spotify_radio.Base.{true, false, [], ◌∷◌, ◌++◌, ◌≡◌, ◌⊎◌, inl, refl, arith}
use teddycloud_spotify_radio.Pulse.Daemon.{
  PulseAudio, World, Bringup, failed, pulse_not_ready, start_daemon,
}
use teddycloud_spotify_radio.Pulse.Run.{
  starting, announcing, probing, State, leaves_cancelled, leaves_stopping, attempts, comes_up,
  stays_down, announces, ctx_done, stop_seen, leaves_probing, probes_dead, leaves_doubting, goes_on,
  mourns, buries, sleep_cut, wakes, Step, moves, cancels, stop_flags, stop_clears, stop_exits,
  Reach, then_steps,
}

-- No probe in the steps finds the daemon dead.
abbrev pub SeesAlive : {p : PulseAudio} {s t : State} → Step p s t → Type 0
SeesAlive (moves on (probes_dead e going same)) = ⊥
SeesAlive step = Unit

pub data Lasts (p : PulseAudio) (s : State) : State → Type 0 where
  stays : Lasts p s s
  then_lasts : {t u : State} → Lasts p s t → (step : Step p t u) → SeesAlive step → Lasts p s u

-- Right behind a start that failed.
abbrev pub behind_failure : PulseAudio → Bringup → State → State
behind_failure p b s = record s {
  world = (start_daemon p b s.world).0;
  ready = false;
  place = announcing false;
}

-- It is about to report the failure, or has reported it once and waits for the daemon to be gone; no
-- attempt and no delay has begun since, and only the context or `Stop` has made it return.
pub record IsStuck (s t : State) : Type 0 where
  pub waits :
      ((t.place ≡ announcing false) × (t.reports ≡ s.reports))
      ⊎ ((t.place ≡ probing) × (t.reports ≡ s.reports ++ pulse_not_ready ∷ []))
  pub unready : t.ready ≡ false
  pub no_attempt : t.attempt ≡ s.attempt
  pub no_delay : (t.slept ≡ s.slept) × (t.backoff ≡ s.backoff)
  pub ended : t.returned ≡ true → (t.cancelled ≡ true) ⊎ (t.stopping ≡ true)

module _ (p : PulseAudio) (s : State) where
  Step-IsStuck : (t u : State) → IsStuck s t → (step : Step p t u) → SeesAlive step → IsStuck s u
  Step-IsStuck t u h (cancels same) alive = ground (arith, h)
  Step-IsStuck t u h (stop_flags going uncalled_yet same) alive = ground (arith, h)
  Step-IsStuck t u h (stop_clears flagged_yet same) alive = ground (arith, h)
  Step-IsStuck t u h (stop_exits unready_yet same) alive = ground (arith, h)
  Step-IsStuck t u h (moves on (leaves_cancelled e done same)) alive = ground (arith, h)
  Step-IsStuck t u h (moves on (leaves_stopping e done same)) alive = ground (arith, h)
  Step-IsStuck t u h (moves on (attempts e live going same)) alive = ground (arith, h)
  Step-IsStuck t u h (moves on (comes_up b e is_up same)) alive = ground (arith, h)
  Step-IsStuck t u h (moves on (stays_down b e is_down same)) alive = ground (arith, h)
  Step-IsStuck t u h (moves on (announces true e same)) alive = ground (arith, h)
  Step-IsStuck t u h (moves on (announces false e same)) alive = ground (arith, h)
  Step-IsStuck t u h (moves on (leaves_probing e (ctx_done done) same)) alive = ground (arith, h)
  Step-IsStuck t u h (moves on (leaves_probing e (stop_seen done) same)) alive = ground (arith, h)
  Step-IsStuck t u h (moves on (leaves_doubting e done same)) alive = ground (arith, h)
  Step-IsStuck t u h (moves on (goes_on e going same)) alive = ground (arith, h)
  Step-IsStuck t u h (moves on (mourns e same)) alive = ground (arith, h)
  Step-IsStuck t u h (moves on (buries e same)) alive = ground (arith, h)
  Step-IsStuck t u h (moves on (sleep_cut e done same)) alive = ground (arith, h)
  Step-IsStuck t u h (moves on (wakes e same)) alive = ground (arith, h)
  Step-IsStuck t u h (moves on (probes_dead e going same)) alive = absurd alive

  Lasts-IsStuck : (f t : State) → IsStuck s f → Lasts p f t → IsStuck s t
  Lasts-IsStuck f t h stays = h
  Lasts-IsStuck f u h (then_lasts {t = t} before step alive) =
      Step-IsStuck t u (Lasts-IsStuck f t h before) step alive

Lasts-Reach : (p : PulseAudio) (w : World) (s t : State) → Reach p w s → Lasts p s t → Reach p w t
Lasts-Reach p w s t r stays = r
Lasts-Reach p w s u r (then_lasts {t = t} before step alive) =
    then_steps (Lasts-Reach p w s t r before) step

-- What follows a failed start of `Run` in a reachable state: the failure is reached; what is reached
-- from it without a probe that finds the daemon dead is reachable and stuck; and the wait is among it.
pub record Strands (p : PulseAudio) (w : World) (b : Bringup) (s t : State) : Type 0 where
  pub fails : Step p s (behind_failure p b s)
  pub reached : Reach p w t
  pub stuck : IsStuck s t
  pub waiting : Lasts p (behind_failure p b s) (record (behind_failure p b s) {
    place = probing;
    reports = s.reports ++ pulse_not_ready ∷ [];
  })

-- Behind a start that failed, whatever `Run`, the context and a call of `Stop` do, and as long as no
-- probe finds the daemon dead: `Run` reports pulseaudio_not_ready once, is not ready, makes no further
-- attempt, begins no delay, and returns only if the context is done or `Stop` was called.
pub start_daemon-Strands :
    (p : PulseAudio) (w : World) (b : Bringup) (s t : State)
    → Reach p w s
    → s.returned ≡ false
    → s.place ≡ starting
    → (e : _) × ((start_daemon p b s.world).1 ≡ failed e)
    → Lasts p (behind_failure p b s) t
    → Strands p w b s t
start_daemon-Strands p w b s t r on at fails lasts =
    let down : Step p s (behind_failure p b s) = moves on (stays_down b at fails refl) in
    let begun : IsStuck s (behind_failure p b s) = record {
      waits = inl (refl, refl);
      unready = refl;
      no_attempt = refl;
      no_delay = (refl, refl);
      ended = λ e. cc;
    } in
    record {
      fails = down;
      reached = Lasts-Reach p w (behind_failure p b s) t (then_steps r down) lasts;
      stuck = Lasts-IsStuck p s (behind_failure p b s) t begun lasts;
      waiting = then_lasts stays (moves on (announces false refl refl)) tt;
    }
