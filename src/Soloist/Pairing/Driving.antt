-- ===== src/Soloist/Pairing/Driving.antt =====
-- The repeats of `Drive`.
use teddycloud_spotify_radio.Base.{
  ℕ, ◌+◌, ◌^◌, ◌≤◌, ◌<◌, Bool, true, false, not, ◌||◌, List, [], ◌∷◌, ◌++◌, some, ◌≡◌, refl, ap,
  ◌∙◌, arith, append_assoc, append-nil, length, All, ℤ, pos,
}
use teddycloud_spotify_radio.Backoff
use teddycloud_spotify_radio.Backoff.Schedule.{delay, delay-step, schedule}
use teddycloud_spotify_radio.Soloist.Pairing.{
  PairOutcome, pair_retry, pair_canceled, Turn, next_backoff, is_retry, drive_from, drive,
}

-- The copy of the function agrees with the original.
pub next_backoff-audio : (c m : ℤ) → next_backoff c m ≡ Backoff.next_backoff c m
unfolding next_backoff Backoff.next_backoff
next_backoff-audio c m = refl

-- `pair` is to be repeated, and the wait behind it is not cut.
pub record IsRepeated (t : Turn) : Type 0 where
  pub retried : t.outcome ≡ pair_retry
  pub waited : t.wait_cut ≡ false

-- `Drive` returns behind this turn.
unfoldable pub stops : Turn → Bool
unfolding is_retry
stops t = not (is_retry t.outcome) || t.wait_cut

pub answer : PairOutcome → PairOutcome
answer pair_retry = pair_canceled
answer o = o

-- The delays begun by a turn that ends the loop.
pub last_delay : ℤ → PairOutcome → List ℤ
last_delay d pair_retry = d ∷ []
last_delay d _ = []

module _ (first cap : ℕ) (h : 0 < first) (hc : 0 < cap) (hm : cap < 2 ^ 63) where
  drive_from-stop :
      (delays : List ℤ) (b : ℤ) (t : Turn) (after : List Turn)
      → stops t ≡ true
      → drive_from delays b (pos cap) (t ∷ after)
        ≡ record { result = some (answer t.outcome); delays = delays ++ last_delay b t.outcome }
  unfolding drive_from stops answer last_delay
  drive_from-stop delays b t after e = ground (arith, append-nil delays)

  drive_from-repeat :
      (delays : List ℤ) (b : ℤ) (t : Turn) (after : List Turn)
      → IsRepeated t
      → drive_from delays b (pos cap) (t ∷ after)
        ≡ drive_from (delays ++ b ∷ []) (next_backoff b (pos cap)) (pos cap) after
  unfolding drive_from
  drive_from-repeat delays b t after r = ground arith

  drive_from-repeats :
      (before : List Turn) (j : ℕ) (b : ℤ) (delays : List ℤ) (t : Turn) (after : List Turn) (k : ℕ)
      → b ≡ delay first cap j
      → j + length before ≡ k
      → All IsRepeated before
      → stops t ≡ true
      → drive_from delays b (pos cap) (before ++ t ∷ after) ≡ record {
        result = some (answer t.outcome);
        delays =
            delays
            ++ (schedule first cap j (length before) ++ last_delay (delay first cap k) t.outcome);
      }
  drive_from-repeats [] j b delays t after k eb ek r e =
      drive_from-stop delays b t after e
      ∙ ap
          (λ x. record {
            result = some (answer t.outcome);
            delays = delays ++ last_delay x t.outcome;
          })
          (eb ∙ ap (delay first cap) (omega (arith, ek)))
  drive_from-repeats (x ∷ before) j b delays t after k eb ek (r, rs) e =
      drive_from-repeat delays b x (before ++ t ∷ after) r
      ∙ rw (eb, next_backoff-audio (delay first cap j) (pos cap), delay-step first cap j h hc hm)
          (drive_from-repeats before (j + 1) (delay first cap (j + 1))
              (delays ++ delay first cap j ∷ []) t after k refl (omega (arith, ek)) rs e
            ∙ ap (λ ds. record { result = some (answer t.outcome); delays = ds })
                (append_assoc delays (delay first cap j ∷ []) (
                  schedule first cap (j + 1) (length before)
                  ++ last_delay (delay first cap k) t.outcome)))

  -- Whatever turns are to be repeated before it, `Drive` ends at the first turn that is not: it
  -- returns the outcome of that turn, and `canceled` where the context ended the wait behind a
  -- retry. The k-th wait (from 0) was for the initial delay doubled k times, capped at the maximum.
  -- (Both are positive, and the initial delay is not above the maximum.)
  pub drive-stops :
      (before : List Turn) (t : Turn) (after : List Turn)
      → first ≤ cap
      → All IsRepeated before
      → stops t ≡ true
      → drive (pos first) (pos cap) (before ++ t ∷ after) ≡ record {
        result = some (answer t.outcome);
        delays =
            schedule first cap 0 (length before)
            ++ last_delay (delay first cap (length before)) t.outcome;
      }
  unfolding drive
  drive-stops before t after le rs e =
      drive_from-repeats before 0 (pos first) [] t after (length before) (ap pos (omega arith))
        (omega arith) rs e
