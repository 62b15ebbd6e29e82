-- ===== src/Soloist/Pairing/Attempts.antt =====
-- internal/soloist/pair.go: `Drive` over the calls of `Pair` that it makes, with the binary manager that
-- `main` gives to the pairer.
use teddycloud_spotify_radio.Base.{
  Bool, true, false, List, [], ◌∷◌, ◌++◌, Option, none, some, ◌≡◌, ◌⊎◌, inl, inr, refl, arith, ℤ,
  Bool-cases,
}
use teddycloud_spotify_radio.Process.{WaitError}
use teddycloud_spotify_radio.Soloist.Pairing.{
  PairOutcome, pair_done, pair_retry, pair_expired, pair_canceled, PairEvent, exited, pair, Turn,
  is_retry, next_backoff, drive_from, drive,
}
use teddycloud_spotify_radio.Soloist.Pairing.Deciding.{
  first_decisive, IsPaired, wait_pair-over, pair-IsPaired, pair-paired,
}

-- One call of `Pair`: whether the process starts, what the loop receives, and whether the context ends
-- the wait of `Drive` behind it.
pub record Attempt : Type 0 where
  pub starts : Bool
  pub events : List PairEvent
  pub wait_cut : Bool

abbrev pub outcome_of : Attempt → Option PairOutcome
outcome_of a = (pair true a.starts a.events).outcome

turn_then : Option PairOutcome → Bool → List Turn → List Turn
turn_then none cut rest = []
turn_then (some o) cut rest = record { outcome = o; wait_cut = cut } ∷ rest

-- The turns of `Drive`, up to a call of `Pair` that still waits.
unfoldable pub turns : List Attempt → List Turn
unfolding turn_then
turns [] = []
turns (a ∷ rest) = turn_then (outcome_of a) a.wait_cut (turns rest)

-- No process of the attempt runs: none was started, it was killed, or it had exited.
pub IsOver : Attempt → Type 0
IsOver a =
    (a.starts ≡ false)
    ⊎ ((pair true a.starts a.events).killed ≡ true)
    ⊎ ((e : WaitError) × (stored : Bool) × (first_decisive a.events ≡ some (exited e stored)))

-- The attempts up to one that paired, each of which was over before the next began.
pub data IsPairedBy : List Attempt → Type 0 where
  paired_now :
      (a : Attempt) (rest : List Attempt)
      → a.starts ≡ true
      → IsPaired a.events
      → IsOver a
      → IsPairedBy (a ∷ rest)
  paired_later :
      (a : Attempt) (rest : List Attempt)
      → outcome_of a ≡ some pair_retry
      → a.wait_cut ≡ false
      → IsOver a
      → IsPairedBy rest
      → IsPairedBy (a ∷ rest)

pair-IsOver :
    (starts : Bool) (es : List PairEvent) (cut : Bool) (o : PairOutcome)
    → (pair true starts es).outcome ≡ some o
    → IsOver (record { starts = starts; events = es; wait_cut = cut })
unfolding pair IsOver
pair-IsOver true es cut o e = inr (wait_pair-over es o e)
pair-IsOver false es cut o e = inl refl

then_turns-IsPairedBy :
    (a : Attempt) (rest : List Attempt) (delays : List ℤ) (b max : ℤ) (o : Option PairOutcome)
    → outcome_of a ≡ o
    → ((delays' : List ℤ) (b' : ℤ)
        → (drive_from delays' b' max (turns rest)).result ≡ some pair_done
        → IsPairedBy rest)
    → (drive_from delays b max (turn_then o a.wait_cut (turns rest))).result ≡ some pair_done
    → IsPairedBy (a ∷ rest)
unfolding drive_from turn_then is_retry
then_turns-IsPairedBy a rest delays b max none is on e = cc
then_turns-IsPairedBy a rest delays b max (some pair_done) is on e =
    let (started, paired) = pair-IsPaired a.starts a.events is in
    paired_now a rest started paired (pair-IsOver a.starts a.events a.wait_cut pair_done is)
then_turns-IsPairedBy a rest delays b max (some pair_expired) is on e = absurd (ground arith)
then_turns-IsPairedBy a rest delays b max (some pair_canceled) is on e = absurd (ground arith)
then_turns-IsPairedBy a rest delays b max (some pair_retry) is on e = elim (Bool-cases a.wait_cut) [
  | inl cut ↦ absurd (ground arith)
  | inr uncut ↦
      let next : (drive_from (delays ++ b ∷ []) (next_backoff b max) max (turns rest)).result
          ≡ some pair_done =
        ground arith in
      paired_later a rest is uncut (pair-IsOver a.starts a.events a.wait_cut pair_retry is)
        (on (delays ++ b ∷ []) (next_backoff b max) next)
]

drive_from-IsPairedBy :
    (attempts : List Attempt) (delays : List ℤ) (b max : ℤ)
    → (drive_from delays b max (turns attempts)).result ≡ some pair_done
    → IsPairedBy attempts
unfolding drive_from turns
drive_from-IsPairedBy [] delays b max e = cc
drive_from-IsPairedBy (a ∷ rest) delays b max e =
    then_turns-IsPairedBy a rest delays b max (outcome_of a) refl
      (λ delays' b' e'. drive_from-IsPairedBy rest delays' b' max e') e

-- What `Drive` answers with paired ends at an attempt that paired.
pub drive-IsPairedBy :
    (initial max : ℤ) (attempts : List Attempt)
    → (drive initial max (turns attempts)).result ≡ some pair_done
    → IsPairedBy attempts
unfolding drive
drive-IsPairedBy initial max attempts e = drive_from-IsPairedBy attempts [] initial max e

IsPairedBy-drive_from :
    (attempts : List Attempt) (delays : List ℤ) (b max : ℤ)
    → IsPairedBy attempts
    → (drive_from delays b max (turns attempts)).result ≡ some pair_done
unfolding drive_from turns turn_then is_retry
IsPairedBy-drive_from _ delays b max (paired_now a rest on paired over) =
    rw (pair-paired a.starts a.events on paired) refl
IsPairedBy-drive_from _ delays b max (paired_later a rest is uncut over later) =
    rw (is, uncut) (IsPairedBy-drive_from rest (delays ++ b ∷ []) (next_backoff b max) max later)

-- An attempt that paired ends `Drive`, also where the process exited with code 0 and left no session.
pub IsPairedBy-drive :
    (initial max : ℤ) (attempts : List Attempt)
    → IsPairedBy attempts
    → (drive initial max (turns attempts)).result ≡ some pair_done
unfolding drive
IsPairedBy-drive initial max attempts h = IsPairedBy-drive_from attempts [] initial max h
