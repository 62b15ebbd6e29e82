-- ===== src/Soloist/Pairing.antt =====
-- internal/soloist/pair.go: `Pair` waits on the pairing process, and `Drive` repeats it.
pub mod Driving
pub mod Deciding
pub mod Attempts
pub mod Managed
use teddycloud_spotify_radio.Base.{
  ℕ, Bool, true, false, List, [], ◌∷◌, ◌++◌, Option, none, some, ◌||◌, if◌then◌else◌, ℤ, pos, ltb_ℤ,
  leb_ℤ, wrap64, double,
}
use teddycloud_spotify_radio.Process.{WaitError, exit_code}

pub data PairOutcome : Type 0 where
  pair_done pair_retry pair_expired pair_canceled : PairOutcome

-- What the loop of `Pair` receives: the context is done, the process exited (with what the check of
-- the session says then), or a tick (likewise).
pub data PairEvent : Type 0 where
  ctx_done : PairEvent
  exited : WaitError → Bool → PairEvent
  tick : Bool → PairEvent

-- What `Pair` did: whether it killed the process and deleted the binary, and what it returned; none
-- while it waits.
pub record Pairing : Type 0 where
  pub killed : Bool
  pub deleted : Bool
  pub outcome : Option PairOutcome

abbrev waiting : Pairing
waiting = record { killed = false; deleted = false; outcome = none }

abbrev pub is_code : ℤ → ℤ → Bool
is_code a b = if leb_ℤ a b then leb_ℤ b a else false

-- The process exited; the binary is deleted if there is a binary manager.
on_exit : Bool → ℤ → Pairing
on_exit has_manager code =
    if is_code code (pos 0)
    then record waiting { outcome = some pair_done }
    else if is_code code (pos 10)
    then record waiting { deleted = has_manager; outcome = some pair_expired }
    else record waiting { outcome = some pair_retry }

-- The loop of `Pair` over what it receives. Exit code 0 counts as paired whatever the check says.
pub wait_pair : Bool → List PairEvent → Pairing
unfolding on_exit exit_code
wait_pair has_manager [] = waiting
wait_pair has_manager (ctx_done ∷ es) = record waiting {
  killed = true;
  outcome = some pair_canceled;
}
wait_pair has_manager (exited e stored ∷ es) = on_exit has_manager (exit_code e)
wait_pair has_manager (tick stored ∷ es) =
    let on = wait_pair has_manager es in
    if stored then record waiting { killed = true; outcome = some pair_done } else on

-- `Pair`: the process may fail to start.
unfoldable pub pair : Bool → Bool → List PairEvent → Pairing
unfolding wait_pair
pair has_manager starts es =
    if starts then wait_pair has_manager es else record waiting { outcome = some pair_retry }

-- soloist.NextBackoff, a copy of audio.NextBackoff.
unfoldable pub next_backoff : ℤ → ℤ → ℤ
next_backoff current max =
    if leb_ℤ max current
    then max
    else (let next = wrap64 (double current) in
        if leb_ℤ next (pos 0) || ltb_ℤ max next then max else next)

-- One turn of `Drive`: what `pair` returns, and whether the context ends the wait behind it.
pub record Turn : Type 0 where
  pub outcome : PairOutcome
  pub wait_cut : Bool

-- What `Drive` returned, none while it repeats, and the delays that it began to wait.
pub record Drive : Type 0 where
  pub result : Option PairOutcome
  pub delays : List ℤ

is_retry : PairOutcome → Bool
is_retry pair_retry = true
is_retry _ = false

drive_from : List ℤ → ℤ → ℤ → List Turn → Drive
unfolding is_retry
drive_from delays backoff max [] = record { result = none; delays = delays }
drive_from delays backoff max (t ∷ ts) =
    let delays' = delays ++ backoff ∷ [] in
    let on = drive_from delays' (next_backoff backoff max) max ts in
    if is_retry t.outcome
    then (if t.wait_cut then record { result = some pair_canceled; delays = delays' } else on)
    else record { result = some t.outcome; delays = delays }

unfoldable pub drive : ℤ → ℤ → List Turn → Drive
unfolding drive_from
drive initial max = drive_from [] initial max
