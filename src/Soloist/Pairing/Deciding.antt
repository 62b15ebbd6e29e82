-- ===== src/Soloist/Pairing/Deciding.antt =====
-- What decides a pairing.
use teddycloud_spotify_radio.Base.{
  Option, none, Bool, true, false, List, [], ◌∷◌, some, ◌≡◌, ◌⊎◌, inl, inr, refl, arith, ℤ, pos,
}
use teddycloud_spotify_radio.Process.{WaitError, exit_code}
use teddycloud_spotify_radio.Soloist.Pairing.{
  PairOutcome, pair_done, pair_expired, PairEvent, ctx_done, exited, tick, pair, on_exit, wait_pair,
}

-- What the loop of `Pair` received first, but for ticks without a session.
pub first_decisive : List PairEvent → Option PairEvent
first_decisive [] = none
first_decisive (tick false ∷ es) = first_decisive es
first_decisive (e ∷ es) = some e

-- A session was seen, or the process exited with code 0.
pub IsPaired : List PairEvent → Type 0
IsPaired es =
    (first_decisive es ≡ some (tick true))
    ⊎ ((e : WaitError) × (stored : Bool) × (first_decisive es ≡ some (exited e stored))
        × (exit_code e ≡ pos 0))

on_exit-done : (code : ℤ) → (on_exit true code).outcome ≡ some pair_done → code ≡ pos 0
unfolding on_exit
on_exit-done code e = ground arith

wait_pair-IsPaired :
    (es : List PairEvent) → (wait_pair true es).outcome ≡ some pair_done → IsPaired es
unfolding wait_pair first_decisive IsPaired
wait_pair-IsPaired [] e = cc
wait_pair-IsPaired (ctx_done ∷ es) e = cc
wait_pair-IsPaired (exited x stored ∷ es) e = inr (x, stored, refl, on_exit-done (exit_code x) e)
wait_pair-IsPaired (tick true ∷ es) e = inl refl
wait_pair-IsPaired (tick false ∷ es) e = wait_pair-IsPaired es e

pub wait_pair-over :
    (es : List PairEvent) (o : PairOutcome)
    → (wait_pair true es).outcome ≡ some o
    → ((wait_pair true es).killed ≡ true)
      ⊎ ((e : WaitError) × (stored : Bool) × (first_decisive es ≡ some (exited e stored)))
unfolding wait_pair first_decisive
wait_pair-over [] o e = cc
wait_pair-over (ctx_done ∷ es) o e = inl refl
wait_pair-over (exited x stored ∷ es) o e = inr (x, stored, refl)
wait_pair-over (tick true ∷ es) o e = inl refl
wait_pair-over (tick false ∷ es) o e = wait_pair-over es o e

pub pair-IsPaired :
    (starts : Bool) (es : List PairEvent)
    → (pair true starts es).outcome ≡ some pair_done
    → (starts ≡ true) × IsPaired es
unfolding pair
pair-IsPaired true es e = (refl, wait_pair-IsPaired es e)
pair-IsPaired false es e = cc

wait_pair-paired :
    (es : List PairEvent) → IsPaired es → (wait_pair true es).outcome ≡ some pair_done
unfolding wait_pair on_exit first_decisive IsPaired
wait_pair-paired [] (inl e) = cc
wait_pair-paired [] (inr (x, stored, e, code)) = cc
wait_pair-paired (ctx_done ∷ es) (inl e) = absurd (ground arith)
wait_pair-paired (ctx_done ∷ es) (inr (x, stored, e, code)) = absurd (ground arith)
wait_pair-paired (exited y late ∷ es) (inl e) = absurd (ground arith)
wait_pair-paired (exited y late ∷ es) (inr (x, stored, e, code)) = ground arith
wait_pair-paired (tick true ∷ es) h = refl
wait_pair-paired (tick false ∷ es) h = wait_pair-paired es h

pub pair-paired :
    (starts : Bool) (es : List PairEvent)
    → starts ≡ true
    → IsPaired es
    → (pair true starts es).outcome ≡ some pair_done
unfolding pair
pair-paired starts es on h = rw on (wait_pair-paired es h)

on_exit-expired :
    (has_manager : Bool) (code : ℤ)
    → (on_exit has_manager code).outcome ≡ some pair_expired
    → (on_exit has_manager code).deleted ≡ has_manager
unfolding on_exit
on_exit-expired has_manager code e = ground arith

wait_pair-expired :
    (has_manager : Bool) (es : List PairEvent)
    → (wait_pair has_manager es).outcome ≡ some pair_expired
    → (wait_pair has_manager es).deleted ≡ has_manager
unfolding wait_pair
wait_pair-expired has_manager [] e = cc
wait_pair-expired has_manager (ctx_done ∷ es) e = cc
wait_pair-expired has_manager (exited x stored ∷ es) e = on_exit-expired has_manager (exit_code x) e
wait_pair-expired has_manager (tick true ∷ es) e = cc
wait_pair-expired has_manager (tick false ∷ es) e = wait_pair-expired has_manager es e

pub pair-expired :
    (has_manager starts : Bool) (es : List PairEvent)
    → (pair has_manager starts es).outcome ≡ some pair_expired
    → (pair has_manager starts es).deleted ≡ has_manager
unfolding pair
pair-expired has_manager true es e = wait_pair-expired has_manager es e
pair-expired has_manager false es e = cc
