-- ===== src/Shim/Recording/Still.antt =====
-- A recorder that its watchdog has shut, for as long as `runRecorder` is on it.
use teddycloud_spotify_radio.Base.{
  ◌≤◌, ◌<◌, false, List, ◌∷◌, ◌++◌, length, length-replace, ◌≡◌, ◌⊎◌, inl, inr, refl, sym, subst,
  arith, ℤ,
}
use teddycloud_spotify_radio.Recorder.{step}
use teddycloud_spotify_radio.Shim.Recording.{
  Live, shut, acts, recording, State, set_slot, Move, sees_ready, leaves, goes_on, opens,
  open_fails, leaves_recording, loses, wakes, Step, moves, cancels, live_acts, watch, past_acts,
  past_watch, Reach, then_steps,
}
use teddycloud_spotify_radio.Shim.Recording.Lives.{IsShut, shut-IsShut, acts-IsShut}

-- The recorders that were left stay left.
Move-past : (buffer_len : ℤ) (s t : State) → Move buffer_len s t → length s.past ≤ length t.past
unfolding set_slot
Move-past buffer_len s t (sees_ready e same) = ground arith
Move-past buffer_len s t (leaves at cancelled same) = ground arith
Move-past buffer_len s t (goes_on e going same) = ground arith
Move-past buffer_len s t (open_fails lib e failed same) = ground arith
Move-past buffer_len s t (opens lib e ok same) = ground arith
Move-past buffer_len s t (leaves_recording l e cancelled same) = ground arith
Move-past buffer_len s t (loses l e lost same) = ground arith
Move-past buffer_len s t (wakes e same) = ground arith

pub Step-past : (buffer_len : ℤ) (s t : State) → Step buffer_len s t → length s.past ≤ length t.past
Step-past buffer_len s t (moves on move) = Move-past buffer_len s t move
Step-past buffer_len s t (cancels same) = ground arith
Step-past buffer_len s t (live_acts l e sh at same) = ground arith
Step-past buffer_len s t (watch l at going same) = ground arith
Step-past buffer_len s t (past_acts before after l e sh at same) =
    ground (arith, length-replace before after l (acts e l))
Step-past buffer_len s t (past_watch before after l at same) =
    ground (arith, length-replace before after l (shut l))

pub data Runs (buffer_len : ℤ) (s : State) : State → Type 0 where
  stays : Runs buffer_len s s
  runs_on : {t u : State} → Runs buffer_len s t → Step buffer_len t u → Runs buffer_len s u

-- Still in the select with the recorder, which is stopped, and its stream closed.
pub record IsStill (s t : State) (now : Live) : Type 0 where
  pub at : t.place ≡ recording now
  pub is_shut : IsShut now
  pub running : t.returned ≡ false
  pub in_slot : t.slot ≡ s.slot
  pub no_delay : (t.slept ≡ s.slept) × (t.backoff ≡ s.backoff)

abbrev pub StillOrPast : State → State → Type 0
StillOrPast s t = ((now : Live) × IsStill s t now) ⊎ (length s.past < length t.past)

now_of : (t : State) (l now : Live) → t.place ≡ recording l → t.place ≡ recording now → now ≡ l
now_of t l now e e' = ground arith

module _ (buffer_len : ℤ) (s : State) where
  Move-Still :
      (t u : State) (now : Live)
      → t.returned ≡ false
      → length s.past ≤ length t.past
      → IsStill s t now
      → Move buffer_len t u
      → StillOrPast s u
  unfolding set_slot
  Move-Still t u now on low h (sees_ready e same) = ground (arith, h.at)
  Move-Still t u now on low h (leaves at done same) = ground (arith, h.at)
  Move-Still t u now on low h (goes_on e going same) = ground (arith, h.at)
  Move-Still t u now on low h (open_fails lib e failed same) = ground (arith, h.at)
  Move-Still t u now on low h (opens lib e ok same) = ground (arith, h.at)
  Move-Still t u now on low h (leaves_recording l e done same) = inr (ground arith)
  Move-Still t u now on low h (loses l e lost same) = inr (ground arith)
  Move-Still t u now on low h (wakes e same) = ground (arith, h.at)

  moved-Still :
      (t u : State) (l now : Live)
      → IsStill s t now
      → IsShut l
      → u ≡ record t { place = recording l }
      → StillOrPast s u
  moved-Still t u l now h is_shut same = inl (
    l,
    subst (λ v. IsStill s v l) (sym same)
        (record {
          at = refl;
          is_shut = is_shut;
          running = h.running;
          in_slot = h.in_slot;
          no_delay = h.no_delay;
        }),
  )

  aside-Still :
      (t u : State) (now : Live) (past : List Live)
      → IsStill s t now
      → u ≡ record t { past = past }
      → StillOrPast s u
  aside-Still t u now past h same = inl (
    now,
    subst (λ v. IsStill s v now) (sym same)
        (record {
          at = h.at;
          is_shut = h.is_shut;
          running = h.running;
          in_slot = h.in_slot;
          no_delay = h.no_delay;
        }),
  )

  Step-Still :
      (t u : State) (now : Live)
      → length s.past ≤ length t.past
      → IsStill s t now
      → Step buffer_len t u
      → StillOrPast s u
  Step-Still t u now low h (moves on move) = Move-Still t u now on low h move
  Step-Still t u now low h (cancels same) = inl (
    now,
    subst (λ v. IsStill s v now) (sym same)
        (record {
          at = h.at;
          is_shut = h.is_shut;
          running = h.running;
          in_slot = h.in_slot;
          no_delay = h.no_delay;
        }),
  )
  Step-Still t u now low h (live_acts l e shared at same) =
      let is_shut : IsShut l = subst IsShut (now_of t l now at h.at) h.is_shut in
      moved-Still t u (acts e l) now h (acts-IsShut e l shared is_shut) same
  Step-Still t u now low h (watch l at going same) =
      let is_shut : IsShut l = subst IsShut (now_of t l now at h.at) h.is_shut in
      moved-Still t u (shut l) now h (shut-IsShut l (inr is_shut.is_closed)) same
  Step-Still t u now low h (past_acts before after l e shared at same) =
      aside-Still t u now (before ++ acts e l ∷ after) h same
  Step-Still t u now low h (past_watch before after l at same) =
      aside-Still t u now (before ++ shut l ∷ after) h same

  Runs-past : (t u : State) → Runs buffer_len t u → length t.past ≤ length u.past
  Runs-past t u stays = omega arith
  Runs-past t v (runs_on {t = u} runs step) =
      omega (arith, Runs-past t u runs, Step-past buffer_len u v step)

  pub Runs-Reach : (t u : State) → Reach buffer_len t → Runs buffer_len t u → Reach buffer_len u
  Runs-Reach t u r stays = r
  Runs-Reach t v r (runs_on {t = u} runs step) = then_steps (Runs-Reach t u r runs) step

  pub Runs-Still :
      (f t : State) (l : Live)
      → IsStill s f l
      → length s.past ≤ length f.past
      → Runs buffer_len f t
      → StillOrPast s t
  Runs-Still f t l h low stays = inl (l, h)
  Runs-Still f u l h low (runs_on {t = t} runs step) = elim (Runs-Still f t l h low runs) [
    | inl (now, still) ↦ Step-Still t u now (omega (arith, low, Runs-past f t runs)) still step
    | inr past ↦ inr (omega (arith, past, Step-past buffer_len t u step))
  ]
