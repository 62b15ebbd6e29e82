-- ===== src/Shim/Recording/Tidy.antt =====
-- What holds of `runRecorder` whatever happens around it.
use teddycloud_spotify_radio.Base.{
  ℕ, ◌+◌, true, false, List, [], ◌∷◌, ◌++◌, Option, none, some, length, All, All-within,
  All-replace, length-replace, ◌≡◌, inl, inr, refl, sym, ap, subst, ◌∙◌, arith, ℤ, pos,
}
use teddycloud_spotify_radio.Backoff.{next_backoff}
use teddycloud_spotify_radio.Backoff.Schedule.{delay, delay-step, schedule, schedule-next}
use teddycloud_spotify_radio.Recorder.{step}
use teddycloud_spotify_radio.Recorder.Pumping.{IsRunning, stop-IsRunning, step-IsRunning}
use teddycloud_spotify_radio.Pulse.MonitorStream.Handles.{open_monitor_stream-all_open}
use teddycloud_spotify_radio.Shim.Recording.Lives.{
  IsWhole, close-closed, IsShut, fresh-IsRunning, shut-IsShut, acts-IsShut,
}
use teddycloud_spotify_radio.Shim.Recording.{
  recorder_backoff_initial, recorder_backoff_max, Live, fresh, shut, acts, Place, head, opening,
  recording, sleeping, State, initial, set_slot, Move, sees_ready, leaves, goes_on, opens,
  open_fails, leaves_recording, loses, wakes, Step, moves, cancels, live_acts, watch, past_acts,
  past_watch, Reach, begins, then_steps,
}

-- What the place says: whether there is a live recorder, what is in the slot, whether a delay is begun.
abbrev pub IsLive : Place → Type 0
IsLive (recording l) = IsRunning l.recorder × (l.lost_done ≡ false) × IsWhole l.stream
IsLive place = Unit

abbrev pub live : Place → ℕ
live (recording l) = 1
live place = 0

abbrev pub slot_at : Place → ℕ → Option ℕ
slot_at (recording l) attempt = some attempt
slot_at place attempt = none

abbrev pub asleep : Place → ℕ
asleep sleeping = 1
asleep place = 0

-- The slot holds the recorder of the newest attempt, and it only while that is live; the recorders
-- before are stopped and their streams closed; the delays were the capped doublings in their order.
pub record IsTidy (s : State) : Type 0 where
  pub live_runs : IsLive s.place
  pub slot_is : s.slot ≡ slot_at s.place s.attempt
  pub left : s.returned ≡ true → s.slot ≡ none
  pub past_shut : All IsShut s.past
  pub attempt_is : s.attempt ≡ length s.past + live s.place
  pub wakings : ℕ
  pub losses : s.returned ≡ false → length s.past ≡ wakings + asleep s.place
  pub slept_is :
      s.slept ≡ schedule recorder_backoff_initial recorder_backoff_max 0 (wakings + asleep s.place)
  pub backoff_is : s.backoff ≡ delay recorder_backoff_initial recorder_backoff_max wakings

initial-IsTidy : IsTidy initial
initial-IsTidy = record {
  live_runs = tt;
  slot_is = refl;
  left = λ r. refl;
  past_shut = tt;
  attempt_is = refl;
  wakings = 0;
  losses = λ r. refl;
  slept_is = refl;
  backoff_is = refl;
}

-- A change of the place alone, to one that says the same.
placed-IsTidy :
    (s : State) (l : Place)
    → IsLive l
    → slot_at l s.attempt ≡ slot_at s.place s.attempt
    → live l ≡ live s.place
    → asleep l ≡ asleep s.place
    → IsTidy s
    → IsTidy (record s { place = l })
placed-IsTidy s l runs slot alive sleeps h = record {
  live_runs = runs;
  slot_is = h.slot_is ∙ sym slot;
  left = h.left;
  past_shut = h.past_shut;
  attempt_is = h.attempt_is ∙ ap (λ n. length s.past + n) (sym alive);
  wakings = h.wakings;
  losses = λ on. h.losses on ∙ ap (λ n. h.wakings + n) (sym sleeps);
  slept_is =
      h.slept_is
      ∙ ap (λ n. schedule recorder_backoff_initial recorder_backoff_max 0 (h.wakings + n))
          (sym sleeps);
  backoff_is = h.backoff_is;
}

module _ (buffer_len : ℤ) where
  Move-IsTidy : (s t : State) → s.returned ≡ false → IsTidy s → Move buffer_len s t → IsTidy t
  unfolding set_slot
  Move-IsTidy s t on h (sees_ready e same) = subst IsTidy (sym same) (
      placed-IsTidy s head tt (ap (λ l. slot_at l s.attempt) (sym e)) (ap live (sym e))
        (ap asleep (sym e)) h)
  Move-IsTidy s t on h (leaves at cancelled same) = subst IsTidy (sym same) (record {
    live_runs = h.live_runs;
    slot_is = h.slot_is;
    left = λ r. ground (arith, h.slot_is);
    past_shut = h.past_shut;
    attempt_is = h.attempt_is;
    wakings = h.wakings;
    losses = λ r. cc;
    slept_is = h.slept_is;
    backoff_is = h.backoff_is;
  })
  Move-IsTidy s t on h (goes_on e going same) = subst IsTidy (sym same) (
      placed-IsTidy s opening tt (ap (λ l. slot_at l s.attempt) (sym e)) (ap live (sym e))
        (ap asleep (sym e)) h)
  Move-IsTidy s t on h (open_fails lib e failed same) = subst IsTidy (sym same) h
  Move-IsTidy s t on h (opens lib e ok same) = subst IsTidy (sym same) (record {
    live_runs = (
      fresh-IsRunning buffer_len _,
      (unfold fresh in refl),
      inl (unfold fresh in open_monitor_stream-all_open s.cancelled lib ok),
    );
    slot_is = refl;
    left = λ r. cc;
    past_shut = h.past_shut;
    attempt_is = ground (arith, h.attempt_is);
    wakings = h.wakings;
    losses = ground (arith, h.losses);
    slept_is = ground (arith, h.slept_is);
    backoff_is = h.backoff_is;
  })
  Move-IsTidy s t on h (leaves_recording l e cancelled same) = subst IsTidy (sym same) (record {
    live_runs = tt;
    slot_is = refl;
    left = λ r. refl;
    past_shut = (shut-IsShut l (subst IsLive e h.live_runs).2, h.past_shut);
    attempt_is = ground (arith, h.attempt_is);
    wakings = h.wakings;
    losses = λ r. cc;
    slept_is = ground (arith, h.slept_is);
    backoff_is = h.backoff_is;
  })
  Move-IsTidy s t on h (loses l e lost same) = subst IsTidy (sym same) (record {
    live_runs = tt;
    slot_is = refl;
    left = λ r. refl;
    past_shut = (shut-IsShut _ (subst IsLive e h.live_runs).2, h.past_shut);
    attempt_is = ground (arith, h.attempt_is);
    wakings = h.wakings;
    losses = ground (arith, h.losses);
    slept_is =
        ap (λ l. l ++ s.backoff ∷ [])
          (h.slept_is
            ∙ ap
                (λ l.
                  schedule recorder_backoff_initial recorder_backoff_max 0 (h.wakings + asleep l))
                e
            ∙ ap (λ n. schedule recorder_backoff_initial recorder_backoff_max 0 n) (omega arith))
        ∙ ap (λ b. schedule recorder_backoff_initial recorder_backoff_max 0 h.wakings ++ b ∷ [])
            h.backoff_is
        ∙ schedule-next recorder_backoff_initial recorder_backoff_max h.wakings;
    backoff_is = h.backoff_is;
  })
  Move-IsTidy s t on h (wakes e same) = subst IsTidy (sym same) (record {
    live_runs = tt;
    slot_is = ground (arith, h.slot_is);
    left = λ r. cc;
    past_shut = h.past_shut;
    attempt_is = ground (arith, h.attempt_is);
    wakings = h.wakings + 1;
    losses = ground (arith, h.losses);
    slept_is =
        h.slept_is
        ∙ ap (λ l. schedule recorder_backoff_initial recorder_backoff_max 0 (h.wakings + asleep l))
            e
        ∙ ap (λ n. schedule recorder_backoff_initial recorder_backoff_max 0 n) (omega arith);
    backoff_is =
        ap (λ b. next_backoff b (pos recorder_backoff_max)) h.backoff_is
        ∙ delay-step recorder_backoff_initial recorder_backoff_max h.wakings (omega arith)
            (omega arith) (omega arith);
  })

  -- A change of the live recorder.
  live-IsTidy :
      (s : State) (l l' : Live)
      → s.place ≡ recording l
      → IsTidy s
      → (IsLive (recording l) → IsLive (recording l'))
      → IsTidy (record s { place = recording l' })
  live-IsTidy s l l' e h keeps =
      placed-IsTidy s (recording l') (keeps (subst IsLive e h.live_runs))
        (ap (λ l. slot_at l s.attempt) (sym e)) (ap live (sym e)) (ap asleep (sym e)) h

  -- A change of a recorder before.
  past-IsTidy :
      (s : State) (before after : List Live) (l l' : Live)
      → s.past ≡ before ++ l ∷ after
      → IsTidy s
      → (IsShut l → IsShut l')
      → IsTidy (record s { past = before ++ l' ∷ after })
  past-IsTidy s before after l l' e h keeps =
      let shuts : All IsShut (before ++ l ∷ after) = subst (λ p. All IsShut p) e h.past_shut in
      let same : length (before ++ l' ∷ after) ≡ length s.past =
        length-replace before after l l' ∙ ap (λ p. length p) (sym e) in
      record {
        live_runs = h.live_runs;
        slot_is = h.slot_is;
        left = h.left;
        past_shut =
            All-replace IsShut before after l l' (keeps (All-within IsShut before after l shuts))
              shuts;
        attempt_is = h.attempt_is ∙ ap (λ n. n + live s.place) (sym same);
        wakings = h.wakings;
        losses = λ on. same ∙ h.losses on;
        slept_is = h.slept_is;
        backoff_is = h.backoff_is;
      }

  Step-IsTidy : (s t : State) → IsTidy s → Step buffer_len s t → IsTidy t
  unfolding shut acts
  Step-IsTidy s t h (moves on move) = Move-IsTidy s t on h move
  Step-IsTidy s t h (cancels same) = subst IsTidy (sym same) (record {
    live_runs = h.live_runs;
    slot_is = h.slot_is;
    left = h.left;
    past_shut = h.past_shut;
    attempt_is = h.attempt_is;
    wakings = h.wakings;
    losses = h.losses;
    slept_is = h.slept_is;
    backoff_is = h.backoff_is;
  })
  Step-IsTidy s t h (live_acts l e shared at same) =
      subst IsTidy (sym same)
        (live-IsTidy s l (acts e l) at h (λ k. (step-IsRunning l.recorder e shared k.0, k.1, k.2)))
  Step-IsTidy s t h (watch l at going same) = subst IsTidy (sym same) (
      live-IsTidy s l (shut l) at h
        (λ k. (stop-IsRunning l.recorder k.0, k.1, inr (close-closed l.stream k.2))))
  Step-IsTidy s t h (past_acts before after l e shared at same) =
      subst IsTidy (sym same)
        (past-IsTidy s before after l (acts e l) at h (acts-IsShut e l shared))
  Step-IsTidy s t h (past_watch before after l at same) =
      subst IsTidy (sym same)
        (past-IsTidy s before after l (shut l) at h (λ was. shut-IsShut l (inr was.is_closed)))

-- Whatever happens to the daemon, the recorders and their consumers: the slot holds the recorder of
-- the newest attempt while that is live, and nil otherwise, also once `runRecorder` has returned; every
-- recorder before is stopped and its stream is closed; the delays between the attempts are 2 s and its
-- doublings up to 30 s, one for each lost stream.
pub Reach-IsTidy : (buffer_len : ℤ) (s : State) → Reach buffer_len s → IsTidy s
Reach-IsTidy buffer_len s begins = initial-IsTidy
Reach-IsTidy buffer_len t (then_steps {s = s} r step) =
    Step-IsTidy buffer_len s t (Reach-IsTidy buffer_len s r) step
