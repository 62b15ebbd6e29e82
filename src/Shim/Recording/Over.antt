-- ===== src/Shim/Recording/Over.antt =====
-- The pumps of the recorders that `runRecorder` has lost are over.
use teddycloud_spotify_radio.Base.{
  false, All, All-within, All-replace, ◌≡◌, sym, subst, ◌∙◌, arith, ℤ,
}
use teddycloud_spotify_radio.Pulse.MonitorStream.{MonitorStream}
use teddycloud_spotify_radio.Recorder.{start, new_recorder}
use teddycloud_spotify_radio.Recorder.Draining.{
  IsClosing, stop-IsClosing, stop_pumping, step-IsClosing, step-over,
}
use teddycloud_spotify_radio.Shim.Recording.{
  Live, fresh, shut, acts, Place, recording, State, set_slot, Move, sees_ready, leaves, goes_on,
  opens, open_fails, leaves_recording, loses, wakes, Step, moves, cancels, live_acts, watch,
  past_acts, past_watch, Reach, begins, then_steps,
}

-- Nothing is said of a place without a recorder.
abbrev IsLiveClosing : Place → Type 0
IsLiveClosing (recording l) = IsClosing l.recorder
IsLiveClosing place = Unit

abbrev pub IsDone : Live → Type 0
IsDone l = l.recorder.pumping ≡ false

pub record IsOver (s : State) : Type 0 where
  pub closing : IsLiveClosing s.place
  pub past_done : s.returned ≡ false → All IsDone s.past

fresh-IsClosing : (buffer_len : ℤ) (m : MonitorStream) → IsClosing (fresh buffer_len m).recorder
unfolding fresh start new_recorder
fresh-IsClosing buffer_len m = record { over = ground arith }

shut-IsClosing : (l : Live) → IsClosing l.recorder → IsClosing (shut l).recorder
unfolding shut
shut-IsClosing l h = stop-IsClosing l.recorder h

shut-IsDone : (l : Live) → IsDone l → IsDone (shut l)
unfolding shut
shut-IsDone l h = stop_pumping l.recorder ∙ h

module _ (buffer_len : ℤ) where
  Move-IsOver : (s t : State) → s.returned ≡ false → IsOver s → Move buffer_len s t → IsOver t
  unfolding set_slot
  Move-IsOver s t on h (sees_ready e same) =
      subst IsOver (sym same) (record { closing = tt; past_done = h.past_done })
  Move-IsOver s t on h (leaves at cancelled same) =
      subst IsOver (sym same) (record { closing = h.closing; past_done = λ r. cc })
  Move-IsOver s t on h (goes_on e going same) =
      subst IsOver (sym same) (record { closing = tt; past_done = h.past_done })
  Move-IsOver s t on h (open_fails lib e failed same) = subst IsOver (sym same) h
  Move-IsOver s t on h (opens lib e ok same) =
      subst IsOver (sym same)
        (record { closing = fresh-IsClosing buffer_len _; past_done = h.past_done })
  Move-IsOver s t on h (leaves_recording l e cancelled same) =
      subst IsOver (sym same) (record { closing = tt; past_done = λ r. cc })
  Move-IsOver s t on h (loses l e lost same) = subst IsOver (sym same) (record {
    closing = tt;
    past_done = λ r. (shut-IsDone _ ((subst IsLiveClosing e h.closing).over lost), h.past_done on);
  })
  Move-IsOver s t on h (wakes e same) =
      subst IsOver (sym same) (record { closing = tt; past_done = h.past_done })

  Step-IsOver : (s t : State) → IsOver s → Step buffer_len s t → IsOver t
  unfolding acts
  Step-IsOver s t h (moves on move) = Move-IsOver s t on h move
  Step-IsOver s t h (cancels same) =
      subst IsOver (sym same) (record { closing = h.closing; past_done = h.past_done })
  Step-IsOver s t h (live_acts l e shared at same) = subst IsOver (sym same) (record {
    closing = step-IsClosing l.recorder e shared (subst IsLiveClosing at h.closing);
    past_done = h.past_done;
  })
  Step-IsOver s t h (watch l at going same) = subst IsOver (sym same) (record {
    closing = shut-IsClosing l (subst IsLiveClosing at h.closing);
    past_done = h.past_done;
  })
  Step-IsOver s t h (past_acts before after l e shared at same) = subst IsOver (sym same) (record {
    closing = h.closing;
    past_done = λ on.
        All-replace IsDone before after l (acts e l)
          (step-over l.recorder e shared
            (All-within IsDone before after l (subst (All IsDone) at (h.past_done on))))
          (subst (All IsDone) at (h.past_done on));
  })
  Step-IsOver s t h (past_watch before after l at same) = subst IsOver (sym same) (record {
    closing = h.closing;
    past_done = λ on.
        All-replace IsDone before after l (shut l)
          (shut-IsDone l
            (All-within IsDone before after l (subst (All IsDone) at (h.past_done on))))
          (subst (All IsDone) at (h.past_done on));
  })

pub Reach-IsOver : (buffer_len : ℤ) (s : State) → Reach buffer_len s → IsOver s
Reach-IsOver buffer_len s begins = record { closing = tt; past_done = λ on. tt }
Reach-IsOver buffer_len t (then_steps {s = s} r step) =
    Step-IsOver buffer_len s t (Reach-IsOver buffer_len s r) step
