-- ===== src/Shim/Streaming/Served.antt =====
-- What every request holds, whatever happened.
use teddycloud_spotify_radio.Base.{
  ℕ, Bool, true, false, List, [], ◌∷◌, ◌++◌, Option, none, some, All, All-within, ◌≡◌, refl, sym,
  subst, ℤ,
}
use teddycloud_spotify_radio.Server.Uri.{valid_uri}
use teddycloud_spotify_radio.Server.{
  Server, Stream, Event, connects, disconnects, ends, begins, delivers, reports, step,
}
use teddycloud_spotify_radio.Server.Admission.{
  IsInside, IsCounted, IsKept, step-IsKept, connect-next,
}
use teddycloud_spotify_radio.Shim.Startup.{Source, tone, live, src_func}
use teddycloud_spotify_radio.Shim.Recording
use teddycloud_spotify_radio.Shim.Recording.Tidy.{Reach-IsTidy}
use teddycloud_spotify_radio.Shim.Recording.Over.{Reach-IsOver}
use teddycloud_spotify_radio.Shim.Streaming.{
  System, ask, ask_if, admit, IsLater, source_of, Turn, asks, enters, heads, serves, records, Reach,
  starts, then_turns,
}
use teddycloud_spotify_radio.Shim.Streaming.Held.{IsKnown, attempt-IsKnown}
use teddycloud_spotify_radio.Shim.Streaming.Given.{
  All-without, Step-attempt, IsGiven, AreGiven, All-later, AreGiven-later, src_func-IsGiven,
  AreGiven-source_of,
}
use teddycloud_spotify_radio.Server.Admission.{AllBelow}

module _ (static_stream : Bool) (rate : ℕ) where
  -- What holds of the whole between two turns.
  record IsServing (buffer_len : ℤ) (t : System) : Type 0 where
    reached : Recording.Reach buffer_len t.recorder
    asked : All (IsGiven static_stream rate t.recorder.attempt) t.pending
    admitted : AreGiven static_stream rate t.recorder.attempt t.server.requests t.serving
    counted : IsCounted t.server

  -- A request that is inside of its handler goes on.
  kept-IsServing :
      (buffer_len : ℤ) (s : System) (server : Server)
      → IsKept s.server server
      → IsServing buffer_len s
      → IsServing buffer_len (record s { server = server })
  kept-IsServing buffer_len s server k h = record {
    reached = h.reached;
    asked = h.asked;
    admitted =
        subst (λ n. AreGiven static_stream rate s.recorder.attempt n s.serving) (sym k.same)
          h.admitted;
    counted = k.counted h.counted;
  }

  IsInside-of_later : (e : Event) → IsLater e → IsInside e
  IsInside-of_later (connects has_source has_play uri) later = later
  IsInside-of_later (disconnects r) later = tt
  IsInside-of_later (ends r) later = tt
  IsInside-of_later (begins r rate) later = tt
  IsInside-of_later (delivers r n) later = tt
  IsInside-of_later (reports reason) later = tt

  ask-IsServing :
      (buffer_len : ℤ) (valid : Bool) (src : Option Source) (s : System)
      → src_func static_stream rate s.recorder.slot ≡ src
      → IsServing buffer_len s
      → IsServing buffer_len (ask_if static_stream rate valid src s).0
  unfolding ask_if
  ask-IsServing buffer_len false src s e h = h
  ask-IsServing buffer_len true none s e h = h
  ask-IsServing buffer_len true (some src) s e h = record {
    reached = h.reached;
    asked = (
      src_func-IsGiven static_stream rate s.recorder src
          (Reach-IsTidy buffer_len s.recorder h.reached) e,
      h.asked,
    );
    admitted = h.admitted;
    counted = h.counted;
  }

  Turn-IsServing :
      (buffer_len : ℤ) (s t : System)
      → IsServing buffer_len s
      → Turn static_stream rate buffer_len s t
      → IsServing buffer_len t
  unfolding ask admit
  Turn-IsServing buffer_len s t h (asks uri same) =
      subst (IsServing buffer_len) (sym same) (ask-IsServing buffer_len (valid_uri uri) _ s refl h)
  Turn-IsServing buffer_len s t h (enters before after src uri valid at same) =
      let given : All (IsGiven static_stream rate s.recorder.attempt) (before ++ src ∷ after) =
        subst (All (IsGiven static_stream rate s.recorder.attempt)) at h.asked in
      let next = connect-next s.server uri valid in
      subst (IsServing buffer_len) (sym same) (record {
        reached = h.reached;
        asked = All-without _ before after src given;
        admitted = (next.0, All-within _ before after src given, h.admitted);
        counted = next.1 h.counted;
      })
  Turn-IsServing buffer_len s t h (heads r src at same) =
      subst (IsServing buffer_len) (sym same)
        (kept-IsServing buffer_len s _ (step-IsKept s.server _ tt) h)
  Turn-IsServing buffer_len s t h (serves e later same) =
      subst (IsServing buffer_len) (sym same)
        (kept-IsServing buffer_len s _ (step-IsKept s.server e (IsInside-of_later e later)) h)
  Turn-IsServing buffer_len s t h (records r step same) =
      let more = Step-attempt buffer_len s.recorder r step in
      subst (IsServing buffer_len) (sym same) (record {
        reached = Recording.then_steps h.reached step;
        asked = All-later static_stream rate _ _ s.pending more h.asked;
        admitted =
            AreGiven-later static_stream rate _ _ s.server.requests s.serving more h.admitted;
        counted = h.counted;
      })

  Reach-IsServing :
      (buffer_len : ℤ) (t : System) → Reach static_stream rate buffer_len t → IsServing buffer_len t
  Reach-IsServing buffer_len t starts = record {
    reached = Recording.begins;
    asked = tt;
    admitted = refl;
    counted = record { below = tt };
  }
  Reach-IsServing buffer_len t (then_turns {s = s} r turn) =
      Turn-IsServing buffer_len s t (Reach-IsServing buffer_len s r) turn

  pub Reach-recorder :
      (buffer_len : ℤ) (t : System)
      → Reach static_stream rate buffer_len t
      → Recording.Reach buffer_len t.recorder
  Reach-recorder buffer_len t r = (Reach-IsServing buffer_len t r).reached

  pub Reach-admitted :
      (buffer_len : ℤ) (t : System)
      → Reach static_stream rate buffer_len t
      → AreGiven static_stream rate t.recorder.attempt t.server.requests t.serving
  Reach-admitted buffer_len t r = (Reach-IsServing buffer_len t r).admitted

  -- The tone of the configured rate, or a recorder that is known by its attempt.
  abbrev pub IsHeld : Recording.State → Source → Type 0
  IsHeld s (tone r) = (static_stream ≡ true) × (r ≡ rate)
  IsHeld s (live a) = (static_stream ≡ false) × IsKnown s a

  pub record IsServed (t : System) : Type 0 where
    pub waiting : All (IsHeld t.recorder) t.pending
    pub streaming :
        All
          (λ (st : Stream).
            (src : Source) × (source_of st.request t.serving ≡ some src) × IsHeld t.recorder src)
          t.server.streams

  IsHeld-of_given :
      (buffer_len : ℤ) (s : Recording.State) (src : Source)
      → Recording.Reach buffer_len s
      → IsGiven static_stream rate s.attempt src
      → IsHeld s src
  IsHeld-of_given buffer_len s (tone r) reached h = h
  IsHeld-of_given buffer_len s (live a) reached (is_off, low, high) = (
    is_off,
    attempt-IsKnown s a (Reach-IsTidy buffer_len s reached) (Reach-IsOver buffer_len s reached) low
        high,
  )

  All-IsHeld :
      (buffer_len : ℤ) (s : Recording.State) (srcs : List Source)
      → Recording.Reach buffer_len s
      → All (IsGiven static_stream rate s.attempt) srcs
      → All (IsHeld s) srcs
  All-IsHeld buffer_len s [] reached h = tt
  All-IsHeld buffer_len s (src ∷ srcs) reached (h, hs) =
      (IsHeld-of_given buffer_len s src reached h, All-IsHeld buffer_len s srcs reached hs)

  streams-IsHeld :
      (buffer_len : ℤ) (t : System) (streams : List Stream)
      → IsServing buffer_len t
      → AllBelow t.server.requests streams
      → All
          (λ (st : Stream).
            (src : Source) × (source_of st.request t.serving ≡ some src) × IsHeld t.recorder src)
          streams
  streams-IsHeld buffer_len t [] h k = tt
  streams-IsHeld buffer_len t (st ∷ sts) h (k, ks) =
      let (src, at, given) =
        AreGiven-source_of static_stream rate t.recorder.attempt t.server.requests st.request
          t.serving k h.admitted in
      (
        (src, at, IsHeld-of_given buffer_len t.recorder src h.reached given),
        streams-IsHeld buffer_len t sts h ks,
      )

  -- Whatever the requests, the daemon, the recorders and their consumers do: every request that waits
  -- with its source, and every open stream, holds the tone of the configured rate, if the static stream
  -- is on, or else the recorder of an attempt. That is the running one, which is in the slot, or one that
  -- was left: it is not in the slot, it is stopped and its stream is closed, and unless `runRecorder`
  -- has returned its consumers receive no more than what waits in its channel, in its order.
  pub Reach-IsServed :
      (buffer_len : ℤ) (t : System) → Reach static_stream rate buffer_len t → IsServed t
  Reach-IsServed buffer_len t r =
      let h = Reach-IsServing buffer_len t r in
      record {
        waiting = All-IsHeld buffer_len t.recorder t.pending h.reached h.asked;
        streaming = streams-IsHeld buffer_len t t.server.streams h h.counted.below;
      }
