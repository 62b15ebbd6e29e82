-- ===== src/Shim/Streaming/Stale.antt =====
-- A stream whose recorder was lost.
use teddycloud_spotify_radio.Base.{
  ℕ, ◌≤◌, ◌<◌, ◌==◌, Bool, true, false, List, [], ◌∷◌, Option, none, some, length, ◌≡◌, ◌≢◌, inl,
  inr, refl, ap, subst, ◌∙◌, arith, ℤ, Bool-cases,
}
use teddycloud_spotify_radio.Server.Uri.{valid_uri}
use teddycloud_spotify_radio.Shim.Startup.{Source, live}
use teddycloud_spotify_radio.Shim.Recording
use teddycloud_spotify_radio.Shim.Recording.Tidy.{Reach-IsTidy}
use teddycloud_spotify_radio.Shim.Recording.Still.{Step-past}
use teddycloud_spotify_radio.Shim.Recording.Over.{Reach-IsOver}
use teddycloud_spotify_radio.Shim.Streaming.{
  System, ask_if, ask, admit, source_of, Turn, asks, enters, heads, serves, records, Reach,
  then_turns,
}
use teddycloud_spotify_radio.Shim.Streaming.Given.{IsGiven, AreGiven}
use teddycloud_spotify_radio.Shim.Streaming.Held.{IsLost, older-IsLost, off-older}
use teddycloud_spotify_radio.Shim.Streaming.Served.{Reach-recorder, Reach-admitted}

-- The stream still has the recorder that was left.
pub record IsStale (r a : ℕ) (t : System) : Type 0 where
  pub holds : source_of r t.serving ≡ some (live a)
  pub is_left : IsLost t.recorder a

some_of : (x y : Source) → some x ≡ some y → x ≡ y
some_of x y e = ground arith

source_of-later :
    (n r : ℕ) (new src : Source) (rest : List (ℕ × Source))
    → r < n
    → source_of r rest ≡ some src
    → source_of r ((n, new) ∷ rest) ≡ some src
unfolding source_of
source_of-later n r new src rest below h = ground arith

module _ (static_stream : Bool) (rate : ℕ) where
  -- What is known of a request that has a source.
  AreGiven-at :
      (newest requests r : ℕ) (srcs : List (ℕ × Source)) (src : Source)
      → AreGiven static_stream rate newest requests srcs
      → source_of r srcs ≡ some src
      → (r < requests) × IsGiven static_stream rate newest src
  unfolding source_of
  AreGiven-at newest requests r [] src h e = cc
  AreGiven-at newest requests r ((n, x) ∷ rest) src (same, k, ks) e = elim (Bool-cases (n == r)) [
    | inl here ↦
        (ground arith, subst (IsGiven static_stream rate newest) (some_of x src (rw here at e)) k)
    | inr later ↦
        let (low, given) = AreGiven-at newest n r rest src ks (rw later at e) in
        (omega arith, given)
  ]

  module _ (buffer_len : ℤ) where
    -- The turns from one state to a later one.
    pub data Leads (s : System) : System → Type 0 where
      stays : Leads s s
      turns : {t u : System} → Leads s t → Turn static_stream rate buffer_len t u → Leads s u

    ask-serving :
        (valid : Bool) (src : Option Source) (s : System)
        → (ask_if static_stream rate valid src s).0.serving ≡ s.serving
    unfolding ask_if
    ask-serving false src s = refl
    ask-serving true none s = refl
    ask-serving true (some src) s = refl

    ask-past :
        (valid : Bool) (src : Option Source) (s : System)
        → (ask_if static_stream rate valid src s).0.recorder ≡ s.recorder
    unfolding ask_if
    ask-past false src s = refl
    ask-past true none s = refl
    ask-past true (some src) s = refl

    -- The source of a request that was let in stays its source, and what was left stays left.
    record IsKept (r a : ℕ) (t : System) : Type 0 where
      reached : Reach static_stream rate buffer_len t
      holds : source_of r t.serving ≡ some (live a)
      left : a ≤ length t.recorder.past

    Turn-holds :
        (s t : System) (r : ℕ) (src : Source)
        → Reach static_stream rate buffer_len s
        → source_of r s.serving ≡ some src
        → Turn static_stream rate buffer_len s t
        → source_of r t.serving ≡ some src
    unfolding admit source_of ask
    Turn-holds s t r src reached h (asks uri same) =
        ap (λ (u : System). source_of r u.serving) same
        ∙ ap (source_of r) (ask-serving (valid_uri uri) _ s)
        ∙ h
    Turn-holds s t r src reached h (enters before after new uri valid at same) =
        let (below, given) =
          AreGiven-at s.recorder.attempt s.server.requests r s.serving src
            (Reach-admitted static_stream rate buffer_len s reached) h in
        ap (λ (u : System). source_of r u.serving) same
        ∙ source_of-later s.server.requests r new src s.serving below h
    Turn-holds s t r src reached h (heads q x at same) =
        ap (λ (u : System). source_of r u.serving) same ∙ h
    Turn-holds s t r src reached h (serves e later same) =
        ap (λ (u : System). source_of r u.serving) same ∙ h
    Turn-holds s t r src reached h (records x step same) =
        ap (λ (u : System). source_of r u.serving) same ∙ h

    Turn-past :
        (s t : System)
        → Turn static_stream rate buffer_len s t
        → length s.recorder.past ≤ length t.recorder.past
    unfolding admit ask
    Turn-past s t (asks uri same) = omega (
      arith,
      ap (λ (u : System). length u.recorder.past) same
          ∙ ap (λ (x : Recording.State). length x.past) (ask-past (valid_uri uri) _ s),
    )
    Turn-past s t (enters before after new uri valid at same) =
        omega (arith, ap (λ (u : System). length u.recorder.past) same)
    Turn-past s t (heads q x at same) =
        omega (arith, ap (λ (u : System). length u.recorder.past) same)
    Turn-past s t (serves e later same) =
        omega (arith, ap (λ (u : System). length u.recorder.past) same)
    Turn-past s t (records x step same) = omega (
      arith,
      Step-past buffer_len s.recorder x step,
      ap (λ (u : System). length u.recorder.past) same,
    )

    Leads-IsKept : (r a : ℕ) (s t : System) → Leads s t → IsKept r a s → IsKept r a t
    Leads-IsKept r a s t stays h = h
    Leads-IsKept r a s u (turns {t = t} leads turn) h =
        let k = Leads-IsKept r a s t leads h in
        record {
          reached = then_turns k.reached turn;
          holds = Turn-holds t u r (live a) k.reached k.holds turn;
          left = omega (arith, k.left, Turn-past t u turn);
        }

    -- A request was let in with the recorder of an attempt, which is no longer in the slot. Whatever
    -- happens then, also when the slot has a new recorder: the request keeps the old one, which is
    -- stopped and, unless `runRecorder` has returned, gives it no more than what waits in its channel.
    pub Leads-IsStale :
        (r a : ℕ) (s t : System)
        → Reach static_stream rate buffer_len s
        → source_of r s.serving ≡ some (live a)
        → s.recorder.slot ≢ some a
        → Leads s t
        → IsStale r a t
    Leads-IsStale r a s t reached h off leads =
        let recorded = Reach-recorder static_stream rate buffer_len s reached in
        let (below, (on, low, high)) =
          AreGiven-at s.recorder.attempt s.server.requests r s.serving (live a)
            (Reach-admitted static_stream rate buffer_len s reached) h in
        let k = Leads-IsKept r a s t leads (record {
          reached = reached;
          holds = h;
          left = off-older s.recorder a (Reach-IsTidy buffer_len s.recorder recorded) high off;
        }) in
        let later = Reach-recorder static_stream rate buffer_len t k.reached in
        record {
          holds = k.holds;
          is_left =
              older-IsLost t.recorder a (Reach-IsTidy buffer_len t.recorder later)
                (Reach-IsOver buffer_len t.recorder later) low k.left;
        }
