-- ===== src/Shim/Streaming/Held.antt =====
-- The recorder that a request was given, by the number of its attempt.
use teddycloud_spotify_radio.Base.{
  ℕ, zero, suc, ◌+◌, ◌-◌, ◌≤◌, ◌<◌, ◌==◌, false, List, [], ◌∷◌, ◌++◌, some, All, length, ◌≡◌, ◌≢◌,
  ◌⊎◌, inl, inr, refl, sym, ap, subst, ◌∙◌, arith, Bool-cases, leb,
}
use teddycloud_spotify_radio.Recorder.{Bytes, Recorder, Event, run}
use teddycloud_spotify_radio.Recorder.Pumping.{IsShared, IsRunning}
use teddycloud_spotify_radio.Recorder.Draining.{run-front}
use teddycloud_spotify_radio.Shim.Recording.{
  Live, Place, awaiting, head, opening, sleeping, recording, State,
}
use teddycloud_spotify_radio.Shim.Recording.Lives.{IsShut}
use teddycloud_spotify_radio.Shim.Recording.Tidy.{IsLive, live, slot_at, IsTidy}
use teddycloud_spotify_radio.Shim.Recording.Over.{IsDone, IsOver}
use teddycloud_spotify_radio.Shim.Streaming.{recorder_of, get_elem?, at_place}

-- Whatever its consumers do, they receive no more than what waits in its channel, in its order.
abbrev pub IsSilent : Recorder → Type 0
IsSilent r =
    (es : List Event) → All IsShared es → (rest : List Bytes) × (r.queue ≡ (run r es).1 ++ rest)

-- The recorder in the slot.
pub record IsOn (s : State) (a : ℕ) (l : Live) : Type 0 where
  pub here : s.slot ≡ some a
  pub running : IsRunning l.recorder

-- A recorder that was left.
pub record IsOff (s : State) (a : ℕ) (l : Live) : Type 0 where
  pub gone : s.slot ≢ some a
  pub shut : IsShut l
  pub silent : s.returned ≡ false → IsSilent l.recorder

pub record IsKnown (s : State) (a : ℕ) : Type 0 where
  pub recorder : Live
  pub is_recorder : recorder_of s a ≡ some recorder
  pub on_or_off : IsOn s a recorder ⊎ IsOff s a recorder

get_elem?-found : (n : ℕ) (ls : List Live) → n < length ls → (l : Live) × (get_elem? n ls ≡ some l)
unfolding get_elem?
get_elem?-found n [] h = absurd (omega (arith, h))
get_elem?-found zero (l ∷ ls) h = (l, refl)
get_elem?-found (suc n) (l ∷ ls) h = get_elem?-found n ls (omega arith)

get_elem?-All :
    (P : Live → Type 0) (n : ℕ) (ls : List Live) (l : Live)
    → get_elem? n ls ≡ some l
    → All P ls
    → P l
unfolding get_elem?
get_elem?-All P n [] l e h = cc
get_elem?-All P zero (x ∷ ls) l e h = subst P (ground arith) h.0
get_elem?-All P (suc n) (x ∷ ls) l e h = get_elem?-All P n ls l e h.1

-- A place is live only with a recorder.
recording-of_live : (p : Place) → 0 < live p → (l : Live) × (p ≡ recording l)
recording-of_live (recording l) h = (l, refl)
recording-of_live awaiting h = absurd (omega (arith, h))
recording-of_live head h = absurd (omega (arith, h))
recording-of_live opening h = absurd (omega (arith, h))
recording-of_live sleeping h = absurd (omega (arith, h))

slot_at_older :
    (p : Place) (before n a : ℕ) → n ≡ before + live p → a ≤ before → slot_at p n ≢ some a
slot_at_older (recording l) before n a same h e = ground arith
slot_at_older awaiting before n a same h e = cc
slot_at_older head before n a same h e = cc
slot_at_older opening before n a same h e = cc
slot_at_older sleeping before n a same h e = cc

at_most :
    (p : Place) (before n a : ℕ)
    → n ≡ before + live p
    → a ≤ n
    → (a == before + 1) ≡ false
    → a ≤ before
at_most (recording l) before n a same h e = ground arith
at_most awaiting before n a same h e = omega arith
at_most head before n a same h e = omega arith
at_most opening before n a same h e = omega arith
at_most sleeping before n a same h e = omega arith

attempt_of :
    (p : Place) (before n a : ℕ) → n ≡ before + live p → a ≤ n → leb a before ≡ false → n ≡ a
attempt_of (recording l) before n a same h e = ground arith
attempt_of awaiting before n a same h e = ground arith
attempt_of head before n a same h e = ground arith
attempt_of opening before n a same h e = ground arith
attempt_of sleeping before n a same h e = ground arith

-- The newest attempt is that of the live recorder.
pub newest-recorder_of :
    (s : State) (l : Live) → IsTidy s → s.place ≡ recording l → recorder_of s s.attempt ≡ some l
unfolding recorder_of at_place
newest-recorder_of s l h at =
    let newest : s.attempt ≡ length s.past + 1 =
      h.attempt_is ∙ ap (λ p. length s.past + live p) at in
    ground (arith, at, newest)

newest-IsKnown :
    (s : State) (a : ℕ) (l : Live)
    → IsTidy s
    → a ≡ length s.past + 1
    → s.place ≡ recording l
    → IsKnown s a
unfolding recorder_of at_place
newest-IsKnown s a l h e at = record {
  recorder = l;
  is_recorder = ground (arith, e, at);
  on_or_off = inl (record {
    here =
        h.slot_is
        ∙ ap (λ p. slot_at p s.attempt) at
        ∙ ap some (h.attempt_is ∙ ap (λ p. length s.past + live p) at ∙ sym e);
    running = (subst IsLive at h.live_runs).0;
  });
}

-- A recorder that was left, by its number.
pub record IsLost (s : State) (a : ℕ) : Type 0 where
  pub lost : Live
  pub is_lost : recorder_of s a ≡ some lost
  pub off : IsOff s a lost

pub older-IsLost :
    (s : State) (a : ℕ) → IsTidy s → IsOver s → 0 < a → a ≤ length s.past → IsLost s a
unfolding recorder_of
older-IsLost s a h k low high =
    let (l, e) = get_elem?-found (length s.past - a) s.past (omega arith) in
    record {
      lost = l;
      is_lost = ground (arith, e);
      off = record {
        gone = λ same.
            slot_at_older s.place (length s.past) s.attempt a h.attempt_is high
              (sym h.slot_is ∙ same);
        shut = get_elem?-All IsShut _ s.past l e h.past_shut;
        silent = λ on es sh.
            run-front es l.recorder sh (get_elem?-All IsDone _ s.past l e (k.past_done on));
      };
    }

older-IsKnown : (s : State) (a : ℕ) → IsLost s a → IsKnown s a
older-IsKnown s a h = record { recorder = h.lost; is_recorder = h.is_lost; on_or_off = inr h.off }

slot_at-live : (p : Place) (n : ℕ) → 0 < live p → slot_at p n ≡ some n
slot_at-live (recording l) n h = refl
slot_at-live awaiting n h = absurd (omega (arith, h))
slot_at-live head n h = absurd (omega (arith, h))
slot_at-live opening n h = absurd (omega (arith, h))
slot_at-live sleeping n h = absurd (omega (arith, h))

-- The recorder of an attempt that is not in the slot was left.
pub off-older : (s : State) (a : ℕ) → IsTidy s → a ≤ s.attempt → s.slot ≢ some a → a ≤ length s.past
off-older s a h high off = elim (Bool-cases (leb a (length s.past))) [
  | inl left ↦ ground arith
  | inr newer ↦ absurd (
      off (
        h.slot_is
        ∙ slot_at-live s.place s.attempt (ground (arith, h.attempt_is))
        ∙ ap some (attempt_of s.place (length s.past) s.attempt a h.attempt_is high newer)))
]

pub attempt-IsKnown :
    (s : State) (a : ℕ) → IsTidy s → IsOver s → 0 < a → a ≤ s.attempt → IsKnown s a
attempt-IsKnown s a h k low high = elim (Bool-cases (a == length s.past + 1)) [
  | inl newest ↦
      let (l, at) = recording-of_live s.place (ground (arith, h.attempt_is)) in
      newest-IsKnown s a l h (ground arith) at
  | inr older ↦ older-IsKnown s a (
      older-IsLost s a h k low
        (at_most s.place (length s.past) s.attempt a h.attempt_is high older))
]
