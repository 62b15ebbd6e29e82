-- ===== src/Shim/Recording/Recovers.antt =====
-- How `runRecorder` comes off a recorder that its watchdog has shut.
use teddycloud_spotify_radio.Base.{
  ℕ, ◌+◌, ◌≤◌, ◌<◌, Bool, true, false, List, [], ◌∷◌, ◌++◌, Option, none, some, length, All, ◌≡◌,
  ◌≢◌, ◌⊎◌, inl, inr, refl, sym, ap, subst, ◌∙◌, arith, ℤ,
}
use teddycloud_spotify_radio.Recorder.{Bytes, ReadError, pumps}
use teddycloud_spotify_radio.Recorder.Pumping.{step-stopped}
use teddycloud_spotify_radio.Shim.Recording.{
  Live, shut, acts, Place, awaiting, head, opening, recording, sleeping, State, set_slot, loses,
  Step, moves, live_acts, watch, Reach, then_steps,
}
use teddycloud_spotify_radio.Shim.Recording.Lives.{IsShut, shut-IsShut}
use teddycloud_spotify_radio.Shim.Recording.Tidy.{IsLive, live, slot_at, Reach-IsTidy}
use teddycloud_spotify_radio.Shim.Recording.Still.{Runs, IsStill, Runs-Reach, Runs-Still}

-- Behind the look of the watchdog.
abbrev pub behind_watch : Live → State → State
behind_watch l s = record s { place = recording (shut l) }

-- Behind the last round of the pump.
abbrev pub ended : Live → State → State
ended now t = record t {
  place =
      recording (record now {
        recorder = record now.recorder { pumping = false; done_closed = some true };
      });
}

-- Asleep before the next attempt, with nothing in the slot.
abbrev pub given_up : State → List Live → State
given_up t past = record t {
  slot = none;
  past = past;
  place = sleeping;
  slept = t.slept ++ t.backoff ∷ [];
}

-- Still on the recorder, which has no way on: the next round of the pump, whatever its read gives,
-- takes up nothing and ends it, and the select then leaves it for the sleep.
pub record IsEnding (buffer_len : ℤ) (done : Bool) (bytes : Bytes) (err : Option ReadError)
    (s t : State) (now : Live) : Type 0 where
  pub still : IsStill s t now
  pub last_round :
      acts (pumps done bytes err) now
      ≡ record now { recorder = record now.recorder { pumping = false; done_closed = some true } }
  pub ends : Step buffer_len t (ended now t)
  pub then_leaves :
      (last : Live) × IsShut last
      × Step buffer_len (ended now t) (given_up (ended now t) (last ∷ t.past))

-- The recorder of the attempt was left: it is stopped, its stream is closed, and no request gets it.
pub record IsOff (attempt : ℕ) (t : State) : Type 0 where
  pub is_past : attempt ≤ length t.past
  pub past_shut : All IsShut t.past
  pub not_given : t.slot ≢ some attempt

-- The look is a step, and what is reached behind it is still ending the recorder or has left it.
pub record GivesUp (buffer_len : ℤ) (done : Bool) (bytes : Bytes) (err : Option ReadError)
    (l : Live) (s t : State) : Type 0 where
  pub looks : Step buffer_len s (behind_watch l s)
  pub reached : Reach buffer_len t
  pub comes_off : ((now : Live) × IsEnding buffer_len done bytes err s t now) ⊎ IsOff s.attempt t

slot_at-off :
    (place : Place) (attempt past a : ℕ)
    → attempt ≡ past + live place
    → a ≤ past
    → slot_at place attempt ≢ some a
slot_at-off (recording l) attempt past a e low = λ same. ground arith
slot_at-off awaiting attempt past a e low = λ same. cc
slot_at-off head attempt past a e low = λ same. cc
slot_at-off opening attempt past a e low = λ same. cc
slot_at-off sleeping attempt past a e low = λ same. cc

module _ (buffer_len : ℤ) where
  past-IsOff :
      (s t : State)
      → Reach buffer_len s
      → Reach buffer_len t
      → live s.place ≡ 1
      → length s.past < length t.past
      → IsOff s.attempt t
  past-IsOff s t r r' on past =
      let h = Reach-IsTidy buffer_len s r in
      let k = Reach-IsTidy buffer_len t r' in
      let low : s.attempt ≤ length t.past = omega (arith, h.attempt_is, on, past) in
      record {
        is_past = low;
        past_shut = k.past_shut;
        not_given = λ e.
            slot_at-off t.place t.attempt (length t.past) s.attempt k.attempt_is low
              (sym k.slot_is ∙ e);
      }

  Still-IsEnding :
      (done : Bool) (bytes : Bytes) (err : Option ReadError) (s t : State) (now : Live)
      → Reach buffer_len t
      → IsStill s t now
      → IsEnding buffer_len done bytes err s t now
  unfolding acts set_slot
  Still-IsEnding done bytes err s t now r h =
      let runs : IsLive (recording now) =
        subst IsLive h.at (Reach-IsTidy buffer_len t r).live_runs in
      let last =
        ap (λ x. record now { recorder = x })
          (step-stopped now.recorder done bytes err runs.0 h.is_shut.is_stopped) in
      record {
        still = h;
        last_round = last;
        ends =
            live_acts now (pumps done bytes err) tt h.at
              (ap (λ x. record t { place = recording x }) (sym last));
        then_leaves =
            (_, shut-IsShut _ (inr h.is_shut.is_closed), moves h.running (loses _ refl refl refl));
      }

  -- Once the watchdog of a live recorder has seen the daemon not ready, whatever then happens to the
  -- daemon, the recorders, their consumers and the context: either `runRecorder` is still on that
  -- recorder, which is stopped and its stream closed, the next round of the pump, whatever its read
  -- gives, takes up nothing and closes `done`, and the select can then take that and go to sleep for
  -- the backoff with an empty slot; or the recorder was left, stopped and closed, and is given to no
  -- later request.
  pub watch-GivesUp :
      (s t : State) (l : Live) (done : Bool) (bytes : Bytes) (err : Option ReadError)
      → Reach buffer_len s
      → s.returned ≡ false
      → s.place ≡ recording l
      → Runs buffer_len (behind_watch l s) t
      → GivesUp buffer_len done bytes err l s t
  watch-GivesUp s t l done bytes err r on e runs =
      let was : IsLive (recording l) = subst IsLive e (Reach-IsTidy buffer_len s r).live_runs in
      let looks : Step buffer_len s (behind_watch l s) = watch l e was.1 refl in
      let r' = Runs-Reach buffer_len s (behind_watch l s) t (then_steps r looks) runs in
      let begun : IsStill s (behind_watch l s) (shut l) = record {
        at = refl;
        is_shut = shut-IsShut l was.2;
        running = on;
        in_slot = refl;
        no_delay = (refl, refl);
      } in
      record {
        looks = looks;
        reached = r';
        comes_off =
            elim (Runs-Still buffer_len s (behind_watch l s) t (shut l) begun (omega arith) runs) [
              | inl (now, still) ↦ inl (now, Still-IsEnding done bytes err s t now r' still)
              | inr past ↦ inr (past-IsOff s t r r' (ap live e) past)
            ];
      }
