-- ===== src/Sse/Timing.antt =====
-- The idle timer of `readLoop`, and lines that carry no field.
use teddycloud_spotify_radio.Base.{
  ℕ, ◌<◌, Bool, true, false, List, [], ◌∷◌, ◌≡◌, refl, arith, map, Text, codes, has_prefix, not,
  ◌&&◌, if◌then◌else◌, All, Bool-cases, inl, inr, none,
}
use teddycloud_spotify_radio.Sse.Dispatch.{CommandSender, Frame, read_line, read_lines}
use teddycloud_spotify_radio.Sse.Loop.{Round, Timer, StreamError, poll, fired, tick, read_loop}

-- The body of the loop is done with a line before the timer that it has just reset fires, and the
-- context is not done.
pub record IsPrompt (timeout : ℕ) (r : Round) : Type 0 where
  pub running : r.ctx_done ≡ false
  pub prompt : r.busy < timeout

abbrev pub lines_of : List Round → List Text
lines_of = map (λ (r : Round). r.line)

poll_armed :
    (t : Timer) (prefers_idle : Bool)
    → t.now < t.deadline
    → poll false (fired t) prefers_idle ≡ none
unfolding poll fired
poll_armed t prefers_idle armed = ground arith

poll_prompt :
    (timeout : ℕ) (t : Timer) (r : Round)
    → IsPrompt timeout r
    → t.now < t.deadline
    → poll r.ctx_done (fired t) r.prefers_idle ≡ none
poll_prompt timeout t r h armed = rw h.running (poll_armed t r.prefers_idle armed)

tick_armed :
    (timeout : ℕ) (t : Timer) (r : Round)
    → IsPrompt timeout r
    → (tick timeout t r).now < (tick timeout t r).deadline
unfolding tick
tick_armed timeout t r h = omega (arith, h.prompt)

module _ {S E : Type 0} (commands : CommandSender S E) where
  -- However long the stream is silent before each line, the idle timer never ends the loop: it
  -- is looked at only behind a line that has come, and by then it was reset. The loop reads
  -- every line and returns the error of the scanner. (The context is not done, and each line is
  -- worked on in less time than the timeout.)
  pub read_loop-silent :
      (rs : List Round) (timeout : ℕ) (t : Timer) (st : Frame × S) (prefers_idle : Bool)
      (last : StreamError)
      → All (IsPrompt timeout) rs
      → t.now < t.deadline
      → read_loop commands timeout t st rs false prefers_idle last
        ≡ ((read_lines commands st (lines_of rs)).1, last)
  unfolding read_loop read_lines
  read_loop-silent [] timeout t (f, s) prefers_idle last h armed =
      rw (poll_armed t prefers_idle armed, read_loop)
  read_loop-silent (r ∷ rs) timeout t (f, s) prefers_idle last (h, hs) armed =
      rw (poll_prompt timeout t r h armed, read_loop)
        (read_loop-silent rs timeout (tick timeout t r) (read_line commands (f, s) r.line)
          prefers_idle last hs (tick_armed timeout t r h))

-- A comment, `id:`, `retry:` or a line of no known form.
pub is_noise : Text → Bool
is_noise [] = false
is_noise (c ∷ cs) =
    not (has_prefix (c ∷ cs) (codes "event:")) && not (has_prefix (c ∷ cs) (codes "data:"))

pub drop_noise : List Text → List Text
drop_noise [] = []
drop_noise (l ∷ ls) = if is_noise l then drop_noise ls else l ∷ drop_noise ls

module _ {S E : Type 0} (commands : CommandSender S E) where
  read_line-noise : (st : Frame × S) (l : Text) → is_noise l ≡ true → read_line commands st l ≡ st
  unfolding read_line is_noise
  read_line-noise (f, s) [] h = cc
  read_line-noise (f, s) (c ∷ cs) h = ground arith

  -- Lines that are neither blank nor begin with "event:" or "data:" may stand anywhere: without
  -- them the listener sends the same commands and is left with the same frame.
  pub read_lines-drop_noise :
      (ls : List Text) (st : Frame × S)
      → read_lines commands st (drop_noise ls) ≡ read_lines commands st ls
  unfolding read_lines drop_noise
  read_lines-drop_noise [] st = refl
  read_lines-drop_noise (l ∷ ls) st = elim (Bool-cases (is_noise l)) [
    | inl noise ↦ rw (noise, read_line-noise st l noise) (read_lines-drop_noise ls st)
    | inr kept ↦ rw (kept, read_lines) (read_lines-drop_noise ls (read_line commands st l))
  ]
