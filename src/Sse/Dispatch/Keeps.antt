-- ===== src/Sse/Dispatch/Keeps.antt =====
-- What every command keeps, the listener keeps.
use teddycloud_spotify_radio.Base.{
  Bool, true, false, List, [], ◌∷◌, String, Text, codes, text_eq, if◌then◌else◌,
}
use teddycloud_spotify_radio.Sse.Dispatch.{
  CommandSender, Frame, wrapped_value, dispatch, flush_frame, read_line, read_lines,
}

pub record Keeps {S E : Type 0} (commands : CommandSender S E) (P : S → Type 0) : Type 0 where
  pub by_play : (s : S) → P s → P (commands.play [] s).0
  pub by_pause : (s : S) → P s → P (commands.pause s).0
  pub by_next : (s : S) → P s → P (commands.skip_next s).0
  pub by_prev : (s : S) → P s → P (commands.skip_prev s).0

module _ {S E : Type 0} (commands : CommandSender S E) (P : S → Type 0)
    (keeps : Keeps commands P) where
  if_keeps : (b : Bool) {s t : S} → P s → P t → P (if b then s else t)
  if_keeps true h k = h
  if_keeps false h k = k

  dispatch-keeps : (name dat : Text) (s : S) → P s → P (dispatch commands name dat s)
  unfolding dispatch
  dispatch-keeps name dat s h = if_keeps (is name "TagValid") (keeps.by_play s h) (
      if_keeps (is name "playback") (if_keeps (is value "stopped") (keeps.by_pause s h) h) (
        if_keeps (is name "pressed") h (
          if_keeps (is name "knock")
            (if_keeps (is value "forward") (keeps.by_next s h)
              (if_keeps (is value "backward") (keeps.by_prev s h) h))
            h)))
    where
      is : Text → String → Bool
      is t literal = text_eq t (codes literal)

      value : Text
      value = wrapped_value dat

  flush_frame-keeps : (name buffer : Text) (s : S) → P s → P (flush_frame commands name buffer s)
  unfolding flush_frame
  flush_frame-keeps [] buffer s h = h
  flush_frame-keeps (c ∷ cs) buffer s h = dispatch-keeps (c ∷ cs) buffer s h

  read_line-keeps : (st : Frame × S) (l : Text) → P st.1 → P (read_line commands st l).1
  unfolding read_line
  read_line-keeps (f, s) [] h = flush_frame-keeps f.event_name f.buffer s h
  read_line-keeps (f, s) (c ∷ cs) h = h

  pub read_lines-keeps :
      (ls : List Text) (st : Frame × S) → P st.1 → P (read_lines commands st ls).1
  unfolding read_lines
  read_lines-keeps [] st h = h
  read_lines-keeps (l ∷ ls) st h =
      read_lines-keeps ls (read_line commands st l) (read_line-keeps st l h)
