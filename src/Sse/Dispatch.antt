-- ===== src/Sse/Dispatch.antt =====
-- `dispatch`, `send`, `wrappedValue` and the body of `readLoop` on one line.
pub mod Keeps
use teddycloud_spotify_radio.Base.{
  ℕ, Bool, true, false, List, [], ◌∷◌, ◌++◌, Option, none, some, if◌then◌else◌, Text, codes,
  text_eq, has_prefix, trim_prefix, trim_space,
}
use teddycloud_spotify_radio.Json.{raw_data, read_string}

-- The sink of the commands, over its state `S`; a command may return an error.
pub record CommandSender (S E : Type 0) : Type 0 where
  pub play : Text → S → S × Option E
  pub pause : S → S × Option E
  pub skip_next : S → S × Option E
  pub skip_prev : S → S × Option E

string_or : Text → Option Text → Text
string_or raw none = raw
string_or raw (some v) = v

value_of : Text → Option Text → Text
unfolding string_or
value_of s none = s
value_of s (some raw) = string_or raw (read_string raw)

unfoldable pub wrapped_value : Text → Text
unfolding value_of trim_space has_prefix
wrapped_value dat =
    let s = trim_space dat in if has_prefix s (codes "{") then value_of s (raw_data s) else s

-- The event being read: its name, and the data of its lines so far.
pub record Frame : Type 0 where
  pub event_name : Text
  pub buffer : Text

abbrev pub no_frame : Frame
no_frame = record { event_name = []; buffer = [] }

module _ {S E : Type 0} (commands : CommandSender S E) where
  -- The error of a command is logged and dropped.
  unfoldable pub send : (S → S × Option E) → S → S
  send f s = (f s).0

  dispatch_playback : Text → S → S
  unfolding send text_eq
  dispatch_playback value s = if text_eq value (codes "stopped") then send commands.pause s else s

  dispatch_knock : Text → S → S
  unfolding send text_eq
  dispatch_knock value s =
      if text_eq value (codes "forward")
      then send commands.skip_next s
      else if text_eq value (codes "backward")
      then send commands.skip_prev s
      else s

  unfoldable pub dispatch : Text → Text → S → S
  unfolding dispatch_playback dispatch_knock
  dispatch event_name dat s =
      if text_eq event_name (codes "TagValid")
      then send (commands.play []) s
      else if text_eq event_name (codes "playback")
      then dispatch_playback (wrapped_value dat) s
      else if text_eq event_name (codes "pressed")
      then s
      else if text_eq event_name (codes "knock")
      then dispatch_knock (wrapped_value dat) s
      else s

  -- A blank line sends the event, if it has a name, and starts a new one.
  flush_frame : Text → Text → S → S
  unfolding dispatch
  flush_frame [] buffer s = s
  flush_frame (c ∷ cs) buffer s = dispatch (c ∷ cs) buffer s

  field_line : Frame → Text → Frame
  unfolding has_prefix trim_prefix trim_space
  field_line f line =
      if has_prefix line (codes "event:")
      then record f { event_name = trim_space (trim_prefix line (codes "event:")) }
      else if has_prefix line (codes "data:")
      then record f { buffer = f.buffer ++ trim_space (trim_prefix line (codes "data:")) }
      else f

  -- One line of the stream.
  unfoldable pub read_line : Frame × S → Text → Frame × S
  unfolding flush_frame field_line
  read_line (f, s) [] = (no_frame, flush_frame f.event_name f.buffer s)
  read_line (f, s) (c ∷ cs) = (field_line f (c ∷ cs), s)

  unfoldable pub read_lines : Frame × S → List Text → Frame × S
  read_lines st [] = st
  read_lines st (l ∷ ls) = read_lines (read_line st l) ls
