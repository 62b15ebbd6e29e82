-- ===== src/Pulse/MonitorStream.antt =====
-- internal/audio/monitor.go: the recording of the monitor of the virtual sink. The answers of the client
-- library are inputs, and its sinks are given by their `ID`; the pipe is that of io. The reads of a
-- stream are an input of the recorder.
pub mod Handles
use teddycloud_spotify_radio.Base.{
  Bool, true, false, List, [], ◌∷◌, Option, none, some, if◌then◌else◌, Text,
}
use teddycloud_spotify_radio.Pulse.Sinks.{find_sink_by_name}

-- What the library answers: whether it connects, the sinks, and whether the recording is set up.
pub record Library : Type 0 where
  pub connects : Bool
  pub list_sinks : Option (List Text)
  pub records : Bool

pub data MonitorError : Type 0 where
  context_done connect_failed list_failed sink_missing record_failed : MonitorError

-- Which of them are open: the connection, the writer of the pipe, the recording; and whether `Close`
-- was used up.
pub record MonitorStream : Type 0 where
  pub client : Bool
  pub writer : Bool
  pub rec : Bool
  pub closed_once : Bool

abbrev pub nothing_open : MonitorStream
nothing_open = record { client = false; writer = false; rec = false; closed_once = false }

with_record : Library → MonitorStream → MonitorStream × Option MonitorError
with_record l m =
    let piped = record m { writer = true } in
    if l.records
    then (record piped { rec = true }, none)
    else (record piped { writer = false; client = false }, some record_failed)

with_sink : Library → Option Text → MonitorStream → MonitorStream × Option MonitorError
unfolding with_record
with_sink l none m = (record m { client = false }, some sink_missing)
with_sink l (some sink) m = with_record l m

with_sinks : Library → Option (List Text) → MonitorStream → MonitorStream × Option MonitorError
unfolding with_sink find_sink_by_name
with_sinks l none m = (record m { client = false }, some list_failed)
with_sinks l (some sinks) m = with_sink l (find_sink_by_name (λ id. id) sinks) m

-- `OpenMonitorStream`: what is open then, and the error.
unfoldable pub open_monitor_stream : Bool → Library → MonitorStream × Option MonitorError
unfolding with_sinks
open_monitor_stream ctx_done l =
    if ctx_done
    then (nothing_open, some context_done)
    else if l.connects
    then with_sinks l l.list_sinks (record nothing_open { client = true })
    else (nothing_open, some connect_failed)

-- `Close`.
unfoldable pub close : MonitorStream → MonitorStream
close m =
    if m.closed_once
    then m
    else record { client = false; writer = false; rec = false; closed_once = true }
